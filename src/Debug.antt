-- ===== src/Debug.antt =====
-- src/sixfiveohtwo/debug.py: bus-access tracking, and what the next step will do.
pub mod Access
pub mod Tracking
pub mod Reset
pub mod Entry
pub mod Jumps
pub mod Boundary
pub mod Records
pub mod Session
pub mod Run
