-- ===== src/Console.antt =====
-- src/sixfiveohtwo/console.py: the command debugger. Texts are ASCII; `shlex.split` has already split a
-- command into words.
pub mod Numbers
pub mod Format
pub mod Commands
pub mod Views
pub mod Over
pub mod Works
pub mod Keeps
pub mod Refusals
pub mod Execute
