-- ===== src/Step/Polls.antt =====
-- A request that a bus callback makes in an instruction's last cycle comes after its interrupt poll
-- (src/sixfiveohtwo/frame.py, `_request` and the end of `step`).
use python.Prelude.{ℕ, ◌≡◌, Bool, true, false, Option, none, List, maybe}
use python.Frame.{Frame, Call}
use python.Cpu.{Cpu, ret, ◌>>=◌, Action, read, write, Bus}

-- Every call but `note_stall`.
abbrev pub no_stall : Call → Bool
no_stall Call.stall = false
no_stall _ = true

-- The requests as they stood at the last access, when nothing else is remembered.
record Waits (requests : ℕ) (polled_i : Option ℕ) (f : Frame) : Type 0 where
  waits : maybe f.requests (λ v. v) f.deferred ≡ requests
  no_memory : f.polled ≡ none
  same_i : f.polled_i ≡ polled_i

-- A bus cycle: a read, or a write of a value.
pub data Cycle : Type 0 where
  reads : ℕ → Cycle
  writes : ℕ → ℕ → Cycle

abbrev pub cycle : Cycle → Action
cycle (Cycle.reads address) = read address >>= λ _. ret tt
cycle (Cycle.writes address value) = write address value

-- The calls that a host makes from inside a cycle.
abbrev pub calls_in : {H : Type 0} → Bus H → Cycle → H → List Call
calls_in bus (Cycle.reads address) h = (bus.read_byte address h).1
calls_in bus (Cycle.writes address value) h = (bus.write_byte address value h).0

-- No poll is remembered, and where a change waits for its confirmation, the next access confirms it, be it a
-- read or a write.
pub record Polls (polled_i : Option ℕ) (f : Frame) : Type 0 where
  pub nothing : f.polled ≡ none
  pub kept_i : f.polled_i ≡ polled_i
  pub read_confirms : maybe true (λ _. f.read_confirming) f.deferred ≡ true
  pub write_confirms : maybe true (λ _. f.write_confirming) f.deferred ≡ true
