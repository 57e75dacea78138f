-- ===== src/Debug/Records.antt =====
-- src/sixfiveohtwo/debug.py: the records of a session, with the tests of their constructors. `none`
-- is the ValueError.
use python.Prelude.{
  ℕ, Bool, true, false, Option, some, List, [], ◌∷◌, ◌&&◌, ◌||◌, leb, ltb, check, maybe,
}
use python.State.{CpuState}
use python.Disasm.{Instruction}
use python.Debug.Access.{Access, valid_access}
use python.Debug.Boundary.{BoundaryKind}

pub data StopReason : Type 0 where
  breakpoint watchpoint halted step_limit cycle_limit : StopReason

pub record StepRecord : Type 0 where
  pub sequence : ℕ
  pub kind : BoundaryKind
  pub before : CpuState
  pub after : CpuState
  pub cycles : ℕ
  pub instruction : Option Instruction
  pub accesses : Option (List Access)

-- `kind is instruction_kind`
unfoldable pub is_instruction : BoundaryKind → Bool
is_instruction BoundaryKind.instruction_kind = true
is_instruction _ = false

-- `kind in halted_kinds`
unfoldable pub is_halted : BoundaryKind → Bool
is_halted BoundaryKind.jam_idle = true
is_halted _ = false

unfoldable pub all_valid : List Access → Bool
unfolding valid_access
all_valid [] = true
all_valid (access ∷ rest) = valid_access access && all_valid rest

-- The tests of `StepRecord.__post_init__` that the types do not make.
unfoldable pub record_fits : StepRecord → Bool
unfolding is_instruction all_valid
record_fits r =
    ltb 0 r.cycles
    && (is_instruction r.kind || maybe true (λ _. false) r.instruction)
    && maybe true all_valid r.accesses

unfoldable pub make_record : StepRecord → Option StepRecord
unfolding record_fits
make_record r = check (record_fits r) (some r)

pub record RunResult : Type 0 where
  pub reason : StopReason
  pub steps : ℕ
  pub instructions : ℕ
  pub cycles : ℕ
  pub state : CpuState
  pub last_record : Option StepRecord
  pub hits : List Access

-- The test of `RunResult.__post_init__` that the types do not make.
unfoldable pub make_result : RunResult → Option RunResult
make_result r = check (leb r.instructions r.steps) (some r)
