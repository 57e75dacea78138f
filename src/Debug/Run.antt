-- ===== src/Debug/Run.antt =====
-- src/sixfiveohtwo/debug.py: `DebugSession.run`.
pub mod Passed
pub mod Stops
pub mod Returns
pub mod Totals
use python.Prelude.{
  ℕ, zero, suc, ◌+◌, Bool, true, false, Option, none, some, List, [], ◌∷◌, ◌&&◌, ltb, leb, check,
  maybe, if◌then◌else◌,
}
use python.State.{CpuState}
use python.Debug.Access.{Access}
use python.Debug.Boundary.{next_boundary}
use python.Debug.Records.{StopReason, StepRecord, is_instruction, is_halted, RunResult, make_result}
use python.Debug.Session.{DebugTarget, Session, member, debug_step, watch_hits}

-- The arguments of a run.
pub record RunLimits : Type 0 where
  pub max_steps : ℕ
  pub max_cycles : Option ℕ
  pub stop_on_halt : Bool

-- The local variables of a run.
pub record Tally : Type 0 where
  pub steps : ℕ
  pub instructions : ℕ
  pub cycles : ℕ
  pub last_record : Option StepRecord

abbrev pub no_tally : Tally
no_tally = record { steps = 0; instructions = 0; cycles = 0; last_record = none }

unfoldable pub tallied : Tally → StepRecord → Tally
unfolding is_instruction
tallied tally r = record {
  steps = tally.steps + 1;
  instructions = if is_instruction r.kind then tally.instructions + 1 else tally.instructions;
  cycles = tally.cycles + r.cycles;
  last_record = some r;
}

unfoldable pub result : StopReason → Tally → CpuState → List Access → Option RunResult
unfolding make_result
result reason tally state hits = make_result (record {
  reason = reason;
  steps = tally.steps;
  instructions = tally.instructions;
  cycles = tally.cycles;
  state = state;
  last_record = tally.last_record;
  hits = hits;
})

-- What is returned after the step that stops a run.
unfoldable pub stopped_after :
    {T : Type 0} → StopReason → Session T → StepRecord → Tally → Option RunResult
unfolding watch_hits
stopped_after reason s r tally = result reason tally r.after (watch_hits s r)

-- The tests of the arguments.
unfoldable pub run_fits : RunLimits → Bool
run_fits limits = ltb 0 limits.max_steps && maybe true (λ limit. ltb 0 limit) limits.max_cycles

module _ {T : Type 0} (limits : RunLimits) where
  -- Whether a run stops before the step from a state, and why.
  unfoldable pub stop_before : Session T → CpuState → Option StopReason
  unfolding member is_instruction is_halted
  stop_before s state =
      if is_instruction (next_boundary state) && member state.pc s.breakpoints
      then some StopReason.breakpoint
      else if limits.stop_on_halt && is_halted (next_boundary state)
      then some StopReason.halted
      else none

  -- Whether a run stops after a step, and why; `tally` counts the step.
  unfoldable pub stop_after : Session T → StepRecord → Tally → Option StopReason
  unfolding watch_hits
  stop_after s r tally = elim (watch_hits s r) [
    | _ ∷ _ ↦ some StopReason.watchpoint
    | [] ↦
        maybe none (λ limit. if leb limit tally.cycles then some StopReason.cycle_limit else none)
          limits.max_cycles
  ]

module _ {T : Type 0} (t : DebugTarget T) (limits : RunLimits) where
  -- What is returned when the steps have run out.
  unfoldable pub stopped_at_limit : Session T → Tally → Option RunResult
  stopped_at_limit s tally =
      maybe
        (maybe none (λ state. result StopReason.step_limit tally state [])
          (t.capture_state s.target))
        (λ r. result StopReason.step_limit tally r.after []) tally.last_record

  -- The loop, with so many steps left.
  unfoldable pub run_loop : ℕ → Tally → Session T → Option RunResult × Session T
  unfolding stop_before stop_after stopped_after stopped_at_limit debug_step tallied
  run_loop zero tally s = (stopped_at_limit s tally, s)
  run_loop (suc left) tally s = elim (t.capture_state s.target) [
    | none ↦ (none, s)
    | some state ↦ elim (stop_before limits s state) [
      | some reason ↦ (result reason tally state [], s)
      | none ↦
          let (outcome, s') = debug_step t s in
          elim outcome [
            | none ↦ (none, s')
            | some r ↦
                let tally' = tallied tally r in
                elim (stop_after limits s' r tally') [
                  | some reason ↦ (stopped_after reason s' r tally', s')
                  | none ↦ run_loop left tally' s'
                ]
          ]
    ]
  ]

  -- `run`
  unfoldable pub debug_run : Session T → Option RunResult × Session T
  unfolding run_fits run_loop
  debug_run s = if run_fits limits then run_loop limits.max_steps no_tally s else (none, s)
