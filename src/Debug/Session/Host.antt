-- ===== src/Debug/Session/Host.antt =====
-- The 6502 core on a host as the target of a `DebugSession` (src/sixfiveohtwo/debug.py).
use python.Prelude.{◌≤◌, ◌≡◌, refl, sym, ◌∙◌, true, some, List, [], ◌∷◌, length, All, arith}
use python.Cpu.{Cpu, Bus, run}
use python.Step.{step}
use python.Step.Cycles.{IsReady}
use python.State.{state_of, capture_state}
use python.State.Roundtrip.{capture_state-IsSafe}
use python.Debug.Access.{Access, valid_access, tracked}
use python.Debug.Tracking.{step_accesses}
use python.Debug.Records.{StepRecord, RunResult, all_valid}
use python.Debug.Session.{DebugTarget, Session, debug_step}
use python.Debug.Session.Steps.{IsTarget, Peeks, debug_step-IsStep}
use python.Debug.Run.{RunLimits, run_fits, debug_run}
use python.Debug.Run.Returns.{debug_run-some}

-- A CPU and its host; a step runs on the tracked bus, whose log is empty before it.
unfoldable pub core_target : {H : Type 0} → Bus H → DebugTarget (Cpu × H)
unfolding run
core_target bus = record {
  step = λ x.
      let (cycles, c, (h, log)) = run (tracked bus) step x.0 (x.1, []) in (cycles, log, (c, h));
  capture_state = λ x. capture_state x.0;
}

all_valid_lem : (log : List Access) → All (λ x. valid_access x ≡ true) log → all_valid log ≡ true
unfolding all_valid
all_valid_lem [] h = refl
all_valid_lem (x ∷ xs) h = ground (arith, h.0, all_valid_lem xs (h.1))

-- A CPU between steps, with its attributes in range.
abbrev pub CoreReady : {H : Type 0} → Cpu × H → Type 0
CoreReady x = IsReady x.0

pub core_target-IsTarget : {H : Type 0} (bus : Bus H) → IsTarget (core_target bus) CoreReady
unfolding core_target state_of
core_target-IsTarget bus = record {
  captures = λ x r. (state_of x.0, capture_state-IsSafe x.0 (r.safe), r.safe.pc_fits);
  takes_cycles = λ x r. (step_accesses bus x.0 x.1 r).2;
  makes_valid = λ x r. all_valid_lem _ (step_accesses bus x.0 x.1 r).3;
  steps_on = λ x r. (step_accesses bus x.0 x.1 r).0;
}

-- A session that tracks accesses, over a CPU in range on any host: the record of a step holds one
-- access for each cycle that it counts.
pub core_record_accesses :
    {H : Type 0} (bus : Bus H) (s s' : Session (Cpu × H)) (r : StepRecord)
    → CoreReady s.target
    → s.tracking ≡ true
    → debug_step (core_target bus) s ≡ (some r, s')
    → (log : List Access) × (r.accesses ≡ some log) × (length log ≡ r.cycles) × (1 ≤ r.cycles)
unfolding core_target
core_record_accesses bus s s' r ready tracking e =
    let d = debug_step-IsStep (core_target bus) s s' e in
    let (_, counted, positive, _) = step_accesses bus s.target.0 s.target.1 ready in
    (
      _,
      d.accesses_eq ∙ rw tracking refl,
      counted ∙ sym (d.cycles_eq),
      omega (arith, positive, d.cycles_eq),
    )

-- Over a CPU in range on any host, with limits that fit and a `peek_byte` that is total or absent, `run`
-- always returns.
pub core_run-some :
    {H : Type 0} (bus : Bus H) (limits : RunLimits) (s : Session (Cpu × H))
    → run_fits limits ≡ true
    → CoreReady s.target
    → Peeks s
    → (o : RunResult) × (s' : Session (Cpu × H)) × (debug_run (core_target bus) limits s
        ≡ (some o, s'))
      × CoreReady s'.target
core_run-some bus limits s f ready p =
    debug_run-some (core_target bus) limits CoreReady (core_target-IsTarget bus) s f ready p
