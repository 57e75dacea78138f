-- ===== src/Debug/Run/Totals.antt =====
-- The totals of a session after a run (src/sixfiveohtwo/debug.py).
use python.Prelude.{
  ℕ, ◌+◌, ◌≡◌, refl, sym, subst, some, List, [], ◌∷◌, ◌++◌, length, length-append, Bool, true,
  false, if◌then◌else◌, arith,
}
use python.Debug.Records.{StepRecord, RunResult, is_instruction}
use python.Debug.Session.{DebugTarget, Session, counted}
use python.Debug.Session.Steps.{debug_step-IsStep}
use python.Debug.Session.History.{sum_cycles, count_instructions, sum_cycles-append}
use python.Debug.Session.Log.{counted_instructions}
use python.Debug.Run.{RunLimits, debug_run}
use python.Debug.Run.Passed.{Goes, Passed, none_yet, one_more}
use python.Debug.Run.Stops.{
  summary, Runs, to_breakpoint, to_halt, to_watchpoint, to_cycle_limit, to_step_limit,
  debug_run-Runs,
}

-- The session's totals have gone up by those of the records.
pub record Counts {T : Type 0} (s s' : Session T) (steps instructions cycles : ℕ) : Type 0 where
  pub steps_up : s'.total_steps ≡ s.total_steps + steps
  pub instructions_up : s'.total_instructions ≡ s.total_instructions + instructions
  pub cycles_up : s'.total_cycles ≡ s.total_cycles + cycles
  pub breakpoints_same : s'.breakpoints ≡ s.breakpoints
  pub watchpoints_same : s'.watchpoints ≡ s.watchpoints

module _ {T : Type 0} (t : DebugTarget T) (limits : RunLimits) where
  Goes-Counts :
      (s s' s'' : Session T) (rs : List StepRecord) (r : StepRecord)
      → Counts s s' (length rs) (count_instructions rs) (sum_cycles rs)
      → Goes t limits s' r s''
      → Counts s s''
          (length (rs ++ r ∷ []))
          (count_instructions (rs ++ r ∷ []))
          (sum_cycles (rs ++ r ∷ []))
  unfolding counted sum_cycles
  Goes-Counts s s' s'' rs r c g =
      let d = debug_step-IsStep t s' s'' (g.step_eq) in
      subst
        (λ y.
          Counts s y (length (rs ++ r ∷ [])) (count_instructions (rs ++ r ∷ []))
            (sum_cycles (rs ++ r ∷ [])))
        (sym (d.session_eq))
        (record {
          steps_up = omega (arith, c.steps_up, length-append rs (r ∷ []));
          instructions_up =
              one_counted (is_instruction r.kind) _ _ _ _ (c.instructions_up)
                (counted_instructions rs r);
          cycles_up = omega (arith, c.cycles_up, sum_cycles-append rs (r ∷ []));
          breakpoints_same = c.breakpoints_same;
          watchpoints_same = c.watchpoints_same;
        })
    where
      one_counted :
          (b : Bool) (i i' n n' : ℕ)
          → i' ≡ i + n
          → (if b then n + 1 else n) ≡ n'
          → (if b then i' + 1 else i') ≡ i + n'
      one_counted true i i' n n' e f = omega (arith, e, f)
      one_counted false i i' n n' e f = omega (arith, e, f)

  Passed-Counts :
      {s s' : Session T} {rs : List StepRecord}
      → Passed t limits s rs s'
      → Counts s s' (length rs) (count_instructions rs) (sum_cycles rs)
  unfolding sum_cycles count_instructions
  Passed-Counts none_yet = record {
    steps_up = omega arith;
    instructions_up = omega arith;
    cycles_up = omega arith;
    breakpoints_same = refl;
    watchpoints_same = refl;
  }
  Passed-Counts (one_more {rs} {s'} r s'' p g _ _) = Goes-Counts _ s' s'' rs r (Passed-Counts p) g

  Runs-Counts :
      {s s' : Session T} {o : RunResult}
      → Runs t limits s o s'
      → Counts s s' o.steps o.instructions o.cycles
  unfolding summary
  Runs-Counts (to_breakpoint _ p _ _) = Passed-Counts p
  Runs-Counts (to_halt _ p _ _ _) = Passed-Counts p
  Runs-Counts (to_watchpoint {rs} {s'} r s'' p g _) = Goes-Counts _ s' s'' rs r (Passed-Counts p) g
  Runs-Counts (to_cycle_limit {rs} {s'} r s'' p g _ _) =
      Goes-Counts _ s' s'' rs r (Passed-Counts p) g
  Runs-Counts (to_step_limit _ p _ _) = Passed-Counts p

  -- A run that returns has added its counts to the session's totals, and has left the breakpoints and
  -- the watchpoints.
  pub debug_run-totals :
      (s s' : Session T) (o : RunResult)
      → debug_run t limits s ≡ (some o, s')
      → Counts s s' o.steps o.instructions o.cycles
  debug_run-totals s s' o e = Runs-Counts (debug_run-Runs t limits s s' o e).0
