-- ===== src/Debug/Run/Stops.antt =====
-- When `DebugSession.run` (src/sixfiveohtwo/debug.py) stops, and what it returns.
use python.Prelude.{
  ℕ, zero, suc, ◌+◌, ◌≤◌, ◌≡◌, ◌≢◌, refl, sym, ◌∙◌, ap, subst, Bool-cases, Option, Option-cases,
  none, some, List, [], ◌∷◌, ◌++◌, length, length-append, leb, maybe, maybe-eq, check-eq-some, inl,
  inr, arith,
}
use python.State.{CpuState}
use python.Debug.Access.{Access}
use python.Debug.Records.{StopReason, StepRecord, RunResult, make_result}
use python.Debug.Session.{DebugTarget, Session, debug_step, watch_hits}
use python.Debug.Session.History.{sum_cycles, count_instructions}
use python.Debug.Run.{
  RunLimits, no_tally, result, stop_before, stop_after, stopped_after, stopped_at_limit, run_loop,
  run_fits, debug_run,
}
use python.Debug.Run.Passed.{
  AtBreakpoint, AtHalt, AtCycleLimit, stop_before_lem, stop_after_lem, last_record_of, tally_of,
  tallied-tally_of, Goes, Passed, none_yet, one_more, Passed-captured,
}

-- What a run that made so many records returns.
unfoldable pub summary : StopReason → List StepRecord → CpuState → List Access → RunResult
unfolding last_record_of
summary reason rs state hits = record {
  reason = reason;
  steps = length rs;
  instructions = count_instructions rs;
  cycles = sum_cycles rs;
  state = state;
  last_record = last_record_of rs;
  hits = hits;
}

none≢some : {A : Type 0} {a : A} → none ≢ some a
none≢some e = cc

tally_of-last : (rs : List StepRecord) → (tally_of rs).last_record ≡ last_record_of rs
unfolding tally_of
tally_of-last rs = refl

nothing_done : no_tally ≡ tally_of []
unfolding tally_of sum_cycles count_instructions last_record_of
nothing_done = refl

module _ {T : Type 0} (t : DebugTarget T) (limits : RunLimits) where
  -- The runs from a session, what each returns, and the session that it leaves.
  pub data Runs (s : Session T) : RunResult → Session T → Type 0 where
    to_breakpoint :
        {rs : List StepRecord} {s' : Session T} (state : CpuState)
        → Passed t limits s rs s'
        → t.capture_state s'.target ≡ some state
        → AtBreakpoint s' state
        → Runs s (summary StopReason.breakpoint rs state []) s'
    to_halt :
        {rs : List StepRecord} {s' : Session T} (state : CpuState)
        → Passed t limits s rs s'
        → t.capture_state s'.target ≡ some state
        → ¬ AtBreakpoint s' state
        → AtHalt limits state
        → Runs s (summary StopReason.halted rs state []) s'
    to_watchpoint :
        {rs : List StepRecord} {s' : Session T} (r : StepRecord) (s'' : Session T)
        → Passed t limits s rs s'
        → Goes t limits s' r s''
        → watch_hits s'' r ≢ []
        → Runs s (summary StopReason.watchpoint (rs ++ r ∷ []) r.after (watch_hits s'' r)) s''
    to_cycle_limit :
        {rs : List StepRecord} {s' : Session T} (r : StepRecord) (s'' : Session T)
        → Passed t limits s rs s'
        → Goes t limits s' r s''
        → watch_hits s'' r ≡ []
        → AtCycleLimit limits (sum_cycles (rs ++ r ∷ []))
        → Runs s (summary StopReason.cycle_limit (rs ++ r ∷ []) r.after []) s''
    to_step_limit :
        {rs : List StepRecord} {s' : Session T} (state : CpuState)
        → Passed t limits s rs s'
        → t.capture_state s'.target ≡ some state
        → length rs ≡ limits.max_steps
        → Runs s (summary StopReason.step_limit rs state []) s'

  result-summary :
      (reason : StopReason) (rs : List StepRecord) (state : CpuState) (hits : List Access)
      {o : RunResult}
      → result reason (tally_of rs) state hits ≡ some o
      → summary reason rs state hits ≡ o
  unfolding result make_result tally_of summary
  result-summary reason rs state hits e =
      let made = summary reason rs state hits in
      let (_, same) = check-eq-some (leb made.instructions made.steps) (some made) e in cc same

  stopped_at_limit-Runs :
      (s s' : Session T) (rs : List StepRecord) {o : RunResult}
      → Passed t limits s rs s'
      → length rs ≡ limits.max_steps
      → stopped_at_limit t limits s' (tally_of rs) ≡ some o
      → Runs s o s' × (o.steps ≤ limits.max_steps)
  unfolding stopped_at_limit summary
  stopped_at_limit-Runs s s' rs {o} p l e = elim (maybe-eq _ _ (tally_of rs).last_record e) [
    | inr (r, k, done) ↦
        subst (λ o. Runs s o s' × (o.steps ≤ limits.max_steps))
          (result-summary StopReason.step_limit rs r.after [] done)
          (
            to_step_limit r.after p (Passed-captured t limits p (sym (tally_of-last rs) ∙ k)) l,
            omega (arith, l),
          )
    | inl (_, other) ↦ elim (maybe-eq _ _ (t.capture_state s'.target) other) [
      | inl (_, raised) ↦ absurd (none≢some raised)
      | inr (state, c, done) ↦
          subst (λ o. Runs s o s' × (o.steps ≤ limits.max_steps))
            (result-summary StopReason.step_limit rs state [] done)
            (to_step_limit state p c l, omega (arith, l))
    ]
  ]

  stopped_after-Runs :
      (s s' s'' : Session T) (rs : List StepRecord) (r : StepRecord) (reason : StopReason)
      {o : RunResult}
      → Passed t limits s rs s'
      → Goes t limits s' r s''
      → stop_after limits s'' r (tally_of (rs ++ r ∷ [])) ≡ some reason
      → length (rs ++ r ∷ []) ≤ limits.max_steps
      → stopped_after reason s'' r (tally_of (rs ++ r ∷ [])) ≡ some o
      → Runs s o s'' × (o.steps ≤ limits.max_steps)
  unfolding stopped_after tally_of summary
  stopped_after-Runs s s' s'' rs r reason {o} p g stop l e =
      let made = result-summary reason (rs ++ r ∷ []) r.after (watch_hits s'' r) e in
      elim (stop_after_lem limits s'' r (tally_of (rs ++ r ∷ []))) [
        | inl (n, _, _) ↦ absurd (none≢some (sym n ∙ stop))
        | inr (inl (n, h)) ↦
            let same : StopReason.watchpoint ≡ reason = cc (sym n ∙ stop) in
            subst (λ o. Runs s o s'' × (o.steps ≤ limits.max_steps))
              (ap (λ w. summary w (rs ++ r ∷ []) r.after (watch_hits s'' r)) same ∙ made)
              (to_watchpoint r s'' p g h, l)
        | inr (inr (n, h, c)) ↦
            let same : StopReason.cycle_limit ≡ reason = cc (sym n ∙ stop) in
            subst (λ o. Runs s o s'' × (o.steps ≤ limits.max_steps))
              (ap (λ w. summary StopReason.cycle_limit (rs ++ r ∷ []) r.after w) (sym h)
                ∙ ap (λ w. summary w (rs ++ r ∷ []) r.after (watch_hits s'' r)) same
                ∙ made)
              (to_cycle_limit r s'' p g h c, l)
      ]

  stopped_before-Runs :
      (s s' : Session T) (rs : List StepRecord) (state : CpuState) (reason : StopReason)
      {o : RunResult}
      → Passed t limits s rs s'
      → t.capture_state s'.target ≡ some state
      → stop_before limits s' state ≡ some reason
      → length rs ≤ limits.max_steps
      → result reason (tally_of rs) state [] ≡ some o
      → Runs s o s' × (o.steps ≤ limits.max_steps)
  unfolding summary
  stopped_before-Runs s s' rs state reason {o} p k stop l e =
      let made = result-summary reason rs state [] e in
      elim (stop_before_lem limits s' state) [
        | inl (n, _, _) ↦ absurd (none≢some (sym n ∙ stop))
        | inr (inl (n, b)) ↦
            let same : StopReason.breakpoint ≡ reason = cc (sym n ∙ stop) in
            subst (λ o. Runs s o s' × (o.steps ≤ limits.max_steps))
              (ap (λ w. summary w rs state []) same ∙ made) (to_breakpoint state p k b, l)
        | inr (inr (n, b, h)) ↦
            let same : StopReason.halted ≡ reason = cc (sym n ∙ stop) in
            subst (λ o. Runs s o s' × (o.steps ≤ limits.max_steps))
              (ap (λ w. summary w rs state []) same ∙ made) (to_halt state p k b h, l)
      ]

  goes :
      (s s' : Session T) (r : StepRecord) (state : CpuState)
      → t.capture_state s.target ≡ some state
      → stop_before limits s state ≡ none
      → debug_step t s ≡ (some r, s')
      → Goes t limits s r s'
  goes s s' r state k b e = elim (stop_before_lem limits s state) [
    | inl (_, m, h) ↦ record {
      state = state;
      captured = k;
      no_breakpoint = m;
      no_halt = h;
      step_eq = e;
    }
    | inr (inl (n, _)) ↦ absurd (none≢some (sym b ∙ n))
    | inr (inr (n, _, _)) ↦ absurd (none≢some (sym b ∙ n))
  ]

  not_after :
      (s : Session T) (r : StepRecord) (rs : List StepRecord)
      → stop_after limits s r (tally_of (rs ++ r ∷ [])) ≡ none
      → (watch_hits s r ≡ []) × (¬ AtCycleLimit limits (sum_cycles (rs ++ r ∷ [])))
  unfolding tally_of
  not_after s r rs a = elim (stop_after_lem limits s r (tally_of (rs ++ r ∷ []))) [
    | inl (_, quiet, below) ↦ (quiet, below)
    | inr (inl (n, _)) ↦ absurd (none≢some (sym a ∙ n))
    | inr (inr (n, _, _)) ↦ absurd (none≢some (sym a ∙ n))
  ]

  run_loop-Runs :
      (left : ℕ) (s s' s'' : Session T) (rs : List StepRecord) {o : RunResult}
      → Passed t limits s rs s'
      → left + length rs ≡ limits.max_steps
      → run_loop t limits left (tally_of rs) s' ≡ (some o, s'')
      → Runs s o s'' × (o.steps ≤ limits.max_steps)
  unfolding run_loop
  run_loop-Runs zero s s' s'' rs {o} p l e =
      subst (λ y. Runs s o y × (o.steps ≤ limits.max_steps)) (ap (λ x. x.1) e)
        (stopped_at_limit-Runs s s' rs p (omega (arith, l)) (ap (λ x. x.0) e))
  run_loop-Runs (suc left) s s' s'' rs {o} p l e = elim (Option-cases (t.capture_state s'.target)) [
    | inl n ↦ absurd (raised (rw (n, run_loop) at e))
    | inr (state, k) ↦ elim (Option-cases (stop_before limits s' state)) [
      | inr (reason, b) ↦
          let stop = rw b at (rw (k, run_loop) at e) in
          subst (λ y. Runs s o y × (o.steps ≤ limits.max_steps)) (ap (λ x. x.1) stop)
            (stopped_before-Runs s s' rs state reason p k b (omega (arith, l)) (ap (λ x. x.0) stop))
      | inl b ↦ elim (Option-cases (debug_step t s').0) [
        | inl n ↦ absurd (raised (rw n at (rw b at (rw (k, run_loop) at e))))
        | inr (r, d) ↦
            let s1 = (debug_step t s').1 in
            let onwards =
              subst
                (λ y.
                  maybe (run_loop t limits left y s1) (λ w. (stopped_after w s1 r y, s1))
                    (stop_after limits s1 r y)
                  ≡ (some o, s''))
                (tallied-tally_of rs r) (rw d at (rw b at (rw (k, run_loop) at e))) in
            let g : Goes t limits s' r s1 = goes s' s1 r state k b (ap (λ x. (x, s1)) d) in
            elim (Option-cases (stop_after limits s1 r (tally_of (rs ++ r ∷ [])))) [
              | inr (reason, a) ↦
                  let stop = rw a at onwards in
                  subst (λ y. Runs s o y × (o.steps ≤ limits.max_steps)) (ap (λ x. x.1) stop)
                    (stopped_after-Runs s s' s1 rs r reason p g a
                      (omega (arith, l, length-append rs (r ∷ []))) (ap (λ x. x.0) stop))
              | inl a ↦
                  let (quiet, below) = not_after s1 r rs a in
                  run_loop-Runs left s s1 s'' (rs ++ r ∷ []) (one_more r s1 p g quiet below)
                    (omega (arith, l, length-append rs (r ∷ []))) (rw a at onwards)
            ]
      ]
    ]
  ]
    where
      raised :
          {x y : Session T} {o : RunResult}
          → ◌≢◌ {A = Option RunResult × Session T} (none, x) (some o, y)
      raised e = cc

  -- A run that returns its result stopped at the first of its stops, and at no earlier one: before an
  -- instruction at a breakpoint or a halted cycle, after a step that touched a watched byte or
  -- reached the cycle limit, or at its number of steps. Its counts are those of the records of
  -- its steps, and it never makes more steps than it may.
  pub debug_run-Runs :
      (s s' : Session T) (o : RunResult)
      → debug_run t limits s ≡ (some o, s')
      → Runs s o s' × (o.steps ≤ limits.max_steps)
  unfolding debug_run
  debug_run-Runs s s' o e = elim (Bool-cases (run_fits limits)) [
    | inl f ↦
        run_loop-Runs limits.max_steps s s s' [] none_yet (omega arith)
          (ap (λ y. run_loop t limits limits.max_steps y s) (sym nothing_done) ∙ (rw f at e))
    | inr f ↦ absurd (none≢some (ap (λ x. x.0) (rw f at e)))
  ]
