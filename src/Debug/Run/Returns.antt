-- ===== src/Debug/Run/Returns.antt =====
-- `DebugSession.run` (src/sixfiveohtwo/debug.py) returns.
use python.Prelude.{
  ℕ, zero, suc, ◌≤◌, ◌≡◌, ◌∙◌, ap, Bool-cases, true, Option, Option-cases, none, some, List, [],
  leb, check-some, maybe, inl, inr, arith,
}
use python.State.{CpuState}
use python.Debug.Access.{Access}
use python.Debug.Records.{StopReason, StepRecord, is_instruction, RunResult, make_result}
use python.Debug.Session.{DebugTarget, Session, debug_step, watch_hits}
use python.Debug.Session.Steps.{IsTarget, Peeks, debug_step-some}
use python.Debug.Run.{
  RunLimits, Tally, no_tally, tallied, result, stop_before, stop_after, stopped_after,
  stopped_at_limit, run_loop, run_fits, debug_run,
}

-- The counts of a run fit in a result.
result-some :
    (reason : StopReason) (tally : Tally) (state : CpuState) (hits : List Access)
    → tally.instructions ≤ tally.steps
    → (o : RunResult) × (result reason tally state hits ≡ some o)
unfolding result make_result
result-some reason tally state hits h = (_, check-some _ _ (fits tally.instructions tally.steps h))
  where
    fits : (a b : ℕ) → a ≤ b → leb a b ≡ true
    fits a b h = ground arith

tallied_fits :
    (tally : Tally) (r : StepRecord)
    → tally.instructions ≤ tally.steps
    → (tallied tally r).instructions ≤ (tallied tally r).steps
unfolding tallied
tallied_fits tally r h = elim (Bool-cases (is_instruction r.kind)) [
  | inl e ↦ rw e (omega (arith, h))
  | inr e ↦ rw e (omega (arith, h))
]

stopped_after-some :
    {T : Type 0} (reason : StopReason) (s : Session T) (r : StepRecord) (tally : Tally)
    → tally.instructions ≤ tally.steps
    → (o : RunResult) × (stopped_after reason s r tally ≡ some o)
unfolding stopped_after
stopped_after-some reason s r tally h = result-some reason tally r.after (watch_hits s r) h

module _ {T : Type 0} (t : DebugTarget T) (limits : RunLimits) (Ready : T → Type 0)
    (target : IsTarget t Ready) where
  stopped_at_limit-some :
      (s : Session T) (tally : Tally)
      → Ready s.target
      → tally.instructions ≤ tally.steps
      → (o : RunResult) × (stopped_at_limit t limits s tally ≡ some o)
  unfolding stopped_at_limit
  stopped_at_limit-some s tally ready h = elim (Option-cases tally.last_record) [
    | inr (r, e) ↦
        let (o, made) = result-some StopReason.step_limit tally r.after [] h in
        (o, ap (maybe _ _) e ∙ made)
    | inl e ↦
        let (state, captured, _) = target.captures s.target ready in
        let (o, made) = result-some StopReason.step_limit tally state [] h in
        (o, ap (maybe _ _) e ∙ ap (maybe none _) captured ∙ made)
  ]

  -- One round of the loop that is not stopped before its step.
  run_loop-step :
      (left : ℕ) (tally : Tally) (s s1 : Session T) (state : CpuState) (r : StepRecord)
      → t.capture_state s.target ≡ some state
      → stop_before limits s state ≡ none
      → debug_step t s ≡ (some r, s1)
      → run_loop t limits (suc left) tally s
        ≡ maybe
            (run_loop t limits left (tallied tally r) s1)
            (λ w. (stopped_after w s1 r (tallied tally r), s1))
            (stop_after limits s1 r (tallied tally r))
  unfolding run_loop
  run_loop-step left tally s s1 state r captured b d = rw (captured, run_loop) (rw b (ap after d))
    where
      after : Option StepRecord × Session T → Option RunResult × Session T
      after (outcome, y) = elim outcome [
        | none ↦ (none, y)
        | some x ↦ elim (stop_after limits y x (tallied tally x)) [
          | some w ↦ (stopped_after w y x (tallied tally x), y)
          | none ↦ run_loop t limits left (tallied tally x) y
        ]
      ]

  run_loop-some :
      (left : ℕ) (tally : Tally) (s : Session T)
      → Ready s.target
      → Peeks s
      → tally.instructions ≤ tally.steps
      → (o : RunResult) × (s' : Session T) × (run_loop t limits left tally s ≡ (some o, s'))
        × Ready s'.target
        × Peeks s'
  unfolding run_loop
  run_loop-some zero tally s ready p h =
      let (o, e) = stopped_at_limit-some s tally ready h in (o, s, ap (λ x. (x, s)) e, ready, p)
  run_loop-some (suc left) tally s ready p h =
      let (state, captured, _) = target.captures s.target ready in
      elim (Option-cases (stop_before limits s state)) [
        | inr (reason, b) ↦
            let (o, e) = result-some reason tally state [] h in
            (o, s, rw (captured, run_loop) (rw b (ap (λ x. (x, s)) e)), ready, p)
        | inl b ↦
            let (r, s1, d, ready1, p1) = debug_step-some t Ready target s ready p in
            let round = run_loop-step left tally s s1 state r captured b d in
            elim (Option-cases (stop_after limits s1 r (tallied tally r))) [
              | inr (reason, a) ↦
                  let (o, e) =
                    stopped_after-some reason s1 r (tallied tally r) (tallied_fits tally r h) in
                  (o, s1, round ∙ ap (maybe _ _) a ∙ ap (λ x. (x, s1)) e, ready1, p1)
              | inl a ↦
                  let (o, s', e, ready', p') =
                    run_loop-some left (tallied tally r) s1 ready1 p1 (tallied_fits tally r h) in
                  (o, s', round ∙ ap (maybe _ _) a ∙ e, ready', p')
            ]
      ]

  -- The result of a run, after which the session can run on.
  pub debug_run-keeps :
      (s : Session T)
      → run_fits limits ≡ true
      → Ready s.target
      → Peeks s
      → (o : RunResult) × (s' : Session T) × (debug_run t limits s ≡ (some o, s'))
        × Ready s'.target
        × Peeks s'
  unfolding debug_run
  debug_run-keeps s f ready p =
      let (o, s', e, ready', p') =
        run_loop-some limits.max_steps no_tally s ready p (omega arith) in
      (o, s', rw f e, ready', p')

  -- A run with limits that fit, of a target that can be stepped and captured, always returns a
  -- result: it neither raises nor fails to end, and leaves the target such that it can be run again.
  pub debug_run-some :
      (s : Session T)
      → run_fits limits ≡ true
      → Ready s.target
      → Peeks s
      → (o : RunResult) × (s' : Session T) × (debug_run t limits s ≡ (some o, s')) × Ready s'.target
  debug_run-some s f ready p =
      let (o, s', e, ready', _) = debug_run-keeps s f ready p in (o, s', e, ready')
