-- ===== src/Debug/Session/Log.antt =====
-- What a session of src/sixfiveohtwo/debug.py keeps of the log of its records.
use python.Prelude.{
  ℕ, zero, suc, ◌+◌, ◌≤◌, ◌≡◌, refl, sym, ◌∙◌, ap, subst, Bool, Bool-cases, true, false, Option,
  Option-cases, none, some, List, [], ◌∷◌, ◌++◌, length, length-append, ltb, bind, check, maybe,
  inl, inr, if◌then◌else◌, arith,
}
use python.Debug.Run.{RunLimits, no_tally, run_loop, run_fits, debug_run}
use python.Disasm.{Reader}
use python.Debug.Records.{StepRecord, is_instruction}
use python.Debug.Session.{
  DebugTarget, Session, init_session, append_bounded, counted, advance, shown, validate_address,
  member, discard, watch_kind, set_item, pop_item, debug_step, clear_history, close, add_breakpoint,
  remove_breakpoint, add_watchpoint, remove_watchpoint,
}
use python.Debug.Session.Reached.{
  extended, Reached, started, stepped, cleared, closed, break_added, break_removed, watch_added,
  watch_removed, Continues, stays, run_loop-Reached,
}
use python.Debug.Session.Steps.{debug_step-IsStep}
use python.Debug.Session.History.{
  sum_cycles, count_instructions, IsNumbered, last_of, sum_cycles-append, count_instructions-append,
  IsNumbered-snoc, append_bounded-last_of, last_of-zero, last_of-nil, length-last_of,
}

-- The session keeps of its log the totals, and of the recent part the last records.
pub record Represents {T : Type 0} (s : Session T) (log recent : List StepRecord) : Type 0 where
  pub steps_eq : s.total_steps ≡ length log
  pub cycles_eq : s.total_cycles ≡ sum_cycles log
  pub instructions_eq : s.total_instructions ≡ count_instructions log
  pub history_eq : s.history ≡ last_of s.history_limit recent
  pub numbered : IsNumbered 0 log

-- The history once a record has been kept.
kept_history :
    (limit : ℕ) (recent : List StepRecord) (r : StepRecord)
    → (if ltb 0 limit then append_bounded limit (last_of limit recent) r else last_of limit recent)
      ≡ last_of limit (recent ++ r ∷ [])
kept_history zero recent r = last_of-zero recent ∙ sym (last_of-zero (recent ++ r ∷ []))
kept_history (suc n) recent r =
    ap
      (λ b. if b then append_bounded (suc n) (last_of (suc n) recent) r else last_of (suc n) recent)
      positive
    ∙ append_bounded-last_of (suc n) recent r (omega arith)
  where
    positive : ltb 0 (suc n) ≡ true
    positive = ground arith

pub counted_instructions :
    (log : List StepRecord) (r : StepRecord)
    → (if is_instruction r.kind then count_instructions log + 1 else count_instructions log)
      ≡ count_instructions (log ++ r ∷ [])
unfolding count_instructions
counted_instructions log r = elim (Bool-cases (is_instruction r.kind)) [
  | inl e ↦ rw e (sym (rw e at (count_instructions-append log (r ∷ []))))
  | inr e ↦ rw e (omega (arith, rw e at (count_instructions-append log (r ∷ []))))
]

counted-Represents :
    {T : Type 0} (s : Session T) (log recent : List StepRecord) (r : StepRecord)
    → Represents s log recent
    → r.sequence ≡ s.total_steps
    → Represents (counted s r) (log ++ r ∷ []) (recent ++ r ∷ [])
unfolding counted sum_cycles
counted-Represents s log recent r h e = record {
  steps_eq = omega (arith, h.steps_eq, length-append log (r ∷ []));
  cycles_eq = omega (arith, h.cycles_eq, sum_cycles-append log (r ∷ []));
  instructions_eq =
      ap (λ n. if is_instruction r.kind then n + 1 else n) (h.instructions_eq)
      ∙ counted_instructions log r;
  history_eq =
      ap (λ l. if ltb 0 s.history_limit then append_bounded s.history_limit l r else l)
        (h.history_eq)
      ∙ kept_history s.history_limit recent r;
  numbered = IsNumbered-snoc 0 log r (h.numbered) (omega (arith, e, h.steps_eq));
}

-- Only the totals and the history count.
Represents-same :
    {T : Type 0} (s s' : Session T) {log recent : List StepRecord}
    → s'.total_steps ≡ s.total_steps
    → s'.total_cycles ≡ s.total_cycles
    → s'.total_instructions ≡ s.total_instructions
    → s'.history ≡ s.history
    → s'.history_limit ≡ s.history_limit
    → Represents s log recent
    → Represents s' log recent
Represents-same s s' {log} {recent} a b c d e h = record {
  steps_eq = a ∙ h.steps_eq;
  cycles_eq = b ∙ h.cycles_eq;
  instructions_eq = c ∙ h.instructions_eq;
  history_eq = d ∙ h.history_eq ∙ ap (λ n. last_of n recent) (sym e);
  numbered = h.numbered;
}

module _ {T : Type 0} (t : DebugTarget T) where
  advance-raised :
      (s : Session T) (before : _) (instruction : _)
      → (advance t s before instruction).0 ≡ none
      → (advance t s before instruction).1 ≡ record s { target = (t.step s.target).2 }
  unfolding advance
  advance-raised s before instruction e = rw e refl

  -- A step that raises changes the target at most.
  debug_step-raised :
      (s : Session T) {log recent : List StepRecord}
      → (debug_step t s).0 ≡ none
      → Represents s log recent
      → Represents (debug_step t s).1 log recent
  unfolding debug_step
  debug_step-raised s {log} {recent} e h = elim (Option-cases (t.capture_state s.target)) [
    | inl n ↦ rw n h
    | inr (before, b) ↦ rw b (elim (Option-cases (shown s before)) [
      | inl n ↦ rw n h
      | inr (instruction, i) ↦
          let raised = advance-raised s before instruction (rw i at (rw b at e)) in
          rw i (
            subst (λ s'. Represents s' log recent) (sym raised)
              (Represents-same s (record s { target = (t.step s.target).2 }) refl refl refl refl
                refl h))
    ])
  ]

  debug_step-Represents :
      (s : Session T) {log recent : List StepRecord}
      → Represents s log recent
      → Represents
          (debug_step t s).1
          (extended log (debug_step t s).0)
          (extended recent (debug_step t s).0)
  unfolding extended
  debug_step-Represents s {log} {recent} h = elim (Option-cases (debug_step t s).0) [
    | inl e ↦ rw e (debug_step-raised s e h)
    | inr (r, e) ↦
        let d = debug_step-IsStep t s (debug_step t s).1 (ap (λ o. (o, (debug_step t s).1)) e) in
        let moved : Session T = record s { target = (t.step s.target).2 } in
        rw e (
          subst (λ s'. Represents s' (log ++ r ∷ []) (recent ++ r ∷ [])) (sym d.session_eq)
            (counted-Represents moved log recent r
              (Represents-same s moved refl refl refl refl refl h) d.sequence_eq))
  ]

  -- A test or a conversion that raises leaves the session.
  bound-Represents :
      {A : Type 0} (s : Session T) (o : Option A) (f : A → Option (Session T))
      {log recent : List StepRecord}
      → ((a : A) → Represents (maybe s (λ s'. s') (f a)) log recent)
      → Represents s log recent
      → Represents (maybe s (λ s'. s') (bind o f)) log recent
  bound-Represents s none f g h = h
  bound-Represents s (some a) f g h = g a

  checked-Represents :
      (s : Session T) (b : Bool) (o : Option (Session T)) {log recent : List StepRecord}
      → Represents (maybe s (λ s'. s') o) log recent
      → Represents s log recent
      → Represents (maybe s (λ s'. s') (check b o)) log recent
  checked-Represents s true o g h = g
  checked-Represents s false o g h = h

  init_session-Represents :
      (x : T) (peek : Option (T → Reader)) (limit : ℕ) (track : Bool)
      → Represents (init_session x peek limit track) [] []
  unfolding init_session sum_cycles count_instructions IsNumbered
  init_session-Represents x peek limit track = record {
    steps_eq = refl;
    cycles_eq = refl;
    instructions_eq = refl;
    history_eq = sym (last_of-nil limit);
    numbered = tt;
  }

  reached_lem :
      {s : Session T} {log recent : List StepRecord}
      → Reached t s log recent
      → Represents s log recent
  unfolding clear_history close add_breakpoint remove_breakpoint add_watchpoint remove_watchpoint
  reached_lem (started x peek limit track) = init_session-Represents x peek limit track
  reached_lem (stepped {s} reached) = debug_step-Represents s (reached_lem reached)
  reached_lem (cleared {s} reached) =
      let h = reached_lem reached in
      record {
        steps_eq = h.steps_eq;
        cycles_eq = h.cycles_eq;
        instructions_eq = h.instructions_eq;
        history_eq = sym (last_of-nil s.history_limit);
        numbered = h.numbered;
      }
  reached_lem (closed {s} reached) =
      Represents-same s (close s) refl refl refl refl refl (reached_lem reached)
  reached_lem (break_added {s} address reached) =
      let h = reached_lem reached in
      bound-Represents s (validate_address address) _ (λ x. go x (member x s.breakpoints) h) h
    where
      go :
          {s : Session T} {log recent : List StepRecord} (x : ℕ) (b : Bool)
          → Represents s log recent
          → Represents (if b then s else record s { breakpoints = x ∷ s.breakpoints }) log recent
      go x true h = h
      go {s} x false h =
          Represents-same s (record s { breakpoints = x ∷ s.breakpoints }) refl refl refl refl refl
            h
  reached_lem (break_removed {s} address reached) =
      let h = reached_lem reached in
      bound-Represents s (validate_address address) _
        (λ x.
          Represents-same s (record s { breakpoints = discard x s.breakpoints }) refl refl refl refl
            refl h)
        h
  reached_lem (watch_added {s} address kind reached) =
      let h = reached_lem reached in
      checked-Represents s s.tracking _
        (bound-Represents s (watch_kind kind) _
          (λ k.
            bound-Represents s (validate_address address) _
              (λ x.
                Represents-same s (record s { watchpoints = set_item s.watchpoints x k }) refl refl
                  refl refl refl h)
              h)
          h)
        h
  reached_lem (watch_removed {s} address reached) =
      let h = reached_lem reached in
      bound-Represents s (validate_address address) _
        (λ x.
          Represents-same s (record s { watchpoints = pop_item s.watchpoints x }) refl refl refl
            refl refl h)
        h

  -- Whatever operations a session has been through, steps, runs, marks, clearing and closing, its totals
  -- count its log, whose records are numbered from 0 in order, and its history is the last `history_limit`
  -- records of those since it was last cleared. A run is among these operations: with any limits, it
  -- leaves a session that is reached in this way, with a log that continues this one.
  pub Reached-Represents :
      (limits : RunLimits) (s : Session T) (log recent : List StepRecord)
      → Reached t s log recent
      → Represents s log recent
        × (length s.history ≤ s.history_limit)
        × Continues t log recent (debug_run t limits s).1
  unfolding debug_run
  Reached-Represents limits s log recent reached =
      let h = reached_lem reached in
      (h, rw (h.history_eq) (length-last_of s.history_limit recent), if_fits (run_fits limits))
    where
      if_fits :
          (b : Bool)
          → Continues t log recent
              (if b then run_loop t limits limits.max_steps no_tally s else (none, s)).1
      if_fits true = run_loop-Reached t limits limits.max_steps no_tally reached
      if_fits false = stays t reached
