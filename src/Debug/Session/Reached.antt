-- ===== src/Debug/Session/Reached.antt =====
-- The sessions that the operations of `DebugSession` (src/sixfiveohtwo/debug.py) reach, with the log of
-- every record so far and of those since the history was last cleared; a run's are reached by its steps.
use python.Prelude.{
  ℕ, zero, suc, sym, subst, Bool, Option, none, some, List, [], ◌∷◌, ◌++◌, append_assoc, append-nil,
  maybe,
}
use python.State.{CpuState}
use python.Debug.Records.{StopReason, RunResult}
use python.Debug.Run.{
  RunLimits, Tally, tallied, result, stop_before, stop_after, stopped_after, run_loop,
}
use python.Text.{Text}
use python.Disasm.{Reader}
use python.Debug.Records.{StepRecord}
use python.Debug.Session.{
  DebugTarget, Session, init_session, debug_step, clear_history, close, add_breakpoint,
  remove_breakpoint, add_watchpoint, remove_watchpoint,
}

-- A log with the record of a step that returned one.
unfoldable pub extended : List StepRecord → Option StepRecord → List StepRecord
extended log made = maybe log (λ r. log ++ r ∷ []) made

module _ {T : Type 0} (t : DebugTarget T) where
  -- A session that the operations lead to, the log of its steps, and the part of the log since the
  -- history was last cleared. Steps and marks that raise are among the operations.
  pub data Reached : Session T → List StepRecord → List StepRecord → Type 0 where
    started :
        (x : T) (peek : Option (T → Reader)) (limit : ℕ) (track : Bool)
        → Reached (init_session x peek limit track) [] []
    stepped :
        {s : Session T} {log recent : List StepRecord}
        → Reached s log recent
        → Reached
            (debug_step t s).1
            (extended log (debug_step t s).0)
            (extended recent (debug_step t s).0)
    cleared :
        {s : Session T} {log recent : List StepRecord}
        → Reached s log recent
        → Reached (clear_history s) log []
    closed :
        {s : Session T} {log recent : List StepRecord}
        → Reached s log recent
        → Reached (close s) log recent
    break_added :
        {s : Session T} {log recent : List StepRecord} (address : ℕ)
        → Reached s log recent
        → Reached (maybe s (λ s'. s') (add_breakpoint address s)) log recent
    break_removed :
        {s : Session T} {log recent : List StepRecord} (address : ℕ)
        → Reached s log recent
        → Reached (maybe s (λ s'. s') (remove_breakpoint address s)) log recent
    watch_added :
        {s : Session T} {log recent : List StepRecord} (address : ℕ) (kind : Text)
        → Reached s log recent
        → Reached (maybe s (λ s'. s') (add_watchpoint address kind s)) log recent
    watch_removed :
        {s : Session T} {log recent : List StepRecord} (address : ℕ)
        → Reached s log recent
        → Reached (maybe s (λ s'. s') (remove_watchpoint address s)) log recent

module _ {T : Type 0} (t : DebugTarget T) where
  -- A session that is reached with further records after the log.
  abbrev pub Continues : List StepRecord → List StepRecord → Session T → Type 0
  Continues log recent s = (rs : List StepRecord) × Reached t s (log ++ rs) (recent ++ rs)

  pub stays :
      {s : Session T} {log recent : List StepRecord}
      → Reached t s log recent
      → Continues log recent s
  stays {s} {log} {recent} reached = (
    [],
    subst (λ l. Reached t s l (recent ++ [])) (sym (append-nil log))
        (subst (λ l. Reached t s log l) (sym (append-nil recent)) reached),
  )

  after_one :
      {s : Session T} (log recent : List StepRecord) (r : StepRecord)
      → Continues (log ++ r ∷ []) (recent ++ r ∷ []) s
      → Continues log recent s
  after_one {s} log recent r (rs, reached) = (
    r ∷ rs,
    subst (λ l. Reached t s l (recent ++ r ∷ rs)) (append_assoc log (r ∷ []) rs)
        (subst (λ l. Reached t s ((log ++ r ∷ []) ++ rs) l) (append_assoc recent (r ∷ []) rs)
          reached),
  )

  -- What a run's loop leaves is reached by its steps, and the log gains their records.
  pub run_loop-Reached :
      (limits : RunLimits) (left : ℕ) (tally : Tally) {s : Session T} {log recent : List StepRecord}
      → Reached t s log recent
      → Continues log recent (run_loop t limits left tally s).1
  unfolding run_loop extended
  run_loop-Reached limits zero tally reached = stays reached
  run_loop-Reached limits (suc left) tally {s} {log} {recent} reached =
      begins (λ r s' reached'. run_loop-Reached limits left (tallied tally r) reached')
        (t.capture_state s.target)
    where
      Rest : Type 0
      Rest =
          (r : StepRecord) (s' : Session T)
          → Reached t s' (log ++ r ∷ []) (recent ++ r ∷ [])
          → Continues (log ++ r ∷ []) (recent ++ r ∷ [])
              (run_loop t limits left (tallied tally r) s').1

      passed : StepRecord → Session T → Option StopReason → Option RunResult × Session T
      passed r s' o = elim o [
        | some reason ↦ (stopped_after reason s' r (tallied tally r), s')
        | none ↦ run_loop t limits left (tallied tally r) s'
      ]

      stepped_on : Option StepRecord × Session T → Option RunResult × Session T
      stepped_on (outcome, s') = elim outcome [
        | none ↦ (none, s')
        | some r ↦ passed r s' (stop_after limits s' r (tallied tally r))
      ]

      checked : CpuState → Option StopReason → Option RunResult × Session T
      checked state o = elim o [
        | some reason ↦ (result reason tally state [], s)
        | none ↦ stepped_on (debug_step t s)
      ]

      started_at : Option CpuState → Option RunResult × Session T
      started_at o = elim o [
        | none ↦ (none, s)
        | some state ↦ checked state (stop_before limits s state)
      ]

      passes :
          Rest
          → (r : StepRecord) (s' : Session T) (o : Option StopReason)
          → Reached t s' (log ++ r ∷ []) (recent ++ r ∷ [])
          → Continues log recent (passed r s' o).1
      passes rest r s' (some reason) reached' = (r ∷ [], reached')
      passes rest r s' none reached' = after_one log recent r (rest r s' reached')

      steps_on :
          Rest
          → (x : Option StepRecord × Session T)
          → Reached t x.1 (extended log x.0) (extended recent x.0)
          → Continues log recent (stepped_on x).1
      steps_on rest (none, s') reached' = stays reached'
      steps_on rest (some r, s') reached' =
          passes rest r s' (stop_after limits s' r (tallied tally r)) reached'

      checks :
          Rest
          → (state : CpuState) (o : Option StopReason) → Continues log recent (checked state o).1
      checks rest state (some reason) = stays reached
      checks rest state none = steps_on rest (debug_step t s) (stepped reached)

      begins : Rest → (o : Option CpuState) → Continues log recent (started_at o).1
      begins rest none = stays reached
      begins rest (some state) = checks rest state (stop_before limits s state)
