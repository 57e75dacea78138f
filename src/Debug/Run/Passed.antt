-- ===== src/Debug/Run/Passed.antt =====
-- What stops `DebugSession.run` (src/sixfiveohtwo/debug.py), said of states and records, and the steps that
-- a run has passed without a stop.
use python.Prelude.{
  ℕ, ◌≤◌, ◌≡◌, ◌≢◌, refl, sym, ◌∙◌, ap, Bool, Bool-cases, true, false, Option, none, some, List, [],
  ◌∷◌, ◌++◌, ◌&&◌, length, length-append, leb, leb→le, maybe, inl, inr, ◌⊎◌, if◌then◌else◌, arith,
}
use python.State.{CpuState}
use python.Debug.Access.{Access}
use python.Debug.Boundary.{BoundaryKind, next_boundary}
use python.Debug.Records.{StopReason, StepRecord, is_instruction, is_halted}
use python.Debug.Session.{DebugTarget, Session, member, counted, debug_step, watch_hits}
use python.Debug.Session.History.{sum_cycles, count_instructions, sum_cycles-append}
use python.Debug.Session.Log.{counted_instructions}
use python.Debug.Session.Steps.{debug_step-IsStep}
use python.Debug.Run.{RunLimits, Tally, tallied, stop_before, stop_after}

-- The next step is an instruction at a breakpoint.
unfoldable pub AtBreakpoint : {T : Type 0} → Session T → CpuState → Type 0
AtBreakpoint s state =
    (next_boundary state ≡ BoundaryKind.instruction_kind) × (member state.pc s.breakpoints ≡ true)

-- The next step is a cycle of a halted CPU, at which the run is to stop.
unfoldable pub AtHalt : RunLimits → CpuState → Type 0
AtHalt limits state = (limits.stop_on_halt ≡ true) × (next_boundary state ≡ BoundaryKind.jam_idle)

-- The run has taken as many cycles as it may.
unfoldable pub AtCycleLimit : RunLimits → ℕ → Type 0
AtCycleLimit limits cycles = (limit : ℕ) × (limits.max_cycles ≡ some limit) × (limit ≤ cycles)

-- What the test before a step finds.
pub stop_before_lem :
    {T : Type 0} (limits : RunLimits) (s : Session T) (state : CpuState)
    → ((stop_before limits s state ≡ none) × (¬ AtBreakpoint s state) × (¬ AtHalt limits state))
      ⊎ ((stop_before limits s state ≡ some StopReason.breakpoint) × AtBreakpoint s state)
      ⊎ ((stop_before limits s state ≡ some StopReason.halted)
          × (¬ AtBreakpoint s state)
          × AtHalt limits state)
unfolding stop_before AtBreakpoint AtHalt is_instruction is_halted
stop_before_lem limits s state =
    go (next_boundary state) (member state.pc s.breakpoints) limits.stop_on_halt
  where
    test : BoundaryKind → Bool → Bool → Option StopReason
    test kind m stop =
        if is_instruction kind && m
        then some StopReason.breakpoint
        else if stop && is_halted kind
        then some StopReason.halted
        else none

    go :
        (kind : BoundaryKind) (m stop : Bool)
        → ((test kind m stop ≡ none)
            × (¬ ((kind ≡ BoundaryKind.instruction_kind) × (m ≡ true)))
            × (¬ ((stop ≡ true) × (kind ≡ BoundaryKind.jam_idle))))
          ⊎ ((test kind m stop ≡ some StopReason.breakpoint)
              × ((kind ≡ BoundaryKind.instruction_kind) × (m ≡ true)))
          ⊎ ((test kind m stop ≡ some StopReason.halted)
              × (¬ ((kind ≡ BoundaryKind.instruction_kind) × (m ≡ true)))
              × ((stop ≡ true) × (kind ≡ BoundaryKind.jam_idle)))
    go BoundaryKind.instruction_kind true stop = inr (inl (refl, (refl, refl)))
    go BoundaryKind.instruction_kind false true = inl (refl, λ e. cc, λ e. cc)
    go BoundaryKind.instruction_kind false false = inl (refl, λ e. cc, λ e. cc)
    go BoundaryKind.jam_idle m true = inr (inr (refl, λ e. cc, (refl, refl)))
    go BoundaryKind.jam_idle m false = inl (refl, λ e. cc, λ e. cc)
    go BoundaryKind.reset m true = inl (refl, λ e. cc, λ e. cc)
    go BoundaryKind.reset m false = inl (refl, λ e. cc, λ e. cc)
    go BoundaryKind.nmi m true = inl (refl, λ e. cc, λ e. cc)
    go BoundaryKind.nmi m false = inl (refl, λ e. cc, λ e. cc)
    go BoundaryKind.irq m true = inl (refl, λ e. cc, λ e. cc)
    go BoundaryKind.irq m false = inl (refl, λ e. cc, λ e. cc)

not_over :
    (limit cycles : ℕ)
    → leb limit cycles ≡ false
    → (l : ℕ) × (some limit ≡ some l) × (l ≤ cycles)
    → ⊥
not_over limit cycles e (l, same, le) = let eq : limit ≡ l = cc in ground (arith, e, eq, le)

-- What the test after a step finds.
pub stop_after_lem :
    {T : Type 0} (limits : RunLimits) (s : Session T) (r : StepRecord) (tally : Tally)
    → ((stop_after limits s r tally ≡ none)
        × (watch_hits s r ≡ [])
        × (¬ AtCycleLimit limits tally.cycles))
      ⊎ ((stop_after limits s r tally ≡ some StopReason.watchpoint) × (watch_hits s r ≢ []))
      ⊎ ((stop_after limits s r tally ≡ some StopReason.cycle_limit)
          × (watch_hits s r ≡ [])
          × AtCycleLimit limits tally.cycles)
unfolding stop_after AtCycleLimit
stop_after_lem limits s r tally = go (watch_hits s r) limits.max_cycles
  where
    test : List Access → Option ℕ → Option StopReason
    test hits most = elim hits [
      | _ ∷ _ ↦ some StopReason.watchpoint
      | [] ↦
          maybe none (λ limit. if leb limit tally.cycles then some StopReason.cycle_limit else none)
            most
    ]

    go :
        (hits : List Access) (most : Option ℕ)
        → ((test hits most ≡ none)
            × (hits ≡ [])
            × (¬ ((limit : ℕ) × (most ≡ some limit) × (limit ≤ tally.cycles))))
          ⊎ ((test hits most ≡ some StopReason.watchpoint) × (hits ≢ []))
          ⊎ ((test hits most ≡ some StopReason.cycle_limit)
              × (hits ≡ [])
              × ((limit : ℕ) × (most ≡ some limit) × (limit ≤ tally.cycles)))
    go (x ∷ xs) most = inr (inl (refl, λ e. cc))
    go [] none = inl (refl, refl, λ e. cc)
    go [] (some limit) = elim (Bool-cases (leb limit tally.cycles)) [
      | inl e ↦ inr (inr (rw e refl, refl, (limit, refl, leb→le limit tally.cycles e)))
      | inr e ↦ inl (rw e refl, refl, λ over. absurd (not_over limit tally.cycles e over))
    ]

-- The local variables of a run after so many records.
unfoldable pub last_record_of : List StepRecord → Option StepRecord
last_record_of [] = none
last_record_of (r ∷ rs) = let rest = last_record_of rs in maybe (some r) (λ l. some l) rest

unfoldable pub tally_of : List StepRecord → Tally
unfolding last_record_of
tally_of rs = record {
  steps = length rs;
  instructions = count_instructions rs;
  cycles = sum_cycles rs;
  last_record = last_record_of rs;
}

last_record_of-snoc :
    (rs : List StepRecord) (r : StepRecord) → last_record_of (rs ++ r ∷ []) ≡ some r
unfolding last_record_of
last_record_of-snoc [] r = refl
last_record_of-snoc (x ∷ rs) r = rw (last_record_of-snoc rs r) refl

pub tallied-tally_of :
    (rs : List StepRecord) (r : StepRecord) → tallied (tally_of rs) r ≡ tally_of (rs ++ r ∷ [])
unfolding tallied tally_of sum_cycles
tallied-tally_of rs r =
    same_tally (sym (length-append rs (r ∷ []))) (counted_instructions rs r)
      (omega (arith, sum_cycles-append rs (r ∷ []))) (sym (last_record_of-snoc rs r))
  where
    same_tally :
        {s s' i i' c c' : ℕ} {l l' : Option StepRecord}
        → s ≡ s'
        → i ≡ i'
        → c ≡ c'
        → l ≡ l'
        → ◌≡◌ {A = Tally}
            (record { steps = s; instructions = i; cycles = c; last_record = l })
            (record { steps = s'; instructions = i'; cycles = c'; last_record = l' })
    same_tally a b c d = cc

module _ {T : Type 0} (t : DebugTarget T) (limits : RunLimits) where
  -- A step that the run does not stop before.
  pub record Goes (s : Session T) (r : StepRecord) (s' : Session T) : Type 0 where
    pub state : CpuState
    pub captured : t.capture_state s.target ≡ some state
    pub no_breakpoint : ¬ AtBreakpoint s state
    pub no_halt : ¬ AtHalt limits state
    pub step_eq : debug_step t s ≡ (some r, s')

  -- The records of steps that the run has stopped neither before nor after.
  pub data Passed (s : Session T) : List StepRecord → Session T → Type 0 where
    none_yet : Passed s [] s
    one_more :
        {rs : List StepRecord} {s' : Session T} (r : StepRecord) (s'' : Session T)
        → Passed s rs s'
        → Goes s' r s''
        → watch_hits s'' r ≡ []
        → ¬ AtCycleLimit limits (sum_cycles (rs ++ r ∷ []))
        → Passed s (rs ++ r ∷ []) s''

  -- After a record, the target is in the state that it shows.
  pub Passed-captured :
      {s s' : Session T} {rs : List StepRecord} {r : StepRecord}
      → Passed s rs s'
      → last_record_of rs ≡ some r
      → t.capture_state s'.target ≡ some r.after
  unfolding last_record_of counted
  Passed-captured none_yet e = cc
  Passed-captured (one_more {rs} {s'} r s'' p g h c) e =
      let d = debug_step-IsStep t s' s'' (g.step_eq) in
      let same = sym (last_record_of-snoc rs r) ∙ e in
      ap (λ x. t.capture_state x.target) (d.session_eq)
      ∙ d.after_eq
      ∙ ap (maybe none (λ x. some x.after)) same
