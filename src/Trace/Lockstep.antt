-- ===== src/Trace/Lockstep.antt =====
-- src/sixfiveohtwo/trace.py: `first_session_divergence`, two sessions advanced in lockstep.
use python.Prelude.{
  ℕ, zero, suc, ◌<◌, ◌≡◌, refl, sym, subst, ◌∙◌, ap, Bool, true, false, Option, none, some, List,
  [], ◌∷◌, ◌&&◌, ltb, maybe, if◌then◌else◌, arith,
}
use python.State.{CpuState}
use python.Disasm.{Instruction, all_bytes}
use python.Disasm.Errors.{IsTotal}
use python.Debug.Access.{Access}
use python.Debug.Boundary.{next_boundary}
use python.Debug.Records.{StepRecord, record_fits, all_valid}
use python.Debug.Session.{DebugTarget, Session, shown, counted, debug_step}
use python.Debug.Session.Steps.{IsStep, IsTarget, Peeks, debug_step-IsStep, debug_step-some}
use python.Trace.{TraceDivergence, compare_step_records}
use python.Trace.Compare.{
  Agrees, InstructionsAgree, AccessesAgree, IsEvidence, compare_step_records-nil,
}
use python.Trace.Sessions.{shown-IsEncoding}

-- What is found at a position where both have stepped, or `none` to go on.
unfoldable pub compared : ℕ → StepRecord → StepRecord → Option TraceDivergence
compared position l r = elim (compare_step_records l r) [
  | [] ↦ none
  | d ∷ ds ↦ some (record {
    position = position;
    left_record = some l;
    right_record = some r;
    differences = d ∷ ds;
  })
]

module _ {T U : Type 0} (t : DebugTarget T) (u : DebugTarget U) where
  -- From a position on, with so many steps left: what is found, and the sessions.
  unfoldable pub lockstep :
      ℕ → ℕ → Session T → Session U → Option (Option TraceDivergence) × Session T × Session U
  lockstep position zero s s' = (some none, s, s')
  lockstep position (suc left) s s' = elim (debug_step t s).0 [
    | none ↦ (none, (debug_step t s).1, s')
    | some l ↦ elim (debug_step u s').0 [
      | none ↦ (none, (debug_step t s).1, (debug_step u s').1)
      | some r ↦ elim (compared position l r) [
        | some d ↦ (some (some d), (debug_step t s).1, (debug_step u s').1)
        | none ↦ lockstep (suc position) left (debug_step t s).1 (debug_step u s').1
      ]
    ]
  ]

  -- `first_session_divergence`
  unfoldable pub first_session_divergence :
      ℕ → Session T → Session U → Option (Option TraceDivergence) × Session T × Session U
  unfolding lockstep
  first_session_divergence max_steps s s' =
      if ltb 0 max_steps then lockstep 0 max_steps s s' else (none, s, s')

-- Equal instructions agree.
same_instruction : (o : Option Instruction) → InstructionsAgree o o
unfolding InstructionsAgree
same_instruction none = tt
same_instruction (some i) = (refl, refl, refl, refl)

and_right : (b c : Bool) → (b && c) ≡ true → c ≡ true
and_right true c h = h
and_right false c h = cc

-- Accesses of one step agree, whether each session tracks them or not.
accesses_agree :
    (b c : Bool) (xs : List Access)
    → AccessesAgree (if b then some xs else none) (if c then some xs else none)
unfolding AccessesAgree
accesses_agree true true xs = refl
accesses_agree true false xs = tt
accesses_agree false true xs = tt
accesses_agree false false xs = tt

module _ {T : Type 0} (t : DebugTarget T) where
  IsStep-IsEvidence : (s s' : Session T) (r : StepRecord) → IsStep t s r s' → IsEvidence r
  unfolding IsEvidence record_fits
  IsStep-IsEvidence s s' r d = (bytes_fit r.instruction refl, accesses_fit)
    where
      bytes_fit :
          (o : Option Instruction)
          → r.instruction ≡ o
          → maybe true (λ i. all_bytes i.bytes) o ≡ true
      bytes_fit none e = refl
      bytes_fit (some i) e = (shown-IsEncoding s r.before d.shown_eq i e).are_bytes

      accesses_fit : maybe true all_valid r.accesses ≡ true
      accesses_fit = and_right _ (maybe true all_valid r.accesses) d.fits

  -- What a step shows depends on the target and the view of its memory.
  shown_same :
      (s s' : Session T) (x : CpuState)
      → s.target ≡ s'.target
      → s.peek_byte ≡ s'.peek_byte
      → shown s x ≡ shown s' x
  unfolding shown
  shown_same s s' x e p = rw e (rw p refl)

  -- One step of two sessions on the same target.
  twins-Agrees :
      (s s' s1 s1' : Session T) (l r : StepRecord)
      → s.target ≡ s'.target
      → s.peek_byte ≡ s'.peek_byte
      → IsStep t s l s1
      → IsStep t s' r s1'
      → Agrees l r × (s1.target ≡ s1'.target) × (s1.peek_byte ≡ s1'.peek_byte)
  unfolding counted
  twins-Agrees s s' s1 s1' l r e p d d' =
      let before : l.before ≡ r.before = cc (d.before_eq, d'.before_eq, e) in
      let shown_eq =
        sym (d.shown_eq) ∙ shown_same s s' l.before e p ∙ ap (shown s') before ∙ d'.shown_eq in
      let instruction : l.instruction ≡ r.instruction = cc shown_eq in
      let after_eq = sym (d.after_eq) ∙ ap (λ x. t.capture_state (t.step x).2) e ∙ d'.after_eq in
      let accesses =
        ap (λ x. if s'.tracking then some (t.step x).1 else none) e ∙ sym (d'.accesses_eq) in
      (
        record {
          kind_same = d.kind_eq ∙ ap next_boundary before ∙ sym (d'.kind_eq);
          instruction_same =
              subst (InstructionsAgree l.instruction) instruction (same_instruction l.instruction);
          cycles_same = d.cycles_eq ∙ ap (λ x. (t.step x).0) e ∙ sym (d'.cycles_eq);
          before_same = before;
          after_same = cc after_eq;
          accesses_same =
              subst (λ a. AccessesAgree a r.accesses) (sym (d.accesses_eq))
                (subst (AccessesAgree (if s.tracking then some (t.step s.target).1 else none))
                  accesses (accesses_agree s.tracking s'.tracking (t.step s.target).1));
        },
        ap (λ x. x.target) (d.session_eq)
            ∙ ap (λ x. (t.step x).2) e
            ∙ sym (ap (λ x. x.target) (d'.session_eq)),
        ap (λ x. x.peek_byte) (d.session_eq) ∙ p ∙ sym (ap (λ x. x.peek_byte) (d'.session_eq)),
      )

  compared-none :
      (position : ℕ) (s s' s1 s1' : Session T) (l r : StepRecord)
      → IsStep t s l s1
      → IsStep t s' r s1'
      → Agrees l r
      → compared position l r ≡ none
  unfolding compared
  compared-none position s s' s1 s1' l r d d' a =
      rw
        (
          (compare_step_records-nil l r (IsStep-IsEvidence s s1 l d)
                (IsStep-IsEvidence s' s1' r d')).1
              a,
          compared,
        )
        refl

  -- A position at which nothing is found.
  lockstep-round :
      (position left : ℕ) (s s' s1 s1' : Session T) (l r : StepRecord)
      → debug_step t s ≡ (some l, s1)
      → debug_step t s' ≡ (some r, s1')
      → compared position l r ≡ none
      → lockstep t t position (suc left) s s' ≡ lockstep t t (suc position) left s1 s1'
  unfolding lockstep
  lockstep-round position left s s' s1 s1' l r step step' same =
      ap (λ x. body x (debug_step t s')) step
      ∙ ap (body (some l, s1)) step'
      ∙ ap (maybe (lockstep t t (suc position) left s1 s1') (λ d. (some (some d), s1, s1'))) same
    where
      body :
          Option StepRecord × Session T
          → Option StepRecord × Session T
          → Option (Option TraceDivergence) × Session T × Session T
      body (o, x) (o', x') = elim o [
        | none ↦ (none, x, s')
        | some l ↦ elim o' [
          | none ↦ (none, x, x')
          | some r ↦ elim (compared position l r) [
            | some d ↦ (some (some d), x, x')
            | none ↦ lockstep t t (suc position) left x x'
          ]
        ]
      ]

module _ {T : Type 0} (t : DebugTarget T) (Ready : T → Type 0) (target : IsTarget t Ready) where
  lockstep_twins :
      (left position : ℕ) (s s' : Session T)
      → s.target ≡ s'.target
      → s.peek_byte ≡ s'.peek_byte
      → Ready s.target
      → Peeks s
      → (lockstep t t position left s s').0 ≡ some none
  unfolding lockstep Peeks
  lockstep_twins zero position s s' e p ready k = refl
  lockstep_twins (suc left) position s s' e p ready k =
      let (l, s1, step, ready1, k1) = debug_step-some t Ready target s ready k in
      let (r, s1', step', _, _) =
        debug_step-some t Ready target s' (subst Ready e ready)
          (subst (λ o. maybe Unit (λ peek. (x : T) → IsTotal (peek x)) o) p k) in
      let d = debug_step-IsStep t s s1 step in
      let d' = debug_step-IsStep t s' s1' step' in
      let (a, e1, p1) = twins-Agrees t s s' s1 s1' l r e p d d' in
      ap (λ x. x.0)
        (lockstep-round t position left s s' s1 s1' l r step step'
          (compared-none t position s s' s1 s1' l r d d' a))
      ∙ lockstep_twins left (suc position) s1 s1' e1 p1 ready1 k1

  -- Two sessions on the same state of a target and the same view of its memory never diverge, whatever
  -- their marks, their histories and their tracking of accesses: in any number of steps none is
  -- found, and nothing is raised.
  pub first_session_divergence_twins :
      (max_steps : ℕ) (s s' : Session T)
      → 0 < max_steps
      → s.target ≡ s'.target
      → s.peek_byte ≡ s'.peek_byte
      → Ready s.target
      → Peeks s
      → (first_session_divergence t t max_steps s s').0 ≡ some none
  unfolding first_session_divergence
  first_session_divergence_twins max_steps s s' h e p ready k =
      ap (λ b. (if b then lockstep t t 0 max_steps s s' else (none, s, s')).0)
        (positive max_steps h)
      ∙ lockstep_twins max_steps 0 s s' e p ready k
    where
      positive : (n : ℕ) → 0 < n → ltb 0 n ≡ true
      positive n h = ground (arith, h)
