-- ===== src/Trace/Compare.antt =====
-- `compare_step_records` of src/sixfiveohtwo/trace.py: when two records agree.
use python.Prelude.{
  ◌≡◌, ◌≢◌, ◌↔◌, refl, sym, ◌∙◌, ap, Bool, true, false, Bool-cases, inl, inr, Option, none, some,
  List, [], ◌∷◌, ◌++◌, ◌&&◌, length, maybe,
}
use python.Text.{Text, chars}
use python.Text.Hex.{hex_text}
use python.State.{CpuState}
use python.Disasm.{Instruction, all_bytes}
use python.Debug.Access.{Access}
use python.Debug.Records.{StepRecord, all_valid}
use python.Trace.{
  TraceValue, number, text, texts, nothing, value_eq, values_eq, difference, kind_text,
  optional_flag, state_values, state_fields, compare_fields, compare_state, compare_instruction,
  presence, access_texts, compare_accesses, compare_step_records,
}
use python.Trace.Texts.{
  value_eq→eq, value_eq_refl, difference-nil, kind_text-inj, access_texts-inj, hex_text-inj,
}

-- Both or neither record shows an instruction, and they show the same text of the same bytes.
unfoldable pub InstructionsAgree : Option Instruction → Option Instruction → Type 0
InstructionsAgree none none = Unit
InstructionsAgree (some i) (some j) =
    (i.address ≡ j.address)
    × (i.bytes ≡ j.bytes)
    × (i.mnemonic ≡ j.mnemonic)
    × (i.operands ≡ j.operands)
InstructionsAgree _ _ = ⊥

-- Accesses are compared where both records have them.
unfoldable pub AccessesAgree : Option (List Access) → Option (List Access) → Type 0
AccessesAgree (some xs) (some ys) = xs ≡ ys
AccessesAgree _ _ = Unit

pub record Agrees (l r : StepRecord) : Type 0 where
  pub kind_same : l.kind ≡ r.kind
  pub instruction_same : InstructionsAgree l.instruction r.instruction
  pub cycles_same : l.cycles ≡ r.cycles
  pub before_same : l.before ≡ r.before
  pub after_same : l.after ≡ r.after
  pub accesses_same : AccessesAgree l.accesses r.accesses

-- The bytes of its instruction are bytes, and its accesses are valid.
unfoldable pub IsEvidence : StepRecord → Type 0
IsEvidence r =
    (maybe true (λ i. all_bytes i.bytes) r.instruction ≡ true)
    × (maybe true all_valid r.accesses ≡ true)

append-nil_iff : {A : Type 0} (xs ys : List A) → (xs ++ ys ≡ []) ↔ ((xs ≡ []) × (ys ≡ []))
append-nil_iff [] ys = (λ e. (refl, e), λ e. e.1)
append-nil_iff (x ∷ xs) ys = (λ e. cc, λ e. absurd (cons≢nil e.0))
  where
    cons≢nil : {B : Type 0} {y : B} {ys : List B} → y ∷ ys ≢ []
    cons≢nil e = cc

append-nil_both :
    {A P Q : Type 0} {xs ys : List A} → (xs ≡ []) ↔ P → (ys ≡ []) ↔ Q → (xs ++ ys ≡ []) ↔ (P × Q)
append-nil_both {xs = xs} {ys} f g = (
  λ e. let (a, b) = (append-nil_iff xs ys).0 e in (f.0 a, g.0 b),
  λ (p, q). (append-nil_iff xs ys).1 (f.1 p, g.1 q),
)

values_eq→eq : (vs ws : List TraceValue) → values_eq vs ws ≡ true → vs ≡ ws
unfolding values_eq
values_eq→eq [] [] e = refl
values_eq→eq [] (w ∷ ws) e = cc
values_eq→eq (v ∷ vs) [] e = cc
values_eq→eq (v ∷ vs) (w ∷ ws) e =
    let (here, rest) = both (value_eq v w) (values_eq vs ws) e in
    cc (value_eq→eq v w here, values_eq→eq vs ws rest)
  where
    both : (b c : Bool) → (b && c) ≡ true → (b ≡ true) × (c ≡ true)
    both true c h = (refl, h)
    both false c h = cc

values_eq_refl : (vs : List TraceValue) → values_eq vs vs ≡ true
unfolding values_eq
values_eq_refl [] = refl
values_eq_refl (v ∷ vs) = rw (value_eq_refl v) (values_eq_refl vs)

compare_fields-nil :
    (prefix : Text) (names : List Text) (vs ws : List TraceValue)
    → length vs ≡ length names
    → length ws ≡ length names
    → compare_fields prefix names vs ws ≡ []
    → vs ≡ ws
unfolding compare_fields
compare_fields-nil prefix [] [] [] h k e = refl
compare_fields-nil prefix [] (v ∷ vs) ws h k e = cc
compare_fields-nil prefix [] [] (w ∷ ws) h k e = cc
compare_fields-nil prefix (n ∷ names) [] ws h k e = cc
compare_fields-nil prefix (n ∷ names) (v ∷ vs) [] h k e = cc
compare_fields-nil prefix (n ∷ names) (v ∷ vs) (w ∷ ws) h k e =
    let path = prefix ++ chars "." ++ n in
    let (here, rest) =
      (append-nil_iff (difference path v w) (compare_fields prefix names vs ws)).0 e in
    cc ((difference-nil path v w).0 here, compare_fields-nil prefix names vs ws (cc h) (cc k) rest)

-- The fields determine the state.
optional_flag-inj : (a b : Option Bool) → optional_flag a ≡ optional_flag b → a ≡ b
unfolding optional_flag
optional_flag-inj none none e = refl
optional_flag-inj none (some b) e = cc
optional_flag-inj (some a) none e = cc
optional_flag-inj (some a) (some b) e = cc

state_values-inj : (s t : CpuState) → state_values s ≡ state_values t → s ≡ t
unfolding state_values
state_values-inj s t e =
    let i : optional_flag s.poll.polled_i ≡ optional_flag t.poll.polled_i = cc e in
    let m : optional_flag s.poll.polled_maskable_interrupt
        ≡ optional_flag t.poll.polled_maskable_interrupt =
      cc e in
    let n : optional_flag s.poll.polled_non_maskable_interrupt
        ≡ optional_flag t.poll.polled_non_maskable_interrupt =
      cc e in
    cc (e, optional_flag-inj _ _ i, optional_flag-inj _ _ m, optional_flag-inj _ _ n)

counted : (t : CpuState) → length (state_values t) ≡ length state_fields
unfolding state_values
counted t = refl

compare_state-nil : (prefix : Text) (s t : CpuState) → (compare_state prefix s t ≡ []) ↔ (s ≡ t)
unfolding compare_state
compare_state-nil prefix s t = elim (Bool-cases (values_eq (state_values s) (state_values t))) [
  | inl e ↦
      (λ _. state_values-inj s t (values_eq→eq (state_values s) (state_values t) e), λ _. rw e refl)
  | inr e ↦ (
    λ h. state_values-inj s t (
        compare_fields-nil prefix state_fields (state_values s) (state_values t) (counted s)
          (counted t) (rw e at h)),
    λ same. absurd (
        true≢false (
          sym (values_eq_refl (state_values s))
          ∙ ap (λ x. values_eq (state_values s) (state_values x)) same
          ∙ e)),
  )
]
  where
    true≢false : true ≢ false
    true≢false e = cc

compare_instruction-nil :
    (i j : Option Instruction)
    → maybe true (λ i. all_bytes i.bytes) i ≡ true
    → maybe true (λ i. all_bytes i.bytes) j ≡ true
    → (compare_instruction i j ≡ []) ↔ InstructionsAgree i j
unfolding compare_instruction InstructionsAgree presence
compare_instruction-nil none none h k =
    (λ _. tt, λ _. (difference-nil (chars "instruction") nothing nothing).1 refl)
compare_instruction-nil none (some j) h k = (
  λ e. absurd (apart ((difference-nil (chars "instruction") nothing (text (chars "present"))).0 e)),
  λ x. absurd x,
)
  where
    apart : {t : Text} → nothing ≢ text t
    apart e = cc
compare_instruction-nil (some i) none h k = (
  λ e. absurd (apart ((difference-nil (chars "instruction") (text (chars "present")) nothing).0 e)),
  λ x. absurd x,
)
  where
    apart : {t : Text} → text t ≢ nothing
    apart e = cc
compare_instruction-nil (some i) (some j) h k =
    let all =
      append-nil_both
        (append-nil_both
          (append-nil_both
            (difference-nil (chars "instruction.address") (number i.address) (number j.address))
            (difference-nil (chars "instruction.data") (text (hex_text i.bytes))
              (text (hex_text j.bytes))))
          (difference-nil (chars "instruction.mnemonic") (text i.mnemonic) (text j.mnemonic)))
        (difference-nil (chars "instruction.operands") (texts i.operands) (texts j.operands)) in
    (
      λ e.
          let (((a, b), m), o) = all.0 e in
          (cc a, hex_text-inj i.bytes j.bytes h k (cc b), cc m, cc o),
      λ (a, b, m, o).
          all.1 (((ap number a, ap (λ bs. text (hex_text bs)) b), ap text m), ap texts o),
    )

compare_accesses-nil :
    (xs ys : Option (List Access))
    → maybe true all_valid xs ≡ true
    → maybe true all_valid ys ≡ true
    → (compare_accesses xs ys ≡ []) ↔ AccessesAgree xs ys
unfolding compare_accesses AccessesAgree
compare_accesses-nil none ys h k = (λ _. tt, λ _. refl)
compare_accesses-nil (some xs) none h k = (λ _. tt, λ _. refl)
compare_accesses-nil (some xs) (some ys) h k =
    let same =
      difference-nil (chars "accesses") (texts (access_texts xs)) (texts (access_texts ys)) in
    (
      λ e. access_texts-inj xs ys h k (cc (same.0 e)),
      λ e. same.1 (ap (λ zs. texts (access_texts zs)) e),
    )

-- Two records of valid bytes and accesses have no difference just when they agree: in kind, cycles and
-- both states, in their instructions' address, bytes and text, and in their accesses where both
-- have them. The hexadecimal texts by which bytes and accesses are compared lose nothing.
pub compare_step_records-nil :
    (l r : StepRecord) → IsEvidence l → IsEvidence r → (compare_step_records l r ≡ []) ↔ Agrees l r
unfolding compare_step_records IsEvidence
compare_step_records-nil l r h k =
    let all =
      append-nil_both
        (append-nil_both
          (append-nil_both
            (append-nil_both
              (append-nil_both
                (difference-nil (chars "kind") (text (kind_text l.kind)) (text (kind_text r.kind)))
                (compare_instruction-nil l.instruction r.instruction (h.0) (k.0)))
              (difference-nil (chars "cycles") (number l.cycles) (number r.cycles)))
            (compare_state-nil (chars "before") l.before r.before))
          (compare_state-nil (chars "after") l.after r.after))
        (compare_accesses-nil l.accesses r.accesses (h.1) (k.1)) in
    (
      λ e.
          let (((((kind, instruction), cycles), before), after), accesses) = all.0 e in
          record {
            kind_same = kind_text-inj l.kind r.kind (cc kind);
            instruction_same = instruction;
            cycles_same = cc cycles;
            before_same = before;
            after_same = after;
            accesses_same = accesses;
          },
      λ a. all.1 (
        (
          (
            (
              (ap (λ x. text (kind_text x)) (a.kind_same), a.instruction_same),
              ap number (a.cycles_same),
            ),
            a.before_same,
          ),
          a.after_same,
        ),
        a.accesses_same,
      ),
    )
