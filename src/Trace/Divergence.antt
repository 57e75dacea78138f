-- ===== src/Trace/Divergence.antt =====
-- `first_trace_divergence` of src/sixfiveohtwo/trace.py: the first position where two traces differ.
use python.Prelude.{
  ℕ, zero, suc, ◌+◌, ◌≡◌, ◌≢◌, ◌⊎◌, inl, inr, refl, sym, subst, ◌∙◌, Option, none, some, List, [],
  ◌∷◌, All, arith,
}
use python.Debug.Records.{StepRecord}
use python.Trace.{
  TraceDifference, TraceDivergence, compare_step_records, iter_trace_divergences,
  first_trace_divergence,
}
use python.Trace.Compare.{Agrees, IsEvidence, compare_step_records-nil}

-- Two traces are of one length, and their records agree.
unfoldable pub TracesAgree : List StepRecord → List StepRecord → Type 0
TracesAgree [] [] = Unit
TracesAgree (l ∷ left) (r ∷ right) = Agrees l r × TracesAgree left right
TracesAgree _ _ = ⊥

-- Two traces agree up to a position, where one has ended or their records do not agree.
unfoldable pub DivergesAt : ℕ → List StepRecord → List StepRecord → Type 0
DivergesAt n [] [] = ⊥
DivergesAt zero (l ∷ left) (r ∷ right) = ¬ Agrees l r
DivergesAt (suc n) (l ∷ left) (r ∷ right) = Agrees l r × DivergesAt n left right
DivergesAt zero _ _ = Unit
DivergesAt (suc n) _ _ = ⊥

-- The head of what is yielded, from a position on.
unfoldable first_from : ℕ → List StepRecord → List StepRecord → Option TraceDivergence
first_from position left right = elim (iter_trace_divergences position left right) [
  | [] ↦ none
  | d ∷ _ ↦ some d
]

first_from_lem :
    (position : ℕ) (left right : List StepRecord)
    → All IsEvidence left
    → All IsEvidence right
    → ((first_from position left right ≡ none) × TracesAgree left right)
      ⊎ ((n : ℕ) × (d : TraceDivergence) × (first_from position left right ≡ some d)
          × (d.position ≡ position + n)
          × DivergesAt n left right)
unfolding first_from iter_trace_divergences TracesAgree DivergesAt
first_from_lem position [] [] h k = inl (refl, tt)
first_from_lem position [] (r ∷ right) h k = inr (0, _, refl, omega arith, tt)
first_from_lem position (l ∷ left) [] h k = inr (0, _, refl, omega arith, tt)
first_from_lem position (l ∷ left) (r ∷ right) h k = elim (list_cases (compare_step_records l r)) [
  | inr (d, ds, e) ↦ inr (
    0,
    record {
      position = position;
      left_record = some l;
      right_record = some r;
      differences = d ∷ ds;
    },
    rw (e, first_from, iter_trace_divergences) refl,
    omega arith,
    λ a. absurd (cons≢nil (sym e ∙ (compare_step_records-nil l r (h.0) (k.0)).1 a)),
  )
  | inl e ↦
      let a = (compare_step_records-nil l r (h.0) (k.0)).0 e in
      elim (first_from_lem (suc position) left right (h.1) (k.1)) [
        | inl (n, rest) ↦ inl (rw (e, first_from, iter_trace_divergences) n, (a, rest))
        | inr (n, d, f, p, rest) ↦
            inr
              (suc n, d, rw (e, first_from, iter_trace_divergences) f, omega (arith, p), (a, rest))
      ]
]
  where
    cons≢nil : {A : Type 0} {x : A} {xs : List A} → x ∷ xs ≢ []
    cons≢nil e = cc

    list_cases : (ds : List TraceDifference) → (ds ≡ []) ⊎ ((d : _) × (rest : _) × (ds ≡ d ∷ rest))
    list_cases [] = inl refl
    list_cases (d ∷ rest) = inr (d, rest, refl)

-- For traces of records with valid bytes and accesses: either none is found and the traces agree
-- from end to end, or one is found, at the first position where the traces do not agree: a trace
-- that ends early diverges at its end.
pub first_trace_divergence_lem :
    (left right : List StepRecord)
    → All IsEvidence left
    → All IsEvidence right
    → ((first_trace_divergence left right ≡ none) × TracesAgree left right)
      ⊎ ((d : TraceDivergence) × (first_trace_divergence left right ≡ some d)
          × DivergesAt d.position left right)
unfolding first_trace_divergence first_from
first_trace_divergence_lem left right h k = elim (first_from_lem 0 left right h k) [
  | inl found ↦ inl found
  | inr (n, d, e, p, rest) ↦
      let same : n ≡ d.position = omega (arith, p) in
      inr (d, e, subst (λ m. DivergesAt m left right) same rest)
]
