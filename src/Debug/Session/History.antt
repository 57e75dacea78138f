-- ===== src/Debug/Session/History.antt =====
-- The history ring and the totals of `DebugSession` (src/sixfiveohtwo/debug.py), beside the log of every
-- record that its steps returned.
use python.Prelude.{
  ℕ, zero, suc, ◌+◌, ◌-◌, ◌≤◌, ◌<◌, ◌≡◌, refl, sym, ◌∙◌, ap, Bool-cases, true, false, List, [], ◌∷◌,
  ◌++◌, length, length-append, ltb, inl, inr, ◌⊎◌, if◌then◌else◌, arith,
}
use python.Debug.Records.{StepRecord, is_instruction}
use python.Debug.Session.{append_bounded}

-- The totals of a log.
unfoldable pub sum_cycles : List StepRecord → ℕ
sum_cycles [] = 0
sum_cycles (r ∷ rs) = r.cycles + sum_cycles rs

unfoldable pub count_instructions : List StepRecord → ℕ
unfolding is_instruction
count_instructions [] = 0
count_instructions (r ∷ rs) =
    let rest = count_instructions rs in if is_instruction r.kind then suc rest else rest

-- The sequence numbers of a log run from a number on.
unfoldable pub IsNumbered : ℕ → List StepRecord → Type 0
IsNumbered n [] = Unit
IsNumbered n (r ∷ rs) = (r.sequence ≡ n) × IsNumbered (suc n) rs

unfoldable pub drop : ℕ → List StepRecord → List StepRecord
drop zero rs = rs
drop (suc n) [] = []
drop (suc n) (r ∷ rs) = drop n rs

-- The last records of a log, at most `limit` of them.
unfoldable pub last_of : ℕ → List StepRecord → List StepRecord
unfolding drop
last_of limit rs = drop (length rs - limit) rs

pub sum_cycles-append :
    (xs ys : List StepRecord) → sum_cycles (xs ++ ys) ≡ sum_cycles xs + sum_cycles ys
unfolding sum_cycles
sum_cycles-append [] ys = omega arith
sum_cycles-append (x ∷ xs) ys = omega (arith, sum_cycles-append xs ys)

pub count_instructions-append :
    (xs ys : List StepRecord)
    → count_instructions (xs ++ ys) ≡ count_instructions xs + count_instructions ys
unfolding count_instructions
count_instructions-append [] ys = omega arith
count_instructions-append (x ∷ xs) ys =
    let ih = count_instructions-append xs ys in
    elim (Bool-cases (is_instruction x.kind)) [ inl e ↦ rw e (omega (arith, ih)) | inr e ↦ rw e ih ]

pub IsNumbered-snoc :
    (n : ℕ) (xs : List StepRecord) (r : StepRecord)
    → IsNumbered n xs
    → r.sequence ≡ n + length xs
    → IsNumbered n (xs ++ r ∷ [])
unfolding IsNumbered
IsNumbered-snoc n [] r h e = (omega (arith, e), tt)
IsNumbered-snoc n (x ∷ xs) r h e = (h.0, IsNumbered-snoc (suc n) xs r (h.1) (omega (arith, e)))

pub length-drop : (n : ℕ) (xs : List StepRecord) → length (drop n xs) ≡ length xs - n
unfolding drop
length-drop zero xs = omega arith
length-drop (suc n) [] = omega arith
length-drop (suc n) (x ∷ xs) = omega (arith, length-drop n xs)

drop-snoc :
    (n : ℕ) (xs : List StepRecord) (r : StepRecord)
    → n ≤ length xs
    → drop n (xs ++ r ∷ []) ≡ drop n xs ++ r ∷ []
unfolding drop
drop-snoc zero xs r h = refl
drop-snoc (suc n) [] r h = absurd (omega arith)
drop-snoc (suc n) (x ∷ xs) r h = drop-snoc n xs r (omega arith)

drop-drop : (n : ℕ) (xs : List StepRecord) → drop 1 (drop n xs) ≡ drop (suc n) xs
unfolding drop
drop-drop zero xs = refl
drop-drop (suc n) [] = refl
drop-drop (suc n) (x ∷ xs) = drop-drop n xs

-- An append to a deque that has room, and to one that is full.
append_bounded-room :
    (limit : ℕ) (xs : List StepRecord) (r : StepRecord)
    → length xs < limit
    → append_bounded limit xs r ≡ xs ++ r ∷ []
unfolding append_bounded
append_bounded-room limit [] r h = refl
append_bounded-room limit (x ∷ xs) r h = rw (ltb-true (suc (length xs)) limit h) refl
  where
    ltb-true : (a b : ℕ) → a < b → ltb a b ≡ true
    ltb-true a b h = ground arith

append_bounded-full :
    (limit : ℕ) (xs : List StepRecord) (r : StepRecord)
    → 0 < limit
    → length xs ≡ limit
    → append_bounded limit xs r ≡ drop 1 xs ++ r ∷ []
unfolding append_bounded drop
append_bounded-full limit [] r h e = refl
append_bounded-full limit (x ∷ xs) r h e = rw (ltb-false (suc (length xs)) limit e) refl
  where
    ltb-false : (a b : ℕ) → a ≡ b → ltb a b ≡ false
    ltb-false a b h = ground arith

-- The deque keeps the last records of the log.
pub append_bounded-last_of :
    (limit : ℕ) (xs : List StepRecord) (r : StepRecord)
    → 0 < limit
    → append_bounded limit (last_of limit xs) r ≡ last_of limit (xs ++ r ∷ [])
unfolding last_of drop
append_bounded-last_of limit xs r h =
    let counted : length (xs ++ r ∷ []) ≡ length xs + 1 = length-append xs (r ∷ []) in
    elim (lt_or_le (length xs) limit) [
      | inl l ↦
          let whole : length xs - limit ≡ 0 = omega (arith, l) in
          ap (λ n. append_bounded limit (drop n xs) r) whole
          ∙ append_bounded-room limit xs r l
          ∙ ap (λ n. drop n (xs ++ r ∷ []))
              (none_left (length xs) (length (xs ++ r ∷ [])) counted l)
      | inr l ↦
          append_bounded-full limit (drop (length xs - limit) xs) r h
            (omega (arith, l, length-drop (length xs - limit) xs))
          ∙ ap (λ ys. ys ++ r ∷ []) (drop-drop (length xs - limit) xs)
          ∙ sym (drop-snoc (suc (length xs - limit)) xs r (omega (arith, h, l)))
          ∙ ap (λ n. drop n (xs ++ r ∷ [])) (one_more (length xs) (length (xs ++ r ∷ [])) counted l)
    ]
  where
    lt_or_le : (n m : ℕ) → (n < m) ⊎ (m ≤ n)
    lt_or_le n m = omega arith

    none_left : (n m : ℕ) → m ≡ n + 1 → n < limit → 0 ≡ m - limit
    none_left n m e l = omega (arith, e, l)

    one_more : (n m : ℕ) → m ≡ n + 1 → limit ≤ n → suc (n - limit) ≡ m - limit
    one_more n m e l = omega (arith, e, l)

drop_all : (xs : List StepRecord) → drop (length xs) xs ≡ []
unfolding drop
drop_all [] = refl
drop_all (x ∷ xs) = drop_all xs

-- A deque that holds nothing.
pub last_of-zero : (xs : List StepRecord) → last_of 0 xs ≡ []
unfolding last_of
last_of-zero xs = ap (λ n. drop n xs) (omega arith) ∙ drop_all xs

pub length-last_of : (limit : ℕ) (xs : List StepRecord) → length (last_of limit xs) ≤ limit
unfolding last_of
length-last_of limit xs = omega (arith, length-drop (length xs - limit) xs)

pub last_of-nil : (limit : ℕ) → last_of limit [] ≡ []
unfolding last_of
last_of-nil limit = ap (λ n. drop n []) (nothing limit)
  where
    nothing : (limit : ℕ) → 0 - limit ≡ 0
    nothing limit = omega arith
