-- ===== src/Prelude/Options.antt =====
-- Results of code that may raise: `none` is the exception.
use mathlib.Core.Path.{◌≡◌, refl}
use mathlib.Core.Bool.{Bool, true, false}
use mathlib.Core.Option.{Option, none, some}
use mathlib.Core.List.{List, [], ◌∷◌}
use mathlib.Core.Logic.{◌⊎◌, inl, inr}
use python.Prelude.Lists.{maybe}

module _ {ℓ κ} {A : Type ℓ} {B : Type κ} where
  abbrev pub bind : Option A → (A → Option B) → Option B
  bind none f = none
  bind (some a) f = f a

-- `if not test: raise`
abbrev pub check {ℓ} : {A : Type ℓ} → Bool → Option A → Option A
check true o = o
check false o = none

-- Every element through a function that may raise, in order.
module _ {ℓ κ} {A : Type ℓ} {B : Type κ} where
  abbrev pub traverse : (A → Option B) → List A → Option (List B)
  traverse f [] = some []
  traverse f (x ∷ xs) =
      let rest = traverse f xs in bind (f x) (λ y. bind rest (λ ys. some (y ∷ ys)))

-- What a result that was returned says of its parts.
pub bind-eq-some {ℓ κ} :
    {A : Type ℓ} {B : Type κ} (o : Option A) (f : A → Option B) {b : B}
    → bind o f ≡ some b
    → (a : A) × (o ≡ some a) × (f a ≡ some b)
bind-eq-some none f h = cc
bind-eq-some (some a) f h = (a, refl, h)

pub check-eq-some {ℓ} :
    {A : Type ℓ} (b : Bool) (o : Option A) {a : A} → check b o ≡ some a → (b ≡ true) × (o ≡ some a)
check-eq-some true o h = (refl, h)
check-eq-some false o h = cc

-- An optional value that is used, and the default otherwise.
pub maybe-eq {ℓ κ} :
    {A : Type ℓ} {B : Type κ} (d : B) (f : A → B) (o : Option A) {b : B}
    → maybe d f o ≡ b
    → ((o ≡ none) × (d ≡ b)) ⊎ ((a : A) × (o ≡ some a) × (f a ≡ b))
maybe-eq d f none h = inl (refl, h)
maybe-eq d f (some a) h = inr (a, refl, h)

pub check-some {ℓ} : {A : Type ℓ} (b : Bool) (a : A) → b ≡ true → check b (some a) ≡ some a
check-some b a e = rw e refl
