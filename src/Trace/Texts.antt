-- ===== src/Trace/Texts.antt =====
-- The texts by which src/sixfiveohtwo/trace.py compares: equal texts are of equal values.
use python.Prelude.{
  ℕ, ◌/◌, ◌%◌, ◌<◌, ◌≡◌, ◌≢◌, ◌↔◌, refl, sym, ◌∙◌, ap, Bool, true, false, Bool-cases, inl, inr,
  some, List, [], ◌∷◌, ◌++◌, ◌&&◌, ==_iff, All, arith,
}
use python.Text.{Text, text_eq_iff}
use python.Text.Hex.{hex_digit, hex_byte, hex_word, hex_text, from_hex, from_hex-hex_text}
use python.Disasm.{all_bytes}
use python.Debug.Access.{Kind, Access, valid_access}
use python.Debug.Boundary.{BoundaryKind}
use python.Debug.Records.{all_valid}
use python.Trace.{
  TraceValue, number, flag, text, texts, nothing, flag_eq, texts_eq, value_eq, kind_text,
  kind_of_text, kind_letter, access_text, access_texts, difference,
}

texts_eq_iff : (ss ts : List Text) → (texts_eq ss ts ≡ true) ↔ (ss ≡ ts)
unfolding texts_eq
texts_eq_iff [] [] = ground arith
texts_eq_iff [] (t ∷ ts) = ground arith
texts_eq_iff (s ∷ ss) [] = ground arith
texts_eq_iff (s ∷ ss) (t ∷ ts) = ground (arith, texts_eq_iff ss ts, text_eq_iff s t)

pub value_eq→eq : (v w : TraceValue) → value_eq v w ≡ true → v ≡ w
unfolding value_eq flag_eq
value_eq→eq (number m) (number n) e = ap number ((==_iff m n).0 e)
value_eq→eq (number m) (flag c) e = cc
value_eq→eq (number m) (text t) e = cc
value_eq→eq (number m) (texts ts) e = cc
value_eq→eq (number m) nothing e = cc
value_eq→eq (flag b) (number n) e = cc
value_eq→eq (flag true) (flag c) e = ap flag (sym e)
value_eq→eq (flag false) (flag true) e = cc
value_eq→eq (flag false) (flag false) e = refl
value_eq→eq (flag b) (text t) e = cc
value_eq→eq (flag b) (texts ts) e = cc
value_eq→eq (flag b) nothing e = cc
value_eq→eq (text s) (number n) e = cc
value_eq→eq (text s) (flag c) e = cc
value_eq→eq (text s) (text t) e = ap text ((text_eq_iff s t).0 e)
value_eq→eq (text s) (texts ts) e = cc
value_eq→eq (text s) nothing e = cc
value_eq→eq (texts ss) (number n) e = cc
value_eq→eq (texts ss) (flag c) e = cc
value_eq→eq (texts ss) (text t) e = cc
value_eq→eq (texts ss) (texts ts) e = ap texts ((texts_eq_iff ss ts).0 e)
value_eq→eq (texts ss) nothing e = cc
value_eq→eq nothing (number n) e = cc
value_eq→eq nothing (flag c) e = cc
value_eq→eq nothing (text t) e = cc
value_eq→eq nothing (texts ts) e = cc
value_eq→eq nothing nothing e = refl

pub value_eq_refl : (v : TraceValue) → value_eq v v ≡ true
unfolding value_eq flag_eq
value_eq_refl (number n) = (==_iff n n).1 refl
value_eq_refl (flag true) = refl
value_eq_refl (flag false) = refl
value_eq_refl (text s) = (text_eq_iff s s).1 refl
value_eq_refl (texts ss) = (texts_eq_iff ss ss).1 refl
value_eq_refl nothing = refl

-- A value differs where a difference is reported, and only there.
pub difference-nil : (path : Text) (v w : TraceValue) → (difference path v w ≡ []) ↔ (v ≡ w)
unfolding difference
difference-nil path v w = elim (Bool-cases (value_eq v w)) [
  | inl e ↦ (λ _. value_eq→eq v w e, λ _. rw e refl)
  | inr e ↦ (
    λ h. absurd (cons≢nil (rw e at h)),
    λ same. absurd (true≢false (sym (value_eq_refl v) ∙ ap (value_eq v) same ∙ e)),
  )
]
  where
    cons≢nil : {A : Type 0} {x : A} {xs : List A} → x ∷ xs ≢ []
    cons≢nil e = cc

    true≢false : true ≢ false
    true≢false e = cc

pub kind_of_text-kind_text : (k : BoundaryKind) → kind_of_text (kind_text k) ≡ some k
unfolding kind_of_text kind_text
kind_of_text-kind_text BoundaryKind.instruction_kind = refl
kind_of_text-kind_text BoundaryKind.jam_idle = refl
kind_of_text-kind_text BoundaryKind.reset = refl
kind_of_text-kind_text BoundaryKind.nmi = refl
kind_of_text-kind_text BoundaryKind.irq = refl

pub kind_text-inj : (k l : BoundaryKind) → kind_text k ≡ kind_text l → k ≡ l
kind_text-inj k l e =
    let same = sym (kind_of_text-kind_text k) ∙ ap kind_of_text e ∙ kind_of_text-kind_text l in
    cc same

hex_digit-inj : (d e : ℕ) → d < 16 → e < 16 → hex_digit d ≡ hex_digit e → d ≡ e
unfolding hex_digit
hex_digit-inj d e h k same = ground (arith, h, k, same)

hex_byte-inj : (m n : ℕ) → m < 256 → n < 256 → hex_byte m ≡ hex_byte n → m ≡ n
unfolding hex_byte
hex_byte-inj m n h k e =
    let high : hex_digit (m / 16 % 16) ≡ hex_digit (n / 16 % 16) = cc e in
    let low : hex_digit (m % 16) ≡ hex_digit (n % 16) = cc e in
    omega (
      arith,
      h,
      k,
      hex_digit-inj (m / 16 % 16) (n / 16 % 16) (omega arith) (omega arith) high,
      hex_digit-inj (m % 16) (n % 16) (omega arith) (omega arith) low,
    )

access_text-inj :
    (x y : Access)
    → valid_access x ≡ true
    → valid_access y ≡ true
    → access_text x ≡ access_text y
    → x ≡ y
unfolding valid_access access_text hex_word hex_byte
access_text-inj x y v w e =
    let (kinds, rest) = letter_lem x.kind y.kind e in
    let high : hex_byte (x.address / 256) ≡ hex_byte (y.address / 256) = cc rest in
    let low : hex_byte (x.address % 256) ≡ hex_byte (y.address % 256) = cc rest in
    let value : hex_byte x.value ≡ hex_byte y.value = cc rest in
    let (a, b, c, d) : (x.address < 65536)
        × (x.value < 256)
        × (y.address < 65536)
        × (y.value < 256) =
      (ground (arith, v), ground (arith, v), ground (arith, w), ground (arith, w)) in
    let upper = hex_byte-inj (x.address / 256) (y.address / 256) (omega arith) (omega arith) high in
    let lower = hex_byte-inj (x.address % 256) (y.address % 256) (omega arith) (omega arith) low in
    let addresses : x.address ≡ y.address = omega (arith, upper, lower) in
    let values : x.value ≡ y.value = hex_byte-inj x.value y.value b d value in
    cc (kinds, addresses, values)
  where
    first : Text → ℕ
    first [] = 0
    first (c ∷ _) = c

    differ : ◌≢◌ {A = ℕ} b'r' b'w'
    differ e = omega (arith, e)

    letter_lem :
        (k l : Kind) {s t : Text} → kind_letter k ++ s ≡ kind_letter l ++ t → (k ≡ l) × (s ≡ t)
    letter_lem Kind.r Kind.r e = (refl, cc e)
    letter_lem Kind.r Kind.w e = absurd (differ (ap first e))
    letter_lem Kind.w Kind.r e = absurd (differ (sym (ap first e)))
    letter_lem Kind.w Kind.w e = (refl, cc e)

pub access_texts-inj :
    (xs ys : List Access)
    → all_valid xs ≡ true
    → all_valid ys ≡ true
    → access_texts xs ≡ access_texts ys
    → xs ≡ ys
unfolding all_valid access_texts
access_texts-inj [] [] v w e = refl
access_texts-inj [] (y ∷ ys) v w e = cc e
access_texts-inj (x ∷ xs) [] v w e = cc e
access_texts-inj (x ∷ xs) (y ∷ ys) v w e =
    let (vx, vs) = both (valid_access x) (all_valid xs) v in
    let (wy, ws) = both (valid_access y) (all_valid ys) w in
    let here : access_text x ≡ access_text y = cc e in
    let rest : access_texts xs ≡ access_texts ys = cc e in
    cc (access_text-inj x y vx wy here, access_texts-inj xs ys vs ws rest)
  where
    both : (b c : Bool) → (b && c) ≡ true → (b ≡ true) × (c ≡ true)
    both true c h = (refl, h)
    both false c h = cc

all_bytes-All : (bs : List ℕ) → all_bytes bs ≡ true → All (λ b. b < 256) bs
unfolding all_bytes
all_bytes-All [] h = tt
all_bytes-All (b ∷ bs) h = (ground (arith, h), all_bytes-All bs (ground (arith, h)))

pub from_hex-all_bytes : (bs : List ℕ) → all_bytes bs ≡ true → from_hex (hex_text bs) ≡ some bs
from_hex-all_bytes bs h = from_hex-hex_text bs (all_bytes-All bs h)

-- Equal hexadecimal texts are of equal bytes.
pub hex_text-inj :
    (bs cs : List ℕ)
    → all_bytes bs ≡ true
    → all_bytes cs ≡ true
    → hex_text bs ≡ hex_text cs
    → bs ≡ cs
hex_text-inj bs cs h k e =
    let same = sym (from_hex-all_bytes bs h) ∙ ap from_hex e ∙ from_hex-all_bytes cs k in cc same
