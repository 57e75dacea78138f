-- ===== src/Console/Numbers.antt =====
-- src/sixfiveohtwo/console.py: numbers in commands, read by `int`, and decimal texts.
use python.Prelude.{
  ℕ, zero, suc, ◌+◌, ◌*◌, ◌/◌, ◌%◌, ◌<◌, ◌≡◌, refl, ◌∙◌, ap, Bool, true, false, Option, none, some,
  [], ◌∷◌, ◌++◌, ◌&&◌, ◌||◌, not, ◌==◌, leb, ltb, bind, check, maybe, truth, if◌then◌else◌, arith,
}
use python.Text.{Text}
use python.Text.Hex.{hex_digit, hex_byte, hex_word, digit_value}

-- White space that `int` skips around a number.
unfoldable pub is_space : ℕ → Bool
is_space c = c == 32 || (leb 9 c && leb c 13) || (leb 28 c && leb c 31)

unfoldable pub drop_spaces : Text → Text
unfolding is_space
drop_spaces [] = []
drop_spaces (c ∷ t) = let rest = drop_spaces t in if is_space c then rest else c ∷ t

unfoldable pub reversed : Text → Text → Text
reversed [] done = done
reversed (c ∷ t) done = reversed t (c ∷ done)

unfoldable pub strip : Text → Text
unfolding drop_spaces reversed
strip t = reversed (drop_spaces (reversed (drop_spaces t) [])) []

-- The value of digits with single underscores between them, most significant first.
unfoldable pub read_digits : ℕ → Bool → ℕ → Text → Option ℕ
unfolding digit_value
read_digits base after_digit value [] = check after_digit (some value)
read_digits base after_digit value (c ∷ t) =
    let skipped = read_digits base false value t in
    if c == b'_'
    then check after_digit skipped
    else bind (digit_value c) (λ d. check (ltb d base) (read_digits base true (value * base + d) t))

-- After a prefix such as `0x`, where an underscore may stand before the digits.
unfoldable pub prefixed : ℕ → Text → Option ℕ
unfolding read_digits
prefixed base [] = none
prefixed base (c ∷ t) = read_digits base true 0 (c ∷ t)

-- Decimal digits, which start with 0 only where all are 0.
unfoldable pub decimal_digits : Text → Option ℕ
unfolding read_digits
decimal_digits [] = none
decimal_digits (c ∷ t) =
    bind (read_digits 10 false 0 (c ∷ t)) (λ n. check (not (c == b'0') || n == 0) (some n))

-- The digits after the sign, `base` 0 for those whose prefix gives it.
unfoldable pub unsigned : ℕ → Text → Option ℕ
unfolding prefixed decimal_digits read_digits
unsigned base (c ∷ d ∷ t) =
    if c == b'0' && (d == b'x' || d == b'X')
    then prefixed 16 t
    else if base == 16
    then read_digits 16 false 0 (c ∷ d ∷ t)
    else if c == b'0' && (d == b'o' || d == b'O')
    then prefixed 8 t
    else if c == b'0' && (d == b'b' || d == b'B')
    then prefixed 2 t
    else decimal_digits (c ∷ d ∷ t)
unsigned base t = if base == 16 then read_digits 16 false 0 t else decimal_digits t

-- `int(text, base)` for base 0 and 16; `none` for the ValueError and for a negative value, which
-- every caller refuses.
unfoldable pub int_of : ℕ → Text → Option ℕ
int_of base t = elim (strip t) [
  | [] ↦ none
  | c ∷ rest ↦
      if c == b'-'
      then bind (unsigned base rest) (λ n. check (n == 0) (some n))
      else if c == b'+'
      then unsigned base rest
      else unsigned base (c ∷ rest)
]

-- `$1234`, or a number as Python writes it.
unfoldable pub dollar_or_plain : Text → Option ℕ
unfolding int_of
dollar_or_plain [] = int_of 0 []
dollar_or_plain (c ∷ t) = if c == b'$' then int_of 16 t else int_of 0 (c ∷ t)

-- `parse_number`, of a text up to a maximum.
unfoldable pub number : Text → Option ℕ → Option ℕ
unfolding dollar_or_plain
number t maximum =
    bind (dollar_or_plain t) (λ n. check (maybe true (λ m. leb n m) maximum) (some n))

-- `_positive`
unfoldable pub positive : Text → Option ℕ → Option ℕ
unfolding number
positive t maximum = bind (number t maximum) (λ n. check (truth n) (some n))

-- `str(n)`, with fuel for its digits: `n + 1` is enough.
unfoldable pub decimal_text_within : ℕ → ℕ → Text
decimal_text_within zero n = []
decimal_text_within (suc fuel) n =
    let most = decimal_text_within fuel (n / 10) in
    if ltb n 10 then (b'0' + n) ∷ [] else most ++ ((b'0' + n % 10) ∷ [])

unfoldable pub decimal_text : ℕ → Text
unfolding decimal_text_within
decimal_text n = decimal_text_within (suc n) n

-- What `int` and its tests see of a hexadecimal digit.
digit_lem :
    (d : ℕ)
    → d < 16
    → (digit_value (hex_digit d) ≡ some d)
      × (is_space (hex_digit d) ≡ false)
      × ((hex_digit d == b'_') ≡ false)
      × ((hex_digit d == b'-') ≡ false)
      × ((hex_digit d == b'+') ≡ false)
      × ((hex_digit d == b'x') ≡ false)
      × ((hex_digit d == b'X') ≡ false)
unfolding digit_value hex_digit is_space
digit_lem d h = (
  ground (arith, h),
  ground (arith, h),
  ground (arith, h),
  ground (arith, h),
  ground (arith, h),
  ground (arith, h),
  ground (arith, h),
)

unspaced :
    (a b c d : ℕ)
    → a < 16
    → d < 16
    → strip (hex_digit a ∷ hex_digit b ∷ hex_digit c ∷ hex_digit d ∷ [])
      ≡ hex_digit a ∷ hex_digit b ∷ hex_digit c ∷ hex_digit d ∷ []
unfolding strip
unspaced a b c d h k = rw ((digit_lem a h).1) (rw ((digit_lem d k).1) refl)

read_digit :
    (d : ℕ) (after_digit : Bool) (value : ℕ) (t : Text)
    → d < 16
    → read_digits 16 after_digit value (hex_digit d ∷ t) ≡ read_digits 16 true (value * 16 + d) t
unfolding read_digits
read_digit d after_digit value t h =
    let facts = digit_lem d h in rw (facts.2, read_digits) (rw (facts.0) (rw (low d h) refl))
  where
    low : (d : ℕ) → d < 16 → ltb d 16 ≡ true
    low d h = ground (arith, h)

no_prefix :
    (a b : ℕ)
    → b < 16
    → (hex_digit a == b'0' && (hex_digit b == b'x' || hex_digit b == b'X')) ≡ false
no_prefix a b h =
    let (_, _, _, _, _, small, large) = digit_lem b h in
    rw small (rw large (and_false (hex_digit a == b'0')))
  where
    and_false : (b : Bool) → (b && false) ≡ false
    and_false true = refl
    and_false false = refl

four_digits :
    (a b c d : ℕ)
    → a < 16
    → b < 16
    → c < 16
    → d < 16
    → read_digits 16 false 0 (hex_digit a ∷ hex_digit b ∷ hex_digit c ∷ hex_digit d ∷ [])
      ≡ some ((((0 * 16 + a) * 16 + b) * 16 + c) * 16 + d)
unfolding read_digits
four_digits a b c d ha hb hc hd =
    read_digit a false 0 (hex_digit b ∷ hex_digit c ∷ hex_digit d ∷ []) ha
    ∙ read_digit b true (0 * 16 + a) (hex_digit c ∷ hex_digit d ∷ []) hb
    ∙ read_digit c true ((0 * 16 + a) * 16 + b) (hex_digit d ∷ []) hc
    ∙ read_digit d true (((0 * 16 + a) * 16 + b) * 16 + c) [] hd

int_of-digits :
    (a b c d : ℕ)
    → a < 16
    → b < 16
    → c < 16
    → d < 16
    → int_of 16 (hex_digit a ∷ hex_digit b ∷ hex_digit c ∷ hex_digit d ∷ [])
      ≡ some ((((0 * 16 + a) * 16 + b) * 16 + c) * 16 + d)
unfolding int_of unsigned
int_of-digits a b c d ha hb hc hd =
    let (_, _, _, minus, plus, _, _) = digit_lem a ha in
    rw (unspaced a b c d ha hd, int_of)
      (rw minus (rw plus (rw (no_prefix a b hb, unsigned) (four_digits a b c d ha hb hc hd))))

-- A 16-bit address as the debugger prints it, written with a `$`, is read back as the same number.
pub number-hex_word : (n : ℕ) → n < 65536 → number (b'$' ∷ hex_word n) (some 0xffff) ≡ some n
unfolding number hex_word hex_byte
number-hex_word n h =
    let a = n / 256 / 16 % 16 in
    let b = n / 256 % 16 in
    let c = n % 256 / 16 % 16 in
    let d = n % 256 % 16 in
    let value : (((0 * 16 + a) * 16 + b) * 16 + c) * 16 + d ≡ n = omega (arith, h) in
    rw
      (int_of-digits a b c d (omega arith) (omega arith) (omega arith) (omega arith)
        ∙ ap some value)
      (rw (within n h) refl)
  where
    within : (n : ℕ) → n < 65536 → leb n 0xffff ≡ true
    within n h = ground (arith, h)
