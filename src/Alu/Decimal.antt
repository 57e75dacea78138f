-- ===== src/Alu/Decimal.antt =====
-- Decimal addition and subtraction on two-digit numbers (src/sixfiveohtwo/_alu.py).
use python.Prelude.{
  ℕ, ◌+◌, ◌-◌, ◌*◌, ◌/◌, ◌%◌, ◌<◌, ◌≡◌, refl, ◌∙◌, ap, Bool, true, false, ltb, leb, ◌==◌, bit_and,
  bit_or, u8, if◌then◌else◌, arith,
}
use Prim.Native.Nat.{max}
use python.Prelude.Digits.{bit_or_digit}
use python.Prelude.Bits.{
  and_not, bit_and-one, bit_and_128, bit_and_low_nibble, bit_and_high_nibble, bit_or-shifted,
}
use python.Flags.{nz, flag_d}
use python.Cpu.Safe.{IsStatus}
use python.Alu.{or_if, add_overflows, add_decimal, add, subtract_decimal, subtract}
use python.Alu.Status.{flag_if, and_not_nvzc, or_nz}

-- A byte that holds two decimal digits.
pub record IsDecimal (x : ℕ) : Type 0 where
  pub low_digit : x % 16 < 10
  pub high_digit : x / 16 < 10

-- The number that it stands for.
unfoldable pub from_decimal : ℕ → ℕ
from_decimal x = x / 16 * 10 + x % 16

-- The result of the decimal branch of `add`, and the test of its carry.
adjusted_low : ℕ → ℕ
adjusted_low sum = if leb 10 sum then bit_and (sum + 6) 0xf + 0x10 else sum

adjusted_total : ℕ → ℕ
adjusted_total total = if leb 0xa0 total then total + 0x60 else total

adjusted_low_lem : (sum : ℕ) → sum < 20 → adjusted_low sum ≡ sum / 10 * 16 + sum % 10
unfolding adjusted_low
adjusted_low_lem sum h = ground (arith, bit_and_low_nibble (sum + 6))

digits_total :
    (a v c : ℕ)
    → IsDecimal a
    → IsDecimal v
    → c < 2
    → bit_and a 0xf0 + bit_and v 0xf0 + adjusted_low (bit_and a 0xf + bit_and v 0xf + c)
      ≡ (a / 16 + v / 16 + (a % 16 + v % 16 + c) / 10) * 16 + (a % 16 + v % 16 + c) % 10
digits_total a v c d e h = rw (bit_and_low_nibble a) (
    rw (bit_and_low_nibble v) (
      omega (
        arith,
        d.low_digit,
        e.low_digit,
        d.high_digit,
        e.high_digit,
        bit_and_high_nibble a,
        bit_and_high_nibble v,
        adjusted_low_lem (a % 16 + v % 16 + c) (omega (arith, d.low_digit, e.low_digit)),
      )))

adjusted_sum :
    (q r : ℕ)
    → q < 20
    → r < 10
    → (IsDecimal (u8 (adjusted_total (q * 16 + r))))
      × (from_decimal (u8 (adjusted_total (q * 16 + r))) ≡ (q * 10 + r) % 100)
      × (leb 256 (adjusted_total (q * 16 + r)) ≡ leb 100 (q * 10 + r))
unfolding from_decimal adjusted_total
adjusted_sum q r h k =
    (record { low_digit = ground arith; high_digit = ground arith }, ground arith, ground arith)

bit_or_low : (a b : ℕ) → bit_or a b % 2 ≡ max (a % 2) (b % 2)
bit_or_low a b = omega (arith, bit_or_digit a b)

-- A flag above the lowest leaves C.
or_if_even : (t : Bool) (mask p : ℕ) → mask % 2 ≡ 0 → p % 2 ≡ 0 → or_if t mask p % 2 ≡ 0
unfolding or_if
or_if_even true mask p h k = omega (arith, bit_or_low p mask)
or_if_even false mask p h k = k

or_if_carry : (t : Bool) (p : ℕ) → p % 2 ≡ 0 → or_if t 1 p % 2 ≡ flag_if t 1
unfolding or_if
or_if_carry true p h = omega (arith, bit_or_low p 1)
or_if_carry false p h = h

-- The carry is the last flag that is set.
last_flag :
    (t v z : Bool) (p m : ℕ)
    → IsStatus p
    → m % 2 ≡ 0
    → or_if t 1 (or_if v 64 (bit_or (or_if z 2 (and_not p 0xc3)) m)) % 2 ≡ flag_if t 1
last_flag t v z p m s h = or_if_carry t _ (
    or_if_even v 64 _ refl (
      omega (
        arith,
        bit_or_low (or_if z 2 (and_not p 0xc3)) m,
        or_if_even z 2 (and_not p 0xc3) refl (omega (arith, and_not_nvzc p s)),
      )))

-- The result of the decimal branch of `add`, from the total before the high digit is adjusted.
decimal_of : ℕ → ℕ → ℕ → Bool → ℕ → ℕ × ℕ
decimal_of a v p z total = (
  u8 (adjusted_total total),
  or_if (leb 256 (adjusted_total total)) 1 (
      or_if (add_overflows a v total) 64 (bit_or (or_if z 2 (and_not p 0xc3)) (bit_and total 128))),
)

add-decimal_of :
    (a v p : ℕ)
    → IsDecimal a
    → IsDecimal v
    → add a v p flag_d
      ≡ decimal_of a v p
          (u8 (a + v + p % 2) == 0)
          ((a / 16 + v / 16 + (a % 16 + v % 16 + p % 2) / 10) * 16 + (a % 16 + v % 16 + p % 2) % 10)
unfolding add add_decimal adjusted_low adjusted_total decimal_of
add-decimal_of a v p d e =
    rw bit_and-one
      (ap (decimal_of a v p (u8 (a + v + p % 2) == 0)) (digits_total a v (p % 2) d e (omega arith)))

hundreds : (n m : ℕ) → n ≡ m → m < 200 → flag_if (leb 100 n) 1 ≡ m / 100
hundreds n m e h = ground arith

-- In decimal mode and with a P in range, the sum of two decimal numbers and the carry is A and C as the digits of a number
-- in base 100.
pub add_decimal_lem :
    (a v p : ℕ)
    → IsDecimal a
    → IsDecimal v
    → IsStatus p
    → let (result, q) = add a v p flag_d in
      let total = from_decimal a + from_decimal v + p % 2 in
      IsDecimal result × (from_decimal result ≡ total % 100) × (q % 2 ≡ total / 100)
unfolding decimal_of from_decimal
add_decimal_lem a v p d e s =
    let low = a % 16 + v % 16 + p % 2 in
    let q = a / 16 + v / 16 + low / 10 in
    let total = a / 16 * 10 + a % 16 + (v / 16 * 10 + v % 16) + p % 2 in
    let same : q * 10 + low % 10 ≡ total = omega arith in
    let (digits, result, carry) =
      adjusted_sum q (low % 10)
        (omega (arith, d.low_digit, d.high_digit, e.low_digit, e.high_digit)) (omega arith) in
    rw (add-decimal_of a v p d e) (
      digits,
      result ∙ ap (λ (n : ℕ). n % 100) same,
      last_flag _ _ _ p _ s (omega (arith, bit_and_128 (q * 16 + low % 10)))
          ∙ ap (λ t. flag_if t 1) carry
          ∙ hundreds (q * 10 + low % 10) total same
              (omega (arith, d.low_digit, d.high_digit, e.low_digit, e.high_digit)),
    )

-- The digits of a difference, `low` and `high` with 32 added as in `subtract_decimal`.
difference_digits : ℕ → ℕ → ℕ
difference_digits low high =
    let low' = if ltb low 0x20 then low - 6 else low in
    let high' = if ltb low 0x20 then high - 1 else high in
    let high'' = if ltb high' 0x20 then high' - 6 else high' in u8 (high'' * 0x10 + low' % 16)

subtract-difference_digits :
    (a v b : ℕ)
    → subtract_decimal a v b
      ≡ difference_digits (a % 16 + 0x20 - (v % 16 + b)) (a / 16 + 0x20 - v / 16)
unfolding subtract_decimal difference_digits
subtract-difference_digits a v b =
    rw (bit_and_low_nibble a) (
      rw (bit_and_low_nibble v)
        (rw bit_and_low_nibble (ap u8 (bit_or-shifted 4 _ _ (omega arith)))))

difference_digits_lem :
    (a0 a1 v0 v1 b : ℕ)
    → a0 < 10
    → a1 < 10
    → v0 < 10
    → v1 < 10
    → b < 2
    → let result = difference_digits (a0 + 0x20 - (v0 + b)) (a1 + 0x20 - v1) in
      IsDecimal result × (from_decimal result ≡ (a1 * 10 + a0 + 100 - (v1 * 10 + v0 + b)) % 100)
unfolding difference_digits from_decimal
difference_digits_lem a0 a1 v0 v1 b d0 d1 e0 e1 h =
    (record { low_digit = ground arith; high_digit = ground arith }, ground arith)

flags_even : (p r : ℕ) → IsStatus p → r < 256 → bit_or (and_not p 0xc3) (nz r) % 2 ≡ 0
flags_even p r s h =
    rw (and_not_nvzc p s)
      (rw (or_nz (p / 4 % 16 * 4) r h (omega arith) (omega arith)) (ground arith))

-- On decimal numbers the bytes compare as the numbers do.
same_borrow :
    (a v b : ℕ)
    → IsDecimal a
    → IsDecimal v
    → b < 2
    → leb (v + b) a ≡ leb (from_decimal v + b) (from_decimal a)
unfolding from_decimal
same_borrow a v b d e h = ground (arith, d.low_digit, d.high_digit, e.low_digit, e.high_digit)

-- In decimal mode and with a P in range, the difference of two decimal numbers less the borrow is A modulo 100, and C says that nothing
-- was borrowed.
pub subtract_decimal_lem :
    (a v p : ℕ)
    → IsDecimal a
    → IsDecimal v
    → IsStatus p
    → let (result, q) = subtract a v p flag_d in
      let taken = from_decimal v + (1 - p % 2) in
      IsDecimal result
      × (from_decimal result ≡ (from_decimal a + 100 - taken) % 100)
      × (q % 2 ≡ flag_if (leb taken (from_decimal a)) 1)
unfolding subtract from_decimal
subtract_decimal_lem a v p d e s = rw bit_and-one (
    rw (subtract-difference_digits a v (1 - p % 2)) (
      let (digits, result) =
        difference_digits_lem (a % 16) (a / 16) (v % 16) (v / 16) (1 - p % 2) (d.low_digit)
          (d.high_digit) (e.low_digit) (e.high_digit) (omega arith) in
      (
        digits,
        result,
        or_if_carry _ _ (or_if_even _ 64 _ refl (flags_even p _ s (omega arith)))
            ∙ ap (λ t. flag_if t 1) (same_borrow a v (1 - p % 2) d e (omega arith)),
      )))
