-- ===== src/Alu/Status.antt =====
-- The flag bits of a result (src/sixfiveohtwo/_alu.py), in a form that arithmetic reads.
use python.Prelude.{
  ℕ, ◌+◌, ◌-◌, ◌*◌, ◌/◌, ◌%◌, zero, suc, ◌<◌, ◌≡◌, ap, ◌⊎◌, inl, inr, ◌∙◌, Bool, true, false, truth,
  ltb, leb, not, ◌||◌, ◌&&◌, ◌==◌, bit_and, bit_or, bit_xor, arith,
}
use Prim.Native.Nat.{min}
use python.Prelude.Digits.{bit_and_digit, bit_xor_digit}
use python.Prelude.Bits.{
  and_not, bit_or-add, bit_and_even, bit_and_odd, bit_and-le, bit_and-zero, bit_and-one,
  bit_and_two, bit_and_64, bit_and_128,
}
use python.Flags.{nz}
use python.Cpu.Safe.{IsStatus}
use python.Alu.{or_if, add_overflows}

-- A flag's bit.
abbrev pub flag_if : Bool → ℕ → ℕ
flag_if true mask = mask
flag_if false mask = 0

-- P with its N, V, Z and C bits replaced.
unfoldable pub status_nvzc : ℕ → Bool → Bool → Bool → Bool → ℕ
status_nvzc p n v z c = p / 4 % 16 * 4 + flag_if n 128 + flag_if v 64 + flag_if z 2 + flag_if c 1

-- Whether the signed sum of two bytes and a carry is out of the range of a signed byte. A byte x
-- stands for the number (x + 128) % 256 - 128, so the three sum to 256 less than `biased`.
unfoldable pub signed_sum_overflows : ℕ → ℕ → ℕ → Bool
signed_sum_overflows a v carry =
    let biased = (a + 128) % 256 + (v + 128) % 256 + carry in ltb biased 128 || ltb 383 biased

bit_xor_half : (a b : ℕ) → bit_xor a b / 2 ≡ bit_xor (a / 2) (b / 2)
bit_xor_half a b = omega (arith, bit_xor_digit a b)

bit_xor_low : (a b : ℕ) → bit_xor a b % 2 ≡ (a + b) % 2
bit_xor_low a b = omega (arith, bit_xor_digit a b)

bit_and_half : (a b : ℕ) → bit_and a b / 2 ≡ bit_and (a / 2) (b / 2)
bit_and_half a b = omega (arith, bit_and_digit a b)

-- The top bit of a byte.
bit_xor_7 : (a b : ℕ) → bit_xor a b / 128 % 2 ≡ (a / 128 + b / 128) % 2
bit_xor_7 a b = omega (
  arith,
  bit_xor_half a b,
  bit_xor_half (a / 2) (b / 2),
  bit_xor_half (a / 2 / 2) (b / 2 / 2),
  bit_xor_half (a / 2 / 2 / 2) (b / 2 / 2 / 2),
  bit_xor_half (a / 2 / 2 / 2 / 2) (b / 2 / 2 / 2 / 2),
  bit_xor_half (a / 2 / 2 / 2 / 2 / 2) (b / 2 / 2 / 2 / 2 / 2),
  bit_xor_half (a / 2 / 2 / 2 / 2 / 2 / 2) (b / 2 / 2 / 2 / 2 / 2 / 2),
  bit_xor_low (a / 2 / 2 / 2 / 2 / 2 / 2 / 2) (b / 2 / 2 / 2 / 2 / 2 / 2 / 2),
)

bit_and_low : (a b : ℕ) → bit_and a b % 2 ≡ min (a % 2) (b % 2)
bit_and_low a b = omega (arith, bit_and_digit a b)

bit_and_7 : (a b : ℕ) → bit_and a b / 128 % 2 ≡ min (a / 128 % 2) (b / 128 % 2)
bit_and_7 a b = omega (
  arith,
  bit_and_half a b,
  bit_and_half (a / 2) (b / 2),
  bit_and_half (a / 2 / 2) (b / 2 / 2),
  bit_and_half (a / 2 / 2 / 2) (b / 2 / 2 / 2),
  bit_and_half (a / 2 / 2 / 2 / 2) (b / 2 / 2 / 2 / 2),
  bit_and_half (a / 2 / 2 / 2 / 2 / 2) (b / 2 / 2 / 2 / 2 / 2),
  bit_and_half (a / 2 / 2 / 2 / 2 / 2 / 2) (b / 2 / 2 / 2 / 2 / 2 / 2),
  bit_and_low (a / 2 / 2 / 2 / 2 / 2 / 2 / 2) (b / 2 / 2 / 2 / 2 / 2 / 2 / 2),
)

and_not_half : (a b : ℕ) → and_not a b / 2 ≡ and_not (a / 2) (b / 2)
and_not_half a b = omega (arith, bit_and_digit a b, bit_and-le (a / 2) (b / 2))

and_not_low : (a b : ℕ) → and_not a b % 2 ≡ a % 2 - min (a % 2) (b % 2)
and_not_low a b = omega (arith, bit_and_digit a b, bit_and-le (a / 2) (b / 2))

seven_halves :
    (w0 w1 w2 w3 w4 w5 w6 w7 : ℕ)
    → w0 / 2 ≡ w1
    → w1 / 2 ≡ w2
    → w2 / 2 ≡ w3
    → w3 / 2 ≡ w4
    → w4 / 2 ≡ w5
    → w5 / 2 ≡ w6
    → w6 / 2 ≡ w7
    → w0 / 128 ≡ w7
seven_halves w0 w1 w2 w3 w4 w5 w6 w7 a b c d e f g = omega arith

and_not_top :
    (a b : ℕ)
    → and_not a b / 128 ≡ and_not (a / 2 / 2 / 2 / 2 / 2 / 2 / 2) (b / 2 / 2 / 2 / 2 / 2 / 2 / 2)
and_not_top a b =
    seven_halves _ _ _ _ _ _ _ _ (and_not_half a b) (and_not_half (a / 2) (b / 2))
      (and_not_half (a / 2 / 2) (b / 2 / 2)) (and_not_half (a / 2 / 2 / 2) (b / 2 / 2 / 2))
      (and_not_half (a / 2 / 2 / 2 / 2) (b / 2 / 2 / 2 / 2))
      (and_not_half (a / 2 / 2 / 2 / 2 / 2) (b / 2 / 2 / 2 / 2 / 2))
      (and_not_half (a / 2 / 2 / 2 / 2 / 2 / 2) (b / 2 / 2 / 2 / 2 / 2 / 2))

and_not_7 : (a b : ℕ) → and_not a b / 128 % 2 ≡ a / 128 % 2 - min (a / 128 % 2) (b / 128 % 2)
and_not_7 a b = rw and_not_top (rw and_not_low (omega arith))

-- P without the four flags.
pub and_not_nvzc : (p : ℕ) → IsStatus p → and_not p 0xc3 ≡ p / 4 % 16 * 4
and_not_nvzc p s = omega (
  arith,
  s.status_fits,
  bit_and_odd p 0x61,
  bit_and_odd (p / 2) 0x30,
  bit_and_even (p / 2 / 2) 0x18,
  bit_and_even (p / 2 / 2 / 2) 0xc,
  bit_and_even (p / 2 / 2 / 2 / 2) 6,
  bit_and_even (p / 2 / 2 / 2 / 2 / 2) 3,
  bit_and_odd (p / 2 / 2 / 2 / 2 / 2 / 2) 1,
  bit_and-one (p / 2 / 2 / 2 / 2 / 2 / 2 / 2),
)

pub or_z : (t : Bool) (p : ℕ) → p / 2 % 2 ≡ 0 → or_if t 2 p ≡ p + flag_if t 2
unfolding or_if
or_z t p h = ground (arith, bit_or-add p 2, bit_and_two p)

pub or_c : (t : Bool) (p : ℕ) → p % 2 ≡ 0 → or_if t 1 p ≡ p + flag_if t 1
unfolding or_if
or_c t p h = ground (arith, bit_or-add p 1, bit_and-one p)

pub or_v : (t : Bool) (p : ℕ) → p / 64 % 2 ≡ 0 → or_if t 64 p ≡ p + flag_if t 64
unfolding or_if
or_v t p h = ground (arith, bit_or-add p 64, bit_and_64 p)

pub or_n : (r p : ℕ) → p / 128 % 2 ≡ 0 → bit_or p (bit_and r 128) ≡ p + r / 128 % 2 * 128
or_n r p h = rw bit_and_128 (set_or_clear (r / 128 % 2) (omega arith))
  where
    set_or_clear : (d : ℕ) → d < 2 → bit_or p (d * 128) ≡ p + d * 128
    set_or_clear zero l = omega (arith, bit_or-add p 0, bit_and-zero p)
    set_or_clear (suc zero) l = omega (arith, bit_or-add p 128, bit_and_128 p)
    set_or_clear (suc (suc d)) l = absurd (omega arith)

or_as_added :
    (q m : ℕ)
    → (m ≡ 0) ⊎ ((m ≡ 2) ⊎ (m ≡ 128))
    → q / 2 % 2 ≡ 0
    → q / 128 % 2 ≡ 0
    → bit_or q m ≡ q + m
or_as_added q m (inl e) h k = rw e (omega (arith, bit_or-add q 0, bit_and-zero q))
or_as_added q m (inr (inl e)) h k = rw e (omega (arith, bit_or-add q 2, bit_and_two q))
or_as_added q m (inr (inr e)) h k = rw e (omega (arith, bit_or-add q 128, bit_and_128 q))

-- N and Z of a byte, which are never both set.
pub nz_lem : (r : ℕ) → r < 256 → nz r ≡ flag_if (leb 128 r) 128 + flag_if (r == 0) 2
unfolding nz
nz_lem r h =
    ground (arith, bit_and_128 r, or_as_added (bit_and r 128) 0, or_as_added (bit_and r 128) 2)

nz_values : (r : ℕ) → r < 256 → (nz r ≡ 0) ⊎ ((nz r ≡ 2) ⊎ (nz r ≡ 128))
nz_values r h = ground (arith, nz_lem r h)

pub or_nz :
    (q r : ℕ)
    → r < 256
    → q / 2 % 2 ≡ 0
    → q / 128 % 2 ≡ 0
    → bit_or q (nz r) ≡ q + (flag_if (leb 128 r) 128 + flag_if (r == 0) 2)
or_nz q r l h k = or_as_added q (nz r) (nz_values r l) h k ∙ ap (λ (m : ℕ). q + m) (nz_lem r l)

truth_128 : (w : ℕ) → truth (bit_and w 128) ≡ (w / 128 % 2 == 1)
truth_128 w = ground (arith, bit_and_128 w)

-- The tests of the two overflow flags, by the signs of the operands and of the result.
pub add_overflows_lem :
    (a v r : ℕ)
    → a < 256
    → v < 256
    → add_overflows a v r ≡ (a / 128 == v / 128 && not (a / 128 == r / 128 % 2))
unfolding add_overflows
add_overflows_lem a v r h k = ground (
  arith,
  truth_128 (and_not (bit_xor a r) (bit_xor a v)),
  and_not_7 (bit_xor a r) (bit_xor a v),
  bit_xor_7 a r,
  bit_xor_7 a v,
)

pub subtract_overflows_lem :
    (a v r : ℕ)
    → a < 256
    → v < 256
    → truth (bit_and (bit_and (bit_xor a r) (bit_xor a v)) 128)
      ≡ (not (a / 128 == v / 128) && not (a / 128 == r / 128 % 2))
subtract_overflows_lem a v r h k = ground (
  arith,
  truth_128 (bit_and (bit_xor a r) (bit_xor a v)),
  bit_and_7 (bit_xor a r) (bit_xor a v),
  bit_xor_7 a r,
  bit_xor_7 a v,
)
