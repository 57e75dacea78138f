-- ===== src/Prelude/Bits.antt =====
-- Laws of the bit operations at variables, from their lowest digits.
use Prim.Native.Nat.{
  ℕ, zero, suc, ◌+◌, ◌-◌, ◌*◌, ◌/◌, ◌%◌, ◌^◌, ◌≤◌, ◌<◌, bit_and, bit_or, bit_xor, bit_and-bitwise,
  bit_or-bitwise, bit_xor-bitwise,
}
use mathlib.Core.Path.{◌≡◌, ap}
use native.Mathlib.Nat.{pow-suc}
use native.Mathlib.Omega.{arith}
use python.Prelude.Digits.{bit_and_digit, bit_or_digit, bit_xor_digit}

-- `a & ~m` on a number and a mask.
abbrev pub and_not : ℕ → ℕ → ℕ
and_not a m = a - bit_and a m

-- Each induction is on a bound of the first number, which every step halves.

-- An intersection is at most either number.
bit_and-le_right : (bound a b : ℕ) → a ≤ bound → bit_and a b ≤ b
bit_and-le_right bound zero b h = omega (arith, bit_and-bitwise 0 b)
bit_and-le_right zero (suc a) b h = absurd (omega arith)
bit_and-le_right (suc bound) (suc a) b h =
    omega (arith, bit_and_digit (suc a) b, bit_and-le_right bound (suc a / 2) (b / 2) (omega arith))

pub bit_and-zero : (a : ℕ) → bit_and a 0 ≡ 0
bit_and-zero a = omega (arith, bit_and-le_right a a 0 (omega arith))

zero-bit_and : (b : ℕ) → bit_and 0 b ≡ 0
zero-bit_and b = bit_and-bitwise 0 b

bit_and-le_below : (n a b : ℕ) → a ≤ n → bit_and a b ≤ a
bit_and-le_below n zero b h = omega (arith, zero-bit_and b)
bit_and-le_below zero (suc a) b h = absurd (omega arith)
bit_and-le_below (suc n) (suc a) b h =
    omega (arith, bit_and_digit (suc a) b, bit_and-le_below n (suc a / 2) (b / 2) (omega arith))

-- A mask takes bits away.
pub bit_and-le : (a b : ℕ) → bit_and a b ≤ a
bit_and-le a b = bit_and-le_below a a b (omega arith)

bit_or-add_below : (n a b : ℕ) → a ≤ n → bit_or a b + bit_and a b ≡ a + b
bit_or-add_below n zero b h = omega (arith, zero-bit_and b, bit_or-bitwise 0 b)
bit_or-add_below zero (suc a) b h = absurd (omega arith)
bit_or-add_below (suc n) (suc a) b h = omega (
  arith,
  bit_or_digit (suc a) b,
  bit_and_digit (suc a) b,
  bit_or-add_below n (suc a / 2) (b / 2) (omega arith),
)

-- A union and an intersection together hold what the two numbers hold.
pub bit_or-add : (a b : ℕ) → bit_or a b + bit_and a b ≡ a + b
bit_or-add a b = bit_or-add_below a a b (omega arith)

-- A union and a difference fit the width of the two numbers.
pub bit_or-lt : (k a b : ℕ) → a < 2 ^ k → b < 2 ^ k → bit_or a b < 2 ^ k
bit_or-lt zero a b h g = omega (arith, bit_or-add a b)
bit_or-lt (suc k) a b h g = omega (
  arith,
  bit_or_digit a b,
  pow-suc 2 k,
  bit_or-lt k (a / 2) (b / 2) (omega (arith, pow-suc 2 k)) (omega (arith, pow-suc 2 k)),
)

pub bit_xor-lt : (k a b : ℕ) → a < 2 ^ k → b < 2 ^ k → bit_xor a b < 2 ^ k
bit_xor-lt zero zero b h g = omega (arith, bit_xor-bitwise 0 b)
bit_xor-lt zero (suc a) b h g = absurd (omega arith)
bit_xor-lt (suc k) a b h g = omega (
  arith,
  bit_xor_digit a b,
  pow-suc 2 k,
  bit_xor-lt k (a / 2) (b / 2) (omega (arith, pow-suc 2 k)) (omega (arith, pow-suc 2 k)),
)

-- An intersection with a mask, one digit of the mask at a time.
pub bit_and_even : (a m : ℕ) → bit_and a (2 * m) ≡ 2 * bit_and (a / 2) m
bit_and_even a m = omega (arith, bit_and_digit a (2 * m), ap (bit_and (a / 2)) (half m))
  where
    half : (m : ℕ) → 2 * m / 2 ≡ m
    half m = omega arith

pub bit_and_odd : (a m : ℕ) → bit_and a (2 * m + 1) ≡ 2 * bit_and (a / 2) m + a % 2
bit_and_odd a m = omega (arith, bit_and_digit a (2 * m + 1), ap (bit_and (a / 2)) (half m))
  where
    half : (m : ℕ) → (2 * m + 1) / 2 ≡ m
    half m = omega arith

-- The masks of one bit, of the low bits and of the high byte, in the form that `omega` reads.
pub bit_and-one : (a : ℕ) → bit_and a 1 ≡ a % 2
bit_and-one a = omega (arith, bit_and_digit a 1, bit_and-zero (a / 2))

pub bit_and_two : (a : ℕ) → bit_and a 2 ≡ a / 2 % 2 * 2
bit_and_two a = omega (arith, bit_and_even a 1, bit_and-one (a / 2))

pub bit_and_four : (a : ℕ) → bit_and a 4 ≡ a / 4 % 2 * 4
bit_and_four a = omega (arith, bit_and_even a 2, bit_and_two (a / 2))

pub bit_and_eight : (a : ℕ) → bit_and a 8 ≡ a / 8 % 2 * 8
bit_and_eight a = omega (arith, bit_and_even a 4, bit_and_four (a / 2))

pub bit_and_16 : (a : ℕ) → bit_and a 16 ≡ a / 16 % 2 * 16
bit_and_16 a = omega (arith, bit_and_even a 8, bit_and_eight (a / 2))

pub bit_and_32 : (a : ℕ) → bit_and a 32 ≡ a / 32 % 2 * 32
bit_and_32 a = omega (arith, bit_and_even a 16, bit_and_16 (a / 2))

pub bit_and_64 : (a : ℕ) → bit_and a 64 ≡ a / 64 % 2 * 64
bit_and_64 a = omega (arith, bit_and_even a 32, bit_and_32 (a / 2))

pub bit_and_128 : (a : ℕ) → bit_and a 128 ≡ a / 128 % 2 * 128
bit_and_128 a = omega (arith, bit_and_even a 64, bit_and_64 (a / 2))

pub bit_and_0x30 : (a : ℕ) → bit_and a 0x30 ≡ a / 16 % 4 * 16
bit_and_0x30 a = omega (
  arith,
  bit_and_even a 0x18,
  bit_and_even (a / 2) 0xc,
  bit_and_even (a / 2 / 2) 6,
  bit_and_even (a / 2 / 2 / 2) 3,
  bit_and_odd (a / 2 / 2 / 2 / 2) 1,
  bit_and-one (a / 2 / 2 / 2 / 2 / 2),
)

pub bit_and_low_nibble : (a : ℕ) → bit_and a 0xf ≡ a % 16
bit_and_low_nibble a = omega (
  arith,
  bit_and_odd a 7,
  bit_and_odd (a / 2) 3,
  bit_and_odd (a / 2 / 2) 1,
  bit_and-one (a / 2 / 2 / 2),
)

pub bit_and_high_nibble : (a : ℕ) → bit_and a 0xf0 ≡ a / 16 % 16 * 16
bit_and_high_nibble a = omega (
  arith,
  bit_and_even a 0x78,
  bit_and_even (a / 2) 0x3c,
  bit_and_even (a / 2 / 2) 0x1e,
  bit_and_even (a / 2 / 2 / 2) 0xf,
  bit_and_low_nibble (a / 2 / 2 / 2 / 2),
)

-- Bytes are closed under the three operations.
pub bit_and-byte : (a b : ℕ) → a < 256 → bit_and a b < 256
bit_and-byte a b h = omega (arith, bit_and-le a b)

pub bit_or-byte : (a b : ℕ) → a < 256 → b < 256 → bit_or a b < 256
bit_or-byte a b h k = bit_or-lt 8 a b h k

pub bit_xor-byte : (a b : ℕ) → a < 256 → b < 256 → bit_xor a b < 256
bit_xor-byte a b h k = bit_xor-lt 8 a b h k

mul-pow-suc : (q k : ℕ) → q * 2 ^ suc k ≡ 2 * (q * 2 ^ k)
mul-pow-suc q k = omega (arith, ap (λ (t : ℕ). q * t) (pow-suc 2 k))

bit_and-shifted : (k q r : ℕ) → r < 2 ^ k → bit_and (q * 2 ^ k) r ≡ 0
bit_and-shifted zero q r h = ground (arith, bit_and-zero q)
bit_and-shifted (suc k) q r h = ground (
  arith,
  bit_and_digit (q * 2 ^ suc k) r,
  mul-pow-suc q k,
  pow-suc 2 k,
  bit_and-shifted k q (r / 2) (omega (arith, pow-suc 2 k)),
)

-- The low bits beside a multiple of their width are a sum.
pub bit_or-shifted : (k q r : ℕ) → r < 2 ^ k → bit_or (q * 2 ^ k) r ≡ q * 2 ^ k + r
bit_or-shifted k q r h = omega (arith, bit_or-add (q * 2 ^ k) r, bit_and-shifted k q r h)
