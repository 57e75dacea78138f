-- ===== src/Prelude/Digits.antt =====
-- The native bit operations by their lowest digit. Natively each one is a recursion on the digits
-- of its first number, with that number for fuel; any larger fuel gives the same.
use Prim.Native.Nat.{ℕ, zero, suc, ◌+◌, ◌*◌, ◌/◌, ◌%◌, ◌≤◌, ◌<◌, min, max, digits, bitwise, differ}
use Prim.Native.Nat.{bit_and, bit_or, bit_xor, bit_and-bitwise, bit_or-bitwise, bit_xor-bitwise}
use mathlib.Core.Path.{◌≡◌, refl, sym, ap, ◌∙◌}
use native.Mathlib.Omega.{arith}

-- By recursion on a bound of the fuel, since the fuel of both sides is below it.
digits-bitwise :
    (pad : ℕ → ℕ) (op : ℕ → ℕ → ℕ) (bound fuel a b : ℕ)
    → fuel ≤ bound
    → a ≤ fuel
    → digits pad op fuel a b ≡ bitwise pad op a b
digits-bitwise pad op bound zero zero b g h = refl
digits-bitwise pad op bound zero (suc a) b g h = absurd (omega arith)
digits-bitwise pad op bound (suc fuel) zero b g h = refl
digits-bitwise pad op zero (suc fuel) (suc a) b g h = absurd (omega arith)
digits-bitwise pad op (suc bound) (suc fuel) (suc a) b g h =
    ap (λ (rest : ℕ). rest * 2 + op (suc a % 2) (b % 2))
      (digits-bitwise pad op bound fuel (suc a / 2) (b / 2) (omega arith) (omega arith)
        ∙ sym (digits-bitwise pad op bound a (suc a / 2) (b / 2) (omega arith) (omega arith)))

lowest_digit :
    (pad : ℕ → ℕ) (op : ℕ → ℕ → ℕ) (a b : ℕ)
    → bitwise pad op (suc a) b ≡ op (suc a % 2) (b % 2) + 2 * bitwise pad op (suc a / 2) (b / 2)
lowest_digit pad op a b =
    omega (arith, digits-bitwise pad op a a (suc a / 2) (b / 2) (omega arith) (omega arith))

pub bit_and_digit : (a b : ℕ) → bit_and a b ≡ min (a % 2) (b % 2) + 2 * bit_and (a / 2) (b / 2)
bit_and_digit zero b = omega (arith, bit_and-bitwise 0 b, bit_and-bitwise 0 (b / 2))
bit_and_digit (suc a) b = simp bit_and-bitwise (lowest_digit (λ y. 0) min a b)

pub bit_or_digit : (a b : ℕ) → bit_or a b ≡ max (a % 2) (b % 2) + 2 * bit_or (a / 2) (b / 2)
bit_or_digit zero b = omega (arith, bit_or-bitwise 0 b, bit_or-bitwise 0 (b / 2))
bit_or_digit (suc a) b = simp bit_or-bitwise (lowest_digit (λ y. y) max a b)

-- On two digits the native `differ` is the sum without the carry.
differ_digits : (x y : ℕ) → x < 2 → y < 2 → differ x y ≡ (x + y) % 2
differ_digits zero y h k = omega arith
differ_digits (suc zero) zero h k = refl
differ_digits (suc zero) (suc zero) h k = refl
differ_digits (suc zero) (suc (suc y)) h k = absurd (omega arith)
differ_digits (suc (suc x)) y h k = absurd (omega arith)

pub bit_xor_digit : (a b : ℕ) → bit_xor a b ≡ (a + b) % 2 + 2 * bit_xor (a / 2) (b / 2)
bit_xor_digit zero b = omega (arith, bit_xor-bitwise 0 b, bit_xor-bitwise 0 (b / 2))
bit_xor_digit (suc a) b =
    simp bit_xor-bitwise
      (omega (arith, lowest_digit (λ y. y) differ a b, differ_digits (suc a % 2) (b % 2)))
