-- ===== src/Alu/Ranges.antt =====
-- The ranges of what src/sixfiveohtwo/_alu.py computes.
use python.Prelude.{
  ℕ, ◌*◌, ◌/◌, ◌%◌, ◌<◌, ◌≡◌, Bool, true, false, truth, bit_and, bit_or, Bool-cases, inl, inr,
  arith, u8-lt,
}
use python.Prelude.Bits.{and_not, bit_and_even, bit_and_odd, bit_and-one, bit_and_128}
use python.Flags.{flag_n, flag_v, flag_z, flag_c, nz}
use python.Cpu.Safe.{
  IsStatus, IsFlags, bit_or-IsStatus, and_not-IsStatus, nz-IsFlags, set_nz_clear_c-IsStatus,
}
use python.Alu.{
  or_if, flags_nvzc, add, add_decimal, add_binary, subtract, compare_flags, bit_flags,
  subtract_decimal,
}

-- A result and the status with it.
pub record IsResult (r : ℕ × ℕ) : Type 0 where
  pub result_fits : r.0 < 256
  pub result_status : IsStatus r.1

pub or_if-IsStatus :
    (test : Bool) (mask p : ℕ) → IsFlags mask → IsStatus p → IsStatus (or_if test mask p)
unfolding or_if
or_if-IsStatus true mask p h k = bit_or-IsStatus p mask k h
or_if-IsStatus false mask p h k = k

pub bit_and_n-IsFlags : (v : ℕ) → IsFlags (bit_and v flag_n)
bit_and_n-IsFlags v = rw bit_and_128 (omega arith)

-- The two masks of BIT.
bit_and_nv : (v : ℕ) → bit_and v 0xc0 ≡ v / 64 % 4 * 64
bit_and_nv v = omega (
  arith,
  bit_and_even v 0x60,
  bit_and_even (v / 2) 0x30,
  bit_and_even (v / 2 / 2) 0x18,
  bit_and_even (v / 2 / 2 / 2) 0xc,
  bit_and_even (v / 2 / 2 / 2 / 2) 6,
  bit_and_even (v / 2 / 2 / 2 / 2 / 2) 3,
  bit_and_odd (v / 2 / 2 / 2 / 2 / 2 / 2) 1,
  bit_and-one (v / 2 / 2 / 2 / 2 / 2 / 2 / 2),
)

bit_and_nv-IsFlags : (v : ℕ) → IsFlags (bit_and v 0xc0)
bit_and_nv-IsFlags v = rw bit_and_nv (omega arith)

add_decimal-IsResult : (a v carry p : ℕ) → IsStatus p → IsResult (add_decimal a v carry p)
unfolding add_decimal
add_decimal-IsResult a v carry p h = record {
  result_fits = u8-lt _;
  result_status =
      or_if-IsStatus _ _ _ (omega arith)
        (or_if-IsStatus _ _ _ (omega arith) (bit_or-IsStatus _ _ h (bit_and_n-IsFlags _)));
}

add_binary-IsResult : (a v total p : ℕ) → IsStatus p → IsResult (add_binary a v total p)
unfolding add_binary
add_binary-IsResult a v total p h = record {
  result_fits = u8-lt _;
  result_status =
      or_if-IsStatus _ _ _ (omega arith)
        (or_if-IsStatus _ _ _ (omega arith) (bit_or-IsStatus _ _ h (bit_and_n-IsFlags _)));
}

cleared-IsStatus : (p : ℕ) → IsStatus p → IsStatus (and_not p flags_nvzc)
cleared-IsStatus p h = and_not-IsStatus p _ h (omega arith)

with_z-IsStatus : (b : Bool) (p : ℕ) → IsStatus p → IsStatus (or_if b flag_z (and_not p flags_nvzc))
with_z-IsStatus b p h = or_if-IsStatus b _ _ (omega arith) (cleared-IsStatus p h)

pub add-IsResult : (a v p decimal : ℕ) → IsStatus p → IsResult (add a v p decimal)
unfolding add
add-IsResult a v p decimal h = elim (Bool-cases (truth decimal)) [
  | inl e ↦ rw e (add_decimal-IsResult a v _ _ (with_z-IsStatus _ p h))
  | inr e ↦ rw e (add_binary-IsResult a v _ _ (with_z-IsStatus _ p h))
]

subtract_decimal-lt : (a v borrow : ℕ) → subtract_decimal a v borrow < 256
unfolding subtract_decimal
subtract_decimal-lt a v borrow = u8-lt _

subtract-IsStatus :
    (p v : ℕ) (b c : Bool)
    → IsStatus p
    → IsStatus (or_if c flag_c (or_if b flag_v (bit_or (and_not p flags_nvzc) (nz v))))
subtract-IsStatus p v b c h =
    or_if-IsStatus _ _ _ (omega arith) (
      or_if-IsStatus _ _ _ (omega arith)
        (bit_or-IsStatus _ _ (cleared-IsStatus p h) (nz-IsFlags v)))

pub subtract-IsResult : (a v p decimal : ℕ) → IsStatus p → IsResult (subtract a v p decimal)
unfolding subtract
subtract-IsResult a v p decimal h = elim (Bool-cases (truth decimal)) [
  | inl e ↦ rw e (record {
    result_fits = subtract_decimal-lt a v _;
    result_status = subtract-IsStatus p _ _ _ h;
  })
  | inr e ↦ rw e (record { result_fits = u8-lt _; result_status = subtract-IsStatus p _ _ _ h })
]

pub compare_flags-IsStatus : (r v p : ℕ) → IsStatus p → IsStatus (compare_flags r v p)
unfolding compare_flags
compare_flags-IsStatus r v p h = or_if-IsStatus _ _ _ (omega arith) (set_nz_clear_c-IsStatus p _ h)

pub bit_flags-IsStatus : (a v p : ℕ) → IsStatus p → IsStatus (bit_flags a v p)
unfolding bit_flags
bit_flags-IsStatus a v p h =
    or_if-IsStatus _ _ _ (omega arith)
      (bit_or-IsStatus _ _ (and_not-IsStatus p _ h (omega arith)) (bit_and_nv-IsFlags v))
