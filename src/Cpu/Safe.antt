-- ===== src/Cpu/Safe.antt =====
-- The ranges of the CPU's attributes (src/sixfiveohtwo/cpu.py: registers are 8-bit, PC is 16-bit,
-- and P keeps bit 5 set and B clear).
use python.Prelude.{
  ℕ, ◌*◌, ◌/◌, ◌%◌, ◌≤◌, ◌<◌, ◌≡◌, arith, bit_and, bit_or, ◌==◌, inl, inr, Bool-cases, ==_iff,
}
use python.Prelude.Digits.{bit_or_digit, bit_and_digit}
use python.Prelude.Bits.{and_not, bit_or-add, bit_or-lt, bit_and-le, bit_and_128, bit_and-zero}
use python.Frame.Disturbed.{IsFrame}
use python.Flags.{nz, set_nz, set_nz_clear_c}
use python.Cpu.{Cpu}

-- A value of P: bits 5 and 4 are 10.
pub record IsStatus (p : ℕ) : Type 0 where
  pub status_fits : p < 256
  pub status_bits : p / 16 % 4 ≡ 2

-- A byte that sets neither bit 5 nor B when it is added to P.
pub record IsFlags (m : ℕ) : Type 0 where
  pub flags_fit : m < 256
  pub flags_bits : m / 16 % 4 ≡ 0

pub record IsSafe (c : Cpu) : Type 0 where
  pub a_fits : c.a < 256
  pub x_fits : c.x < 256
  pub y_fits : c.y < 256
  pub s_fits : c.s < 256
  pub pc_fits : c.pc < 65536
  pub p_status : IsStatus c.p
  pub ane_fits : c.ane_constant < 256
  pub lxa_fits : c.lxa_constant < 256
  pub frame_fits : IsFrame c.frame

bit_or-sixteenth : (a b : ℕ) → bit_or a b / 16 ≡ bit_or (a / 2 / 2 / 2 / 2) (b / 2 / 2 / 2 / 2)
bit_or-sixteenth a b = omega (
  arith,
  bit_or_digit a b,
  bit_or_digit (a / 2) (b / 2),
  bit_or_digit (a / 2 / 2) (b / 2 / 2),
  bit_or_digit (a / 2 / 2 / 2) (b / 2 / 2 / 2),
)

bit_or_low_two : (a b : ℕ) → b % 4 ≡ 0 → bit_or a b % 4 ≡ a % 4
bit_or_low_two a b h = omega (arith, bit_or_digit a b, bit_or_digit (a / 2) (b / 2))

pub bit_or-IsStatus : (p m : ℕ) → IsStatus p → IsFlags m → IsStatus (bit_or p m)
bit_or-IsStatus p m h k = record {
  status_fits = bit_or-lt 8 p m (h.status_fits) (k.flags_fit);
  status_bits = omega (
    arith,
    bit_or-sixteenth p m,
    bit_or_low_two (p / 2 / 2 / 2 / 2) (m / 2 / 2 / 2 / 2) (omega (arith, k.flags_bits)),
    h.status_bits,
  );
}

-- The low digits of an intersection are at most the number's, so taking it away borrows nothing.
bit_and_low :
    (a b : ℕ)
    → (bit_and a b % 16 ≤ a % 16)
      × (bit_and a b / 16 ≡ bit_and (a / 2 / 2 / 2 / 2) (b / 2 / 2 / 2 / 2))
bit_and_low a b = omega (
  arith,
  bit_and_digit a b,
  bit_and_digit (a / 2) (b / 2),
  bit_and_digit (a / 2 / 2) (b / 2 / 2),
  bit_and_digit (a / 2 / 2 / 2) (b / 2 / 2 / 2),
)

bit_and_low_two : (a b : ℕ) → b % 4 ≡ 0 → bit_and a b % 4 ≡ 0
bit_and_low_two a b h = omega (arith, bit_and_digit a b, bit_and_digit (a / 2) (b / 2))

pub and_not-IsStatus : (p m : ℕ) → IsStatus p → IsFlags m → IsStatus (and_not p m)
and_not-IsStatus p m h k = record {
  status_fits = omega (arith, h.status_fits);
  status_bits = omega (
    arith,
    bit_and_low p m,
    bit_and-le p m,
    bit_and-le (p / 2 / 2 / 2 / 2) (m / 2 / 2 / 2 / 2),
    bit_and_low_two (p / 2 / 2 / 2 / 2) (m / 2 / 2 / 2 / 2) (omega (arith, k.flags_bits)),
    h.status_bits,
  );
}

-- N and Z of a result are flags.
pub nz-IsFlags : (v : ℕ) → IsFlags (nz v)
unfolding nz
nz-IsFlags v = elim (Bool-cases (v == 0)) [
  | inl e ↦ rw (e, (==_iff v 0).0 e) (omega arith)
  | inr e ↦
      rw (e, bit_and_128)
        (omega (arith, bit_or-add (v / 128 % 2 * 128) 0, bit_and-zero (v / 128 % 2 * 128)))
]

pub set_nz-IsStatus : (p v : ℕ) → IsStatus p → IsStatus (set_nz p v)
unfolding set_nz
set_nz-IsStatus p v h = bit_or-IsStatus _ _ (and_not-IsStatus p _ h (omega arith)) (nz-IsFlags v)

pub set_nz_clear_c-IsStatus : (p v : ℕ) → IsStatus p → IsStatus (set_nz_clear_c p v)
unfolding set_nz_clear_c
set_nz_clear_c-IsStatus p v h =
    bit_or-IsStatus _ _ (and_not-IsStatus p _ h (omega arith)) (nz-IsFlags v)
