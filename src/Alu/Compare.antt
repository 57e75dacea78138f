-- ===== src/Alu/Compare.antt =====
-- Comparison sets the flags of unsigned order (src/sixfiveohtwo/_alu.py, `_compare`).
use python.Prelude.{ℕ, ◌+◌, ◌-◌, ◌*◌, ◌/◌, ◌%◌, ◌<◌, ◌≡◌, Bool, leb, ◌==◌, u8, arith}
use python.Prelude.Bits.{and_not, bit_and_even, bit_and_odd, bit_and-one}
use python.Flags.{set_nz_clear_c}
use python.Cpu.Safe.{IsStatus}
use python.Alu.{compare_flags}
use python.Alu.Status.{flag_if, or_c, or_nz}

-- P with its N, Z and C bits replaced.
unfoldable pub status_nzc : ℕ → Bool → Bool → Bool → ℕ
status_nzc p n z c = p / 4 % 32 * 4 + flag_if n 128 + flag_if z 2 + flag_if c 1

and_not_nzc : (p : ℕ) → IsStatus p → and_not p 0x83 ≡ p / 4 % 32 * 4
and_not_nzc p s = omega (
  arith,
  s.status_fits,
  bit_and_odd p 0x41,
  bit_and_odd (p / 2) 0x20,
  bit_and_even (p / 2 / 2) 0x10,
  bit_and_even (p / 2 / 2 / 2) 8,
  bit_and_even (p / 2 / 2 / 2 / 2) 4,
  bit_and_even (p / 2 / 2 / 2 / 2 / 2) 2,
  bit_and_even (p / 2 / 2 / 2 / 2 / 2 / 2) 1,
  bit_and-one (p / 2 / 2 / 2 / 2 / 2 / 2 / 2),
)

-- With a P in range, a comparison of two bytes sets C where the register is at least the operand and Z where they are
-- equal; N is the top bit of their difference modulo 256, and V, D, I and the other bits are kept.
pub compare_flags_lem :
    (register value p : ℕ)
    → register < 256
    → value < 256
    → IsStatus p
    → compare_flags register value p
      ≡ status_nzc p
          (leb 128 ((register + 256 - value) % 256))
          (register == value)
          (leb value register)
unfolding compare_flags set_nz_clear_c status_nzc
compare_flags_lem r v p h k s =
    let q = p / 4 % 32 * 4 in
    let d = u8 (r + 256 - v) in
    let m = flag_if (leb 128 d) 128 + flag_if (d == 0) 2 in
    rw (and_not_nzc p s) (
      rw (or_nz q d (omega arith) (omega arith) (omega arith))
        (rw (or_c (leb v r) (q + m) (ground arith)) (ground arith)))
