-- ===== src/Shifts/Ranges.antt =====
-- The ranges of what src/sixfiveohtwo/_shifts.py computes.
use python.Prelude.{ℕ, ◌*◌, ◌/◌, ◌<◌, bit_and, bit_or, arith}
use python.Prelude.Bits.{bit_and-one, bit_or-byte}
use python.Flags.{flag_c}
use python.Cpu.Safe.{IsStatus, IsFlags, bit_or-IsStatus, set_nz_clear_c-IsStatus}
use python.Alu.Ranges.{IsResult}
use python.Shifts.{asl, lsr, rol, ror}

carry-IsFlags : (v : ℕ) → IsFlags (bit_and v flag_c)
carry-IsFlags v = rw bit_and-one (omega arith)

pub top_bit-IsFlags : (v : ℕ) → v < 256 → IsFlags (v / 0x80)
top_bit-IsFlags v h = omega arith

pub rotated-lt : (v p : ℕ) → v < 256 → bit_or (v / 2) (bit_and p flag_c * 0x80) < 256
rotated-lt v p h = bit_or-byte _ _ (omega arith) (omega (arith, bit_and-one p))

pub asl-IsResult : (v p : ℕ) → v < 256 → IsStatus p → IsResult (asl v p)
unfolding asl
asl-IsResult v p h k = record {
  result_fits = omega arith;
  result_status = bit_or-IsStatus _ _ (set_nz_clear_c-IsStatus p _ k) (top_bit-IsFlags v h);
}

pub lsr-IsResult : (v p : ℕ) → v < 256 → IsStatus p → IsResult (lsr v p)
unfolding lsr
lsr-IsResult v p h k = record {
  result_fits = omega arith;
  result_status = bit_or-IsStatus _ _ (set_nz_clear_c-IsStatus p _ k) (carry-IsFlags v);
}

pub rol-IsResult : (v p : ℕ) → v < 256 → IsStatus p → IsResult (rol v p)
unfolding rol
rol-IsResult v p h k = record {
  result_fits = omega arith;
  result_status = bit_or-IsStatus _ _ (set_nz_clear_c-IsStatus p _ k) (top_bit-IsFlags v h);
}

pub ror-IsResult : (v p : ℕ) → v < 256 → IsStatus p → IsResult (ror v p)
unfolding ror
ror-IsResult v p h k = record {
  result_fits = rotated-lt v p h;
  result_status = bit_or-IsStatus _ _ (set_nz_clear_c-IsStatus p _ k) (carry-IsFlags v);
}
