-- ===== src/Undocumented/Ranges.antt =====
-- The ranges of what src/sixfiveohtwo/_undocumented.py computes.
use python.Prelude.{
  ℕ, ◌+◌, ◌-◌, ◌*◌, ◌/◌, ◌<◌, bit_and, bit_or, bit_xor, Bool, true, false, truth, leb, u8, u16,
  Bool-cases, inl, inr, if◌then◌else◌, arith,
}
use python.Prelude.Bits.{
  and_not, bit_and-le, bit_and_64, bit_and_low_nibble, bit_or-byte, bit_or-shifted,
}
use python.Flags.{flag_v, flag_c, nz}
use python.Core.{crosses_page}
use python.Cpu.Safe.{
  IsStatus, IsFlags, bit_or-IsStatus, and_not-IsStatus, nz-IsFlags, set_nz_clear_c-IsStatus,
}
use python.Alu.{flags_nvzc}
use python.Alu.Ranges.{IsResult, or_if-IsStatus}
use python.Shifts.Ranges.{rotated-lt}
use python.Undocumented.{arr, arr_decimal, sbx_flags, anded_store}

arr_low-lt :
    (b : Bool) (r : ℕ)
    → r < 256
    → (if b then bit_or (bit_and r 0xf0) (bit_and (r + 0x06) 0x0f) else r) < 256
arr_low-lt true r h =
    bit_or-byte _ _ (omega (arith, bit_and-le r 0xf0))
      (omega (arith, bit_and_low_nibble (r + 0x06)))
arr_low-lt false r h = h

arr_decimal-IsResult : (v r p : ℕ) → r < 256 → IsStatus p → IsResult (arr_decimal v r p)
unfolding arr_decimal
arr_decimal-IsResult v r p h k = record {
  result_fits = elim (Bool-cases (leb 0x50 (bit_and v 0xf0))) [
    | inl e ↦ rw e (omega arith)
    | inr e ↦ rw e (arr_low-lt _ r h)
  ];
  result_status = or_if-IsStatus _ _ _ (omega arith) k;
}

arr-IsStatus :
    (p r m : ℕ)
    → IsStatus p
    → IsStatus (bit_or (bit_or (and_not p flags_nvzc) (nz r)) (bit_and m flag_v))
arr-IsStatus p r m h =
    bit_or-IsStatus _ _ (bit_or-IsStatus _ _ (and_not-IsStatus p _ h (omega arith)) (nz-IsFlags r))
      (rw bit_and_64 (omega arith))

pub arr-IsResult : (v p mode : ℕ) → v < 256 → IsStatus p → IsResult (arr v p mode)
unfolding arr
arr-IsResult v p mode h k =
    let r : ℕ = bit_or (v / 2) (bit_and p flag_c * 0x80) in
    let p' : ℕ =
      bit_or (bit_or (and_not p flags_nvzc) (nz r)) (bit_and (bit_xor r (r * 2)) flag_v) in
    elim (Bool-cases (truth (bit_and p' mode))) [
      | inl e ↦ rw e (arr_decimal-IsResult v r p' (rotated-lt v p h) (arr-IsStatus p r _ k))
      | inr e ↦ rw e (record {
        result_fits = rotated-lt v p h;
        result_status = or_if-IsStatus _ _ _ (omega arith) (arr-IsStatus p r _ k);
      })
    ]

flag_choice : (b : Bool) → IsFlags (if b then flag_c else 0)
flag_choice true = omega arith
flag_choice false = omega arith

pub sbx_flags-IsStatus : (r v p : ℕ) → IsStatus p → IsStatus (sbx_flags r v p)
unfolding sbx_flags
sbx_flags-IsStatus r v p h = bit_or-IsStatus _ _ (set_nz_clear_c-IsStatus p _ h) (flag_choice _)

-- The address and the value that SHA, SHX, SHY and TAS store stay on the bus's 16 and 8 bits.
pub anded_store-byte : (address index v : ℕ) → v < 256 → (anded_store address index v).1 < 256
unfolding anded_store
anded_store-byte address index v h = omega (
  arith,
  bit_and-le v (u16 (address + 0x10000 - index) / 0x100 + 1),
  bit_and-le (bit_and v (u16 (address + 0x10000 - index) / 0x100 + 1)) 0xff,
)

pub anded_store-address :
    (address index v : ℕ) → address < 65536 → v < 256 → (anded_store address index v).0 < 65536
unfolding anded_store
anded_store-address address index v h k =
    elim (Bool-cases (crosses_page address (u16 (address + 0x10000 - index)))) [
      | inl e ↦ rw e (
          omega (
            arith,
            bit_or-shifted 8 (anded_store address index v).1 (u8 address) (omega arith),
            anded_store-byte address index v k,
          ))
      | inr e ↦ rw e h
    ]
