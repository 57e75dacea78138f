-- ===== src/Alu/Runs.antt =====
-- The handlers of src/sixfiveohtwo/_alu.py: what each puts on the bus, the cycles that it makes,
-- and the ranges of the attributes after it.
use python.Prelude.{ℕ, ◌<◌, arith}
use python.Cpu.Runs.{Runs}
use python.Prelude.Bits.{bit_and-byte, bit_or-byte, bit_xor-byte}
use python.Cpu.Safe.{set_nz-IsStatus}
use python.Alu.Ranges.{add-IsResult, subtract-IsResult, compare_flags-IsStatus, bit_flags-IsStatus}
use python.Alu.{op_adc, op_sbc, op_and, op_ora, op_eor, op_cmp, op_cpx, op_cpy, op_bit}

ruleset ranges = (
  arith, set_nz-IsStatus, add-IsResult, subtract-IsResult, compare_flags-IsStatus,
  bit_flags-IsStatus, bit_and-byte, bit_or-byte, bit_xor-byte,
)

pub op_adc-Runs : (address : ℕ) → address < 65536 → Runs (λ _. Unit {0}) 1 (op_adc address)
unfolding op_adc
op_adc-Runs address h c n s = search ranges

pub op_sbc-Runs : (address : ℕ) → address < 65536 → Runs (λ _. Unit {0}) 1 (op_sbc address)
unfolding op_sbc
op_sbc-Runs address h c n s = search ranges

pub op_and-Runs : (address : ℕ) → address < 65536 → Runs (λ _. Unit {0}) 1 (op_and address)
unfolding op_and
op_and-Runs address h c n s = search ranges

pub op_ora-Runs : (address : ℕ) → address < 65536 → Runs (λ _. Unit {0}) 1 (op_ora address)
unfolding op_ora
op_ora-Runs address h c n s = search ranges

pub op_eor-Runs : (address : ℕ) → address < 65536 → Runs (λ _. Unit {0}) 1 (op_eor address)
unfolding op_eor
op_eor-Runs address h c n s = search ranges

pub op_cmp-Runs : (address : ℕ) → address < 65536 → Runs (λ _. Unit {0}) 1 (op_cmp address)
unfolding op_cmp
op_cmp-Runs address h c n s = search ranges

pub op_cpx-Runs : (address : ℕ) → address < 65536 → Runs (λ _. Unit {0}) 1 (op_cpx address)
unfolding op_cpx
op_cpx-Runs address h c n s = search ranges

pub op_cpy-Runs : (address : ℕ) → address < 65536 → Runs (λ _. Unit {0}) 1 (op_cpy address)
unfolding op_cpy
op_cpy-Runs address h c n s = search ranges

pub op_bit-Runs : (address : ℕ) → address < 65536 → Runs (λ _. Unit {0}) 1 (op_bit address)
unfolding op_bit
op_bit-Runs address h c n s = search ranges
