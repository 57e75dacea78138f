-- ===== src/Undocumented/Runs.antt =====
-- The handlers of src/sixfiveohtwo/_undocumented.py: what each puts on the bus, the cycles that it makes,
-- and the ranges of the attributes after it.
use python.Prelude.{ℕ, ◌<◌, arith}
use python.Cpu.Runs.{Runs}
use python.Prelude.Bits.{bit_and-byte, bit_or-byte, bit_xor-byte}
use python.Cpu.Safe.{set_nz-IsStatus, set_nz_clear_c-IsStatus, bit_or-IsStatus}
use python.Alu.Ranges.{add-IsResult, subtract-IsResult, compare_flags-IsStatus}
use python.Shifts.Ranges.{asl-IsResult, lsr-IsResult, rol-IsResult, ror-IsResult, top_bit-IsFlags}
use python.Undocumented.Ranges.{
  arr-IsResult, sbx_flags-IsStatus, anded_store-byte, anded_store-address,
}
use python.Undocumented.{
  op_slo, op_rla, op_sre, op_rra, op_dcp, op_isc, op_sax, op_lax, op_las, op_anc, op_alr, op_arr,
  op_sbx, op_usbc, op_ane, op_lxa, op_sha, op_shx, op_shy, op_tas, op_nop_read, op_jam,
}

ruleset ranges = (
  arith, set_nz-IsStatus, set_nz_clear_c-IsStatus, bit_or-IsStatus, asl-IsResult, lsr-IsResult,
  rol-IsResult, ror-IsResult, add-IsResult, subtract-IsResult, compare_flags-IsStatus, arr-IsResult,
  sbx_flags-IsStatus, top_bit-IsFlags, anded_store-byte, anded_store-address, bit_and-byte,
  bit_or-byte, bit_xor-byte,
)

pub op_slo-Runs : (address : ℕ) → address < 65536 → Runs (λ _. Unit {0}) 3 (op_slo address)
unfolding op_slo
op_slo-Runs address h c n s = search ranges

pub op_rla-Runs : (address : ℕ) → address < 65536 → Runs (λ _. Unit {0}) 3 (op_rla address)
unfolding op_rla
op_rla-Runs address h c n s = search ranges

pub op_sre-Runs : (address : ℕ) → address < 65536 → Runs (λ _. Unit {0}) 3 (op_sre address)
unfolding op_sre
op_sre-Runs address h c n s = search ranges

pub op_rra-Runs : (address : ℕ) → address < 65536 → Runs (λ _. Unit {0}) 3 (op_rra address)
unfolding op_rra
op_rra-Runs address h c n s = search ranges

pub op_dcp-Runs : (address : ℕ) → address < 65536 → Runs (λ _. Unit {0}) 3 (op_dcp address)
unfolding op_dcp
op_dcp-Runs address h c n s = search ranges

pub op_isc-Runs : (address : ℕ) → address < 65536 → Runs (λ _. Unit {0}) 3 (op_isc address)
unfolding op_isc
op_isc-Runs address h c n s = search ranges

pub op_sax-Runs : (address : ℕ) → address < 65536 → Runs (λ _. Unit {0}) 1 (op_sax address)
unfolding op_sax
op_sax-Runs address h c n s = search ranges

pub op_lax-Runs : (address : ℕ) → address < 65536 → Runs (λ _. Unit {0}) 1 (op_lax address)
unfolding op_lax
op_lax-Runs address h c n s = search ranges

pub op_las-Runs : (address : ℕ) → address < 65536 → Runs (λ _. Unit {0}) 1 (op_las address)
unfolding op_las
op_las-Runs address h c n s = search ranges

pub op_anc-Runs : (address : ℕ) → address < 65536 → Runs (λ _. Unit {0}) 1 (op_anc address)
unfolding op_anc
op_anc-Runs address h c n s = search ranges

pub op_alr-Runs : (address : ℕ) → address < 65536 → Runs (λ _. Unit {0}) 1 (op_alr address)
unfolding op_alr
op_alr-Runs address h c n s = search ranges

pub op_arr-Runs : (address : ℕ) → address < 65536 → Runs (λ _. Unit {0}) 1 (op_arr address)
unfolding op_arr
op_arr-Runs address h c n s = search ranges

pub op_sbx-Runs : (address : ℕ) → address < 65536 → Runs (λ _. Unit {0}) 1 (op_sbx address)
unfolding op_sbx
op_sbx-Runs address h c n s = search ranges

pub op_usbc-Runs : (address : ℕ) → address < 65536 → Runs (λ _. Unit {0}) 1 (op_usbc address)
unfolding op_usbc
op_usbc-Runs address h c n s = search ranges

pub op_ane-Runs : (address : ℕ) → address < 65536 → Runs (λ _. Unit {0}) 1 (op_ane address)
unfolding op_ane
op_ane-Runs address h c n s = search ranges

pub op_lxa-Runs : (address : ℕ) → address < 65536 → Runs (λ _. Unit {0}) 1 (op_lxa address)
unfolding op_lxa
op_lxa-Runs address h c n s = search ranges

pub op_sha-Runs : (address : ℕ) → address < 65536 → Runs (λ _. Unit {0}) 1 (op_sha address)
unfolding op_sha
op_sha-Runs address h c n s = search ranges

pub op_shx-Runs : (address : ℕ) → address < 65536 → Runs (λ _. Unit {0}) 1 (op_shx address)
unfolding op_shx
op_shx-Runs address h c n s = search ranges

pub op_shy-Runs : (address : ℕ) → address < 65536 → Runs (λ _. Unit {0}) 1 (op_shy address)
unfolding op_shy
op_shy-Runs address h c n s = search ranges

pub op_tas-Runs : (address : ℕ) → address < 65536 → Runs (λ _. Unit {0}) 1 (op_tas address)
unfolding op_tas
op_tas-Runs address h c n s = search ranges

pub op_nop_read-Runs :
    (address : ℕ) → address < 65536 → Runs (λ _. Unit {0}) 1 (op_nop_read address)
unfolding op_nop_read
op_nop_read-Runs address h c n s = search ranges

-- JAM makes ten reads and stops the CPU.
pub op_jam-Runs : Runs (λ _. Unit {0}) 10 op_jam
unfolding op_jam
op_jam-Runs c n s = search ranges depth 15
