-- ===== src/Shifts/Runs.antt =====
-- The handlers of src/sixfiveohtwo/_shifts.py: what each puts on the bus, the cycles that it makes,
-- and the ranges of the attributes after it.
use python.Prelude.{ℕ, ◌<◌, arith}
use python.Cpu.Runs.{Runs}
use python.Cpu.Safe.{set_nz-IsStatus}
use python.Shifts.Ranges.{asl-IsResult, lsr-IsResult, rol-IsResult, ror-IsResult}
use python.Shifts.{
  op_asl, op_lsr, op_rol, op_ror, op_inc, op_dec, op_asl_a, op_lsr_a, op_rol_a, op_ror_a,
}

ruleset ranges = (arith, set_nz-IsStatus, asl-IsResult, lsr-IsResult, rol-IsResult, ror-IsResult)

pub op_asl-Runs : (address : ℕ) → address < 65536 → Runs (λ _. Unit {0}) 3 (op_asl address)
unfolding op_asl
op_asl-Runs address h c n s = search ranges

pub op_lsr-Runs : (address : ℕ) → address < 65536 → Runs (λ _. Unit {0}) 3 (op_lsr address)
unfolding op_lsr
op_lsr-Runs address h c n s = search ranges

pub op_rol-Runs : (address : ℕ) → address < 65536 → Runs (λ _. Unit {0}) 3 (op_rol address)
unfolding op_rol
op_rol-Runs address h c n s = search ranges

pub op_ror-Runs : (address : ℕ) → address < 65536 → Runs (λ _. Unit {0}) 3 (op_ror address)
unfolding op_ror
op_ror-Runs address h c n s = search ranges

pub op_inc-Runs : (address : ℕ) → address < 65536 → Runs (λ _. Unit {0}) 3 (op_inc address)
unfolding op_inc
op_inc-Runs address h c n s = search ranges

pub op_dec-Runs : (address : ℕ) → address < 65536 → Runs (λ _. Unit {0}) 3 (op_dec address)
unfolding op_dec
op_dec-Runs address h c n s = search ranges

pub op_asl_a-Runs : Runs (λ _. Unit {0}) 1 op_asl_a
unfolding op_asl_a
op_asl_a-Runs c n s = search ranges

pub op_lsr_a-Runs : Runs (λ _. Unit {0}) 1 op_lsr_a
unfolding op_lsr_a
op_lsr_a-Runs c n s = search ranges

pub op_rol_a-Runs : Runs (λ _. Unit {0}) 1 op_rol_a
unfolding op_rol_a
op_rol_a-Runs c n s = search ranges

pub op_ror_a-Runs : Runs (λ _. Unit {0}) 1 op_ror_a
unfolding op_ror_a
op_ror_a-Runs c n s = search ranges
