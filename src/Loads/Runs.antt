-- ===== src/Loads/Runs.antt =====
-- The handlers of src/sixfiveohtwo/_loads.py: what each puts on the bus, the cycles that it makes,
-- and the ranges of the attributes after it.
use python.Prelude.{ℕ, ◌<◌, arith}
use python.Cpu.Runs.{Runs}
use python.Cpu.Safe.{set_nz-IsStatus}
use python.Loads.{
  op_lda, op_ldx, op_ldy, op_sta, op_stx, op_sty, op_tax, op_tay, op_txa, op_tya, op_tsx, op_txs,
  op_inx, op_iny, op_dex, op_dey,
}

ruleset ranges = (arith, set_nz-IsStatus)

pub op_lda-Runs : (address : ℕ) → address < 65536 → Runs (λ _. Unit {0}) 1 (op_lda address)
unfolding op_lda
op_lda-Runs address h c n s = search ranges

pub op_ldx-Runs : (address : ℕ) → address < 65536 → Runs (λ _. Unit {0}) 1 (op_ldx address)
unfolding op_ldx
op_ldx-Runs address h c n s = search ranges

pub op_ldy-Runs : (address : ℕ) → address < 65536 → Runs (λ _. Unit {0}) 1 (op_ldy address)
unfolding op_ldy
op_ldy-Runs address h c n s = search ranges

pub op_sta-Runs : (address : ℕ) → address < 65536 → Runs (λ _. Unit {0}) 1 (op_sta address)
unfolding op_sta
op_sta-Runs address h c n s = search ranges

pub op_stx-Runs : (address : ℕ) → address < 65536 → Runs (λ _. Unit {0}) 1 (op_stx address)
unfolding op_stx
op_stx-Runs address h c n s = search ranges

pub op_sty-Runs : (address : ℕ) → address < 65536 → Runs (λ _. Unit {0}) 1 (op_sty address)
unfolding op_sty
op_sty-Runs address h c n s = search ranges

pub op_tax-Runs : Runs (λ _. Unit {0}) 1 op_tax
unfolding op_tax
op_tax-Runs c n s = search ranges

pub op_tay-Runs : Runs (λ _. Unit {0}) 1 op_tay
unfolding op_tay
op_tay-Runs c n s = search ranges

pub op_txa-Runs : Runs (λ _. Unit {0}) 1 op_txa
unfolding op_txa
op_txa-Runs c n s = search ranges

pub op_tya-Runs : Runs (λ _. Unit {0}) 1 op_tya
unfolding op_tya
op_tya-Runs c n s = search ranges

pub op_tsx-Runs : Runs (λ _. Unit {0}) 1 op_tsx
unfolding op_tsx
op_tsx-Runs c n s = search ranges

pub op_txs-Runs : Runs (λ _. Unit {0}) 1 op_txs
unfolding op_txs
op_txs-Runs c n s = search ranges

pub op_inx-Runs : Runs (λ _. Unit {0}) 1 op_inx
unfolding op_inx
op_inx-Runs c n s = search ranges

pub op_iny-Runs : Runs (λ _. Unit {0}) 1 op_iny
unfolding op_iny
op_iny-Runs c n s = search ranges

pub op_dex-Runs : Runs (λ _. Unit {0}) 1 op_dex
unfolding op_dex
op_dex-Runs c n s = search ranges

pub op_dey-Runs : Runs (λ _. Unit {0}) 1 op_dey
unfolding op_dey
op_dey-Runs c n s = search ranges
