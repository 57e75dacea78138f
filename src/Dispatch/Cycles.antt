-- ===== src/Dispatch/Cycles.antt =====
-- The cycles of each mode and handler of the opcode map (src/sixfiveohtwo/_dispatch.py), and that
-- the table's counts are what they make.
use python.Prelude.{
  ℕ, ◌+◌, ◌<◌, ◌≡◌, refl, true, ◌==◌, ==_iff, every_below, every_below_lem, leb, leb→le, ◌≤◌,
}
use python.Cpu.Runs.{Runs, Charges, Finishes, Runs→Charges, Runs→Finishes, Charges→Finishes}
use python.Core.{fetch_word, izy_base, ea_abx, ea_aby, ea_abx_w, ea_aby_w, ea_izy, ea_izy_w, ea_abs}
use python.Core.Runs.{
  IsAddress, ea_imm-Runs, ea_zp-Runs, ea_zpx-Runs, ea_zpy-Runs, fetch_word-Runs, ea_izx-Runs,
  izy_base-Runs, indexing_write-Runs, indexing-Charges,
}
use python.Alu.Runs.{
  op_ora-Runs, op_and-Runs, op_bit-Runs, op_eor-Runs, op_adc-Runs, op_cpy-Runs, op_cmp-Runs,
  op_cpx-Runs, op_sbc-Runs,
}
use python.Loads.Runs.{
  op_dey-Runs, op_txa-Runs, op_tya-Runs, op_txs-Runs, op_tay-Runs, op_tax-Runs, op_tsx-Runs,
  op_iny-Runs, op_dex-Runs, op_inx-Runs, op_sta-Runs, op_sty-Runs, op_stx-Runs, op_ldy-Runs,
  op_lda-Runs, op_ldx-Runs,
}
use python.Shifts.Runs.{
  op_asl_a-Runs, op_rol_a-Runs, op_lsr_a-Runs, op_ror_a-Runs, op_asl-Runs, op_rol-Runs, op_lsr-Runs,
  op_ror-Runs, op_dec-Runs, op_inc-Runs,
}
use python.Control.Runs.{
  op_php-Runs, op_clc-Runs, op_nop-Runs, op_jsr-Runs, op_plp-Runs, op_sec-Runs, op_rti-Runs,
  op_pha-Runs, op_jmp-Runs, op_cli-Runs, op_rts-Runs, op_pla-Runs, op_jmp_ind-Runs, op_sei-Runs,
  op_clv-Runs, op_cld-Runs, op_sed-Runs,
}
use python.Undocumented.Runs.{
  op_jam-Runs, op_slo-Runs, op_nop_read-Runs, op_anc-Runs, op_rla-Runs, op_sre-Runs, op_alr-Runs,
  op_rra-Runs, op_arr-Runs, op_sax-Runs, op_ane-Runs, op_sha-Runs, op_tas-Runs, op_shy-Runs,
  op_shx-Runs, op_lax-Runs, op_lxa-Runs, op_las-Runs, op_dcp-Runs, op_sbx-Runs, op_isc-Runs,
  op_usbc-Runs,
}
use python.Control.Sequences.{branch-Charges, op_brk_lem}
use python.Control.{op_bpl, op_bmi, op_bvc, op_bvs, op_bcc, op_bcs, op_bne, op_beq}
use python.Dispatch.{effective_address, implied_handler, addressed_handler, entry}
use python.Dispatch.Names.{Implied, Addressed, Mode, Entry, implied, addressed, base_cycles}

-- The bus cycles of a mode, without the extra one of a crossed page.
unfoldable pub mode_cycles : Mode → ℕ
mode_cycles Mode.izx = 4
mode_cycles Mode.zp = 1
mode_cycles Mode.imm = 0
mode_cycles Mode.abs = 2
mode_cycles Mode.izy = 3
mode_cycles Mode.izy_w = 4
mode_cycles Mode.zpx = 2
mode_cycles Mode.aby = 2
mode_cycles Mode.aby_w = 3
mode_cycles Mode.abx = 2
mode_cycles Mode.abx_w = 3
mode_cycles Mode.zpy = 2

pub mode-Charges : (m : Mode) → Charges IsAddress (mode_cycles m) (effective_address m)
unfolding mode_cycles effective_address ea_abs ea_abx ea_aby ea_abx_w ea_aby_w ea_izy ea_izy_w
mode-Charges Mode.izx =
    Runs→Charges IsAddress (mode_cycles Mode.izx) (effective_address Mode.izx) ea_izx-Runs
mode-Charges Mode.zp =
    Runs→Charges IsAddress (mode_cycles Mode.zp) (effective_address Mode.zp) ea_zp-Runs
mode-Charges Mode.imm =
    Runs→Charges IsAddress (mode_cycles Mode.imm) (effective_address Mode.imm) ea_imm-Runs
mode-Charges Mode.abs =
    Runs→Charges IsAddress (mode_cycles Mode.abs) (effective_address Mode.abs) fetch_word-Runs
mode-Charges Mode.izy = indexing-Charges izy_base 3 (λ c. c.y) izy_base-Runs
mode-Charges Mode.izy_w =
    Runs→Charges IsAddress (mode_cycles Mode.izy_w) (effective_address Mode.izy_w)
      (indexing_write-Runs izy_base 3 (λ c. c.y) izy_base-Runs)
mode-Charges Mode.zpx =
    Runs→Charges IsAddress (mode_cycles Mode.zpx) (effective_address Mode.zpx) ea_zpx-Runs
mode-Charges Mode.aby = indexing-Charges fetch_word 2 (λ c. c.y) fetch_word-Runs
mode-Charges Mode.aby_w =
    Runs→Charges IsAddress (mode_cycles Mode.aby_w) (effective_address Mode.aby_w)
      (indexing_write-Runs fetch_word 2 (λ c. c.y) fetch_word-Runs)
mode-Charges Mode.abx = indexing-Charges fetch_word 2 (λ c. c.x) fetch_word-Runs
mode-Charges Mode.abx_w =
    Runs→Charges IsAddress (mode_cycles Mode.abx_w) (effective_address Mode.abx_w)
      (indexing_write-Runs fetch_word 2 (λ c. c.x) fetch_word-Runs)
mode-Charges Mode.zpy =
    Runs→Charges IsAddress (mode_cycles Mode.zpy) (effective_address Mode.zpy) ea_zpy-Runs

-- The bus cycles of a handler that is given an address.
unfoldable pub addressed_cycles : Addressed → ℕ
addressed_cycles Addressed.slo = 3
addressed_cycles Addressed.asl = 3
addressed_cycles Addressed.rla = 3
addressed_cycles Addressed.rol = 3
addressed_cycles Addressed.sre = 3
addressed_cycles Addressed.lsr = 3
addressed_cycles Addressed.rra = 3
addressed_cycles Addressed.ror = 3
addressed_cycles Addressed.dcp = 3
addressed_cycles Addressed.dec = 3
addressed_cycles Addressed.isc = 3
addressed_cycles Addressed.inc = 3
addressed_cycles _ = 1

pub addressed-Runs :
    (h : Addressed) (address : ℕ)
    → address < 65536
    → Runs (λ _. Unit {0}) (addressed_cycles h) (addressed_handler h address)
unfolding addressed_cycles addressed_handler
addressed-Runs Addressed.ora = op_ora-Runs
addressed-Runs Addressed.slo = op_slo-Runs
addressed-Runs Addressed.nop_read = op_nop_read-Runs
addressed-Runs Addressed.asl = op_asl-Runs
addressed-Runs Addressed.anc = op_anc-Runs
addressed-Runs Addressed.and = op_and-Runs
addressed-Runs Addressed.rla = op_rla-Runs
addressed-Runs Addressed.bit = op_bit-Runs
addressed-Runs Addressed.rol = op_rol-Runs
addressed-Runs Addressed.eor = op_eor-Runs
addressed-Runs Addressed.sre = op_sre-Runs
addressed-Runs Addressed.lsr = op_lsr-Runs
addressed-Runs Addressed.alr = op_alr-Runs
addressed-Runs Addressed.adc = op_adc-Runs
addressed-Runs Addressed.rra = op_rra-Runs
addressed-Runs Addressed.ror = op_ror-Runs
addressed-Runs Addressed.arr = op_arr-Runs
addressed-Runs Addressed.sta = op_sta-Runs
addressed-Runs Addressed.sax = op_sax-Runs
addressed-Runs Addressed.sty = op_sty-Runs
addressed-Runs Addressed.stx = op_stx-Runs
addressed-Runs Addressed.ane = op_ane-Runs
addressed-Runs Addressed.sha = op_sha-Runs
addressed-Runs Addressed.tas = op_tas-Runs
addressed-Runs Addressed.shy = op_shy-Runs
addressed-Runs Addressed.shx = op_shx-Runs
addressed-Runs Addressed.ldy = op_ldy-Runs
addressed-Runs Addressed.lda = op_lda-Runs
addressed-Runs Addressed.ldx = op_ldx-Runs
addressed-Runs Addressed.lax = op_lax-Runs
addressed-Runs Addressed.lxa = op_lxa-Runs
addressed-Runs Addressed.las = op_las-Runs
addressed-Runs Addressed.cpy = op_cpy-Runs
addressed-Runs Addressed.cmp = op_cmp-Runs
addressed-Runs Addressed.dcp = op_dcp-Runs
addressed-Runs Addressed.dec = op_dec-Runs
addressed-Runs Addressed.sbx = op_sbx-Runs
addressed-Runs Addressed.cpx = op_cpx-Runs
addressed-Runs Addressed.sbc = op_sbc-Runs
addressed-Runs Addressed.isc = op_isc-Runs
addressed-Runs Addressed.inc = op_inc-Runs
addressed-Runs Addressed.usbc = op_usbc-Runs

-- The bus cycles of a handler that makes its own, without those that a taken branch charges.
unfoldable pub implied_cycles : Implied → ℕ
implied_cycles Implied.brk = 6
implied_cycles Implied.jam = 10
implied_cycles Implied.php = 2
implied_cycles Implied.jsr = 5
implied_cycles Implied.plp = 3
implied_cycles Implied.rti = 5
implied_cycles Implied.pha = 2
implied_cycles Implied.jmp = 2
implied_cycles Implied.rts = 5
implied_cycles Implied.pla = 3
implied_cycles Implied.jmp_ind = 4
implied_cycles _ = 1

pub implied-Finishes : (h : Implied) → Finishes (implied_cycles h) (implied_handler h)
unfolding implied_cycles implied_handler op_bpl op_bmi op_bvc op_bvs op_bcc op_bcs op_bne op_beq
implied-Finishes Implied.brk = op_brk_lem
implied-Finishes Implied.jam =
    Runs→Finishes (λ _. Unit {0}) (implied_cycles Implied.jam) (implied_handler Implied.jam)
      op_jam-Runs
implied-Finishes Implied.php =
    Runs→Finishes (λ _. Unit {0}) (implied_cycles Implied.php) (implied_handler Implied.php)
      op_php-Runs
implied-Finishes Implied.asl_a =
    Runs→Finishes (λ _. Unit {0}) (implied_cycles Implied.asl_a) (implied_handler Implied.asl_a)
      op_asl_a-Runs
implied-Finishes Implied.bpl =
    Charges→Finishes (λ _. Unit {0}) 1 op_bpl (λ c n s e. branch-Charges _ c n s e)
implied-Finishes Implied.clc =
    Runs→Finishes (λ _. Unit {0}) (implied_cycles Implied.clc) (implied_handler Implied.clc)
      op_clc-Runs
implied-Finishes Implied.nop =
    Runs→Finishes (λ _. Unit {0}) (implied_cycles Implied.nop) (implied_handler Implied.nop)
      op_nop-Runs
implied-Finishes Implied.jsr =
    Runs→Finishes (λ _. Unit {0}) (implied_cycles Implied.jsr) (implied_handler Implied.jsr)
      op_jsr-Runs
implied-Finishes Implied.plp =
    Runs→Finishes (λ _. Unit {0}) (implied_cycles Implied.plp) (implied_handler Implied.plp)
      op_plp-Runs
implied-Finishes Implied.rol_a =
    Runs→Finishes (λ _. Unit {0}) (implied_cycles Implied.rol_a) (implied_handler Implied.rol_a)
      op_rol_a-Runs
implied-Finishes Implied.bmi =
    Charges→Finishes (λ _. Unit {0}) 1 op_bmi (λ c n s e. branch-Charges _ c n s e)
implied-Finishes Implied.sec =
    Runs→Finishes (λ _. Unit {0}) (implied_cycles Implied.sec) (implied_handler Implied.sec)
      op_sec-Runs
implied-Finishes Implied.rti =
    Runs→Finishes (λ _. Unit {0}) (implied_cycles Implied.rti) (implied_handler Implied.rti)
      op_rti-Runs
implied-Finishes Implied.pha =
    Runs→Finishes (λ _. Unit {0}) (implied_cycles Implied.pha) (implied_handler Implied.pha)
      op_pha-Runs
implied-Finishes Implied.lsr_a =
    Runs→Finishes (λ _. Unit {0}) (implied_cycles Implied.lsr_a) (implied_handler Implied.lsr_a)
      op_lsr_a-Runs
implied-Finishes Implied.jmp =
    Runs→Finishes (λ _. Unit {0}) (implied_cycles Implied.jmp) (implied_handler Implied.jmp)
      op_jmp-Runs
implied-Finishes Implied.bvc =
    Charges→Finishes (λ _. Unit {0}) 1 op_bvc (λ c n s e. branch-Charges _ c n s e)
implied-Finishes Implied.cli =
    Runs→Finishes (λ _. Unit {0}) (implied_cycles Implied.cli) (implied_handler Implied.cli)
      op_cli-Runs
implied-Finishes Implied.rts =
    Runs→Finishes (λ _. Unit {0}) (implied_cycles Implied.rts) (implied_handler Implied.rts)
      op_rts-Runs
implied-Finishes Implied.pla =
    Runs→Finishes (λ _. Unit {0}) (implied_cycles Implied.pla) (implied_handler Implied.pla)
      op_pla-Runs
implied-Finishes Implied.ror_a =
    Runs→Finishes (λ _. Unit {0}) (implied_cycles Implied.ror_a) (implied_handler Implied.ror_a)
      op_ror_a-Runs
implied-Finishes Implied.jmp_ind =
    Runs→Finishes (λ _. Unit {0}) (implied_cycles Implied.jmp_ind) (implied_handler Implied.jmp_ind)
      op_jmp_ind-Runs
implied-Finishes Implied.bvs =
    Charges→Finishes (λ _. Unit {0}) 1 op_bvs (λ c n s e. branch-Charges _ c n s e)
implied-Finishes Implied.sei =
    Runs→Finishes (λ _. Unit {0}) (implied_cycles Implied.sei) (implied_handler Implied.sei)
      op_sei-Runs
implied-Finishes Implied.dey =
    Runs→Finishes (λ _. Unit {0}) (implied_cycles Implied.dey) (implied_handler Implied.dey)
      op_dey-Runs
implied-Finishes Implied.txa =
    Runs→Finishes (λ _. Unit {0}) (implied_cycles Implied.txa) (implied_handler Implied.txa)
      op_txa-Runs
implied-Finishes Implied.bcc =
    Charges→Finishes (λ _. Unit {0}) 1 op_bcc (λ c n s e. branch-Charges _ c n s e)
implied-Finishes Implied.tya =
    Runs→Finishes (λ _. Unit {0}) (implied_cycles Implied.tya) (implied_handler Implied.tya)
      op_tya-Runs
implied-Finishes Implied.txs =
    Runs→Finishes (λ _. Unit {0}) (implied_cycles Implied.txs) (implied_handler Implied.txs)
      op_txs-Runs
implied-Finishes Implied.tay =
    Runs→Finishes (λ _. Unit {0}) (implied_cycles Implied.tay) (implied_handler Implied.tay)
      op_tay-Runs
implied-Finishes Implied.tax =
    Runs→Finishes (λ _. Unit {0}) (implied_cycles Implied.tax) (implied_handler Implied.tax)
      op_tax-Runs
implied-Finishes Implied.bcs =
    Charges→Finishes (λ _. Unit {0}) 1 op_bcs (λ c n s e. branch-Charges _ c n s e)
implied-Finishes Implied.clv =
    Runs→Finishes (λ _. Unit {0}) (implied_cycles Implied.clv) (implied_handler Implied.clv)
      op_clv-Runs
implied-Finishes Implied.tsx =
    Runs→Finishes (λ _. Unit {0}) (implied_cycles Implied.tsx) (implied_handler Implied.tsx)
      op_tsx-Runs
implied-Finishes Implied.iny =
    Runs→Finishes (λ _. Unit {0}) (implied_cycles Implied.iny) (implied_handler Implied.iny)
      op_iny-Runs
implied-Finishes Implied.dex =
    Runs→Finishes (λ _. Unit {0}) (implied_cycles Implied.dex) (implied_handler Implied.dex)
      op_dex-Runs
implied-Finishes Implied.bne =
    Charges→Finishes (λ _. Unit {0}) 1 op_bne (λ c n s e. branch-Charges _ c n s e)
implied-Finishes Implied.cld =
    Runs→Finishes (λ _. Unit {0}) (implied_cycles Implied.cld) (implied_handler Implied.cld)
      op_cld-Runs
implied-Finishes Implied.inx =
    Runs→Finishes (λ _. Unit {0}) (implied_cycles Implied.inx) (implied_handler Implied.inx)
      op_inx-Runs
implied-Finishes Implied.beq =
    Charges→Finishes (λ _. Unit {0}) 1 op_beq (λ c n s e. branch-Charges _ c n s e)
implied-Finishes Implied.sed =
    Runs→Finishes (λ _. Unit {0}) (implied_cycles Implied.sed) (implied_handler Implied.sed)
      op_sed-Runs

-- What the cycles of an entry come to, with the opcode's own fetch.
unfoldable pub entry_cycles : Entry → ℕ
entry_cycles (implied h _) = 1 + implied_cycles h
entry_cycles (addressed h m _) = 1 + (mode_cycles m + addressed_cycles h)

-- Each count of the table is at least two, so a step takes time.
positive_table : every_below 256 (λ opcode. leb 2 (base_cycles (entry opcode))) ≡ true
unfolding every_below entry base_cycles
positive_table = refl

pub two-le-base_cycles : (opcode : ℕ) → opcode < 256 → 2 ≤ base_cycles (entry opcode)
two-le-base_cycles opcode h =
    leb→le 2 _ (every_below_lem 256 (λ o. leb 2 (base_cycles (entry o))) opcode positive_table h)

counts_table :
    every_below 256 (λ opcode. entry_cycles (entry opcode) == base_cycles (entry opcode)) ≡ true
unfolding every_below entry_cycles entry base_cycles mode_cycles addressed_cycles implied_cycles
counts_table = refl

-- Each count of the table is the number of bus cycles that the entry's mode and handler make.
pub entry_cycles-eq-base_cycles :
    (opcode : ℕ) → opcode < 256 → entry_cycles (entry opcode) ≡ base_cycles (entry opcode)
entry_cycles-eq-base_cycles opcode h = (==_iff _ _).0 (
    every_below_lem 256 (λ o. entry_cycles (entry o) == base_cycles (entry o)) opcode counts_table
      h)
