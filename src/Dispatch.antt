-- ===== src/Dispatch.antt =====
-- src/sixfiveohtwo/_dispatch.py: the opcode map, and the methods that its names resolve to. The
-- table is in four quarters, which `opcodes` joins.
pub mod Names
pub mod Cycles
mod Opcodes00
mod Opcodes40
mod Opcodes80
mod Opcodesc0
use python.Prelude.{ℕ, ◌+◌, List, [], ◌∷◌, ◌++◌, Option, none, some, get_elem?, maybe}
use python.Cpu.{Program, Action}
use python.Core.{
  ea_imm, ea_zp, ea_zpx, ea_zpy, ea_abs, ea_abx, ea_aby, ea_abx_w, ea_aby_w, ea_izx, ea_izy,
  ea_izy_w,
}
use python.Alu.{op_adc, op_sbc, op_and, op_ora, op_eor, op_cmp, op_cpx, op_cpy, op_bit}
use python.Loads.{
  op_lda, op_ldx, op_ldy, op_sta, op_stx, op_sty, op_tax, op_tay, op_txa, op_tya, op_tsx, op_txs,
  op_inx, op_iny, op_dex, op_dey,
}
use python.Shifts.{
  op_asl, op_lsr, op_rol, op_ror, op_inc, op_dec, op_asl_a, op_lsr_a, op_rol_a, op_ror_a,
}
use python.Control.{
  op_bpl, op_bmi, op_bvc, op_bvs, op_bcc, op_bcs, op_bne, op_beq, op_jmp, op_jmp_ind, op_jsr,
  op_rts, op_pha, op_php, op_pla, op_plp, op_clc, op_sec, op_cld, op_sed, op_clv, op_cli, op_sei,
  op_nop, op_brk, op_rti,
}
use python.Undocumented.{
  op_slo, op_rla, op_sre, op_rra, op_dcp, op_isc, op_sax, op_lax, op_las, op_anc, op_alr, op_arr,
  op_sbx, op_usbc, op_ane, op_lxa, op_sha, op_shx, op_shy, op_tas, op_nop_read, op_jam,
}
use Names.{Implied, Addressed, Mode, Entry, implied, addressed}
use Opcodes00.{opcodes_00}
use Opcodes40.{opcodes_40}
use Opcodes80.{opcodes_80}
use Opcodesc0.{opcodes_c0}

abbrev pub opcodes : List Entry
opcodes = opcodes_00 ++ (opcodes_40 ++ (opcodes_80 ++ opcodes_c0))

-- The table's entry of an opcode, a byte; an index past the table's end never occurs.
unfoldable pub entry : ℕ → Entry
entry opcode = maybe (implied Implied.nop 2) (λ e. e) (get_elem? opcodes opcode)

-- `getattr(cls, f"_ea_{mode}")`
unfoldable pub effective_address : Mode → Program ℕ
effective_address Mode.izx = ea_izx
effective_address Mode.zp = ea_zp
effective_address Mode.imm = ea_imm
effective_address Mode.abs = ea_abs
effective_address Mode.izy = ea_izy
effective_address Mode.izy_w = ea_izy_w
effective_address Mode.zpx = ea_zpx
effective_address Mode.aby = ea_aby
effective_address Mode.aby_w = ea_aby_w
effective_address Mode.abx = ea_abx
effective_address Mode.abx_w = ea_abx_w
effective_address Mode.zpy = ea_zpy

-- `getattr(cls, f"_op_{handler}")`
unfoldable pub implied_handler : Implied → Action
implied_handler Implied.brk = op_brk
implied_handler Implied.jam = op_jam
implied_handler Implied.php = op_php
implied_handler Implied.asl_a = op_asl_a
implied_handler Implied.bpl = op_bpl
implied_handler Implied.clc = op_clc
implied_handler Implied.nop = op_nop
implied_handler Implied.jsr = op_jsr
implied_handler Implied.plp = op_plp
implied_handler Implied.rol_a = op_rol_a
implied_handler Implied.bmi = op_bmi
implied_handler Implied.sec = op_sec
implied_handler Implied.rti = op_rti
implied_handler Implied.pha = op_pha
implied_handler Implied.lsr_a = op_lsr_a
implied_handler Implied.jmp = op_jmp
implied_handler Implied.bvc = op_bvc
implied_handler Implied.cli = op_cli
implied_handler Implied.rts = op_rts
implied_handler Implied.pla = op_pla
implied_handler Implied.ror_a = op_ror_a
implied_handler Implied.jmp_ind = op_jmp_ind
implied_handler Implied.bvs = op_bvs
implied_handler Implied.sei = op_sei
implied_handler Implied.dey = op_dey
implied_handler Implied.txa = op_txa
implied_handler Implied.bcc = op_bcc
implied_handler Implied.tya = op_tya
implied_handler Implied.txs = op_txs
implied_handler Implied.tay = op_tay
implied_handler Implied.tax = op_tax
implied_handler Implied.bcs = op_bcs
implied_handler Implied.clv = op_clv
implied_handler Implied.tsx = op_tsx
implied_handler Implied.iny = op_iny
implied_handler Implied.dex = op_dex
implied_handler Implied.bne = op_bne
implied_handler Implied.cld = op_cld
implied_handler Implied.inx = op_inx
implied_handler Implied.beq = op_beq
implied_handler Implied.sed = op_sed

-- The same, of a handler that takes an address.
unfoldable pub addressed_handler : Addressed → ℕ → Action
addressed_handler Addressed.ora = op_ora
addressed_handler Addressed.slo = op_slo
addressed_handler Addressed.nop_read = op_nop_read
addressed_handler Addressed.asl = op_asl
addressed_handler Addressed.anc = op_anc
addressed_handler Addressed.and = op_and
addressed_handler Addressed.rla = op_rla
addressed_handler Addressed.bit = op_bit
addressed_handler Addressed.rol = op_rol
addressed_handler Addressed.eor = op_eor
addressed_handler Addressed.sre = op_sre
addressed_handler Addressed.lsr = op_lsr
addressed_handler Addressed.alr = op_alr
addressed_handler Addressed.adc = op_adc
addressed_handler Addressed.rra = op_rra
addressed_handler Addressed.ror = op_ror
addressed_handler Addressed.arr = op_arr
addressed_handler Addressed.sta = op_sta
addressed_handler Addressed.sax = op_sax
addressed_handler Addressed.sty = op_sty
addressed_handler Addressed.stx = op_stx
addressed_handler Addressed.ane = op_ane
addressed_handler Addressed.sha = op_sha
addressed_handler Addressed.tas = op_tas
addressed_handler Addressed.shy = op_shy
addressed_handler Addressed.shx = op_shx
addressed_handler Addressed.ldy = op_ldy
addressed_handler Addressed.lda = op_lda
addressed_handler Addressed.ldx = op_ldx
addressed_handler Addressed.lax = op_lax
addressed_handler Addressed.lxa = op_lxa
addressed_handler Addressed.las = op_las
addressed_handler Addressed.cpy = op_cpy
addressed_handler Addressed.cmp = op_cmp
addressed_handler Addressed.dcp = op_dcp
addressed_handler Addressed.dec = op_dec
addressed_handler Addressed.sbx = op_sbx
addressed_handler Addressed.cpx = op_cpx
addressed_handler Addressed.sbc = op_sbc
addressed_handler Addressed.isc = op_isc
addressed_handler Addressed.inc = op_inc
addressed_handler Addressed.usbc = op_usbc
