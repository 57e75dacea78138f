-- ===== src/Dispatch/Opcodes80.antt =====
-- The opcodes from 0x80 to 0xbf (src/sixfiveohtwo/_dispatch.py, `OPCODES`), one a line.
use python.Prelude.{List, [], ◌∷◌}
use python.Dispatch.Names.{Implied, Addressed, Mode, Entry, implied, addressed}

abbrev pub opcodes_80 : List Entry
opcodes_80 =
    addressed Addressed.nop_read Mode.imm 2
    ∷ addressed Addressed.sta Mode.izx 6
    ∷ addressed Addressed.nop_read Mode.imm 2
    ∷ addressed Addressed.sax Mode.izx 6
    ∷ addressed Addressed.sty Mode.zp 3
    ∷ addressed Addressed.sta Mode.zp 3
    ∷ addressed Addressed.stx Mode.zp 3
    ∷ addressed Addressed.sax Mode.zp 3
    ∷ implied Implied.dey 2
    ∷ addressed Addressed.nop_read Mode.imm 2
    ∷ implied Implied.txa 2
    ∷ addressed Addressed.ane Mode.imm 2
    ∷ addressed Addressed.sty Mode.abs 4
    ∷ addressed Addressed.sta Mode.abs 4
    ∷ addressed Addressed.stx Mode.abs 4
    ∷ addressed Addressed.sax Mode.abs 4
    ∷ implied Implied.bcc 2
    ∷ addressed Addressed.sta Mode.izy_w 6
    ∷ implied Implied.jam 11
    ∷ addressed Addressed.sha Mode.izy_w 6
    ∷ addressed Addressed.sty Mode.zpx 4
    ∷ addressed Addressed.sta Mode.zpx 4
    ∷ addressed Addressed.stx Mode.zpy 4
    ∷ addressed Addressed.sax Mode.zpy 4
    ∷ implied Implied.tya 2
    ∷ addressed Addressed.sta Mode.aby_w 5
    ∷ implied Implied.txs 2
    ∷ addressed Addressed.tas Mode.aby_w 5
    ∷ addressed Addressed.shy Mode.abx_w 5
    ∷ addressed Addressed.sta Mode.abx_w 5
    ∷ addressed Addressed.shx Mode.aby_w 5
    ∷ addressed Addressed.sha Mode.aby_w 5
    ∷ addressed Addressed.ldy Mode.imm 2
    ∷ addressed Addressed.lda Mode.izx 6
    ∷ addressed Addressed.ldx Mode.imm 2
    ∷ addressed Addressed.lax Mode.izx 6
    ∷ addressed Addressed.ldy Mode.zp 3
    ∷ addressed Addressed.lda Mode.zp 3
    ∷ addressed Addressed.ldx Mode.zp 3
    ∷ addressed Addressed.lax Mode.zp 3
    ∷ implied Implied.tay 2
    ∷ addressed Addressed.lda Mode.imm 2
    ∷ implied Implied.tax 2
    ∷ addressed Addressed.lxa Mode.imm 2
    ∷ addressed Addressed.ldy Mode.abs 4
    ∷ addressed Addressed.lda Mode.abs 4
    ∷ addressed Addressed.ldx Mode.abs 4
    ∷ addressed Addressed.lax Mode.abs 4
    ∷ implied Implied.bcs 2
    ∷ addressed Addressed.lda Mode.izy 5
    ∷ implied Implied.jam 11
    ∷ addressed Addressed.lax Mode.izy 5
    ∷ addressed Addressed.ldy Mode.zpx 4
    ∷ addressed Addressed.lda Mode.zpx 4
    ∷ addressed Addressed.ldx Mode.zpy 4
    ∷ addressed Addressed.lax Mode.zpy 4
    ∷ implied Implied.clv 2
    ∷ addressed Addressed.lda Mode.aby 4
    ∷ implied Implied.tsx 2
    ∷ addressed Addressed.las Mode.aby 4
    ∷ addressed Addressed.ldy Mode.abx 4
    ∷ addressed Addressed.lda Mode.abx 4
    ∷ addressed Addressed.ldx Mode.aby 4
    ∷ addressed Addressed.lax Mode.aby 4
    ∷ []
