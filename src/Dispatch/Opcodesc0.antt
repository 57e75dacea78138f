-- ===== src/Dispatch/Opcodesc0.antt =====
-- The opcodes from 0xc0 to 0xff (src/sixfiveohtwo/_dispatch.py, `OPCODES`), one a line.
use python.Prelude.{List, [], ◌∷◌}
use python.Dispatch.Names.{Implied, Addressed, Mode, Entry, implied, addressed}

abbrev pub opcodes_c0 : List Entry
opcodes_c0 =
    addressed Addressed.cpy Mode.imm 2
    ∷ addressed Addressed.cmp Mode.izx 6
    ∷ addressed Addressed.nop_read Mode.imm 2
    ∷ addressed Addressed.dcp Mode.izx 8
    ∷ addressed Addressed.cpy Mode.zp 3
    ∷ addressed Addressed.cmp Mode.zp 3
    ∷ addressed Addressed.dec Mode.zp 5
    ∷ addressed Addressed.dcp Mode.zp 5
    ∷ implied Implied.iny 2
    ∷ addressed Addressed.cmp Mode.imm 2
    ∷ implied Implied.dex 2
    ∷ addressed Addressed.sbx Mode.imm 2
    ∷ addressed Addressed.cpy Mode.abs 4
    ∷ addressed Addressed.cmp Mode.abs 4
    ∷ addressed Addressed.dec Mode.abs 6
    ∷ addressed Addressed.dcp Mode.abs 6
    ∷ implied Implied.bne 2
    ∷ addressed Addressed.cmp Mode.izy 5
    ∷ implied Implied.jam 11
    ∷ addressed Addressed.dcp Mode.izy_w 8
    ∷ addressed Addressed.nop_read Mode.zpx 4
    ∷ addressed Addressed.cmp Mode.zpx 4
    ∷ addressed Addressed.dec Mode.zpx 6
    ∷ addressed Addressed.dcp Mode.zpx 6
    ∷ implied Implied.cld 2
    ∷ addressed Addressed.cmp Mode.aby 4
    ∷ implied Implied.nop 2
    ∷ addressed Addressed.dcp Mode.aby_w 7
    ∷ addressed Addressed.nop_read Mode.abx 4
    ∷ addressed Addressed.cmp Mode.abx 4
    ∷ addressed Addressed.dec Mode.abx_w 7
    ∷ addressed Addressed.dcp Mode.abx_w 7
    ∷ addressed Addressed.cpx Mode.imm 2
    ∷ addressed Addressed.sbc Mode.izx 6
    ∷ addressed Addressed.nop_read Mode.imm 2
    ∷ addressed Addressed.isc Mode.izx 8
    ∷ addressed Addressed.cpx Mode.zp 3
    ∷ addressed Addressed.sbc Mode.zp 3
    ∷ addressed Addressed.inc Mode.zp 5
    ∷ addressed Addressed.isc Mode.zp 5
    ∷ implied Implied.inx 2
    ∷ addressed Addressed.sbc Mode.imm 2
    ∷ implied Implied.nop 2
    ∷ addressed Addressed.usbc Mode.imm 2
    ∷ addressed Addressed.cpx Mode.abs 4
    ∷ addressed Addressed.sbc Mode.abs 4
    ∷ addressed Addressed.inc Mode.abs 6
    ∷ addressed Addressed.isc Mode.abs 6
    ∷ implied Implied.beq 2
    ∷ addressed Addressed.sbc Mode.izy 5
    ∷ implied Implied.jam 11
    ∷ addressed Addressed.isc Mode.izy_w 8
    ∷ addressed Addressed.nop_read Mode.zpx 4
    ∷ addressed Addressed.sbc Mode.zpx 4
    ∷ addressed Addressed.inc Mode.zpx 6
    ∷ addressed Addressed.isc Mode.zpx 6
    ∷ implied Implied.sed 2
    ∷ addressed Addressed.sbc Mode.aby 4
    ∷ implied Implied.nop 2
    ∷ addressed Addressed.isc Mode.aby_w 7
    ∷ addressed Addressed.nop_read Mode.abx 4
    ∷ addressed Addressed.sbc Mode.abx 4
    ∷ addressed Addressed.inc Mode.abx_w 7
    ∷ addressed Addressed.isc Mode.abx_w 7
    ∷ []
