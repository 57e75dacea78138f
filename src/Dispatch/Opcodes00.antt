-- ===== src/Dispatch/Opcodes00.antt =====
-- The opcodes from 0x00 to 0x3f (src/sixfiveohtwo/_dispatch.py, `OPCODES`), one a line.
use python.Prelude.{List, [], ◌∷◌}
use python.Dispatch.Names.{Implied, Addressed, Mode, Entry, implied, addressed}

abbrev pub opcodes_00 : List Entry
opcodes_00 =
    implied Implied.brk 7
    ∷ addressed Addressed.ora Mode.izx 6
    ∷ implied Implied.jam 11
    ∷ addressed Addressed.slo Mode.izx 8
    ∷ addressed Addressed.nop_read Mode.zp 3
    ∷ addressed Addressed.ora Mode.zp 3
    ∷ addressed Addressed.asl Mode.zp 5
    ∷ addressed Addressed.slo Mode.zp 5
    ∷ implied Implied.php 3
    ∷ addressed Addressed.ora Mode.imm 2
    ∷ implied Implied.asl_a 2
    ∷ addressed Addressed.anc Mode.imm 2
    ∷ addressed Addressed.nop_read Mode.abs 4
    ∷ addressed Addressed.ora Mode.abs 4
    ∷ addressed Addressed.asl Mode.abs 6
    ∷ addressed Addressed.slo Mode.abs 6
    ∷ implied Implied.bpl 2
    ∷ addressed Addressed.ora Mode.izy 5
    ∷ implied Implied.jam 11
    ∷ addressed Addressed.slo Mode.izy_w 8
    ∷ addressed Addressed.nop_read Mode.zpx 4
    ∷ addressed Addressed.ora Mode.zpx 4
    ∷ addressed Addressed.asl Mode.zpx 6
    ∷ addressed Addressed.slo Mode.zpx 6
    ∷ implied Implied.clc 2
    ∷ addressed Addressed.ora Mode.aby 4
    ∷ implied Implied.nop 2
    ∷ addressed Addressed.slo Mode.aby_w 7
    ∷ addressed Addressed.nop_read Mode.abx 4
    ∷ addressed Addressed.ora Mode.abx 4
    ∷ addressed Addressed.asl Mode.abx_w 7
    ∷ addressed Addressed.slo Mode.abx_w 7
    ∷ implied Implied.jsr 6
    ∷ addressed Addressed.and Mode.izx 6
    ∷ implied Implied.jam 11
    ∷ addressed Addressed.rla Mode.izx 8
    ∷ addressed Addressed.bit Mode.zp 3
    ∷ addressed Addressed.and Mode.zp 3
    ∷ addressed Addressed.rol Mode.zp 5
    ∷ addressed Addressed.rla Mode.zp 5
    ∷ implied Implied.plp 4
    ∷ addressed Addressed.and Mode.imm 2
    ∷ implied Implied.rol_a 2
    ∷ addressed Addressed.anc Mode.imm 2
    ∷ addressed Addressed.bit Mode.abs 4
    ∷ addressed Addressed.and Mode.abs 4
    ∷ addressed Addressed.rol Mode.abs 6
    ∷ addressed Addressed.rla Mode.abs 6
    ∷ implied Implied.bmi 2
    ∷ addressed Addressed.and Mode.izy 5
    ∷ implied Implied.jam 11
    ∷ addressed Addressed.rla Mode.izy_w 8
    ∷ addressed Addressed.nop_read Mode.zpx 4
    ∷ addressed Addressed.and Mode.zpx 4
    ∷ addressed Addressed.rol Mode.zpx 6
    ∷ addressed Addressed.rla Mode.zpx 6
    ∷ implied Implied.sec 2
    ∷ addressed Addressed.and Mode.aby 4
    ∷ implied Implied.nop 2
    ∷ addressed Addressed.rla Mode.aby_w 7
    ∷ addressed Addressed.nop_read Mode.abx 4
    ∷ addressed Addressed.and Mode.abx 4
    ∷ addressed Addressed.rol Mode.abx_w 7
    ∷ addressed Addressed.rla Mode.abx_w 7
    ∷ []
