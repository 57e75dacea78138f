-- ===== src/Dispatch/Opcodes40.antt =====
-- The opcodes from 0x40 to 0x7f (src/sixfiveohtwo/_dispatch.py, `OPCODES`), one a line.
use python.Prelude.{List, [], ◌∷◌}
use python.Dispatch.Names.{Implied, Addressed, Mode, Entry, implied, addressed}

abbrev pub opcodes_40 : List Entry
opcodes_40 =
    implied Implied.rti 6
    ∷ addressed Addressed.eor Mode.izx 6
    ∷ implied Implied.jam 11
    ∷ addressed Addressed.sre Mode.izx 8
    ∷ addressed Addressed.nop_read Mode.zp 3
    ∷ addressed Addressed.eor Mode.zp 3
    ∷ addressed Addressed.lsr Mode.zp 5
    ∷ addressed Addressed.sre Mode.zp 5
    ∷ implied Implied.pha 3
    ∷ addressed Addressed.eor Mode.imm 2
    ∷ implied Implied.lsr_a 2
    ∷ addressed Addressed.alr Mode.imm 2
    ∷ implied Implied.jmp 3
    ∷ addressed Addressed.eor Mode.abs 4
    ∷ addressed Addressed.lsr Mode.abs 6
    ∷ addressed Addressed.sre Mode.abs 6
    ∷ implied Implied.bvc 2
    ∷ addressed Addressed.eor Mode.izy 5
    ∷ implied Implied.jam 11
    ∷ addressed Addressed.sre Mode.izy_w 8
    ∷ addressed Addressed.nop_read Mode.zpx 4
    ∷ addressed Addressed.eor Mode.zpx 4
    ∷ addressed Addressed.lsr Mode.zpx 6
    ∷ addressed Addressed.sre Mode.zpx 6
    ∷ implied Implied.cli 2
    ∷ addressed Addressed.eor Mode.aby 4
    ∷ implied Implied.nop 2
    ∷ addressed Addressed.sre Mode.aby_w 7
    ∷ addressed Addressed.nop_read Mode.abx 4
    ∷ addressed Addressed.eor Mode.abx 4
    ∷ addressed Addressed.lsr Mode.abx_w 7
    ∷ addressed Addressed.sre Mode.abx_w 7
    ∷ implied Implied.rts 6
    ∷ addressed Addressed.adc Mode.izx 6
    ∷ implied Implied.jam 11
    ∷ addressed Addressed.rra Mode.izx 8
    ∷ addressed Addressed.nop_read Mode.zp 3
    ∷ addressed Addressed.adc Mode.zp 3
    ∷ addressed Addressed.ror Mode.zp 5
    ∷ addressed Addressed.rra Mode.zp 5
    ∷ implied Implied.pla 4
    ∷ addressed Addressed.adc Mode.imm 2
    ∷ implied Implied.ror_a 2
    ∷ addressed Addressed.arr Mode.imm 2
    ∷ implied Implied.jmp_ind 5
    ∷ addressed Addressed.adc Mode.abs 4
    ∷ addressed Addressed.ror Mode.abs 6
    ∷ addressed Addressed.rra Mode.abs 6
    ∷ implied Implied.bvs 2
    ∷ addressed Addressed.adc Mode.izy 5
    ∷ implied Implied.jam 11
    ∷ addressed Addressed.rra Mode.izy_w 8
    ∷ addressed Addressed.nop_read Mode.zpx 4
    ∷ addressed Addressed.adc Mode.zpx 4
    ∷ addressed Addressed.ror Mode.zpx 6
    ∷ addressed Addressed.rra Mode.zpx 6
    ∷ implied Implied.sei 2
    ∷ addressed Addressed.adc Mode.aby 4
    ∷ implied Implied.nop 2
    ∷ addressed Addressed.rra Mode.aby_w 7
    ∷ addressed Addressed.nop_read Mode.abx 4
    ∷ addressed Addressed.adc Mode.abx 4
    ∷ addressed Addressed.ror Mode.abx_w 7
    ∷ addressed Addressed.rra Mode.abx_w 7
    ∷ []
