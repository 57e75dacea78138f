-- ===== src/Dispatch/Names.antt =====
-- The handler and mode names of the opcode map (src/sixfiveohtwo/_dispatch.py). A handler that
-- makes its own bus cycles has no mode; any other is given the address that its mode computes.
use python.Prelude.{ℕ}

pub data Implied : Type 0 where
  brk jam php asl_a bpl clc nop jsr plp rol_a bmi sec rti pha lsr_a jmp bvc cli rts pla ror_a :
      Implied
  jmp_ind bvs sei dey txa bcc tya txs tay tax bcs clv tsx iny dex bne cld inx beq sed : Implied

pub data Addressed : Type 0 where
  ora slo nop_read asl anc and rla bit rol eor sre lsr alr adc rra ror arr sta sax sty stx ane :
      Addressed
  sha tas shy shx ldy lda ldx lax lxa las cpy cmp dcp dec sbx cpx sbc isc inc usbc : Addressed

pub data Mode : Type 0 where
  izx zp imm abs izy izy_w zpx aby aby_w abx abx_w zpy : Mode

-- An entry of `OPCODES`: the handler, its mode, and the base cycle count.
pub data Entry : Type 0 where
  implied : Implied → ℕ → Entry
  addressed : Addressed → Mode → ℕ → Entry

unfoldable pub base_cycles : Entry → ℕ
base_cycles (implied _ cycles) = cycles
base_cycles (addressed _ _ cycles) = cycles
