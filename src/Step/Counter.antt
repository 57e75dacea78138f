-- ===== src/Step/Counter.antt =====
-- How far PC moves in the handlers that do not jump, and in the addressing modes.
use python.Prelude.{
  ℕ, ◌+◌, ◌≡◌, refl, ◌∙◌, ap, Bool, true, false, u16, truth, ◌<◌, if◌then◌else◌, arith,
}
use python.Cpu.{Cpu, Program, ret, get, put, read_cycle, ◌>>=◌, Bus, routed, run}
use python.Frame.{run_calls}
use python.Cpu.Binds.{run-bind}
use python.Core.{
  ea_imm, ea_zp, ea_zpx, ea_zpy, ea_abs, ea_abx, ea_aby, ea_abx_w, ea_aby_w, ea_izx, ea_izy,
  ea_izy_w, fetch, fetch_word, indexed, crosses_page, zero_page_word, izy_base, charge, same_page,
  set_pc,
}
use python.Alu.{op_adc, op_sbc, op_and, op_ora, op_eor, op_cmp, op_cpx, op_cpy, op_bit}
use python.Loads.{
  op_lda, op_ldx, op_ldy, op_sta, op_stx, op_sty, op_tax, op_tay, op_txa, op_tya, op_tsx, op_txs,
  op_inx, op_iny, op_dex, op_dey,
}
use python.Shifts.{
  op_asl, op_lsr, op_rol, op_ror, op_inc, op_dec, op_asl_a, op_lsr_a, op_rol_a, op_ror_a,
}
use python.Control.{
  op_pha, op_php, op_pla, op_plp, op_clc, op_sec, op_cld, op_sed, op_clv, op_cli, op_sei, op_nop,
}
use python.Undocumented.{
  op_slo, op_rla, op_sre, op_rra, op_dcp, op_isc, op_sax, op_lax, op_las, op_anc, op_alr, op_arr,
  op_sbx, op_usbc, op_ane, op_lxa, op_sha, op_shx, op_shy, op_tas, op_nop_read, op_jam,
}
use python.Step.{dispatch, count_cycles, execute}
use python.Dispatch.{entry, effective_address, implied_handler, addressed_handler}
use python.Dispatch.Names.{Implied, Addressed, Mode, Entry, implied, addressed, base_cycles}

-- A handler that may set PC to an address other than that of the next instruction.
unfoldable pub jumps : Implied → Bool
jumps Implied.brk = true
jumps Implied.bpl = true
jumps Implied.jsr = true
jumps Implied.bmi = true
jumps Implied.rti = true
jumps Implied.jmp = true
jumps Implied.bvc = true
jumps Implied.rts = true
jumps Implied.jmp_ind = true
jumps Implied.bvs = true
jumps Implied.bcc = true
jumps Implied.bcs = true
jumps Implied.bne = true
jumps Implied.beq = true
jumps _ = false

-- The operand bytes that a mode takes at PC.
unfoldable pub operand_bytes : Mode → ℕ
operand_bytes Mode.abs = 2
operand_bytes Mode.abx = 2
operand_bytes Mode.aby = 2
operand_bytes Mode.abx_w = 2
operand_bytes Mode.aby_w = 2
operand_bytes _ = 1

two_bytes : (pc : ℕ) → u16 (u16 (pc + 1) + 1) ≡ u16 (pc + 2)
two_bytes pc = omega arith

module _ {H : Type 0} (bus : Bus H) where
  implied_handler-pc :
      (handler : Implied) (c : Cpu) (h : H)
      → jumps handler ≡ false
      → (run bus (implied_handler handler) c h).1.pc ≡ c.pc
  unfolding jumps run implied_handler op_jam op_php op_asl_a op_clc op_nop op_plp op_rol_a op_sec
      op_pha op_lsr_a op_cli op_pla op_ror_a op_sei op_dey op_txa op_tya op_txs op_tay op_tax op_clv
      op_tsx op_iny op_dex op_cld op_inx op_sed
  implied_handler-pc Implied.brk c h e = cc
  implied_handler-pc Implied.jam c h e = refl
  implied_handler-pc Implied.php c h e = refl
  implied_handler-pc Implied.asl_a c h e = refl
  implied_handler-pc Implied.bpl c h e = cc
  implied_handler-pc Implied.clc c h e = refl
  implied_handler-pc Implied.nop c h e = refl
  implied_handler-pc Implied.jsr c h e = cc
  implied_handler-pc Implied.plp c h e = refl
  implied_handler-pc Implied.rol_a c h e = refl
  implied_handler-pc Implied.bmi c h e = cc
  implied_handler-pc Implied.sec c h e = refl
  implied_handler-pc Implied.rti c h e = cc
  implied_handler-pc Implied.pha c h e = refl
  implied_handler-pc Implied.lsr_a c h e = refl
  implied_handler-pc Implied.jmp c h e = cc
  implied_handler-pc Implied.bvc c h e = cc
  implied_handler-pc Implied.cli c h e = refl
  implied_handler-pc Implied.rts c h e = cc
  implied_handler-pc Implied.pla c h e = refl
  implied_handler-pc Implied.ror_a c h e = refl
  implied_handler-pc Implied.jmp_ind c h e = cc
  implied_handler-pc Implied.bvs c h e = cc
  implied_handler-pc Implied.sei c h e = refl
  implied_handler-pc Implied.dey c h e = refl
  implied_handler-pc Implied.txa c h e = refl
  implied_handler-pc Implied.bcc c h e = cc
  implied_handler-pc Implied.tya c h e = refl
  implied_handler-pc Implied.txs c h e = refl
  implied_handler-pc Implied.tay c h e = refl
  implied_handler-pc Implied.tax c h e = refl
  implied_handler-pc Implied.bcs c h e = cc
  implied_handler-pc Implied.clv c h e = refl
  implied_handler-pc Implied.tsx c h e = refl
  implied_handler-pc Implied.iny c h e = refl
  implied_handler-pc Implied.dex c h e = refl
  implied_handler-pc Implied.bne c h e = cc
  implied_handler-pc Implied.cld c h e = refl
  implied_handler-pc Implied.inx c h e = refl
  implied_handler-pc Implied.beq c h e = cc
  implied_handler-pc Implied.sed c h e = refl

  pub addressed_handler-pc :
      (handler : Addressed) (address : ℕ) (c : Cpu) (h : H)
      → (run bus (addressed_handler handler address) c h).1.pc ≡ c.pc
  unfolding run addressed_handler op_ora op_slo op_nop_read op_asl op_anc op_and op_rla op_bit
      op_rol op_eor op_sre op_lsr op_alr op_adc op_rra op_ror op_arr op_sta op_sax op_sty op_stx
      op_ane op_sha op_tas op_shy op_shx op_ldy op_lda op_ldx op_lax op_lxa op_las op_cpy op_cmp
      op_dcp op_dec op_sbx op_cpx op_sbc op_isc op_inc op_usbc
  addressed_handler-pc Addressed.ora address c h = refl
  addressed_handler-pc Addressed.slo address c h = refl
  addressed_handler-pc Addressed.nop_read address c h = refl
  addressed_handler-pc Addressed.asl address c h = refl
  addressed_handler-pc Addressed.anc address c h = refl
  addressed_handler-pc Addressed.and address c h = refl
  addressed_handler-pc Addressed.rla address c h = refl
  addressed_handler-pc Addressed.bit address c h = refl
  addressed_handler-pc Addressed.rol address c h = refl
  addressed_handler-pc Addressed.eor address c h = refl
  addressed_handler-pc Addressed.sre address c h = refl
  addressed_handler-pc Addressed.lsr address c h = refl
  addressed_handler-pc Addressed.alr address c h = refl
  addressed_handler-pc Addressed.adc address c h = refl
  addressed_handler-pc Addressed.rra address c h = refl
  addressed_handler-pc Addressed.ror address c h = refl
  addressed_handler-pc Addressed.arr address c h = refl
  addressed_handler-pc Addressed.sta address c h = refl
  addressed_handler-pc Addressed.sax address c h = refl
  addressed_handler-pc Addressed.sty address c h = refl
  addressed_handler-pc Addressed.stx address c h = refl
  addressed_handler-pc Addressed.ane address c h = refl
  addressed_handler-pc Addressed.sha address c h = refl
  addressed_handler-pc Addressed.tas address c h = refl
  addressed_handler-pc Addressed.shy address c h = refl
  addressed_handler-pc Addressed.shx address c h = refl
  addressed_handler-pc Addressed.ldy address c h = refl
  addressed_handler-pc Addressed.lda address c h = refl
  addressed_handler-pc Addressed.ldx address c h = refl
  addressed_handler-pc Addressed.lax address c h = refl
  addressed_handler-pc Addressed.lxa address c h = refl
  addressed_handler-pc Addressed.las address c h = refl
  addressed_handler-pc Addressed.cpy address c h = refl
  addressed_handler-pc Addressed.cmp address c h = refl
  addressed_handler-pc Addressed.dcp address c h = refl
  addressed_handler-pc Addressed.dec address c h = refl
  addressed_handler-pc Addressed.sbx address c h = refl
  addressed_handler-pc Addressed.cpx address c h = refl
  addressed_handler-pc Addressed.sbc address c h = refl
  addressed_handler-pc Addressed.isc address c h = refl
  addressed_handler-pc Addressed.inc address c h = refl
  addressed_handler-pc Addressed.usbc address c h = refl

  indexed-pc :
      (base index : ℕ) (is_write : Bool) (c : Cpu) (h : H)
      → (run bus (indexed base index is_write) c h).1.pc ≡ c.pc
  unfolding indexed run charge
  indexed-pc base index true c h = refl
  indexed-pc base index false c h = go (crosses_page (u16 (base + index)) base)
    where
      go :
          (b : Bool)
          → (run bus
              (if b
                then (read_cycle
                    (same_page base (u16 (base + index)))
                    λ _. charge false >>= λ _. ret (u16 (base + index)))
                else ret (u16 (base + index)))
              c
              h).1.pc
            ≡ c.pc
      go true = refl
      go false = refl

  -- After a base is fetched, indexing it leaves PC.
  indexed_base-pc :
      (fetching : Program ℕ) (index : Cpu → ℕ) (is_write : Bool) (c : Cpu) (h : H)
      → (run bus (fetching >>= λ base. get λ d. indexed base (index d) is_write) c h).1.pc
        ≡ (run bus fetching c h).1.pc
  unfolding run
  indexed_base-pc fetching index is_write c h =
      let (base, d, h') = run bus fetching c h in
      ap (λ r. r.1.pc)
        (run-bind bus fetching (λ base. get λ d. indexed base (index d) is_write) c h)
      ∙ indexed-pc base (index d) is_write d h'

  pub effective_address-pc :
      (mode : Mode) (c : Cpu) (h : H)
      → (run bus (effective_address mode) c h).1.pc ≡ u16 (c.pc + operand_bytes mode)
  unfolding effective_address operand_bytes run ea_imm ea_zp ea_zpx ea_zpy ea_abs ea_abx ea_aby
      ea_abx_w ea_aby_w ea_izx ea_izy ea_izy_w fetch fetch_word zero_page_word izy_base
  effective_address-pc Mode.izx c h = refl
  effective_address-pc Mode.zp c h = refl
  effective_address-pc Mode.imm c h = refl
  effective_address-pc Mode.abs c h = omega arith
  effective_address-pc Mode.izy c h = indexed_base-pc izy_base (λ d. d.y) false c h
  effective_address-pc Mode.izy_w c h = indexed_base-pc izy_base (λ d. d.y) true c h
  effective_address-pc Mode.zpx c h = refl
  effective_address-pc Mode.aby c h =
      indexed_base-pc fetch_word (λ d. d.y) false c h ∙ two_bytes c.pc
  effective_address-pc Mode.aby_w c h =
      indexed_base-pc fetch_word (λ d. d.y) true c h ∙ two_bytes c.pc
  effective_address-pc Mode.abx c h =
      indexed_base-pc fetch_word (λ d. d.x) false c h ∙ two_bytes c.pc
  effective_address-pc Mode.abx_w c h =
      indexed_base-pc fetch_word (λ d. d.x) true c h ∙ two_bytes c.pc
  effective_address-pc Mode.zpy c h = refl

-- Whether the handler of an entry may jump, and the operand bytes that the entry takes.
unfoldable pub entry_jumps : Entry → Bool
unfolding jumps
entry_jumps (implied handler _) = jumps handler
entry_jumps (addressed _ _ _) = false

unfoldable pub entry_operands : Entry → ℕ
unfolding operand_bytes
entry_operands (implied _ _) = 0
entry_operands (addressed _ mode _) = operand_bytes mode

module _ {H : Type 0} (bus : Bus H) where
  dispatch-pc :
      (e : Entry) (c : Cpu) (h : H)
      → entry_jumps e ≡ false
      → c.pc < 65536
      → (run bus (dispatch e) c h).1.pc ≡ u16 (c.pc + entry_operands e)
  unfolding dispatch entry_jumps entry_operands
  dispatch-pc (implied handler k) c h j l = implied_handler-pc bus handler c h j ∙ omega arith
  dispatch-pc (addressed handler mode k) c h j l =
      let (address, d, h') = run bus (effective_address mode) c h in
      ap (λ r. r.1.pc) (run-bind bus (effective_address mode) (addressed_handler handler) c h)
      ∙ addressed_handler-pc bus handler address d h'
      ∙ effective_address-pc bus mode c h

  count_cycles-pc : (cycles : ℕ) (c : Cpu) (h : H) → (run bus (count_cycles cycles) c h).1.pc ≡ c.pc
  unfolding count_cycles run
  count_cycles-pc cycles c h = go (truth c.extra)
    where
      go :
          (b : Bool)
          → (run bus
              (if b then put (record c { extra = 0 }) (ret (cycles + c.extra)) else ret cycles)
              c
              h).1.pc
            ≡ c.pc
      go true = refl
      go false = refl

  finish-pc :
      (e : Entry) (cycles : ℕ) (c : Cpu) (h : H)
      → entry_jumps e ≡ false
      → c.pc < 65536
      → (run bus (dispatch e >>= λ _. count_cycles cycles) c h).1.pc ≡ u16 (c.pc + entry_operands e)
  finish-pc e cycles c h j l =
      let (_, d, h') = run bus (dispatch e) c h in
      ap (λ r. r.1.pc) (run-bind bus (dispatch e) (λ _. count_cycles cycles) c h)
      ∙ count_cycles-pc cycles d h'
      ∙ dispatch-pc e c h j l

  -- After an instruction that does not jump, PC is past its opcode and its operand bytes.
  pub execute-pc :
      (c : Cpu) (h : H)
      → let e = entry (bus.read_byte c.pc h).0 in
        entry_jumps e ≡ false → (run bus execute c h).1.pc ≡ u16 (c.pc + 1 + entry_operands e)
  unfolding execute run set_pc
  execute-pc c h j =
      finish-pc (entry (bus.read_byte c.pc h).0) (base_cycles (entry (bus.read_byte c.pc h).0))
        (record c {
          pc = u16 (c.pc + 1);
          frame = run_calls (bus.read_byte c.pc h).1 (routed c.frame.read_confirming c.frame);
        })
        ((bus.read_byte c.pc h).2) j (omega arith)
      ∙ omega arith
