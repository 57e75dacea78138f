-- ===== src/Control.antt =====
-- src/sixfiveohtwo/_control.py: branches, jumps, subroutines, the stack, flags, interrupts, reset.
pub mod Ranges
pub mod Runs
pub mod Sequences
pub mod Delays
use python.Prelude.{
  ℕ, zero, suc, ◌+◌, ◌-◌, ◌*◌, ◌/◌, ◌%◌, bit_and, bit_or, bit_xor, Bool, true, false, not, truth,
  ◌&&◌, ◌==◌, u8, u16, Option, none, some, maybe, if◌then◌else◌,
}
use python.Prelude.Bits.{and_not}
use python.Flags.{flag_n, flag_v, flag_u, flag_b, flag_d, flag_i, flag_z, flag_c, stack, nz, set_nz}
use python.Frame.{Frame, irq_line, nmi_latch, no_poll}
use python.Cpu.{Cpu, Program, ret, get, put, ◌>>=◌, ◌>>◌, Action, gets, modify, read, write}
use python.Core.{
  word, crosses_page, same_page, set_pc, fetch, fetch_word, read_pc, push, pull, read_stack,
}
use python.Shifts.{set_p}

abbrev pub vector_nmi : ℕ
vector_nmi = 0xfffa

abbrev pub vector_reset : ℕ
vector_reset = 0xfffc

abbrev pub vector_irq : ℕ
vector_irq = 0xfffe

-- Change the frame's attributes.
abbrev pub modify_frame : (Frame → Frame) → Action
modify_frame change = modify (λ c. record c { frame = change c.frame })

-- `self._stalled = self._stalled_before = None`
abbrev pub unstall : Frame → Frame
unstall f = record f { stalled = none; stalled_before = none }

-- After the operand fetch of a branch: a stall of it replaces the early poll.
unfoldable pub poll_operand_stall : ℕ → Program ℕ
poll_operand_stall early = get λ c. elim c.frame.stalled [
  | none ↦ ret early
  | some requests ↦ put (record c { frame = unstall c.frame }) (ret requests)
]

-- After the next-opcode read of a taken branch: a stall of it adds to the early poll.
unfoldable pub poll_opcode_stall : ℕ → Program ℕ
poll_opcode_stall early = get λ c. elim c.frame.stalled_before [
  | none ↦ ret early
  | some requests ↦ put (record c { frame = unstall c.frame }) (ret (bit_or early requests))
]

-- The address that a branch at `pc` reaches by its offset byte.
unfoldable pub branch_target : ℕ → ℕ → ℕ
branch_target pc offset = u16 (pc + offset + 0x10000 - bit_and offset 0x80 * 2)

-- The end of a taken branch.
unfoldable pub branch_to : ℕ → ℕ → ℕ → Action
branch_to pc target early =
    if crosses_page target pc
    then (do
      read (same_page pc target)
      modify (λ c. record c {
        extra = 2;
        frame = record (c.frame) {
          deferred = some (bit_or early (maybe c.frame.requests (λ v. v) c.frame.deferred));
        };
      }))
    else modify (λ c. record c { extra = 1; frame = record (c.frame) { deferred = some early } })

-- A taken branch, after its operand.
unfoldable pub branch_taken : ℕ → ℕ → Action
unfolding poll_opcode_stall branch_to set_pc
branch_taken offset early = do
  pc ← gets (λ c. c.pc)
  read pc
  early' ← poll_opcode_stall early
  let target = branch_target pc offset
  branch_to pc target early'
  set_pc target

-- `_branch`
unfoldable pub branch : Bool → Action
unfolding fetch poll_operand_stall branch_taken
branch taken = do
  early ← gets (λ c. c.frame.requests)
  modify_frame unstall
  offset ← fetch
  early' ← poll_operand_stall early
  if not taken then ret tt else branch_taken offset early'

unfoldable pub op_bpl : Action
op_bpl = do p ← gets (λ c. c.p); branch (not (truth (bit_and p flag_n)))

unfoldable pub op_bmi : Action
op_bmi = do p ← gets (λ c. c.p); branch (truth (bit_and p flag_n))

unfoldable pub op_bvc : Action
op_bvc = do p ← gets (λ c. c.p); branch (not (truth (bit_and p flag_v)))

unfoldable pub op_bvs : Action
op_bvs = do p ← gets (λ c. c.p); branch (truth (bit_and p flag_v))

unfoldable pub op_bcc : Action
op_bcc = do p ← gets (λ c. c.p); branch (not (truth (bit_and p flag_c)))

unfoldable pub op_bcs : Action
op_bcs = do p ← gets (λ c. c.p); branch (truth (bit_and p flag_c))

unfoldable pub op_bne : Action
op_bne = do p ← gets (λ c. c.p); branch (not (truth (bit_and p flag_z)))

unfoldable pub op_beq : Action
op_beq = do p ← gets (λ c. c.p); branch (truth (bit_and p flag_z))

unfoldable pub op_jmp : Action
unfolding fetch_word set_pc
op_jmp = do target ← fetch_word; set_pc target

-- The pointer's high byte never carries into the next page.
unfoldable pub op_jmp_ind : Action
unfolding fetch_word set_pc
op_jmp_ind = do
  pointer ← fetch_word
  low ← read pointer
  high ← read (same_page pointer (pointer + 1))
  set_pc (word high low)

unfoldable pub op_jsr : Action
unfolding fetch read_stack push set_pc
op_jsr = do
  low ← fetch
  read_stack
  pc ← gets (λ c. c.pc)
  push (pc / 0x100)
  push (u8 pc)
  high ← read pc
  set_pc (word high low)

unfoldable pub op_rts : Action
unfolding read_pc read_stack pull set_pc
op_rts = do
  read_pc
  read_stack
  low ← pull
  high ← pull
  let pc = word high low
  read pc
  set_pc (u16 (pc + 1))

unfoldable pub op_pha : Action
unfolding read_pc push
op_pha = do read_pc; a ← gets (λ c. c.a); push a

unfoldable pub op_php : Action
unfolding read_pc push
op_php = do read_pc; p ← gets (λ c. bit_or (bit_or c.p flag_b) flag_u); push p

-- PLA spells `NZ[a]` out.
unfoldable pub op_pla : Action
unfolding read_pc read_stack pull
op_pla = do read_pc; read_stack; a ← pull; modify (λ c. record c { a = a; p = set_nz c.p a })

-- `self._polled_i = self.p & I`
abbrev pub poll_i : Action
poll_i =
    modify (λ c. record c { frame = record (c.frame) { polled_i = some (bit_and c.p flag_i) } })

-- `(value | U) & ~B`: P as it is pulled.
unfoldable pub pulled_p : ℕ → ℕ
pulled_p value = and_not (bit_or value flag_u) flag_b

unfoldable pub op_plp : Action
unfolding read_pc read_stack pull set_p
op_plp = do read_pc; read_stack; poll_i; value ← pull; set_p (pulled_p value)

unfoldable pub clear_flag : ℕ → Action
clear_flag flag = modify (λ c. record c { p = and_not c.p flag })

unfoldable pub set_flag : ℕ → Action
set_flag flag = modify (λ c. record c { p = bit_or c.p flag })

unfoldable pub op_clc : Action
unfolding read_pc clear_flag
op_clc = do read_pc; clear_flag flag_c

unfoldable pub op_sec : Action
unfolding read_pc set_flag
op_sec = do read_pc; set_flag flag_c

unfoldable pub op_cld : Action
unfolding read_pc clear_flag
op_cld = do read_pc; clear_flag flag_d

unfoldable pub op_sed : Action
unfolding read_pc set_flag
op_sed = do read_pc; set_flag flag_d

unfoldable pub op_clv : Action
unfolding read_pc clear_flag
op_clv = do read_pc; clear_flag flag_v

unfoldable pub op_cli : Action
unfolding read_pc clear_flag
op_cli = do read_pc; poll_i; clear_flag flag_i

unfoldable pub op_sei : Action
unfolding read_pc set_flag
op_sei = do read_pc; poll_i; set_flag flag_i

unfoldable pub op_nop : Action
unfolding read_pc
op_nop = do read_pc; ret tt

-- Whether a latched NMI takes over a sequence with this vector.
unfoldable pub takes_over : ℕ → Frame → Bool
takes_over vector f = not (vector == vector_nmi) && truth (bit_and f.requests nmi_latch)

-- The vector of an interrupt sequence after its second push: an NMI by then takes it over.
unfoldable pub hijack : ℕ → Program ℕ
hijack vector = get λ c.
    if takes_over vector c.frame
    then put
        (record c { frame = record (c.frame) { requests = and_not c.frame.requests nmi_latch } })
        (ret vector_nmi)
    else ret vector

-- `_interrupt`
unfoldable pub interrupt : ℕ → ℕ → Action
unfolding push hijack set_flag set_pc
interrupt vector pushed_p = do
  pc ← gets (λ c. c.pc)
  push (pc / 0x100)
  push (u8 pc)
  vector' ← hijack vector
  push pushed_p
  set_flag flag_i
  low ← read vector'
  high ← read (vector' + 1)
  set_pc (word high low)
  modify_frame (λ f. record f { deferred = some no_poll })

unfoldable pub op_brk : Action
unfolding fetch
op_brk = do fetch; p ← gets (λ c. bit_or (bit_or c.p flag_b) flag_u); interrupt vector_irq p

unfoldable pub op_rti : Action
unfolding read_pc read_stack pull set_p set_pc
op_rti = do
  read_pc
  read_stack
  value ← pull
  set_p (pulled_p value)
  low ← pull
  high ← pull
  set_pc (word high low)

-- The end of an interrupt entry or of a reset: nothing was polled.
abbrev pub did_not_poll : Action
did_not_poll = modify_frame (λ f. record f { polled = some no_poll; deferred = none })

-- An NMI entry takes the latched edge.
unfoldable pub take_nmi : ℕ → Action
take_nmi vector =
    if vector == vector_nmi
    then modify_frame (λ f. record f { requests = and_not f.requests nmi_latch })
    else ret tt

-- The vector of an interrupt of this kind.
unfoldable pub interrupt_vector : ℕ → ℕ
interrupt_vector kind = if kind == nmi_latch then vector_nmi else vector_irq

-- `_enter_interrupt`
unfoldable pub enter_interrupt : ℕ → Program ℕ
enter_interrupt kind = do
  let vector = interrupt_vector kind
  modify_frame (λ f. record f { polled_i = none })
  pc ← gets (λ c. c.pc)
  read pc
  read pc
  take_nmi vector
  p ← gets (λ c. pulled_p c.p)
  interrupt vector p
  did_not_poll
  ret 7

-- The three stack cycles of a reset, which read where a push would write.
unfoldable pub idle_pushes : ℕ → Action
idle_pushes zero = ret tt
idle_pushes (suc n) = do
  s ← gets (λ c. c.s)
  read (bit_or stack s)
  modify (λ c. record c { s = u8 (c.s + 0xff) })
  idle_pushes n

-- `_accept_reset`
unfoldable pub accept_reset : Program ℕ
unfolding idle_pushes set_flag set_pc
accept_reset = do
  modify_frame (λ f. record f { reset_pending = false; halted = false; polled_i = none })
  pc ← gets (λ c. c.pc)
  read pc
  read pc
  idle_pushes 3
  set_flag flag_i
  low ← read vector_reset
  high ← read (vector_reset + 1)
  set_pc (word high low)
  did_not_poll
  ret 7
