-- ===== src/Control/Sequences.antt =====
-- The longer sequences of src/sixfiveohtwo/_control.py: branches, BRK, interrupt entries and reset.
use python.Prelude.{
  ℕ, ◌+◌, ◌<◌, ◌≡◌, refl, ◌∙◌, Bool, true, false, Option, none, some, inl, inr, not, ◌==◌, u8, u16,
  bit_or, Bool-cases, Option-cases, if◌then◌else◌, arith,
}
use python.Prelude.Bits.{bit_or-lt}
use python.Flags.{flag_b, flag_u}
use python.Frame.{no_poll}
use python.Frame.Disturbed.{Held, earlier_fits}
use python.Cpu.{Cpu, ret}
use python.Cpu.Wp.{Wp, Wp-mono, Wp-bind}
use python.Cpu.Safe.{IsSafe, bit_or-IsStatus}
use python.Cpu.Runs.{Runs, Charges, IsDone, Wp-after}
use python.Core.{crosses_page, set_pc}
use python.Core.Addresses.{word-lt, stack-lt, same_page-lt}
use python.Control.Ranges.{pulled_p-IsStatus, pushed_p-byte, branch_target-lt, taken_nmi-lt}
use python.Control.{
  poll_operand_stall, poll_opcode_stall, branch_target, branch_to, branch_taken, branch, takes_over,
  hijack, interrupt, interrupt_vector, pulled_p, op_brk, take_nmi, enter_interrupt, accept_reset,
  vector_nmi, vector_irq,
}

poll_union-lt : (early v : ℕ) → early < 4 → v < 4 → bit_or early v < 4
poll_union-lt early v h k = bit_or-lt 2 early v h k

ruleset ranges = (
  arith, bit_or-IsStatus, pulled_p-IsStatus, pushed_p-byte, word-lt, stack-lt, same_page-lt,
  branch_target-lt, taken_nmi-lt, earlier_fits, poll_union-lt,
)

-- Requests are below 4.
abbrev IsPoll : ℕ → Type 0
IsPoll r = r < 4

-- The poll's requests that a stall recorded.
Held-poll : (o : Option ℕ) (v : ℕ) → Held (λ r. r < 4) o → o ≡ some v → v < 4
Held-poll none v h e = cc
Held-poll (some w) v h e = ground arith

poll_operand_stall-Runs : (early : ℕ) → early < 4 → Runs IsPoll 0 (poll_operand_stall early)
unfolding poll_operand_stall
poll_operand_stall-Runs early h c n s = elim (Option-cases c.frame.stalled) [
  | inl e ↦ rw e (search ranges)
  | inr (v, e) ↦
      let fits : v < 4 = Held-poll c.frame.stalled v (s.frame_fits.stalled_fits) e in
      rw e (search ranges)
]

poll_opcode_stall-Runs : (early : ℕ) → early < 4 → Runs IsPoll 0 (poll_opcode_stall early)
unfolding poll_opcode_stall
poll_opcode_stall-Runs early h c n s = elim (Option-cases c.frame.stalled_before) [
  | inl e ↦ rw e (search ranges)
  | inr (v, e) ↦
      let fits : bit_or early v < 4 =
        bit_or-lt 2 early v h
          (Held-poll c.frame.stalled_before v (s.frame_fits.stalled_before_fits) e) in
      rw e (search ranges)
]

-- The end of a taken branch charges one cycle more than the reads that it makes itself: the
-- next-opcode read comes before it.
branch_to_lem :
    (pc target early : ℕ) (c : Cpu) (n : ℕ)
    → pc < 65536
    → early < 4
    → IsSafe c
    → Wp (branch_to pc target early) (λ _ c' n'. IsSafe c' × (n' + 1 ≡ n + c'.extra)) c n
unfolding branch_to
branch_to_lem pc target early c n h k s = elim (Bool-cases (crosses_page target pc)) [
  | inl crossed ↦ rw crossed (search ranges)
  | inr same ↦ rw same (search ranges)
]

branch_taken-Charges :
    (offset early : ℕ) → early < 4 → Charges (λ _. Unit {0}) 0 (branch_taken offset early)
unfolding branch_taken set_pc
branch_taken-Charges offset early h c n s e = (
  s.pc_fits,
  λ value fits g d.
      Wp-after IsPoll 0 _ (poll_opcode_stall early) _ (record c { frame = g }) (n + 1)
        (poll_opcode_stall-Runs early h) (search ranges)
        (λ r c' s' e' k. Wp-bind _ (branch_to c.pc (branch_target c.pc offset) r) _ c' (n + 1 + 0) (
          Wp-mono (branch_to c.pc (branch_target c.pc offset) r) c' (n + 1 + 0)
            (λ _ c'' n'' f. search ranges)
            (branch_to_lem c.pc (branch_target c.pc offset) r c' (n + 1 + 0) (s.pc_fits) k s'))),
)

pub branch-Charges : (taken : Bool) → Charges (λ _. Unit {0}) 1 (branch taken)
unfolding branch
branch-Charges taken c n s e = (
  s.pc_fits,
  λ offset fits g d.
      Wp-after IsPoll 0 _ (poll_operand_stall c.frame.requests) _
        (record c { pc = u16 (c.pc + 1); frame = g }) (n + 1)
        (poll_operand_stall-Runs c.frame.requests (s.frame_fits.requests_fit)) (search ranges)
        (λ early c' s' e' k. finish early c' s' (e' ∙ e) k offset taken),
)
  where
    finish :
        (early : ℕ) (c' : Cpu)
        → IsSafe c'
        → c'.extra ≡ 0
        → early < 4
        → (offset : ℕ) (b : Bool)
        → Wp
            (if not b then ret tt else branch_taken offset early)
            (λ _ c'' n''. IsSafe c'' × (n'' ≡ n + 1 + c''.extra) × Unit {0})
            c'
            (n + 1 + 0)
    finish early c' s' e' k offset false = (s', omega arith, tt)
    finish early c' s' e' k offset true =
        Wp-mono (branch_taken offset early) c' (n + 1 + 0)
          (λ _ c'' n'' h. (h.0, omega (arith, h.1), tt))
          (branch_taken-Charges offset early k c' (n + 1 + 0) s' e')

-- The vector is one of the two, and has a second byte.
hijack-Runs : (vector : ℕ) → vector < 65535 → Runs (λ v. v < 65535) 0 (hijack vector)
unfolding hijack
hijack-Runs vector h c n s = elim (Bool-cases (takes_over vector c.frame)) [
  | inl e ↦ rw (e, Wp) (search ranges)
  | inr e ↦ rw (e, Wp) (search ranges)
]

-- An interrupt sequence, after its first two cycles, makes five, whatever the vector.
interrupt_lem :
    (vector p : ℕ) (c : Cpu) (n : ℕ)
    → vector < 65535
    → p < 256
    → IsSafe c
    → Wp (interrupt vector p) (λ _ c' n'. IsDone c' × (n' ≡ n + 5) × (c'.extra ≡ c.extra)) c n
unfolding interrupt
interrupt_lem vector p c n h k s = (
  stack-lt c.s (s.s_fits),
  omega (arith, s.pc_fits),
  λ g d. (
    stack-lt (u8 (c.s + 0xff)) (omega arith),
    omega arith,
    λ g' d'.
        Wp-after (λ v. v < 65535) 0 _ (hijack vector) _
          (record c { s = u8 (u8 (c.s + 0xff) + 0xff); frame = g' }) (n + 1 + 1)
          (hijack-Runs vector h) (search ranges) (λ v c' s' e' f. search ranges),
  ),
)

-- BRK, which has the opcode's fetch before its own six cycles.
pub op_brk_lem :
    (c : Cpu) (n : ℕ)
    → IsSafe c
    → c.extra ≡ 0
    → Wp op_brk (λ _ c' n'. IsDone c' × (n' ≡ n + 6 + c'.extra)) c n
unfolding op_brk
op_brk_lem c n s e = (
  s.pc_fits,
  λ value fits g d.
      Wp-mono (interrupt vector_irq (bit_or (bit_or c.p flag_b) flag_u))
        (record c { pc = u16 (c.pc + 1); frame = g }) (n + 1)
        (λ _ c'' n'' h. (h.0, omega (arith, h.1, h.2)))
        (interrupt_lem vector_irq (bit_or (bit_or c.p flag_b) flag_u)
          (record c { pc = u16 (c.pc + 1); frame = g }) (n + 1) (omega arith)
          (pushed_p-byte c.p (s.p_status.status_fits)) (search ranges)),
)

abbrev IsSeven : ℕ → Type 0
IsSeven cycles = cycles ≡ 7

-- An NMI entry takes the latch; an IRQ leaves the line.
take_nmi-Runs : (vector : ℕ) → Runs (λ _. Unit {0}) 0 (take_nmi vector)
unfolding take_nmi
take_nmi-Runs vector c n s = elim (Bool-cases (vector == vector_nmi)) [
  | inl e ↦ rw (e, Wp) (search ranges)
  | inr e ↦ rw (e, Wp) (search ranges)
]

interrupt_vector-lt : (kind : ℕ) → interrupt_vector kind < 65535
unfolding interrupt_vector
interrupt_vector-lt kind = ground arith

-- An entry's last act marks the poll as not made, which puts the frame in range again.
unpolled :
    (c : Cpu)
    → IsDone c
    → IsSafe (record c { frame = record (c.frame) { polled = some no_poll; deferred = none } })
unpolled c d = search (arith, d.settled)

pub enter_interrupt-Runs : (kind : ℕ) → Runs IsSeven 7 (enter_interrupt kind)
unfolding enter_interrupt
enter_interrupt-Runs kind c n s = (
  s.pc_fits,
  λ value fits g d. (
    s.pc_fits,
    λ value' fits' g' d'.
        Wp-after (λ _. Unit {0}) 0 _ (take_nmi (interrupt_vector kind)) _ (record c { frame = g' })
          (n + 1 + 1) (take_nmi-Runs (interrupt_vector kind)) (search ranges)
          (λ _ c' s' e _.
            Wp-bind _ (interrupt (interrupt_vector kind) (pulled_p c'.p)) _ c' (n + 1 + 1 + 0) (
              Wp-mono (interrupt (interrupt_vector kind) (pulled_p c'.p)) c' (n + 1 + 1 + 0)
                (λ _ c'' n'' h. (unpolled c'' (h.0), omega (arith, h.1), h.2 ∙ e, refl))
                (interrupt_lem (interrupt_vector kind) (pulled_p c'.p) c' (n + 1 + 1 + 0)
                  (interrupt_vector-lt kind)
                  ((pulled_p-IsStatus c'.p (s'.p_status.status_fits)).status_fits) s'))),
  ),
)

pub accept_reset-Runs : Runs IsSeven 7 accept_reset
unfolding accept_reset
accept_reset-Runs c n s = search ranges depth 7
