-- ===== src/Tests.antt =====
-- The theorems at concrete inputs: a host of 64 KiB of RAM, as in examples/minimal_host.py.
mod Consoles
mod Tools
mod Traces
use python.Prelude.{
  ◌⊎◌, bit_and, bit_or, truth, ℕ, ◌+◌, ◌-◌, ◌/◌, ◌%◌, ◌≤◌, ◌≡◌, refl, true, false, none, some, List,
  [], ◌∷◌, ◌++◌, length, All, leb, ◌==◌, if◌then◌else◌, arith,
}
use python.Frame.{Call, call, run_calls, init_frame, confirm, irq_line, nmi_latch, no_poll}
use python.Frame.Disturbed.{IsFrame, run_calls-IsFrame}
use python.Cpu.{mos6502, Bus, run}
use python.Cpu.Safe.{IsStatus, IsSafe}
use python.Step.{step}
use python.Step.Cycles.{IsReady}
use python.State.{CpuState, initial_state, state_of, capture_state, restore_state}
use python.State.Roundtrip.{capture_state-restore_state}
use python.Alu.{compare_flags, add, subtract}
use python.Alu.Status.{status_nvzc, signed_sum_overflows, flag_if}
use python.Alu.Arithmetic.{add_binary_lem, subtract-add}
use python.Alu.Decimal.{IsDecimal, from_decimal, add_decimal_lem, subtract_decimal_lem}
use python.Flags.{flag_d, flag_i}
use python.Frame.Boundary.{restore_poll, seen, boundary_interrupt}
use python.Frame.Polls.{
  irq_masked, decision, skipped_poll-boundary_interrupt, raised-boundary_interrupt,
}
use python.Alu.Compare.{status_nzc, compare_flags_lem}
use python.Control.Delays.{taken_after, seen_after, delayed_i}
use python.Prelude.Bits.{and_not}
use python.Step.Polls.{Polls}
use python.Control.{
  op_jmp_ind, op_cli, op_sei, op_plp, accept_reset, enter_interrupt, vector_nmi, vector_irq,
}
use python.Debug.Jumps.{IsIndirect, op_jmp_ind_lem}
use python.Debug.Entry.{irq_entry_vector, pushed_frame, IsTaken, enter_interrupt_lem}
use python.Debug.Reset.{IsReset, accept_reset_lem}
use python.Debug.Access.{Access, tracked, valid_access}
use python.Debug.Tracking.{logged, run-tracked, step_accesses}
use python.Debug.Boundary.{BoundaryKind, next_boundary, perform, step-next_boundary}

abbrev Memory : Type 0
Memory = ℕ → ℕ

-- RAM, with no callback that calls the CPU.
abbrev ram : Bus Memory
ram = record {
  read_byte = λ address memory. (memory address % 256, [], memory);
  write_byte = λ address value memory. ([], λ a. if a == address then value else memory a);
  read_byte-lt = λ address memory. omega arith;
}

-- LDA #$2A at $0000, and zeros elsewhere.
abbrev program : Memory
program address = if address == 0 then 0xa9 else if address == 1 then 0x2a else 0

status : IsStatus 0x24
status = record { status_fits = omega arith; status_bits = refl }

init_frame-IsFrame : IsFrame init_frame
init_frame-IsFrame = record {
  requests_fit = omega arith;
  polled_fits = tt;
  deferred_fits = tt;
  stalled_fits = tt;
  stalled_before_fits = tt;
  polled_i_fits = tt;
}

new-IsSafe : IsSafe mos6502
unfolding mos6502
new-IsSafe = record {
  a_fits = omega arith;
  x_fits = omega arith;
  y_fits = omega arith;
  s_fits = omega arith;
  pc_fits = omega arith;
  p_status = status;
  ane_fits = omega arith;
  lxa_fits = omega arith;
  frame_fits = init_frame-IsFrame;
}

new-IsReady : IsReady mos6502
unfolding mos6502
new-IsReady = record { safe = new-IsSafe; no_extra = refl }

step_accesses_example :
    let (cycles, c', (h', log)) = run (tracked ram) step mos6502 (program, []) in
    IsReady c' × (length log ≡ cycles) × (1 ≤ cycles) × All (λ x. valid_access x ≡ true) log
step_accesses_example = step_accesses ram mos6502 program new-IsReady

run-tracked_example :
    (new : List Access) × (run (tracked ram) step mos6502 (program, [])
      ≡ logged (run ram step mos6502 program) ([] ++ new))
run-tracked_example = run-tracked ram step mos6502 program []

step-next_boundary_example :
    run ram step mos6502 program
    ≡ run ram (perform (next_boundary (state_of mos6502))) mos6502 program
unfolding mos6502
step-next_boundary_example = step-next_boundary ram mos6502 program init_frame-IsFrame

capture_state-restore_state_example :
    (capture_state mos6502 ≡ some (state_of mos6502))
    × (capture_state (restore_state (state_of mos6502) mos6502) ≡ capture_state mos6502)
capture_state-restore_state_example = capture_state-restore_state mos6502 mos6502 new-IsSafe

-- $50 + $50 overflows.
add_binary_example :
    add 0x50 0x50 0x24 0
    ≡ (0xa0, status_nvzc 0x24 true (signed_sum_overflows 0x50 0x50 0) false false)
add_binary_example = add_binary_lem 0x50 0x50 0x24 (omega arith) (omega arith) status

subtract-add_example : subtract 0x50 0xb0 0x24 0 ≡ add 0x50 0x4f 0x24 0
subtract-add_example = subtract-add 0x50 0xb0 0x24 (omega arith) (omega arith) status

IsDecimal-58 : IsDecimal 0x58
IsDecimal-58 = record { low_digit = omega arith; high_digit = omega arith }

IsDecimal-46 : IsDecimal 0x46
IsDecimal-46 = record { low_digit = omega arith; high_digit = omega arith }

-- 58 + 46 is 104.
add_decimal_example :
    let (result, q) = add 0x58 0x46 0x24 flag_d in
    IsDecimal result
    × (from_decimal result ≡ (from_decimal 0x58 + from_decimal 0x46 + 0) % 100)
    × (q % 2 ≡ (from_decimal 0x58 + from_decimal 0x46 + 0) / 100)
add_decimal_example = add_decimal_lem 0x58 0x46 0x24 IsDecimal-58 IsDecimal-46 status

subtract_decimal_example :
    let (result, q) = subtract 0x46 0x58 0x24 flag_d in
    IsDecimal result
    × (from_decimal result ≡ (from_decimal 0x46 + 100 - (from_decimal 0x58 + 1)) % 100)
    × (q % 2 ≡ flag_if (leb (from_decimal 0x58 + 1) (from_decimal 0x46)) 1)
subtract_decimal_example = subtract_decimal_lem 0x46 0x58 0x24 IsDecimal-46 IsDecimal-58 status

run_calls-IsFrame_example :
    let g = run_calls (Call.raise_irq ∷ Call.stall ∷ Call.raise_reset ∷ []) init_frame in
    IsFrame g × (g.halted ≡ false) × (g.polled_i ≡ none)
run_calls-IsFrame_example =
    run_calls-IsFrame (Call.raise_irq ∷ Call.stall ∷ Call.raise_reset ∷ []) init_frame
      init_frame-IsFrame

-- After a reset, an NMI and an IRQ wait for an instruction.
skipped_poll-boundary_interrupt_example :
    (boundary_interrupt 0x20 (
      run_calls
        (Call.raise_nmi ∷ Call.raise_irq ∷ [])
        (record init_frame { polled = some no_poll }))).0
    ≡ 0
skipped_poll-boundary_interrupt_example =
    skipped_poll-boundary_interrupt (Call.raise_nmi ∷ Call.raise_irq ∷ []) 0x20
      (record init_frame { polled = some no_poll }) refl

raised-boundary_interrupt_example :
    ((boundary_interrupt 0x20 (call Call.raise_nmi init_frame)).0 ≡ nmi_latch)
    × ((boundary_interrupt 0x20 (call Call.raise_irq init_frame)).0 ≡ (
        if truth (bit_and (seen init_frame) nmi_latch)
        then nmi_latch
        else if irq_masked 0x20 init_frame
        then 0
        else irq_line))
unfolding seen
raised-boundary_interrupt_example = raised-boundary_interrupt 0x20 init_frame refl

-- RAM with a device at $4000, which asserts IRQ and latches an NMI when it is read.
abbrev device : Bus Memory
device = record {
  read_byte = λ address memory. (
    memory address % 256,
    (if address == 0x4000 then Call.raise_irq ∷ Call.raise_nmi ∷ [] else []),
    memory,
  );
  write_byte = λ address value memory. ([], λ a. if a == address then value else memory a);
  read_byte-lt = λ address memory. omega arith;
}

accept_reset_example :
    let (cycles, c', (h', log)) = run (tracked ram) accept_reset mos6502 (program, []) in
    (cycles ≡ 7)
    × ((c'.a ≡ mos6502.a) × (c'.x ≡ mos6502.x) × (c'.y ≡ mos6502.y))
    × (c'.s ≡ (mos6502.s + 253) % 256)
    × (c'.p ≡ bit_or mos6502.p flag_i)
    × (c'.frame.polled ≡ some no_poll)
    × IsReset mos6502.pc mos6502.s log c'.pc
unfolding mos6502
accept_reset_example = accept_reset_lem ram mos6502 program

enter_interrupt_example :
    IsTaken vector_nmi mos6502 (run (tracked ram) (enter_interrupt nmi_latch) mos6502 (program, []))
    × IsTaken
        (irq_entry_vector (pushed_frame ram mos6502 program))
        mos6502
        (run (tracked ram) (enter_interrupt irq_line) mos6502 (program, []))
enter_interrupt_example = enter_interrupt_lem ram mos6502 program

compare_flags_example : compare_flags 0x10 0x20 0x24 ≡ status_nzc 0x24 true false false
compare_flags_example = compare_flags_lem 0x10 0x20 0x24 (omega arith) (omega arith) status

delayed_i_example :
    ((taken_after ram op_cli mos6502 program
        ≡ decision (seen_after ram op_cli mos6502 program) true)
      × ((run ram op_cli mos6502 program).1.p ≡ and_not 0x24 flag_i))
    × ((taken_after ram op_sei mos6502 program
          ≡ decision (seen_after ram op_sei mos6502 program) true)
        × ((run ram op_sei mos6502 program).1.p ≡ bit_or 0x24 flag_i))
    × (taken_after ram op_plp mos6502 program
        ≡ decision (seen_after ram op_plp mos6502 program) true)
unfolding mos6502
delayed_i_example = delayed_i ram mos6502 program

-- A state that no CPU captures: the last step did not poll, and an IRQ is pending that the state
-- does not say the poll missed.
abbrev made_by_hand : CpuState
made_by_hand = record initial_state {
  p = 0x20;
  poll = record (initial_state.poll) { maskable_interrupt_pending = true; skipped_poll = true };
}

-- `next_boundary` says that an instruction runs, and the boundary takes the IRQ.
made_by_hand-next_boundary : next_boundary made_by_hand ≡ BoundaryKind.instruction_kind
unfolding next_boundary
made_by_hand-next_boundary = refl

made_by_hand-boundary_interrupt :
    (boundary_interrupt 0x20 (restore_poll made_by_hand.poll init_frame)).0 ≡ irq_line
unfolding boundary_interrupt restore_poll seen
made_by_hand-boundary_interrupt = refl

op_jmp_ind_example :
    let (_, c', (h', log)) = run (tracked ram) op_jmp_ind mos6502 (program, []) in
    IsIndirect mos6502.pc log c'.pc
op_jmp_ind_example = op_jmp_ind_lem ram mos6502 program
