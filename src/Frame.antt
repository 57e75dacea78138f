-- ===== src/Frame.antt =====
-- src/sixfiveohtwo/frame.py: the interrupt requests, their poll, and what a bus callback may do
-- to them. `None` is `none`; the two routes of `_read` and `_write` are the two Booleans
-- `read_confirming` and `write_confirming`. `dma_stalled` is the attribute of cpu.py that a bus
-- callback sets, kept here with the other attributes that callbacks change.
pub mod Boundary
pub mod Disturbed
pub mod Polls
use python.Prelude.{
  ℕ, ◌+◌, Bool, true, false, Option, none, some, List, [], ◌∷◌, bit_and, bit_or, truth, not,
  if◌then◌else◌,
}
use python.Prelude.Bits.{and_not}

abbrev pub irq_line : ℕ
irq_line = 0x01

abbrev pub nmi_latch : ℕ
nmi_latch = 0x02

abbrev pub no_poll : ℕ
no_poll = 0x04

pub record Frame : Type 0 where
  pub reset_pending : Bool
  pub requests : ℕ
  pub polled : Option ℕ
  pub deferred : Option ℕ
  pub stalled : Option ℕ
  pub stalled_before : Option ℕ
  pub polled_i : Option ℕ
  pub halted : Bool
  pub read_confirming : Bool
  pub write_confirming : Bool
  pub dma_stalled : Bool

-- `_init_frame`, with the plain bus routes of `__init__`.
abbrev pub init_frame : Frame
init_frame = record {
  reset_pending = false;
  requests = 0;
  polled = none;
  deferred = none;
  stalled = none;
  stalled_before = none;
  polled_i = none;
  halted = false;
  read_confirming = false;
  write_confirming = false;
  dma_stalled = false;
}

-- `_confirm`
abbrev pub confirm : Frame → Frame
confirm f = record f { deferred = none; read_confirming = false; write_confirming = false }

-- `_request`
unfoldable pub request : ℕ → Frame → Frame
request requests f = elim f.deferred [
  | none ↦ record f {
    deferred = some f.requests;
    read_confirming = true;
    write_confirming = true;
    requests = requests;
  }
  | some _ ↦ record f { requests = requests }
]

-- `note_stall`
unfoldable pub note_stall : Frame → Frame
note_stall f =
    let g = record f { stalled_before = f.stalled; stalled = some f.requests } in
    elim g.deferred [ none ↦ g | some _ ↦ confirm g ]

-- What the poll remembers gains a request, unless the last step did not poll.
abbrev pub also_polled : ℕ → Option ℕ → Option ℕ
also_polled bit none = none
also_polled bit (some polled) =
    some (if truth (bit_and polled no_poll) then polled else bit_or polled bit)

-- What the poll remembers loses a request.
abbrev pub not_polled : ℕ → Option ℕ → Option ℕ
not_polled bit none = none
not_polled bit (some polled) = some (and_not polled bit)

unfoldable pub request_maskable_interrupt : Frame → Frame
unfolding request
request_maskable_interrupt f =
    let g = request (bit_or f.requests irq_line) f in
    record g { polled = also_polled irq_line g.polled }

unfoldable pub clear_maskable_interrupt : Frame → Frame
unfolding request
clear_maskable_interrupt f =
    let g = request (and_not f.requests irq_line) f in
    record g { polled = not_polled irq_line g.polled }

unfoldable pub request_non_maskable_interrupt : Frame → Frame
unfolding request
request_non_maskable_interrupt f =
    let g = request (bit_or f.requests nmi_latch) f in
    record g { polled = also_polled nmi_latch g.polled }

unfoldable pub clear_non_maskable_interrupt : Frame → Frame
unfolding request
clear_non_maskable_interrupt f =
    let g = request (and_not f.requests nmi_latch) f in
    record g { polled = not_polled nmi_latch g.polled }

unfoldable pub request_reset : Frame → Frame
request_reset f = record f { reset_pending = true }

unfoldable pub clear_reset : Frame → Frame
clear_reset f = record f { reset_pending = false }

-- The calls that a host makes on the CPU, between steps or from inside a bus callback.
pub data Call : Type 0 where
  raise_irq release_irq raise_nmi cancel_nmi raise_reset cancel_reset stall : Call
  set_dma_stalled : Bool → Call

unfoldable pub call : Call → Frame → Frame
unfolding request_maskable_interrupt clear_maskable_interrupt request_non_maskable_interrupt
    clear_non_maskable_interrupt request_reset clear_reset note_stall
call Call.raise_irq f = request_maskable_interrupt f
call Call.release_irq f = clear_maskable_interrupt f
call Call.raise_nmi f = request_non_maskable_interrupt f
call Call.cancel_nmi f = clear_non_maskable_interrupt f
call Call.raise_reset f = request_reset f
call Call.cancel_reset f = clear_reset f
call Call.stall f = note_stall f
call (Call.set_dma_stalled b) f = record f { dma_stalled = b }

unfoldable pub run_calls : List Call → Frame → Frame
run_calls [] f = f
run_calls (k ∷ ks) f = run_calls ks (call k f)
