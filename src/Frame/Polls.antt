-- ===== src/Frame/Polls.antt =====
-- Which requests a boundary takes (src/sixfiveohtwo/frame.py, `_request`, `step` and the comments on
-- the poll): those that the poll saw, and the ones made between steps.
use python.Prelude.{
  ℕ, ◌+◌, ◌%◌, ◌≡◌, ◌∙◌, Bool, true, false, some, List, [], ◌∷◌, bit_and, bit_or, truth, maybe, not,
  ◌&&◌, if◌then◌else◌, arith,
}
use python.Prelude.Bits.{bit_and-one, bit_and_two, bit_or-add}
use python.Flags.{flag_i}
use python.Frame.{
  Frame, irq_line, nmi_latch, no_poll, request, note_stall, request_maskable_interrupt,
  clear_maskable_interrupt, request_non_maskable_interrupt, clear_non_maskable_interrupt,
  request_reset, clear_reset, Call, call, run_calls,
}
use python.Frame.Boundary.{seen, boundary_interrupt}

-- No call changes the memory that the last step did not poll.
call-no_poll : (k : Call) (f : Frame) → f.polled ≡ some no_poll → (call k f).polled ≡ some no_poll
unfolding call request_maskable_interrupt clear_maskable_interrupt request_non_maskable_interrupt
    clear_non_maskable_interrupt request_reset clear_reset request note_stall
call-no_poll Call.raise_irq f e = ground arith
call-no_poll Call.release_irq f e = ground arith
call-no_poll Call.raise_nmi f e = ground arith
call-no_poll Call.cancel_nmi f e = ground arith
call-no_poll Call.raise_reset f e = e
call-no_poll Call.cancel_reset f e = e
call-no_poll Call.stall f e = ground arith
call-no_poll (Call.set_dma_stalled b) f e = e

run_calls-no_poll :
    (ks : List Call) (f : Frame) → f.polled ≡ some no_poll → (run_calls ks f).polled ≡ some no_poll
unfolding run_calls
run_calls-no_poll [] f e = e
run_calls-no_poll (k ∷ ks) f e = run_calls-no_poll ks (call k f) (call-no_poll k f e)

-- After a step that did not poll, the next boundary takes nothing, whatever the host requests in
-- between.
pub skipped_poll-boundary_interrupt :
    (ks : List Call) (p : ℕ) (f : Frame)
    → f.polled ≡ some no_poll
    → (boundary_interrupt p (run_calls ks f)).0 ≡ 0
unfolding boundary_interrupt seen
skipped_poll-boundary_interrupt ks p f e = ground (arith, run_calls-no_poll ks f e)

or_nmi : (v : ℕ) → truth (bit_and (bit_or v nmi_latch) nmi_latch) ≡ true
or_nmi v = ground (arith, bit_or-add v 2, bit_and_two v, bit_and_two (bit_or v 2))

or_irq :
    (v : ℕ)
    → (truth (bit_and (bit_or v irq_line) irq_line) ≡ true)
      × (bit_and (bit_or v irq_line) nmi_latch ≡ bit_and v nmi_latch)
or_irq v =
    let sum : bit_or v 1 + v % 2 ≡ v + 1 = omega (arith, bit_or-add v 1, bit_and-one v) in
    (
      ground (arith, sum, bit_and-one (bit_or v 1)),
      omega (arith, sum, bit_and_two v, bit_and_two (bit_or v 1)),
    )

-- What a request between steps adds to what the boundary sees.
raise_nmi-seen :
    (f : Frame)
    → truth (bit_and (seen f) no_poll) ≡ false
    → (seen (call Call.raise_nmi f) ≡ bit_or (seen f) nmi_latch)
      × ((call Call.raise_nmi f).polled_i ≡ f.polled_i)
unfolding seen call request_non_maskable_interrupt request
raise_nmi-seen f e = (ground arith, ground arith)

raise_irq-seen :
    (f : Frame)
    → truth (bit_and (seen f) no_poll) ≡ false
    → (seen (call Call.raise_irq f) ≡ bit_or (seen f) irq_line)
      × ((call Call.raise_irq f).polled_i ≡ f.polled_i)
unfolding seen call request_maskable_interrupt request
raise_irq-seen f e = (ground arith, ground arith)

-- Whether a boundary masks IRQ: by the I flag that the poll saw, or else by P as it is.
unfoldable pub irq_masked : ℕ → Frame → Bool
irq_masked p f = maybe (truth (bit_and p flag_i)) truth f.polled_i

-- The decision of a boundary on what it sees: an NMI first, then an IRQ that is not masked.
unfoldable pub decision : ℕ → Bool → ℕ
decision requests masked =
    if truth (bit_and requests nmi_latch)
    then nmi_latch
    else if truth (bit_and requests irq_line) && not masked
    then irq_line
    else 0

pub boundary_interrupt-decision :
    (p : ℕ) (f : Frame) → (boundary_interrupt p f).0 ≡ decision (seen f) (irq_masked p f)
unfolding boundary_interrupt decision irq_masked
boundary_interrupt-decision p f = ground arith

-- A request that the host makes between steps is taken at the next boundary, unless the last step
-- did not poll: an NMI whatever I says; an IRQ if no NMI goes first and it is not masked.
pub raised-boundary_interrupt :
    (p : ℕ) (f : Frame)
    → truth (bit_and (seen f) no_poll) ≡ false
    → ((boundary_interrupt p (call Call.raise_nmi f)).0 ≡ nmi_latch)
      × ((boundary_interrupt p (call Call.raise_irq f)).0 ≡ (
          if truth (bit_and (seen f) nmi_latch)
          then nmi_latch
          else if irq_masked p f
          then 0
          else irq_line))
unfolding decision irq_masked
raised-boundary_interrupt p f e = (
  boundary_interrupt-decision p (call Call.raise_nmi f)
      ∙ ground (arith, raise_nmi-seen f e, or_nmi (seen f)),
  boundary_interrupt-decision p (call Call.raise_irq f)
      ∙ ground (arith, raise_irq-seen f e, or_irq (seen f)),
)
