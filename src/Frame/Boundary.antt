-- ===== src/Frame/Boundary.antt =====
-- src/sixfiveohtwo/frame.py: the interrupt that a boundary takes, and the frame's part of a state
-- snapshot.
use python.Prelude.{
  ℕ, Bool, true, false, Option, none, some, bit_and, bit_or, truth, not, ◌==◌, ◌&&◌, maybe, ◌≡◌,
  arith, if◌then◌else◌,
}
use python.Prelude.Bits.{and_not}
use python.Flags.{flag_i}
use python.Frame.{Frame, irq_line, nmi_latch, no_poll, confirm}

-- What the boundary decides on: the poll's memory, or the requests as they stand.
unfoldable pub seen : Frame → ℕ
seen f = maybe f.requests (λ v. v) f.polled

-- `_boundary_interrupt` of a CPU whose status is `p`: the kind taken, 0 for none. What was polled
-- is forgotten on both of its branches.
unfoldable pub boundary_interrupt : ℕ → Frame → ℕ × Frame
boundary_interrupt p f =
    let polled = seen f in
    let g = record f { polled = none } in
    if truth (bit_and polled nmi_latch) then (nmi_latch, g) else elim f.polled_i [
      | none ↦
          if truth (bit_and polled irq_line) && not (truth (bit_and p flag_i))
          then (irq_line, g)
          else (0, g)
      | some i ↦
          let h = record g { polled_i = none } in
          if truth (bit_and polled irq_line) && not (truth i) then (irq_line, h) else (0, h)
    ]

pub record PollFields : Type 0 where
  pub halted : Bool
  pub reset_pending : Bool
  pub maskable_interrupt_pending : Bool
  pub non_maskable_interrupt_pending : Bool
  pub polled_i : Option Bool
  pub polled_maskable_interrupt : Option Bool
  pub polled_non_maskable_interrupt : Option Bool
  pub skipped_poll : Bool

abbrev pub same_bool : Bool → Bool → Bool
same_bool true b = b
same_bool false b = not b

-- `_differs`
unfoldable pub differs : ℕ → ℕ → ℕ → Option Bool
differs polled requests bit =
    let polled_bit = truth (bit_and polled bit) in
    if same_bool polled_bit (truth (bit_and requests bit)) then none else some polled_bit

-- `_poll_fields`
unfoldable pub poll_fields : Frame → PollFields
poll_fields f = record {
  halted = f.halted;
  reset_pending = f.reset_pending;
  maskable_interrupt_pending = truth (bit_and f.requests irq_line);
  non_maskable_interrupt_pending = truth (bit_and f.requests nmi_latch);
  polled_i = maybe none (λ i. some (truth i)) f.polled_i;
  polled_maskable_interrupt = differs (seen f) f.requests irq_line;
  polled_non_maskable_interrupt = differs (seen f) f.requests nmi_latch;
  skipped_poll = truth (bit_and (seen f) no_poll);
}

-- One round of the loop of `_restore_poll`.
abbrev pub overlay : ℕ → Option Bool → ℕ → ℕ
overlay bit none polled = polled
overlay bit (some true) polled = bit_or polled bit
overlay bit (some false) polled = and_not polled bit

-- `_restore_poll`
unfoldable pub restore_poll : PollFields → Frame → Frame
restore_poll state f =
    let requests =
      bit_or (if state.maskable_interrupt_pending then irq_line else 0)
        (if state.non_maskable_interrupt_pending then nmi_latch else 0) in
    let both =
      overlay nmi_latch state.polled_non_maskable_interrupt
        (overlay irq_line state.polled_maskable_interrupt requests) in
    let polled = if state.skipped_poll then bit_or both no_poll else both in
    confirm (record f {
      halted = state.halted;
      reset_pending = state.reset_pending;
      requests = requests;
      polled = if polled == requests then none else some polled;
      polled_i = maybe none (λ i. some (if i then flag_i else 0)) state.polled_i;
    })

-- `_differs` remembers a bit exactly so that what the poll saw can be read back.
pub maybe-differs :
    (polled requests bit : ℕ)
    → maybe (truth (bit_and requests bit)) (λ b. b) (differs polled requests bit)
      ≡ truth (bit_and polled bit)
unfolding differs
maybe-differs polled requests bit = ground arith
