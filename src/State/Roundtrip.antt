-- ===== src/State/Roundtrip.antt =====
-- A CPU in range can be captured, and a captured state is restored (src/sixfiveohtwo/cpu.py).
use python.Prelude.{
  ℕ, ◌∙◌, ap, ◌<◌, ◌≡◌, refl, true, none, some, truth, maybe, bit_and, bit_or, ◌==◌, if◌then◌else◌,
  arith, every_below, every_below_lem, ==_iff,
}
use python.Prelude.Bits.{bit_and_0x30}
use python.Frame.{Frame, irq_line, nmi_latch, no_poll}
use python.Frame.Boundary.{PollFields, poll_fields, restore_poll, seen, differs, overlay}
use python.Frame.Disturbed.{IsFrame, seen-lt}
use python.Cpu.{Cpu}
use python.Cpu.Safe.{IsSafe}
use python.State.{CpuState, make_state, state_of, capture_state, restore_state}

-- Capturing raises nothing where the attributes are in range.
pub capture_state-IsSafe : (c : Cpu) → IsSafe c → capture_state c ≡ some (state_of c)
unfolding capture_state
capture_state-IsSafe c s = ground (arith, bit_and_0x30 c.p)

-- The requests, and what the poll saw, that `_restore_poll` rebuilds from what `_poll_fields` kept.
unfoldable requests_back : ℕ → ℕ
requests_back r =
    bit_or (if truth (bit_and r irq_line) then irq_line else 0)
      (if truth (bit_and r nmi_latch) then nmi_latch else 0)

unfoldable polled_back : ℕ → ℕ → ℕ
unfolding differs requests_back
polled_back r v =
    let both =
      overlay nmi_latch (differs v r nmi_latch)
        (overlay irq_line (differs v r irq_line) (requests_back r)) in
    if truth (bit_and v no_poll) then bit_or both no_poll else both

requests_back_lem : (r : ℕ) → r < 4 → requests_back r ≡ r
unfolding every_below requests_back
requests_back_lem r h =
    (==_iff (requests_back r) r).0 (every_below_lem 4 (λ r. requests_back r == r) r checked h)
  where
    checked : every_below 4 (λ r. requests_back r == r) ≡ true
    checked = refl

polled_back_lem : (r v : ℕ) → r < 4 → v < 5 → polled_back r v ≡ v
unfolding every_below polled_back requests_back differs
polled_back_lem r v h k = (==_iff (polled_back r v) v).0 (
    every_below_lem 5 (λ v. polled_back r v == v) v
      (every_below_lem 4 (λ r. every_below 5 (λ v. polled_back r v == v)) r checked h) k)
  where
    checked : every_below 4 (λ r. every_below 5 (λ v. polled_back r v == v)) ≡ true
    checked = refl

-- What the state keeps of the frame.
poll_fields-ext :
    (f g : Frame)
    → f.halted ≡ g.halted
    → f.reset_pending ≡ g.reset_pending
    → f.requests ≡ g.requests
    → seen f ≡ seen g
    → maybe none (λ i. some (truth i)) f.polled_i ≡ maybe none (λ i. some (truth i)) g.polled_i
    → poll_fields f ≡ poll_fields g
unfolding poll_fields
poll_fields-ext f g h r q s i = cc

restore_poll-requests :
    (f g : Frame) → IsFrame f → (restore_poll (poll_fields f) g).requests ≡ f.requests
unfolding restore_poll poll_fields requests_back
restore_poll-requests f g i = requests_back_lem f.requests (i.requests_fit)

maybe-same : (r v : ℕ) → maybe r (λ w. w) (if v == r then none else some v) ≡ v
maybe-same r v = ground arith

restore_poll-seen : (f g : Frame) → IsFrame f → seen (restore_poll (poll_fields f) g) ≡ seen f
unfolding seen restore_poll poll_fields polled_back requests_back
restore_poll-seen f g i =
    maybe-same (requests_back f.requests) (polled_back f.requests (seen f))
    ∙ polled_back_lem f.requests (seen f) (i.requests_fit) (seen-lt f i)

restore_poll-polled_i :
    (f g : Frame)
    → maybe none (λ i. some (truth i)) (restore_poll (poll_fields f) g).polled_i
      ≡ maybe none (λ i. some (truth i)) f.polled_i
unfolding restore_poll poll_fields
restore_poll-polled_i f g = ground arith

restore_poll-poll_fields :
    (f g : Frame) → IsFrame f → poll_fields (restore_poll (poll_fields f) g) ≡ poll_fields f
unfolding restore_poll poll_fields
restore_poll-poll_fields f g i =
    poll_fields-ext (restore_poll (poll_fields f) g) f (same_halted f g) (same_reset f g)
      (restore_poll-requests f g i) (restore_poll-seen f g i) (restore_poll-polled_i f g)
  where
    same_halted : (f g : Frame) → (restore_poll (poll_fields f) g).halted ≡ f.halted
    same_halted f g = refl

    same_reset : (f g : Frame) → (restore_poll (poll_fields f) g).reset_pending ≡ f.reset_pending
    same_reset f g = refl

-- The construction of a state with the registers of a CPU.
unfoldable state_with : Cpu → PollFields → CpuState
state_with c poll = record { a = c.a; x = c.x; y = c.y; s = c.s; pc = c.pc; p = c.p; poll = poll }

-- For a CPU whose attributes are in range: a capture succeeds, and on any CPU that its state is
-- restored to, a capture gives that state again.
pub capture_state-restore_state :
    (c d : Cpu)
    → IsSafe c
    → (capture_state c ≡ some (state_of c))
      × (capture_state (restore_state (state_of c) d) ≡ capture_state c)
unfolding capture_state make_state state_of restore_state state_with
capture_state-restore_state c d s = (
  capture_state-IsSafe c s,
  ap (λ poll. make_state (state_with c poll))
      (restore_poll-poll_fields c.frame d.frame (s.frame_fits)),
)
