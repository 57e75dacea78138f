-- ===== src/Control/Delays.antt =====
-- CLI, SEI and PLP change I after the interrupt poll (src/sixfiveohtwo/_control.py).
use python.Prelude.{
  ℕ, ◌≡◌, refl, ◌∙◌, ap, Bool, true, false, List, truth, maybe, bit_and, bit_or, some, arith,
}
use python.Prelude.Bits.{and_not}
use python.Flags.{flag_i}
use python.Frame.{Frame, Call, run_calls, confirm}
use python.Frame.Boundary.{boundary_interrupt, seen}
use python.Frame.Polls.{irq_masked, decision, boundary_interrupt-decision}
use python.Frame.Disturbed.{run_calls-Disturbed}
use python.Cpu.{Cpu, Bus, run, routed, Action}
use python.Core.{read_pc, read_stack, pull}
use python.Shifts.{set_p}
use python.Control.{op_cli, op_sei, op_plp, clear_flag, set_flag}
use python.Step.{settle}

-- What the boundary takes after an instruction's handler.
abbrev pub taken_after : {H : Type 0} → Bus H → Action → Cpu → H → ℕ
taken_after bus op c h =
    let c' = (run bus op c h).1 in (boundary_interrupt c'.p (settle c'.frame)).0

-- What that boundary sees, after an instruction's handler.
abbrev pub seen_after : {H : Type 0} → Bus H → Action → Cpu → H → ℕ
seen_after bus op c h = seen (settle (run bus op c h).1.frame)

settle-polled_i : (f : Frame) → (settle f).polled_i ≡ f.polled_i
unfolding settle
settle-polled_i f = ground arith

decided_by :
    (p i : ℕ) (f : Frame)
    → f.polled_i ≡ some i
    → (boundary_interrupt p (settle f)).0 ≡ decision (seen (settle f)) (truth i)
unfolding irq_masked
decided_by p i f e =
    boundary_interrupt-decision p (settle f)
    ∙ ap (λ o. decision (seen (settle f)) (maybe (truth (bit_and p flag_i)) truth o))
        (settle-polled_i f ∙ e)

callback-polled_i :
    (confirming : Bool) (calls : List Call) (f : Frame)
    → (run_calls calls (routed confirming f)).polled_i ≡ f.polled_i
unfolding routed
callback-polled_i true calls f = (run_calls-Disturbed calls (confirm f)).same_polled_i
callback-polled_i false calls f = (run_calls-Disturbed calls f).same_polled_i

-- On any host, the boundary after the handler of CLI, SEI or PLP decides on the I flag as it was
-- before that handler, though CLI has cleared it in P by then and SEI has set it.
pub delayed_i :
    {H : Type 0} (bus : Bus H) (c : Cpu) (h : H)
    → let i = truth (bit_and c.p flag_i) in
      ((taken_after bus op_cli c h ≡ decision (seen_after bus op_cli c h) i)
        × ((run bus op_cli c h).1.p ≡ and_not c.p flag_i))
      × ((taken_after bus op_sei c h ≡ decision (seen_after bus op_sei c h) i)
          × ((run bus op_sei c h).1.p ≡ bit_or c.p flag_i))
      × (taken_after bus op_plp c h ≡ decision (seen_after bus op_plp c h) i)
unfolding op_cli op_sei op_plp clear_flag set_flag read_pc read_stack pull set_p run
delayed_i bus c h = (
  (
    decided_by (run bus op_cli c h).1.p (bit_and c.p flag_i) (run bus op_cli c h).1.frame refl,
    refl,
  ),
  (
    decided_by (run bus op_sei c h).1.p (bit_and c.p flag_i) (run bus op_sei c h).1.frame refl,
    refl,
  ),
  decided_by (run bus op_plp c h).1.p (bit_and c.p flag_i) (run bus op_plp c h).1.frame
      (search callback-polled_i),
)
