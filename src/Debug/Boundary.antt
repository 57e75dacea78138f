-- ===== src/Debug/Boundary.antt =====
-- src/sixfiveohtwo/debug.py: `next_boundary`, and that a step does what it says.
use python.Prelude.{
  ℕ, ◌<◌, ◌≡◌, refl, sym, ap, ◌∙◌, ◌≢◌, Bool, true, false, truth, truth-false, maybe, not, bit_and,
  ◌&&◌, if◌then◌else◌, arith,
}
use python.Prelude.Bits.{bit_and-one, bit_and_two, bit_and_four}
use python.Flags.{flag_i}
use python.Frame.{Frame, irq_line, nmi_latch, no_poll}
use python.Frame.Boundary.{seen, boundary_interrupt, maybe-differs, poll_fields}
use python.Frame.Disturbed.{IsFrame, seen-lt}
use python.Cpu.{Cpu, Program, ret, put, ◌>>=◌, ◌>>◌, Bus, run}
use python.Control.{accept_reset, enter_interrupt}
use python.Step.{remembers, decide, halted_cycle, instruction, proceed, boundary, step}
use python.State.{CpuState, state_of}

pub data BoundaryKind : Type 0 where
  instruction_kind jam_idle reset nmi irq : BoundaryKind

-- `next_boundary`
unfoldable pub next_boundary : CpuState → BoundaryKind
next_boundary t =
    let f = t.poll in
    if f.reset_pending
    then BoundaryKind.reset
    else if f.halted
    then BoundaryKind.jam_idle
    else if f.skipped_poll
    then BoundaryKind.instruction_kind
    else if maybe f.non_maskable_interrupt_pending (λ b. b) f.polled_non_maskable_interrupt
    then BoundaryKind.nmi
    else let masked = maybe (truth (bit_and t.p flag_i)) (λ b. b) f.polled_i in
      if maybe f.maskable_interrupt_pending (λ b. b) f.polled_maskable_interrupt && not masked
      then BoundaryKind.irq
      else BoundaryKind.instruction_kind

-- The interrupt of a kind, 0 for none.
unfoldable pub interrupt_of : BoundaryKind → ℕ
interrupt_of BoundaryKind.nmi = nmi_latch
interrupt_of BoundaryKind.irq = irq_line
interrupt_of _ = 0

-- NO_POLL stands alone: beside it no request was seen.
no_poll_alone :
    (v : ℕ)
    → v < 5
    → truth (bit_and v no_poll) ≡ true
    → (bit_and v irq_line ≡ 0) × (bit_and v nmi_latch ≡ 0)
no_poll_alone v h t = ground (arith, bit_and-one v, bit_and_two v, bit_and_four v)

-- On a running CPU the boundary takes the interrupt that `next_boundary` names.
decides :
    (c : Cpu)
    → IsFrame c.frame
    → c.frame.reset_pending ≡ false
    → c.frame.halted ≡ false
    → (boundary_interrupt c.p c.frame).0 ≡ interrupt_of (next_boundary (state_of c))
unfolding boundary_interrupt interrupt_of next_boundary state_of
decides c i r h = ground (
  arith,
  maybe-differs (seen c.frame) c.frame.requests irq_line,
  maybe-differs (seen c.frame) c.frame.requests nmi_latch,
  no_poll_alone (seen c.frame) (seen-lt c.frame i),
)

-- With nothing remembered, nothing would be taken.
nothing_taken : (p : ℕ) (f : Frame) → remembers f ≡ false → (boundary_interrupt p f).0 ≡ 0
unfolding remembers boundary_interrupt seen
nothing_taken p f e = ground (arith, truth-false f.requests)

-- What a boundary takes, and the attributes once it has decided.
unfoldable taken : Cpu → ℕ
taken c = if remembers c.frame then (boundary_interrupt c.p c.frame).0 else 0

unfoldable decided : Cpu → Cpu
decided c = if remembers c.frame then record c { frame = (boundary_interrupt c.p c.frame).1 } else c

run-choice :
    {A H : Type 0} (bus : Bus H) (k : ℕ → Program A) (c d : Cpu) (h : H) (v : ℕ) (b : Bool)
    → run bus ((if b then put d (ret v) else ret 0) >>= k) c h
      ≡ run bus (k (if b then v else 0)) (if b then d else c) h
unfolding run
run-choice bus k c d h v true = refl
run-choice bus k c d h v false = refl

run-if :
    {A H : Type 0} (bus : Bus H) (m m' : Program A) (c : Cpu) (h : H) (b : Bool)
    → run bus (if b then m else m') c h ≡ (if b then run bus m c h else run bus m' c h)
run-if bus m m' c h true = refl
run-if bus m m' c h false = refl

run-decide :
    {A H : Type 0} (bus : Bus H) (k : ℕ → Program A) (c : Cpu) (h : H)
    → run bus (decide >>= k) c h ≡ run bus (k (taken c)) (decided c) h
unfolding run decide taken decided
run-decide bus k c h =
    run-choice bus k c (record c { frame = (boundary_interrupt c.p c.frame).1 }) h
      (boundary_interrupt c.p c.frame).0 (remembers c.frame)

taken-interrupt_of :
    (c : Cpu)
    → IsFrame c.frame
    → c.frame.reset_pending ≡ false
    → c.frame.halted ≡ false
    → taken c ≡ interrupt_of (next_boundary (state_of c))
unfolding taken
taken-interrupt_of c i r h = ground (arith, decides c i r h, nothing_taken c.p c.frame)

-- What a step of each kind runs.
unfoldable pub perform : BoundaryKind → Program ℕ
perform BoundaryKind.reset = accept_reset
perform BoundaryKind.jam_idle = halted_cycle
perform BoundaryKind.nmi = decide >> enter_interrupt nmi_latch
perform BoundaryKind.irq = decide >> enter_interrupt irq_line
perform BoundaryKind.instruction_kind = decide >> instruction

running_kind :
    (c : Cpu)
    → c.frame.reset_pending ≡ false
    → c.frame.halted ≡ false
    → (next_boundary (state_of c) ≢ BoundaryKind.reset)
      × (next_boundary (state_of c) ≢ BoundaryKind.jam_idle)
unfolding next_boundary state_of poll_fields
running_kind c r h = (λ e. ground arith, λ e. ground arith)

reset_kind :
    (c : Cpu) → c.frame.reset_pending ≡ true → next_boundary (state_of c) ≡ BoundaryKind.reset
unfolding next_boundary state_of poll_fields
reset_kind c r = ground arith

jam_idle_kind :
    (c : Cpu)
    → c.frame.reset_pending ≡ false
    → c.frame.halted ≡ true
    → next_boundary (state_of c) ≡ BoundaryKind.jam_idle
unfolding next_boundary state_of poll_fields
jam_idle_kind c r j = ground arith

-- Both branches of a test equal one value.
if-eq :
    {A : Type 0} (b : Bool) {x y z : A}
    → (b ≡ true → x ≡ z)
    → (b ≡ false → y ≡ z)
    → (if b then x else y) ≡ z
if-eq true t e = t refl
if-eq false t e = e refl

-- What the interrupt of a kind runs, once the boundary has decided.
runs_as :
    {H : Type 0} (bus : Bus H) (kind : BoundaryKind) (c : Cpu) (h : H)
    → kind ≢ BoundaryKind.reset
    → kind ≢ BoundaryKind.jam_idle
    → run bus (proceed (interrupt_of kind)) (decided c) h ≡ run bus (perform kind) c h
unfolding proceed interrupt_of perform
runs_as bus BoundaryKind.reset c h r j = absurd (r refl)
runs_as bus BoundaryKind.jam_idle c h r j = absurd (j refl)
runs_as bus BoundaryKind.nmi c h r j = sym (run-decide bus (λ _. enter_interrupt nmi_latch) c h)
runs_as bus BoundaryKind.irq c h r j = sym (run-decide bus (λ _. enter_interrupt irq_line) c h)
runs_as bus BoundaryKind.instruction_kind c h r j = sym (run-decide bus (λ _. instruction) c h)

step_running :
    {H : Type 0} (bus : Bus H) (c : Cpu) (h : H)
    → IsFrame c.frame
    → c.frame.reset_pending ≡ false
    → c.frame.halted ≡ false
    → run bus boundary c h ≡ run bus (perform (next_boundary (state_of c))) c h
unfolding boundary
step_running bus c h i r e =
    run-decide bus proceed c h
    ∙ ap (λ t. run bus (proceed t) (decided c) h) (taken-interrupt_of c i r e)
    ∙ runs_as bus (next_boundary (state_of c)) c h (running_kind c r e).0 (running_kind c r e).1

-- For a CPU whose frame is in range, `next_boundary` of its state decides exactly as `step` does: the
-- step runs the reset, the halted cycle, the entry of that interrupt or the instruction that it names.
pub step-next_boundary :
    {H : Type 0} (bus : Bus H) (c : Cpu) (h : H)
    → IsFrame c.frame
    → run bus step c h ≡ run bus (perform (next_boundary (state_of c))) c h
unfolding step run halted_cycle perform
step-next_boundary bus c h i =
    run-if bus accept_reset (if c.frame.halted then halted_cycle else boundary) c h
      c.frame.reset_pending
    ∙ if-eq c.frame.reset_pending (λ r. ap (λ k. run bus (perform k) c h) (sym (reset_kind c r)))
        (λ r.
          run-if bus halted_cycle boundary c h c.frame.halted
          ∙ if-eq c.frame.halted
              (λ j. ap (λ k. run bus (perform k) c h) (sym (jam_idle_kind c r j)))
              (λ j. step_running bus c h i r j))
