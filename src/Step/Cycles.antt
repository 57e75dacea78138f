-- ===== src/Step/Cycles.antt =====
-- One step of src/sixfiveohtwo/frame.py and cpu.py: the ranges of the attributes are kept, and the
-- returned count is the number of bus cycles.
use python.Prelude.{
  ℕ, ◌+◌, ◌≤◌, ◌<◌, ◌≡◌, refl, ◌∙◌, none, ◌⊎◌, inl, inr, truth, u16, Bool-cases, Option-cases,
  truth-false, arith,
}
use python.Frame.{Frame}
use python.Frame.Boundary.{boundary_interrupt}
use python.Frame.Disturbed.{IsFrame, Held}
use python.Cpu.{Cpu}
use python.Cpu.Wp.{Wp, Wp-mono, Wp-bind, Wp-if}
use python.Cpu.Safe.{IsSafe}
use python.Cpu.Runs.{IsDone, IsSafe-IsDone}
use python.Core.{set_pc}
use python.Control.{enter_interrupt, accept_reset}
use python.Control.Sequences.{enter_interrupt-Runs, accept_reset-Runs}
use python.Dispatch.{entry, effective_address, implied_handler, addressed_handler}
use python.Dispatch.Names.{Entry, implied, addressed, base_cycles}
use python.Dispatch.Cycles.{
  mode-Charges, addressed-Runs, implied-Finishes, entry_cycles, entry_cycles-eq-base_cycles,
  two-le-base_cycles,
}
use python.Step.{
  dispatch, count_cycles, execute, halted_cycle, remembers, decide, boundary, settle, instruction,
  proceed, step,
}

-- Between steps no extra cycle is left over.
pub record IsReady (c : Cpu) : Type 0 where
  pub safe : IsSafe c
  pub no_extra : c.extra ≡ 0

-- The opcode has been read: the entry makes the rest of its cycles, and the extra ones.
dispatch_lem :
    (e : Entry) (c : Cpu) (n : ℕ)
    → IsReady c
    → Wp (dispatch e) (λ _ c' n'. IsDone c' × (n' + 1 ≡ n + entry_cycles e + c'.extra)) c n
unfolding dispatch entry_cycles
dispatch_lem (implied h k) c n r =
    Wp-mono (implied_handler h) c n (λ _ c' n' f. (f.0, omega (arith, f.1)))
      (implied-Finishes h c n (r.safe) (r.no_extra))
dispatch_lem (addressed h m k) c n r = Wp-bind _ (effective_address m) (addressed_handler h) c n (
    Wp-mono (effective_address m) c n
      (λ address c' n' f.
        Wp-mono (addressed_handler h address) c' n'
          (λ _ c'' n'' f'. (IsSafe-IsDone c'' (f'.0), omega (arith, f.1, f'.1, f'.2)))
          (addressed-Runs h address (f.2) c' n' (f.0)))
      (mode-Charges m c n (r.safe) (r.no_extra)))

-- An instruction has been counted, and its poll is still to be remembered.
record IsCounted (c : Cpu) : Type 0 where
  done : IsDone c
  none_extra : c.extra ≡ 0

count_cycles_lem :
    (cycles : ℕ) (c : Cpu) (n m : ℕ)
    → IsDone c
    → n ≡ m + cycles + c.extra
    → 2 ≤ cycles
    → Wp (count_cycles cycles) (λ k c' n'. IsCounted c' × (n' ≡ m + k) × (1 ≤ k)) c n
unfolding count_cycles
count_cycles_lem cycles c n m d e two = elim (Bool-cases (truth c.extra)) [
  | inl t ↦ rw (t, Wp) (search (arith, d.settled, d.deferred_done))
  | inr f ↦ rw (f, Wp) (let none_left : c.extra ≡ 0 = truth-false c.extra f in search (arith, d))
]

-- An instruction makes as many bus cycles as it returns.
execute_lem :
    (c : Cpu) (n : ℕ)
    → IsReady c
    → Wp execute (λ k c' n'. IsCounted c' × (n' ≡ n + k) × (1 ≤ k)) c n
unfolding execute set_pc
execute_lem c n r = (
  r.safe.pc_fits,
  λ opcode fits g d.
      Wp-bind _ (dispatch (entry opcode)) _ (record c { pc = u16 (c.pc + 1); frame = g }) (n + 1)
        (Wp-mono (dispatch (entry opcode)) (record c { pc = u16 (c.pc + 1); frame = g }) (n + 1)
          (λ _ c' n' f.
            count_cycles_lem (base_cycles (entry opcode)) c' n' n (f.0)
              (omega (arith, f.1, entry_cycles-eq-base_cycles opcode fits))
              (two-le-base_cycles opcode fits))
          (dispatch_lem (entry opcode) (record c { pc = u16 (c.pc + 1); frame = g }) (n + 1)
            (search (arith, r.safe, r.no_extra)))),
)

settle-fields :
    (f : Frame)
    → ((settle f).requests ≡ f.requests)
      × ((settle f).deferred ≡ none)
      × ((settle f).stalled ≡ f.stalled)
      × ((settle f).stalled_before ≡ f.stalled_before)
      × ((settle f).polled_i ≡ f.polled_i)
unfolding settle
settle-fields f = (ground arith, ground arith, ground arith, ground arith, ground arith)

settle-polled :
    (f : Frame)
    → Held (λ v. v < 5) f.polled
    → Held (λ v. v < 5) f.deferred
    → Held (λ v. v < 5) (settle f).polled
unfolding settle
settle-polled f h k = elim (Option-cases f.deferred) [
  | inl e ↦ rw e h
  | inr (v, e) ↦ rw e (rw e at k)
]

settle-IsFrame :
    (f : Frame)
    → IsFrame (record f { deferred = none })
    → Held (λ v. v < 5) f.deferred
    → IsFrame (settle f)
settle-IsFrame f i d =
    let same = settle-fields f in
    record {
      requests_fit = rw same.0 (i.requests_fit);
      polled_fits = settle-polled f (i.polled_fits) d;
      deferred_fits = rw same.1 tt;
      stalled_fits = rw same.2 (i.stalled_fits);
      stalled_before_fits = rw same.3 (i.stalled_before_fits);
      polled_i_fits = rw same.4 (i.polled_i_fits);
    }

-- A decision forgets what was polled and changes nothing else, but for a remembered I flag.
boundary_interrupt-fields :
    (p : ℕ) (f : Frame)
    → let g = (boundary_interrupt p f).1 in
      (g.requests ≡ f.requests)
      × (g.polled ≡ none)
      × (g.deferred ≡ f.deferred)
      × (g.stalled ≡ f.stalled)
      × (g.stalled_before ≡ f.stalled_before)
      × ((g.polled_i ≡ f.polled_i) ⊎ (g.polled_i ≡ none))
unfolding boundary_interrupt
boundary_interrupt-fields p f =
    (ground arith, ground arith, ground arith, ground arith, ground arith, ground arith)

boundary_interrupt-IsFrame : (p : ℕ) (f : Frame) → IsFrame f → IsFrame (boundary_interrupt p f).1
boundary_interrupt-IsFrame p f i =
    let same = boundary_interrupt-fields p f in
    record {
      requests_fit = rw same.0 (i.requests_fit);
      polled_fits = rw same.1 tt;
      deferred_fits = rw same.2 (i.deferred_fits);
      stalled_fits = rw same.3 (i.stalled_fits);
      stalled_before_fits = rw same.4 (i.stalled_before_fits);
      polled_i_fits = elim same.5 [ inl e ↦ rw e (i.polled_i_fits) | inr e ↦ rw e tt ];
    }

framed_by :
    (c : Cpu) (g : Frame)
    → IsSafe (record c { frame = record (c.frame) { deferred = none } })
    → c.extra ≡ 0
    → IsFrame g
    → IsReady (record c { frame = g })
framed_by c g s e i = search (arith, s)

framed : (c : Cpu) (g : Frame) → IsReady c → IsFrame g → IsReady (record c { frame = g })
framed c g r i = search (arith, r.safe, r.no_extra)

settled : (c : Cpu) → IsCounted c → IsReady (record c { frame = settle c.frame })
settled c k =
    framed_by c (settle c.frame) (k.done.settled) (k.none_extra)
      (settle-IsFrame c.frame (k.done.settled.frame_fits) (k.done.deferred_done))

instruction_lem :
    (c : Cpu) (n : ℕ)
    → IsReady c
    → Wp instruction (λ k c' n'. IsReady c' × (n' ≡ n + k) × (1 ≤ k)) c n
unfolding instruction
instruction_lem c n r =
    Wp-bind _ execute _ c n
      (Wp-mono execute c n (λ k c' n' f. (settled c' (f.0), f.1, f.2)) (execute_lem c n r))

decide_lem : (c : Cpu) (n : ℕ) → IsReady c → Wp decide (λ k c' n'. IsReady c' × (n' ≡ n)) c n
unfolding decide
decide_lem c n r = elim (Bool-cases (remembers c.frame)) [
  | inl e ↦
      rw (e, Wp)
        (
          framed c (boundary_interrupt c.p c.frame).1 r
              (boundary_interrupt-IsFrame c.p c.frame (r.safe.frame_fits)),
          refl,
        )
  | inr e ↦ rw (e, Wp) (r, refl)
]

proceed_lem :
    (taken : ℕ) (c : Cpu) (n : ℕ)
    → IsReady c
    → Wp (proceed taken) (λ k c' n'. IsReady c' × (n' ≡ n + k) × (1 ≤ k)) c n
unfolding proceed
proceed_lem taken c n r = elim (Bool-cases (truth taken)) [
  | inl e ↦ rw e (
      Wp-mono (enter_interrupt taken) c n
        (λ k c' n' f. (
          record { safe = f.0; no_extra = f.2 ∙ r.no_extra },
          omega (arith, f.1, f.3),
          omega (arith, f.3),
        ))
        (enter_interrupt-Runs taken c n (r.safe)))
  | inr e ↦ rw e (instruction_lem c n r)
]

halted_lem :
    (c : Cpu) (n : ℕ)
    → IsReady c
    → Wp halted_cycle (λ k c' n'. IsReady c' × (n' ≡ n + k) × (1 ≤ k)) c n
unfolding halted_cycle
halted_lem c n r =
    (omega arith, λ value fits g d. (framed c g r (d.keeps (r.safe.frame_fits)), refl, omega arith))

boundary_lem :
    (c : Cpu) (n : ℕ) → IsReady c → Wp boundary (λ k c' n'. IsReady c' × (n' ≡ n + k) × (1 ≤ k)) c n
unfolding boundary
boundary_lem c n r = Wp-bind _ decide proceed c n (
    Wp-mono decide c n
      (λ taken c' n' f.
        Wp-mono (proceed taken) c' n' (λ k c'' n'' g. (g.0, omega (arith, f.1, g.1), g.2))
          (proceed_lem taken c' n' (f.0)))
      (decide_lem c n r))

-- Every step, from any attributes in range and on any host.
pub step_lem :
    (c : Cpu) (n : ℕ) → IsReady c → Wp step (λ k c' n'. IsReady c' × (n' ≡ n + k) × (1 ≤ k)) c n
unfolding step
step_lem c n r =
    Wp-if _ c.frame.reset_pending accept_reset _ c n
      (λ _.
        Wp-mono accept_reset c n
          (λ k c' n' f. (
            record { safe = f.0; no_extra = f.2 ∙ r.no_extra },
            omega (arith, f.1, f.3),
            omega (arith, f.3),
          ))
          (accept_reset-Runs c n (r.safe)))
      (λ _.
        Wp-if _ c.frame.halted halted_cycle boundary c n (λ _. halted_lem c n r)
          (λ _. boundary_lem c n r))
