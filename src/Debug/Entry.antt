-- ===== src/Debug/Entry.antt =====
-- The interrupt entries of src/sixfiveohtwo/_control.py on the tracked bus.
use python.Prelude.{
  ℕ, ◌+◌, ◌*◌, ◌/◌, ◌%◌, ◌≡◌, refl, Bool, true, false, none, some, List, [], ◌∷◌, bit_and, bit_or,
  truth, u8, arith, if◌then◌else◌,
}
use python.Prelude.Bits.{and_not, bit_or-add, bit_and_16, bit_and_32}
use python.Flags.{stack, flag_i}
use python.Frame.{Frame, no_poll, irq_line, nmi_latch}
use python.Cpu.{Cpu, Program, ret, put, ◌>>=◌, ◌>>◌, Bus, run, read, write, Action}
use python.Control.{
  enter_interrupt, interrupt, interrupt_vector, take_nmi, hijack, takes_over, pulled_p, set_flag,
  did_not_poll, modify_frame, vector_nmi, vector_irq,
}
use python.Core.{set_pc, word, push}
use python.Debug.Access.{Kind, Access, tracked}
use python.Debug.Reset.{reading, below, vector_word}

abbrev writing : ℕ → ℕ → Access
writing address value = record { kind = Kind.w; address = address; value = value }

-- The accesses of an interrupt entry, with the vector that it ends at.
pub record IsEntry (vector : ℕ) (c : Cpu) (log : List Access) (pc' : ℕ) : Type 0 where
  pub first : ℕ
  pub second : ℕ
  pub pushed_p : ℕ
  pub low : ℕ
  pub high : ℕ
  pub accesses :
      log
      ≡ reading c.pc first
        ∷ reading c.pc second
        ∷ writing (bit_or stack c.s) (c.pc / 256)
        ∷ writing (bit_or stack (below c.s)) (u8 c.pc)
        ∷ writing (bit_or stack (below (below c.s))) pushed_p
        ∷ reading vector low
        ∷ reading (vector + 1) high
        ∷ []
  pub target : pc' ≡ high * 256 + low
  -- P with bit 5 set and B, bit 4, clear.
  pub b_clear : pushed_p ≡ c.p / 64 * 64 + 32 + c.p % 16

-- What an entry returns and leaves: 7 cycles, A, X and Y, S lowered by three, I set, no poll.
pub record IsTaken {H : Type 0} (vector : ℕ) (c : Cpu) (r : ℕ × Cpu × (H × List Access))
    : Type 0 where
  pub cycles : r.0 ≡ 7
  pub same_a : r.1.a ≡ c.a
  pub same_x : r.1.x ≡ c.x
  pub same_y : r.1.y ≡ c.y
  pub lower_s : r.1.s ≡ (c.s + 253) % 256
  pub masks : r.1.p ≡ bit_or c.p flag_i
  pub skips_poll : r.1.frame.polled ≡ some no_poll
  pub entry : IsEntry vector c (r.2.1) (r.1.pc)

-- P as an interrupt pushes it.
pulled_p_lem : (p : ℕ) → pulled_p p ≡ p / 64 * 64 + 32 + p % 16
unfolding pulled_p
pulled_p_lem p = omega (arith, bit_or-add p 32, bit_and_32 p, bit_and_16 (bit_or p 32))

-- The frame when PC has been pushed: after the calls that the host makes in the first four cycles.
unfoldable pub pushed_frame : {H : Type 0} → Bus H → Cpu → H → Frame
pushed_frame bus c h =
    (run bus
      (read c.pc
        >> read c.pc
        >> write (bit_or stack c.s) (c.pc / 256)
        >> write (bit_or stack (below c.s)) (u8 c.pc))
      (record c { frame = record (c.frame) { polled_i = none } }) h).1.frame

-- The vector of an IRQ: an NMI that is latched by then takes the entry over.
abbrev pub irq_entry_vector : Frame → ℕ
irq_entry_vector f = if truth (bit_and f.requests nmi_latch) then vector_nmi else vector_irq

-- Where the frame decides: a latched NMI takes over.
run-hijack :
    {A B H : Type 0} (bus : Bus H) (k : ℕ → Program A) (k' : A → Program B) (vector : ℕ) (c : Cpu)
    (h : H)
    → (f : Frame) × (run bus (hijack vector >>= k >>= k') c h
        ≡ run bus
            (k (if takes_over vector c.frame then vector_nmi else vector) >>= k')
            (record c { frame = f })
            h)
unfolding run hijack
run-hijack bus k k' vector c h = go (takes_over vector c.frame)
  where
    go :
        (b : Bool)
        → (f : Frame) × (run bus
              ((if b
                  then put
                      (record c {
                        frame = record (c.frame) { requests = and_not c.frame.requests nmi_latch };
                      })
                      (ret vector_nmi)
                  else ret vector)
                >>= k
                >>= k')
              c
              h
            ≡ run bus (k (if b then vector_nmi else vector) >>= k') (record c { frame = f }) h)
    go true = (_, refl)
    go false = (_, refl)

-- An entry after its vector is chosen.
unfoldable entry_end : ℕ → ℕ → Action
unfolding push set_flag set_pc
entry_end pushed_p vector = do
  push pushed_p
  set_flag flag_i
  low ← read vector
  high ← read (vector + 1)
  set_pc (word high low)
  modify_frame (λ f. record f { deferred = some no_poll })

lowered : (s : ℕ) → below (below (below s)) ≡ (s + 253) % 256
lowered s = omega arith

carry : {A : Type 0} (Q : A → Type 0) {r r' : A} → r ≡ r' → Q r' → Q r
carry Q e q = rw e q

nmi_lem :
    {H : Type 0} (bus : Bus H) (c : Cpu) (h : H)
    → IsTaken vector_nmi c (run (tracked bus) (enter_interrupt nmi_latch) c (h, []))
unfolding enter_interrupt interrupt interrupt_vector take_nmi hijack takes_over set_flag set_pc push
    tracked run
nmi_lem bus c h = record {
  cycles = refl;
  same_a = refl;
  same_x = refl;
  same_y = refl;
  lower_s = lowered c.s;
  masks = refl;
  skips_poll = refl;
  entry = record {
    first = _;
    second = _;
    pushed_p = _;
    low = _;
    high = _;
    accesses = refl;
    target = vector_word bus _ _ _;
    b_clear = pulled_p_lem c.p;
  };
}

irq_lem :
    {H : Type 0} (bus : Bus H) (c : Cpu) (h : H)
    → IsTaken
        (irq_entry_vector (pushed_frame bus c h))
        c
        (run (tracked bus) (enter_interrupt irq_line) c (h, []))
unfolding enter_interrupt interrupt interrupt_vector take_nmi hijack takes_over set_flag set_pc push
    tracked run entry_end pushed_frame
irq_lem bus c h =
    carry (IsTaken _ c)
      (run-hijack (tracked bus) (entry_end (pulled_p c.p)) (λ _. did_not_poll >>= λ _. ret 7)
        vector_irq _ _).1
      (record {
        cycles = refl;
        same_a = refl;
        same_x = refl;
        same_y = refl;
        lower_s = lowered c.s;
        masks = refl;
        skips_poll = refl;
        entry = record {
          first = _;
          second = _;
          pushed_p = _;
          low = _;
          high = _;
          accesses = refl;
          target = vector_word bus _ _ _;
          b_clear = pulled_p_lem c.p;
        };
      })

-- On any host and from any attributes, an interrupt entry makes seven cycles: two reads at PC, the
-- pushes of PC and of P with B clear, and the reads of a vector, which give PC. It returns 7, lowers
-- S by three, sets I, leaves A, X and Y, and is remembered as a step that did not poll. An NMI uses
-- its own vector; an IRQ uses that of the NMI exactly where one is latched when PC has been pushed,
-- after the calls that the host makes in the first four cycles, and the IRQ vector else.
pub enter_interrupt_lem :
    {H : Type 0} (bus : Bus H) (c : Cpu) (h : H)
    → IsTaken vector_nmi c (run (tracked bus) (enter_interrupt nmi_latch) c (h, []))
      × IsTaken
          (irq_entry_vector (pushed_frame bus c h))
          c
          (run (tracked bus) (enter_interrupt irq_line) c (h, []))
enter_interrupt_lem bus c h = (nmi_lem bus c h, irq_lem bus c h)
