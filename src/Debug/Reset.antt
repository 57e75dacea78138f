-- ===== src/Debug/Reset.antt =====
-- The reset sequence of src/sixfiveohtwo/_control.py on the tracked bus: it is an interrupt entry
-- whose writes are reads.
use python.Prelude.{ℕ, ◌+◌, ◌*◌, ◌%◌, ◌≡◌, refl, some, List, [], ◌∷◌, bit_or, u8, arith}
use python.Flags.{stack, flag_i}
use python.Frame.{no_poll}
use python.Cpu.{Cpu, Bus, run}
use python.Control.{accept_reset, idle_pushes, set_flag}
use python.Core.{set_pc, word}
use python.Core.Addresses.{word-eq}
use python.Debug.Access.{Kind, Access, tracked}

abbrev pub reading : ℕ → ℕ → Access
reading address value = record { kind = Kind.r; address = address; value = value }

-- The stack pointer after a push.
abbrev pub below : ℕ → ℕ
below s = u8 (s + 255)

-- The reads of a reset from some PC and S, and the PC that the vector's two bytes give.
pub record IsReset (pc s : ℕ) (log : List Access) (pc' : ℕ) : Type 0 where
  pub first : ℕ
  pub second : ℕ
  pub third : ℕ
  pub fourth : ℕ
  pub fifth : ℕ
  pub low : ℕ
  pub high : ℕ
  pub reads :
      log
      ≡ reading pc first
        ∷ reading pc second
        ∷ reading (bit_or stack s) third
        ∷ reading (bit_or stack (below s)) fourth
        ∷ reading (bit_or stack (below (below s))) fifth
        ∷ reading 0xfffc low
        ∷ reading 0xfffd high
        ∷ []
  pub target : pc' ≡ high * 256 + low

pub vector_word :
    {H : Type 0} (bus : Bus H) (address high : ℕ) (h : H)
    → word high (bus.read_byte address h).0 ≡ high * 256 + (bus.read_byte address h).0
vector_word bus address high h =
    word-eq high (bus.read_byte address h).0 (bus.read_byte-lt address h)

-- On any host and from any attributes, a reset makes seven reads: two at PC, three on the stack,
-- where a push would write, and the two of its vector, which give PC. It returns 7, lowers S by
-- three, sets I, leaves A, X and Y, and is remembered as a step that did not poll.
pub accept_reset_lem :
    {H : Type 0} (bus : Bus H) (c : Cpu) (h : H)
    → let (cycles, c', (h', log)) = run (tracked bus) accept_reset c (h, []) in
      (cycles ≡ 7)
      × ((c'.a ≡ c.a) × (c'.x ≡ c.x) × (c'.y ≡ c.y))
      × (c'.s ≡ (c.s + 253) % 256)
      × (c'.p ≡ bit_or c.p flag_i)
      × (c'.frame.polled ≡ some no_poll)
      × IsReset c.pc c.s log c'.pc
unfolding accept_reset tracked run idle_pushes set_flag set_pc
accept_reset_lem bus c h = (
  refl,
  (refl, refl, refl),
  omega arith,
  refl,
  refl,
  record {
    first = _;
    second = _;
    third = _;
    fourth = _;
    fifth = _;
    low = _;
    high = _;
    reads = refl;
    target = vector_word bus _ _ _;
  },
)
