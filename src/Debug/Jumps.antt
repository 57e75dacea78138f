-- ===== src/Debug/Jumps.antt =====
-- The indirect jump of src/sixfiveohtwo/_control.py on the tracked bus.
use python.Prelude.{ℕ, ◌+◌, ◌*◌, ◌/◌, ◌%◌, ◌<◌, ◌≡◌, ◌∙◌, ap, List, [], ◌∷◌, bit_and, u16, arith}
use python.Prelude.Bits.{bit_and_even, bit_and_odd, bit_and-one, bit_or-shifted}
use python.Cpu.{Cpu, Bus, run}
use python.Control.{op_jmp_ind}
use python.Core.{set_pc, word, same_page, fetch, fetch_word}
use python.Core.Addresses.{word-lt}
use python.Debug.Access.{Access, tracked}
use python.Debug.Reset.{reading, vector_word}

low_byte : (a : ℕ) → a < 256 → bit_and a 0xff ≡ a
low_byte a h = omega (
  arith,
  h,
  bit_and_odd a 0x7f,
  bit_and_odd (a / 2) 0x3f,
  bit_and_odd (a / 2 / 2) 0x1f,
  bit_and_odd (a / 2 / 2 / 2) 0xf,
  bit_and_odd (a / 2 / 2 / 2 / 2) 7,
  bit_and_odd (a / 2 / 2 / 2 / 2 / 2) 3,
  bit_and_odd (a / 2 / 2 / 2 / 2 / 2 / 2) 1,
  bit_and-one (a / 2 / 2 / 2 / 2 / 2 / 2 / 2),
)

high_byte : (a : ℕ) → a < 65536 → bit_and a 0xff00 ≡ a / 256 * 256
high_byte a h = omega (
  arith,
  h,
  bit_and_even a 0x7f80,
  bit_and_even (a / 2) 0x3fc0,
  bit_and_even (a / 2 / 2) 0x1fe0,
  bit_and_even (a / 2 / 2 / 2) 0xff0,
  bit_and_even (a / 2 / 2 / 2 / 2) 0x7f8,
  bit_and_even (a / 2 / 2 / 2 / 2 / 2) 0x3fc,
  bit_and_even (a / 2 / 2 / 2 / 2 / 2 / 2) 0x1fe,
  bit_and_even (a / 2 / 2 / 2 / 2 / 2 / 2 / 2) 0xff,
  low_byte (a / 2 / 2 / 2 / 2 / 2 / 2 / 2 / 2) (omega arith),
)

-- The page of one address with the low byte of another.
pub same_page_lem : (a b : ℕ) → a < 65536 → same_page a b ≡ a / 256 * 256 + b % 256
unfolding same_page
same_page_lem a b h = rw (high_byte a h) (bit_or-shifted 8 (a / 256) (b % 256) (omega arith))

-- The accesses of an indirect jump: its pointer's two bytes, and the two bytes that it points at.
pub record IsIndirect (pc : ℕ) (log : List Access) (pc' : ℕ) : Type 0 where
  pub pointer_low : ℕ
  pub pointer_high : ℕ
  pub low : ℕ
  pub high : ℕ
  pub reads :
      let pointer = pointer_high * 256 + pointer_low in
      log
      ≡ reading pc pointer_low
        ∷ reading (u16 (pc + 1)) pointer_high
        ∷ reading pointer low
        ∷ reading (pointer / 256 * 256 + (pointer + 1) % 256) high
        ∷ []
  pub target : pc' ≡ high * 256 + low

same_reads :
    (pc v1 v2 v3 v4 : ℕ) {p p' q q' : ℕ}
    → p ≡ p'
    → q ≡ q'
    → (reading pc v1 ∷ reading (u16 (pc + 1)) v2 ∷ reading p v3 ∷ reading q v4 ∷ [])
      ≡ (reading pc v1 ∷ reading (u16 (pc + 1)) v2 ∷ reading p' v3 ∷ reading q' v4 ∷ [])
same_reads pc v1 v2 v3 v4 d e = cc

next_in_page :
    {H : Type 0} (bus : Bus H) (a b : ℕ) (h g : H)
    → let low = (bus.read_byte a h).0 in
      let high = (bus.read_byte b g).0 in
      let pointer = high * 256 + low in
      same_page (word high low) (word high low + 1) ≡ pointer / 256 * 256 + (pointer + 1) % 256
next_in_page bus a b h g =
    same_page_lem _ _ (word-lt _ _ (bus.read_byte-lt b g) (bus.read_byte-lt a h))
    ∙ ap (λ (t : ℕ). t / 256 * 256 + (t + 1) % 256) (vector_word bus a (bus.read_byte b g).0 h)

-- On any host, JMP indirect reads its operand, then the target's low byte at that pointer and its
-- high byte at the next address within the pointer's page, never in the page after; PC is the target.
pub op_jmp_ind_lem :
    {H : Type 0} (bus : Bus H) (c : Cpu) (h : H)
    → let (_, c', (h', log)) = run (tracked bus) op_jmp_ind c (h, []) in IsIndirect c.pc log c'.pc
unfolding op_jmp_ind fetch_word fetch set_pc run tracked
op_jmp_ind_lem bus c h = record {
  pointer_low = _;
  pointer_high = _;
  low = _;
  high = _;
  reads = same_reads c.pc _ _ _ _ (vector_word bus _ _ _) (next_in_page bus _ _ _ _);
  target = vector_word bus _ _ _;
}
