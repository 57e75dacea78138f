-- ===== src/Console/Works.antt =====
-- src/sixfiveohtwo/console.py: what the commands rely on, on a session whose CPU is in range.
use python.Prelude.{
  ℕ, zero, suc, ◌+◌, ◌-◌, ◌<◌, ◌≤◌, ◌≡◌, refl, sym, subst, Bool, true, false, Option, none, some,
  List, [], ◌∷◌, ◌++◌, check, truth, leb, ◌==◌, u16, bind-eq-some, check-eq-some, Bool-cases, inl,
  inr, if◌then◌else◌, arith, leb→le,
}
use python.Text.{Text, chars, text_eq, text_eq_iff}
use python.Control.{pulled_p}
use python.Control.Ranges.{pulled_p-IsStatus}
use python.Text.Hex.{hex_word}
use python.Console.Format.{join_with, byte_texts}
use python.Cpu.{Cpu}
use python.Cpu.Safe.{IsStatus, IsSafe}
use python.Step.Cycles.{IsReady}
use python.Disasm.{Reader, Instruction, disassemble_range, next_address}
use python.Disasm.Errors.{IsTotal, disassemble-total, read_bytes-some}
use python.Console.Numbers.{dollar_or_plain, number, positive}
use python.Console.Commands.{set_register, register_maximum}
use python.Console.Views.{first_error, row, rows}

some-same : {m n : ℕ} → some m ≡ some n → m ≡ n
some-same e = cc

pub number-le : (t : Text) (most n : ℕ) → number t (some most) ≡ some n → n ≤ most
unfolding number
number-le t most n e =
    let (m, _, checked) = bind-eq-some (dollar_or_plain t) (λ n. check (leb n most) (some n)) e in
    let (below, same) = check-eq-some (leb m most) (some m) checked in
    subst (λ n. n ≤ most) (some-same same) (leb→le m most below)

pub positive-lt : (t : Text) (most : Option ℕ) (n : ℕ) → positive t most ≡ some n → 0 < n
unfolding positive
positive-lt t most n e =
    let (m, _, checked) = bind-eq-some (number t most) _ e in
    let (there, same) = check-eq-some (truth m) (some m) checked in
    subst (λ n. 0 < n) (some-same same) (above m there)
  where
    above : (m : ℕ) → truth m ≡ true → 0 < m
    above m h = ground (arith, h)

pub first_error-none :
    (peek : Reader) (address n : ℕ)
    → IsTotal peek
    → address < 65536
    → first_error peek address n ≡ none
unfolding first_error IsTotal
first_error-none peek address zero total h = refl
first_error-none peek address (suc n) total h =
    let (value, e, below) = total address h in
    let later = first_error-none peek (u16 (address + 1)) n total (omega arith) in
    rw (e, first_error) (rw (fits value below) later)
  where
    fits : (value : ℕ) → value < 256 → leb value 0xff ≡ true
    fits value h = ground (arith, h)

pub rows-some :
    (fuel : ℕ) (peek : Reader) (address n : ℕ)
    → IsTotal peek
    → address < 65536
    → (ts : List Text) × (rows fuel peek address n ≡ some ts)
unfolding rows row
rows-some zero peek address n total h = ([], refl)
rows-some (suc fuel) peek address n total h =
    let (values, read, _) = read_bytes-some peek total address (if leb n 16 then n else 16) h in
    let (ts, others) = rows-some fuel peek (u16 (address + 16)) (n - 16) total (omega arith) in
    elim (Bool-cases (n == 0)) [
      | inl e ↦ ([], rw e refl)
      | inr e ↦ (
        (hex_word address ++ chars "  " ++ join_with (chars " ") (byte_texts values)) ∷ ts,
        rw e (rw read (rw others refl)),
      )
    ]

next_address-lt : (i : Instruction) → next_address i < 65536
unfolding next_address
next_address-lt i = omega arith

pub disassemble_range-some :
    (peek : Reader) (address n : ℕ)
    → IsTotal peek
    → address < 65536
    → (is : List Instruction) × (disassemble_range peek address n ≡ some is)
unfolding disassemble_range
disassemble_range-some peek address zero total h = ([], refl)
disassemble_range-some peek address (suc n) total h =
    let (i, decoded, _, _) = disassemble-total peek address total h in
    let (is, others) = disassemble_range-some peek (next_address i) n total (next_address-lt i) in
    (i ∷ is, rw decoded (rw others refl))

-- The registers that `set` writes.
with_registers-IsReady :
    (a x y s pc p : ℕ) (c : Cpu)
    → a < 256
    → x < 256
    → y < 256
    → s < 256
    → pc < 65536
    → IsStatus p
    → IsReady c
    → IsReady (record c { a = a; x = x; y = y; s = s; pc = pc; p = p })
with_registers-IsReady a x y s pc p c ha hx hy hs hpc hp ready = record {
  safe = record {
    a_fits = ha;
    x_fits = hx;
    y_fits = hy;
    s_fits = hs;
    pc_fits = hpc;
    p_status = hp;
    ane_fits = ready.safe.ane_fits;
    lxa_fits = ready.safe.lxa_fits;
    frame_fits = ready.safe.frame_fits;
  };
  no_extra = ready.no_extra;
}

pub set_register-IsReady :
    (name : Text) (most value : ℕ) (c : Cpu)
    → register_maximum name ≡ some most
    → value ≤ most
    → IsReady c
    → IsReady (set_register name value c)
unfolding register_maximum set_register text_eq pulled_p
set_register-IsReady name most value c e h ready = elim (Bool-cases (text_eq name (chars "PC"))) [
  | inl same ↦ counter ((text_eq_iff name (chars "PC")).0 same)
  | inr other ↦ byte_fits (in_byte other)
]
  where
    f : IsSafe c
    f = ready.safe

    either : (b : Bool) (x y : Cpu) → IsReady x → IsReady y → IsReady (if b then x else y)
    either true x y j k = j
    either false x y j k = k

    a_byte : (b : Bool) → (if b then some 0xff else none) ≡ some most → value < 256
    a_byte true e = omega (arith, some-same e, h)
    a_byte false e = cc

    in_byte : text_eq name (chars "PC") ≡ false → value < 256
    in_byte other = a_byte _ (rw other at e)

    counter : name ≡ chars "PC" → IsReady (set_register name value c)
    counter same =
        subst (λ name. IsReady (set_register name value c)) (sym same)
          (with_registers-IsReady c.a c.x c.y c.s value c.p c (f.a_fits) (f.x_fits) (f.y_fits)
            (f.s_fits) (below (subst (λ name. register_maximum name ≡ some most) same e))
            (f.p_status) ready)
      where
        below : some 0xffff ≡ some most → value < 65536
        below e = omega (arith, some-same e, h)

    byte_fits : value < 256 → IsReady (set_register name value c)
    byte_fits k =
        either (text_eq name (chars "A")) _ _
          (with_registers-IsReady value c.x c.y c.s c.pc c.p c k (f.x_fits) (f.y_fits) (f.s_fits)
            (f.pc_fits) (f.p_status) ready)
          (either (text_eq name (chars "X")) _ _
            (with_registers-IsReady c.a value c.y c.s c.pc c.p c (f.a_fits) k (f.y_fits) (f.s_fits)
              (f.pc_fits) (f.p_status) ready)
            (either (text_eq name (chars "Y")) _ _
              (with_registers-IsReady c.a c.x value c.s c.pc c.p c (f.a_fits) (f.x_fits) k
                (f.s_fits) (f.pc_fits) (f.p_status) ready)
              (either (text_eq name (chars "S")) _ _
                (with_registers-IsReady c.a c.x c.y value c.pc c.p c (f.a_fits) (f.x_fits)
                  (f.y_fits) k (f.pc_fits) (f.p_status) ready)
                (either (text_eq name (chars "P")) _ _
                  (with_registers-IsReady c.a c.x c.y c.s c.pc (pulled_p value) c (f.a_fits)
                    (f.x_fits) (f.y_fits) (f.s_fits) (f.pc_fits) (pulled_p-IsStatus value k) ready)
                  (either (text_eq name (chars "PC")) _ _
                    (with_registers-IsReady c.a c.x c.y c.s value c.p c (f.a_fits) (f.x_fits)
                      (f.y_fits) (f.s_fits) (omega (arith, k)) (f.p_status) ready)
                    ready)))))
