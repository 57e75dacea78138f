-- ===== src/Disasm/Errors.antt =====
-- When the disassembler of src/sixfiveohtwo/disasm.py raises.
use python.Prelude.{
  ℕ, zero, suc, ◌+◌, ◌-◌, ◌<◌, ◌≤◌, ◌≡◌, ◌⊎◌, refl, sym, subst, ◌∙◌, ap, true, ◌&&◌, none, some,
  List, [], ◌∷◌, ◌++◌, u16, length, get_elem?, ltb, leb, bind-eq-some, check-some, Option-cases,
  inl, inr, arith,
}
use python.Disasm.{
  length_of, decode, Instruction, Reader, byte, read_bytes, assemble, make_instruction,
  instruction_with, disassemble, all_bytes, reader_of, disassemble_bytes,
}
use python.Disasm.Operands.{operands_of-some}
use python.Disasm.Decoding.{
  opcode_fits, disassemble-some, disassemble-IsDecoded, read_bytes-head, read_bytes-reader_of,
  reader_of_lem,
}

-- A reader that answers every address with a byte.
unfoldable pub IsTotal : Reader → Type 0
IsTotal reader =
    (address : ℕ) → address < 65536 → (value : ℕ) × (reader address ≡ some value) × (value < 256)

byte-some :
    (reader : Reader) (address : ℕ) {value : ℕ}
    → reader address ≡ some value
    → value < 256
    → byte reader address ≡ some value
unfolding byte
byte-some reader address e h = rw e (ground (arith, h))

-- Assembling the bytes of an opcode does not raise.
assemble-some :
    (address opcode : ℕ) (bytes : List ℕ)
    → address < 65536
    → opcode < 256
    → length bytes ≡ length_of (decode opcode).1
    → (i : Instruction) × (assemble address opcode bytes ≡ some i) × (i.bytes ≡ bytes)
unfolding assemble make_instruction instruction_with
assemble-some address opcode bytes h k e =
    let fits = opcode_fits opcode k in
    let (operands, shown) = operands_of-some (decode opcode).1 address bytes e in
    let made = instruction_with address opcode bytes operands in
    let passed =
      check-some (leb address 0xffff && ltb 0 (length bytes) && ltb 0 (length made.mnemonic)) made (
        checked address (length bytes) (length made.mnemonic) h (omega (arith, fits.0, e))
          (fits.2)) in
    (made, rw shown passed, refl)
  where
    checked : (a n m : ℕ) → a < 65536 → 1 ≤ n → 1 ≤ m → (leb a 0xffff && ltb 0 n && ltb 0 m) ≡ true
    checked a n m h k l = ground (arith, h, k, l)

pub read_bytes-some :
    (reader : Reader)
    → IsTotal reader
    → (address n : ℕ) → address < 65536
    → (bytes : List ℕ) × (read_bytes reader address n ≡ some bytes) × (length bytes ≡ n)
unfolding read_bytes IsTotal
read_bytes-some reader total address zero h = ([], refl, refl)
read_bytes-some reader total address (suc n) h =
    let (value, e, k) = total address h in
    let (rest, read, counted) = read_bytes-some reader total (u16 (address + 1)) n (omega arith) in
    (value ∷ rest, rw (byte-some reader address e k) (rw read refl), ap suc counted)

-- Where the reader answers every address with a byte, the disassembler never raises on a 16-bit
-- address, whatever it reads there: for every opcode it returns an instruction of one to three bytes.
pub disassemble-total :
    (reader : Reader) (address : ℕ)
    → IsTotal reader
    → address < 65536
    → (i : Instruction) × (disassemble reader address ≡ some i)
      × (1 ≤ length i.bytes)
      × (length i.bytes ≤ 3)
unfolding IsTotal
disassemble-total reader address total h =
    let (opcode, e, k) = total address h in
    let (bytes, read, counted) =
      read_bytes-some reader total address (length_of (decode opcode).1) h in
    let fits = opcode_fits opcode k in
    let (i, made, same) = assemble-some address opcode bytes h k counted in
    (
      i,
      disassemble-some reader address (ground (arith, h)) (byte-some reader address e k) read made,
      omega (arith, ap length same, counted, fits.0),
      omega (arith, ap length same, counted, fits.1),
    )

-- What a list's index says of its length.
get_elem?-lt : (xs : List ℕ) (n : ℕ) {x : ℕ} → get_elem? xs n ≡ some x → n < length xs
get_elem?-lt [] n e = cc
get_elem?-lt (y ∷ ys) zero e = omega arith
get_elem?-lt (y ∷ ys) (suc n) e = omega (arith, get_elem?-lt ys n e)

byte-within :
    (given : List ℕ) (address k : ℕ) {x : ℕ}
    → address < 65536
    → k < 65536
    → byte (reader_of given address) (u16 (address + k)) ≡ some x
    → k < length given
unfolding byte reader_of
byte-within given address k h l e =
    let (value, read, _) = bind-eq-some (reader_of given address (u16 (address + k))) _ e in
    get_elem?-lt given k (ap (get_elem? given) (offset address k h l) ∙ read)
  where
    offset : (a n : ℕ) → a < 65536 → n < 65536 → n ≡ u16 (u16 (a + n) + 0x10000 - a)
    offset a n h k = omega arith

-- Reads from given bytes stay within them.
read_bytes-within :
    (given : List ℕ) (address k n : ℕ) {bytes : List ℕ}
    → address < 65536
    → k + n ≤ 65536
    → k ≤ length given
    → read_bytes (reader_of given address) (u16 (address + k)) n ≡ some bytes
    → k + n ≤ length given
read_bytes-within given address k zero h l m e = omega arith
read_bytes-within given address k (suc n) {bytes} h l m e =
    let (value, rest, here, next, _) =
      read_bytes-head (reader_of given address) (u16 (address + k)) n e in
    let within = byte-within given address k h (omega arith) here in
    let step : u16 (u16 (address + k) + 1) ≡ u16 (address + (k + 1)) = omega arith in
    omega (
      arith,
      read_bytes-within given address (k + 1) n h (omega arith) (omega arith)
          (ap (λ a. read_bytes (reader_of given address) a n) (sym step) ∙ next),
    )

split_at :
    (n : ℕ) (xs : List ℕ)
    → n ≤ length xs
    → (ys : List ℕ) × (zs : List ℕ) × (ys ++ zs ≡ xs) × (length ys ≡ n)
split_at zero xs h = ([], xs, refl, refl)
split_at (suc n) [] h = absurd (omega arith)
split_at (suc n) (x ∷ xs) h =
    let (ys, zs, e, k) = split_at n xs (omega arith) in (x ∷ ys, zs, ap (λ l. x ∷ l) e, ap suc k)

all_bytes-append : (xs ys : List ℕ) → all_bytes (xs ++ ys) ≡ true → all_bytes xs ≡ true
unfolding all_bytes
all_bytes-append [] ys h = refl
all_bytes-append (x ∷ xs) ys h = ground (arith, all_bytes-append xs ys, h)

-- The first of the given bytes is read as the opcode.
opcode_read :
    (opcode : ℕ) (given : List ℕ) (address : ℕ)
    → address < 65536
    → opcode < 256
    → byte (reader_of (opcode ∷ given) address) address ≡ some opcode
opcode_read opcode given address h k =
    let here : u16 (address + 0) ≡ address = omega arith in
    subst (λ a. byte (reader_of (opcode ∷ given) address) a ≡ some opcode) here
      (reader_of_lem [] given opcode address h (omega arith) k)

-- Too few bytes are not decoded.
decoded_within :
    (opcode : ℕ) (given : List ℕ) (address : ℕ) {i : Instruction}
    → address < 65536
    → opcode < 256
    → disassemble (reader_of (opcode ∷ given) address) address ≡ some i
    → length_of (decode opcode).1 ≤ length (opcode ∷ given)
decoded_within opcode given address {i} h k decoded =
    let reader = reader_of (opcode ∷ given) address in
    let d = disassemble-IsDecoded reader address decoded in
    let here : u16 (address + 0) ≡ address = omega arith in
    let same : d.opcode ≡ opcode = cc (sym d.opcode_read ∙ opcode_read opcode given address h k) in
    let fits = opcode_fits opcode k in
    let within =
      read_bytes-within (opcode ∷ given) address 0 (length_of (decode opcode).1) h
        (omega (arith, fits.1)) (omega arith)
        (ap (λ a. read_bytes reader a (length_of (decode opcode).1)) here
          ∙ ap (λ o. read_bytes reader address (length_of (decode o).1)) (sym same)
          ∙ d.bytes_read) in
    omega (arith, within)

decoded_prefix :
    (opcode : ℕ) (first after : List ℕ) (address : ℕ)
    → address < 65536
    → opcode < 256
    → all_bytes first ≡ true
    → length first ≡ length_of (decode opcode).1
    → byte (reader_of (first ++ after) address) address ≡ some opcode
    → (i : Instruction) × (disassemble (reader_of (first ++ after) address) address ≡ some i)
      × (i.bytes ≡ first)
decoded_prefix opcode first after address h k l e here =
    let reader = reader_of (first ++ after) address in
    let start : u16 (address + 0) ≡ address = omega arith in
    let fits = opcode_fits opcode k in
    let (i, made, same) = assemble-some address opcode first h k e in
    (
      i,
      disassemble-some reader address (ground (arith, h)) here
          (ap (read_bytes reader address) (sym e)
            ∙ ap (λ a. read_bytes reader a (length first)) (sym start)
            ∙ read_bytes-reader_of [] first after address h (omega (arith, e, fits.1)) l)
          made,
      same,
    )

-- From given bytes, at a 16-bit address, the first of them the opcode: with fewer bytes than the
-- opcode's length the disassembler raises, and else it decodes exactly the first so many of them.
pub disassemble_bytes_lem :
    (opcode : ℕ) (given : List ℕ) (address : ℕ)
    → address < 65536
    → all_bytes (opcode ∷ given) ≡ true
    → ((length (opcode ∷ given) < length_of (decode opcode).1)
        × (disassemble_bytes (opcode ∷ given) address ≡ none))
      ⊎ ((length_of (decode opcode).1 ≤ length (opcode ∷ given))
          × (i : Instruction) × (after : List ℕ) × (disassemble_bytes (opcode ∷ given) address
              ≡ some i)
          × (i.bytes ++ after ≡ opcode ∷ given)
          × (length i.bytes ≡ length_of (decode opcode).1))
unfolding disassemble_bytes
disassemble_bytes_lem opcode given address h k =
    let small : opcode < 256 = ground (arith, k) in
    let guarded : (all_bytes (opcode ∷ given) && ltb 0 (length (opcode ∷ given))) ≡ true =
      ground (arith, k) in
    let reader = reader_of (opcode ∷ given) address in
    elim (le_or_lt (length_of (decode opcode).1) (length (opcode ∷ given))) [
      | inr l ↦ inl (
        l,
        rw guarded (elim (Option-cases (disassemble reader address)) [
          | inl e ↦ e
          | inr (i, e) ↦ absurd (omega (arith, l, decoded_within opcode given address h small e))
        ]),
      )
      | inl l ↦
          let (first, after, e, counted) =
            split_at (length_of (decode opcode).1) (opcode ∷ given) l in
          let read =
            subst (λ l. byte (reader_of l address) address ≡ some opcode) (sym e)
              (opcode_read opcode given address h small) in
          let (i, decoded, same) =
            decoded_prefix opcode first after address h small
              (all_bytes-append first after (ap all_bytes e ∙ k)) counted read in
          inr (
            l,
            i,
            after,
            rw guarded (ap (λ l. disassemble (reader_of l address) address) (sym e) ∙ decoded),
            ap (λ l. l ++ after) same ∙ e,
            ap length same ∙ counted,
          )
    ]
  where
    le_or_lt : (n m : ℕ) → (n ≤ m) ⊎ (m < n)
    le_or_lt n m = omega arith
