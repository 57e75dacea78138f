-- ===== src/Disasm/Decoding.antt =====
-- What the disassembler of src/sixfiveohtwo/disasm.py returns, and when it raises.
use python.Prelude.{
  ℕ, zero, suc, ◌+◌, ◌-◌, ◌≤◌, ◌<◌, ◌≡◌, refl, sym, subst, ◌∙◌, ap, true, ◌&&◌, some, List, [], ◌∷◌,
  ◌++◌, ltb, leb, u16, length, bind-eq-some, check-eq-some, length-append, get_elem?-append,
  append_assoc, append-nil, every_below, every_below_lem, arith,
}
use python.Disasm.{
  length_of, decode, Instruction, make_instruction, Reader, byte, read_bytes, operands_of, rest_of,
  instruction_with, all_bytes, assemble, disassemble, reader_of, disassemble_bytes,
}

-- For each opcode, one to three bytes and a mnemonic.
opcodes_fit :
    every_below 256 (λ opcode.
      ltb 0 (length_of (decode opcode).1)
      && leb (length_of (decode opcode).1) 3
      && ltb 0 (length (decode opcode).0))
    ≡ true
unfolding every_below decode length_of
opcodes_fit = refl

pub opcode_fits :
    (opcode : ℕ)
    → opcode < 256
    → (1 ≤ length_of (decode opcode).1)
      × (length_of (decode opcode).1 ≤ 3)
      × (1 ≤ length (decode opcode).0)
opcode_fits opcode h = ground (
  arith,
  every_below_lem 256
      (λ (n : ℕ).
        ltb 0 (length_of (decode n).1)
        && leb (length_of (decode n).1) 3
        && ltb 0 (length (decode n).0))
      opcode opcodes_fit h,
)

-- The reads and the checks behind a decoded instruction.
pub record IsDecoded (reader : Reader) (address : ℕ) (i : Instruction) : Type 0 where
  pub opcode : ℕ
  pub in_range : leb address 0xffff ≡ true
  pub opcode_read : byte reader address ≡ some opcode
  pub bytes_read : read_bytes reader address (length_of (decode opcode).1) ≡ some i.bytes
  pub assembled : assemble address opcode i.bytes ≡ some i

assemble-bytes :
    (address opcode : ℕ) (bytes : List ℕ) {i : Instruction}
    → assemble address opcode bytes ≡ some i
    → (address ≡ i.address) × (bytes ≡ i.bytes) × (make_instruction i ≡ some i)
unfolding assemble make_instruction instruction_with
assemble-bytes address opcode bytes {i} h =
    let (operands, _, k) =
      bind-eq-some (operands_of (decode opcode).1 address (rest_of bytes)) _ h in
    let made = instruction_with address opcode bytes operands in
    let (_, e) =
      check-eq-some
        (leb made.address 0xffff && ltb 0 (length made.bytes) && ltb 0 (length made.mnemonic))
        (some made) k in
    let same : made ≡ i = cc in
    (
      ap (λ j. j.address) same,
      ap (λ j. j.bytes) same,
      subst (λ j. make_instruction j ≡ some i) same k,
    )

pub disassemble-IsDecoded :
    (reader : Reader) (address : ℕ) {i : Instruction}
    → disassemble reader address ≡ some i
    → IsDecoded reader address i
unfolding disassemble
disassemble-IsDecoded reader address {i} h =
    let (range, g) = check-eq-some (leb address 0xffff) _ h in
    let (opcode, read_opcode, k) = bind-eq-some (byte reader address) _ g in
    let (bytes, read, done) =
      bind-eq-some (read_bytes reader address (length_of (decode opcode).1)) _ k in
    let same = (assemble-bytes address opcode bytes done).1 in
    record {
      opcode = opcode;
      in_range = range;
      opcode_read = read_opcode;
      bytes_read = read ∙ ap some same;
      assembled = ap (assemble address opcode) (sym same) ∙ done;
    }

byte-lt :
    (reader : Reader) (address : ℕ) {value : ℕ} → byte reader address ≡ some value → value < 256
unfolding byte
byte-lt reader address h =
    let (value, read, g) = bind-eq-some (reader address) _ h in
    ground (arith, check-eq-some (leb value 0xff) (some value) g)

-- The first byte read is the one at the address.
pub read_bytes-head :
    (reader : Reader) (address n : ℕ) {bytes : List ℕ}
    → read_bytes reader address (suc n) ≡ some bytes
    → (value : ℕ) × (rest : List ℕ) × (byte reader address ≡ some value)
      × (read_bytes reader (u16 (address + 1)) n ≡ some rest)
      × (value ∷ rest ≡ bytes)
unfolding read_bytes
read_bytes-head reader address n h =
    let (value, here, g) = bind-eq-some (byte reader address) _ h in
    let (rest, next, e) = bind-eq-some (read_bytes reader (u16 (address + 1)) n) _ g in
    (value, rest, here, next, cc)

read_bytes-zero :
    (reader : Reader) (address : ℕ) {bytes : List ℕ}
    → read_bytes reader address zero ≡ some bytes
    → (length bytes ≡ zero) × (all_bytes bytes ≡ true)
unfolding read_bytes all_bytes
read_bytes-zero reader address h = ground (arith, h)

-- As many bytes as asked for.
pub read_bytes_lem :
    (reader : Reader) (address n : ℕ) {bytes : List ℕ}
    → read_bytes reader address n ≡ some bytes
    → (length bytes ≡ n) × (all_bytes bytes ≡ true)
unfolding all_bytes
read_bytes_lem reader address zero h = read_bytes-zero reader address h
read_bytes_lem reader address (suc n) {bytes} h =
    let (value, rest, here, next, e) = read_bytes-head reader address n h in
    let fits = byte-lt reader address here in
    let ih = read_bytes_lem reader (u16 (address + 1)) n next in
    subst (λ bs. (length bs ≡ suc n) × (all_bytes bs ≡ true)) e
      (ap suc (ih.0), ground (arith, fits, ih.1))

-- The reader of given bytes, at the place after the first of them.
pub reader_of_lem :
    (before after : List ℕ) (b address : ℕ)
    → address < 65536
    → length before < 65536
    → b < 256
    → byte (reader_of (before ++ b ∷ after) address) (u16 (address + length before)) ≡ some b
unfolding byte reader_of
reader_of_lem before after b address h k l =
    rw (offset address (length before) h k)
      (rw (get_elem?-append before after b) (ground (arith, l)))
  where
    offset : (a n : ℕ) → a < 65536 → n < 65536 → u16 (u16 (a + n) + 0x10000 - a) ≡ n
    offset a n h k = omega arith

-- What is read back from given bytes, from any place in them.
pub read_bytes-reader_of :
    (before bytes after : List ℕ) (address : ℕ)
    → address < 65536
    → length before + length bytes ≤ 65536
    → all_bytes bytes ≡ true
    → read_bytes
        (reader_of (before ++ (bytes ++ after)) address)
        (u16 (address + length before))
        (length bytes)
      ≡ some bytes
unfolding read_bytes all_bytes
read_bytes-reader_of before [] after address h k l = refl
read_bytes-reader_of before (b ∷ bs) after address h k l =
    let ih =
      read_bytes-reader_of (before ++ b ∷ []) bs after address h
        (omega (arith, k, length-append before (b ∷ []))) (ground (arith, l)) in
    let next : u16 (address + length (before ++ b ∷ [])) ≡ u16 (u16 (address + length before) + 1) =
      omega (arith, length-append before (b ∷ [])) in
    let rest =
      ap
        (λ l.
          read_bytes (reader_of l address) (u16 (u16 (address + length before) + 1)) (length bs))
        (sym (append_assoc before (b ∷ []) (bs ++ after)))
      ∙ ap (λ a. read_bytes (reader_of ((before ++ b ∷ []) ++ (bs ++ after)) address) a (length bs))
          (sym next)
      ∙ ih in
    rw (reader_of_lem before (bs ++ after) b address h (omega arith) (ground (arith, l)))
      (rw rest refl)

-- Decoding succeeds where the range and the reads do.
pub disassemble-some :
    (reader : Reader) (address : ℕ) {i : Instruction} {opcode : ℕ} {bytes : List ℕ}
    → leb address 0xffff ≡ true
    → byte reader address ≡ some opcode
    → read_bytes reader address (length_of (decode opcode).1) ≡ some bytes
    → assemble address opcode bytes ≡ some i
    → disassemble reader address ≡ some i
unfolding disassemble
disassemble-some reader address range here read done = rw range (rw here (rw read done))

-- The opcode and the length of a decoded instruction.
pub IsDecoded-bytes :
    (reader : Reader) (address : ℕ) (i : Instruction) (d : IsDecoded reader address i)
    → (n : ℕ) × (rest : List ℕ) × (length_of (decode d.opcode).1 ≡ suc n)
      × (d.opcode ∷ rest ≡ i.bytes)
      × (length i.bytes ≡ suc n)
      × (all_bytes i.bytes ≡ true)
      × (n < 3)
IsDecoded-bytes reader address i d =
    let fits = opcode_fits d.opcode (byte-lt reader address d.opcode_read) in
    let (n, e) = is_suc (length_of (decode d.opcode).1) (fits.0) in
    let (value, rest, here, _, same) =
      read_bytes-head reader address n (ap (read_bytes reader address) (sym e) ∙ d.bytes_read) in
    let (counted, bytes) =
      read_bytes_lem reader address (length_of (decode d.opcode).1) d.bytes_read in
    let opcode_eq : value ≡ d.opcode = cc in
    (
      n,
      rest,
      e,
      ap (λ v. v ∷ rest) (sym opcode_eq) ∙ same,
      counted ∙ e,
      bytes,
      omega (arith, fits.1, e),
    )
  where
    is_suc : (m : ℕ) → 1 ≤ m → (n : ℕ) × (m ≡ suc n)
    is_suc zero h = absurd (omega arith)
    is_suc (suc n) h = (n, refl)

-- A decoded instruction is decoded again from its own bytes alone: the reader is only asked for
-- the bytes that the instruction holds.
pub disassemble_bytes-disassemble :
    (reader : Reader) (address : ℕ) (i : Instruction)
    → disassemble reader address ≡ some i
    → disassemble_bytes i.bytes address ≡ some i
unfolding disassemble_bytes
disassemble_bytes-disassemble reader address i h =
    let d = disassemble-IsDecoded reader address h in
    let (n, rest, e, same, counted, bytes, small) = IsDecoded-bytes reader address i d in
    let low : address < 65536 = ground (arith, d.in_range) in
    let here : u16 (address + 0) ≡ address = omega (arith, low) in
    let whole : read_bytes (reader_of i.bytes address) address (length i.bytes) ≡ some i.bytes =
      ap (λ l. read_bytes (reader_of l address) address (length i.bytes)) (sym (append-nil i.bytes))
      ∙ ap (λ a. read_bytes (reader_of (i.bytes ++ []) address) a (length i.bytes)) (sym here)
      ∙ read_bytes-reader_of [] i.bytes [] address low (omega (arith, counted, small)) bytes in
    let first : byte (reader_of (d.opcode ∷ rest) address) address ≡ some d.opcode =
      subst (λ a. byte (reader_of (d.opcode ∷ rest) address) a ≡ some d.opcode) here
        (reader_of_lem [] rest d.opcode address low (omega arith)
          (byte-lt reader address d.opcode_read)) in
    let again =
      disassemble-some (reader_of i.bytes address) address d.in_range
        (subst (λ l. byte (reader_of l address) address ≡ some d.opcode) same first)
        (ap (read_bytes (reader_of i.bytes address) address) (e ∙ sym counted) ∙ whole)
        d.assembled in
    let tested : (all_bytes i.bytes && ltb 0 (length i.bytes)) ≡ true =
      ground (arith, bytes, counted) in
    rw tested again

-- A decoded instruction stands at its address and is as long as its opcode's mode says.
pub IsDecoded-fields :
    (reader : Reader) (address : ℕ) (i : Instruction) (d : IsDecoded reader address i)
    → (i.address ≡ address) × (length i.bytes ≡ length_of (decode d.opcode).1) × (d.opcode < 256)
IsDecoded-fields reader address i d = (
  sym (assemble-bytes address d.opcode i.bytes d.assembled).0,
  (read_bytes_lem reader address (length_of (decode d.opcode).1) d.bytes_read).0,
  byte-lt reader address d.opcode_read,
)

-- A decoded instruction passes the tests of its constructor.
pub IsDecoded-make_instruction :
    (reader : Reader) (address : ℕ) (i : Instruction)
    → IsDecoded reader address i
    → make_instruction i ≡ some i
IsDecoded-make_instruction reader address i d =
    (assemble-bytes address d.opcode i.bytes d.assembled).2
