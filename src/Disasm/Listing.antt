-- ===== src/Disasm/Listing.antt =====
-- `disassemble_range` of src/sixfiveohtwo/disasm.py: the listing of consecutive instructions.
use python.Prelude.{
  ℕ, zero, suc, ◌+◌, ◌<◌, ◌≡◌, refl, sym, subst, ◌∙◌, ap, some, List, [], ◌∷◌, ◌++◌, u16, length,
  length-append, bind-eq-some, arith,
}
use python.Disasm.{
  Instruction, Reader, read_bytes, disassemble, disassemble_range, next_address, size,
}
use python.Disasm.Decoding.{disassemble-IsDecoded, IsDecoded-fields, read_bytes-head}

-- The bytes of a listing, one instruction after another.
unfoldable pub listed_bytes : List Instruction → List ℕ
listed_bytes [] = []
listed_bytes (i ∷ is) = i.bytes ++ listed_bytes is

read_bytes-append :
    (reader : Reader) (address n m : ℕ) {xs ys : List ℕ}
    → address < 65536
    → read_bytes reader address n ≡ some xs
    → read_bytes reader (u16 (address + n)) m ≡ some ys
    → read_bytes reader address (n + m) ≡ some (xs ++ ys)
unfolding read_bytes
read_bytes-append reader address zero m {xs} {ys} h e f =
    ap (read_bytes reader address) (omega arith)
    ∙ ap (λ a. read_bytes reader a m) (omega arith)
    ∙ f
    ∙ ap (λ l. some (l ++ ys)) (no_bytes e)
  where
    no_bytes : {xs : List ℕ} → read_bytes reader address zero ≡ some xs → [] ≡ xs
    no_bytes e = cc
read_bytes-append reader address (suc n) m {xs} {ys} h e f =
    let (value, rest, here, next, same) = read_bytes-head reader address n e in
    let onwards : u16 (u16 (address + 1) + n) ≡ u16 (address + suc n) = omega arith in
    let ih =
      read_bytes-append reader (u16 (address + 1)) n m (omega arith) next
        (ap (λ a. read_bytes reader a m) onwards ∙ f) in
    ap (read_bytes reader address) (sum_suc n m)
    ∙ rw here (rw ih refl)
    ∙ ap (λ l. some (l ++ ys)) same
  where
    sum_suc : (n m : ℕ) → suc n + m ≡ suc (n + m)
    sum_suc n m = omega arith

-- A listing of `count` instructions has that many, and their bytes, one instruction after
-- another, are the bytes read from the address on: none is skipped or listed twice.
pub disassemble_range_lem :
    (reader : Reader) (address count : ℕ) (listing : List Instruction)
    → address < 65536
    → disassemble_range reader address count ≡ some listing
    → (length listing ≡ count)
      × (read_bytes reader address (length (listed_bytes listing)) ≡ some (listed_bytes listing))
unfolding disassemble_range listed_bytes next_address size read_bytes
disassemble_range_lem reader address zero [] h e = (refl, refl)
disassemble_range_lem reader address zero (i ∷ is) h e = cc
disassemble_range_lem reader address (suc count) listing h e =
    let (i, decoded, g) = bind-eq-some (disassemble reader address) _ e in
    let (is, listed, done) = bind-eq-some (disassemble_range reader (next_address i) count) _ g in
    let d = disassemble-IsDecoded reader address decoded in
    let (here, counted, _) = IsDecoded-fields reader address i d in
    let (long, read) =
      disassemble_range_lem reader (next_address i) count is (omega arith) listed in
    let onwards : next_address i ≡ u16 (address + length i.bytes) =
      ap (λ a. u16 (a + length i.bytes)) here in
    let first = ap (read_bytes reader address) counted ∙ d.bytes_read in
    let whole =
      read_bytes-append reader address (length i.bytes) (length (listed_bytes is)) h first
        (ap (λ a. read_bytes reader a (length (listed_bytes is))) (sym onwards) ∙ read) in
    let total = ap (read_bytes reader address) (length-append i.bytes (listed_bytes is)) ∙ whole in
    let same : i ∷ is ≡ listing = cc in
    subst
      (λ l.
        (length l ≡ suc count)
        × (read_bytes reader address (length (listed_bytes l)) ≡ some (listed_bytes l)))
      same (ap suc long, total)
