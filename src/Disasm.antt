-- ===== src/Disasm.antt =====
-- src/sixfiveohtwo/disasm.py: the structured disassembler, with the set `DOCUMENTED` of
-- _dispatch.py. A reader is a function that may raise, `none`; so may the disassembler.
mod Names
pub mod Decoding
pub mod Lengths
pub mod Operands
pub mod Errors
pub mod Listing
use python.Prelude.{
  ℕ, zero, suc, ◌+◌, ◌-◌, ◌*◌, ◌/◌, ◌%◌, Bool, true, false, ◌&&◌, ◌||◌, not, Option, none, some,
  List, [], ◌∷◌, ◌++◌, bit_and, truth, ltb, leb, ◌==◌, u16, maybe, length, get_elem?, bind, check,
  if◌then◌else◌,
}
use python.Text.{Text, chars, text_eq, upper}
use python.Text.Hex.{hex_byte, hex_word}
use python.Core.{word}
use python.Dispatch.{entry}
use python.Dispatch.Names.{Implied, Addressed, Mode, Entry}
use Names.{handler_name, branches, undocumented_handlers}

-- `MODES`
pub data Addressing : Type 0 where
  implied accumulator immediate zero_page zero_page_x zero_page_y absolute absolute_x absolute_y :
      Addressing
  indirect indexed_indirect indirect_indexed relative : Addressing

-- `_MODE_NAMES`
unfoldable pub mode_name : Mode → Addressing
mode_name Mode.imm = Addressing.immediate
mode_name Mode.zp = Addressing.zero_page
mode_name Mode.zpx = Addressing.zero_page_x
mode_name Mode.zpy = Addressing.zero_page_y
mode_name Mode.abs = Addressing.absolute
mode_name Mode.abx = Addressing.absolute_x
mode_name Mode.abx_w = Addressing.absolute_x
mode_name Mode.aby = Addressing.absolute_y
mode_name Mode.aby_w = Addressing.absolute_y
mode_name Mode.izx = Addressing.indexed_indirect
mode_name Mode.izy = Addressing.indirect_indexed
mode_name Mode.izy_w = Addressing.indirect_indexed

-- `_LENGTHS`
unfoldable pub length_of : Addressing → ℕ
length_of Addressing.implied = 1
length_of Addressing.accumulator = 1
length_of Addressing.immediate = 2
length_of Addressing.zero_page = 2
length_of Addressing.zero_page_x = 2
length_of Addressing.zero_page_y = 2
length_of Addressing.indexed_indirect = 2
length_of Addressing.indirect_indexed = 2
length_of Addressing.relative = 2
length_of Addressing.absolute = 3
length_of Addressing.absolute_x = 3
length_of Addressing.absolute_y = 3
length_of Addressing.indirect = 3

-- `text in texts`
unfoldable pub among : Text → List Text → Bool
unfolding text_eq
among t [] = false
among t (s ∷ rest) = text_eq t s || among t rest

-- `name[:-2]` where the name ends with `_a`.
unfoldable pub without_a : Text → Option Text
unfolding text_eq
without_a [] = none
without_a (c ∷ t) =
    let rest = without_a t in
    if text_eq (c ∷ t) (chars "_a") then some [] else bind rest (λ s. some (c ∷ s))

-- The addressing mode of an entry, where the handler's name does not decide it.
unfoldable pub entry_mode : Entry → Addressing
unfolding mode_name
entry_mode (Entry.implied _ _) = Addressing.implied
entry_mode (Entry.addressed _ mode _) = mode_name mode

-- `_form`, of the opcode's entry.
unfoldable pub form : Entry → Text × Addressing
unfolding handler_name among without_a entry_mode upper text_eq
form e =
    let handler = handler_name e in
    if among handler branches
    then (upper handler, Addressing.relative)
    else maybe
        (if text_eq handler (chars "jmp_ind")
          then (chars "JMP", Addressing.indirect)
          else if text_eq handler (chars "jmp") || text_eq handler (chars "jsr")
          then (upper handler, Addressing.absolute)
          else if text_eq handler (chars "nop_read")
          then (chars "NOP", entry_mode e)
          else (upper handler, entry_mode e))
        (λ name. (upper name, Addressing.accumulator)) (without_a handler)

-- `DECODE_TABLE[opcode]`
unfoldable pub decode : ℕ → Text × Addressing
unfolding form entry
decode opcode = form (entry opcode)

-- `opcode in DOCUMENTED`
unfoldable pub documented : ℕ → Bool
unfolding handler_name among text_eq entry
documented opcode =
    let handler = handler_name (entry opcode) in
    not (among handler undocumented_handlers)
    && not (text_eq handler (chars "nop_read"))
    && not (
        opcode == 0x1a
        || opcode == 0x3a
        || opcode == 0x5a
        || opcode == 0x7a
        || opcode == 0xda
        || opcode == 0xfa)

-- `Instruction`; its `data` is `bytes` here.
pub record Instruction : Type 0 where
  pub address : ℕ
  pub bytes : List ℕ
  pub mnemonic : Text
  pub operands : List Text
  pub mode : Addressing
  pub target : Option ℕ
  pub is_documented : Bool

-- The tests of `__post_init__`; those of the types are the types here.
unfoldable pub make_instruction : Instruction → Option Instruction
make_instruction i =
    check (leb i.address 0xffff && ltb 0 (length i.bytes) && ltb 0 (length i.mnemonic)) (some i)

unfoldable pub size : Instruction → ℕ
size i = length i.bytes

unfoldable pub next_address : Instruction → ℕ
unfolding size
next_address i = u16 (i.address + size i)

-- `",".join(texts)`
unfoldable pub joined : List Text → Text
joined [] = []
joined (t ∷ []) = t
joined (t ∷ s ∷ rest) = t ++ chars "," ++ joined (s ∷ rest)

-- `Instruction.text`
unfoldable pub instruction_text : Instruction → Text
unfolding joined
instruction_text i = elim i.operands [
  | [] ↦ i.mnemonic
  | _ ∷ _ ↦ i.mnemonic ++ chars " " ++ joined i.operands
]

abbrev pub Reader : Type 0
Reader = ℕ → Option ℕ

-- `_byte`
unfoldable pub byte : Reader → ℕ → Option ℕ
byte reader address = bind (reader address) (λ value. check (leb value 0xff) (some value))

-- The bytes at `address`, `address + 1`, and so on, `n` of them.
unfoldable pub read_bytes : Reader → ℕ → ℕ → Option (List ℕ)
unfolding byte
read_bytes reader address zero = some []
read_bytes reader address (suc n) =
    let rest = read_bytes reader (u16 (address + 1)) n in
    bind (byte reader address) (λ value. bind rest (λ values. some (value ∷ values)))

-- The target of a branch at `address`: the offset is signed.
unfoldable pub relative_target : ℕ → ℕ → ℕ
relative_target address offset =
    if truth (bit_and offset 0x80)
    then u16 (address + 2 + 0x10000 + offset - 0x100)
    else u16 (address + 2 + offset)

-- The operands' texts and the target, for the bytes after the opcode: `none` where one byte or two are
-- not what the mode takes, which is an IndexError or a KeyError.
unfoldable pub operands_of : Addressing → ℕ → List ℕ → Option (List Text × Option ℕ)
unfolding relative_target hex_byte hex_word word
operands_of Addressing.accumulator address _ = some (chars "A" ∷ [], none)
operands_of Addressing.immediate address [] = none
operands_of Addressing.immediate address (b ∷ _) = some ((chars "#$" ++ hex_byte b) ∷ [], none)
operands_of Addressing.relative address [] = none
operands_of Addressing.relative address (b ∷ _) =
    let target = relative_target address b in
    some ((chars "$" ++ hex_word target) ∷ [], some target)
operands_of Addressing.zero_page address (b ∷ []) = some ((chars "$" ++ hex_byte b) ∷ [], some b)
operands_of Addressing.zero_page_x address (b ∷ []) =
    some ((chars "$" ++ hex_byte b) ∷ chars "X" ∷ [], some b)
operands_of Addressing.zero_page_y address (b ∷ []) =
    some ((chars "$" ++ hex_byte b) ∷ chars "Y" ∷ [], some b)
operands_of Addressing.indexed_indirect address (b ∷ []) =
    some ((chars "($" ++ hex_byte b) ∷ chars "X)" ∷ [], some b)
operands_of Addressing.indirect_indexed address (b ∷ []) =
    some ((chars "($" ++ hex_byte b ++ chars ")") ∷ chars "Y" ∷ [], some b)
operands_of Addressing.absolute address (low ∷ high ∷ []) =
    some ((chars "$" ++ hex_word (word high low)) ∷ [], some (word high low))
operands_of Addressing.absolute_x address (low ∷ high ∷ []) =
    some ((chars "$" ++ hex_word (word high low)) ∷ chars "X" ∷ [], some (word high low))
operands_of Addressing.absolute_y address (low ∷ high ∷ []) =
    some ((chars "$" ++ hex_word (word high low)) ∷ chars "Y" ∷ [], some (word high low))
operands_of Addressing.indirect address (low ∷ high ∷ []) =
    some ((chars "($" ++ hex_word (word high low) ++ chars ")") ∷ [], some (word high low))
operands_of _ address (_ ∷ []) = none
operands_of _ address (_ ∷ _ ∷ []) = none
operands_of _ address _ = some ([], none)

-- The bytes after the opcode.
unfoldable pub rest_of : List ℕ → List ℕ
rest_of [] = []
rest_of (_ ∷ rest) = rest

-- The fields of the instruction at an address, from its opcode, its bytes, the opcode among them, and
-- its operands with their target.
unfoldable pub instruction_with : ℕ → ℕ → List ℕ → List Text × Option ℕ → Instruction
unfolding decode documented
instruction_with address opcode bytes (operands, target) = record {
  address = address;
  bytes = bytes;
  mnemonic = (decode opcode).0;
  operands = operands;
  mode = (decode opcode).1;
  target = target;
  is_documented = documented opcode;
}

unfoldable pub assemble : ℕ → ℕ → List ℕ → Option Instruction
unfolding operands_of rest_of instruction_with make_instruction
assemble address opcode bytes =
    bind (operands_of (decode opcode).1 address (rest_of bytes))
      (λ operands. make_instruction (instruction_with address opcode bytes operands))

-- `disassemble`
unfoldable pub disassemble : Reader → ℕ → Option Instruction
unfolding byte read_bytes
disassemble reader address = check (leb address 0xffff) (
    bind (byte reader address) (λ opcode.
      bind (read_bytes reader address (length_of (decode opcode).1))
        (λ bytes. assemble address opcode bytes)))

-- The reader of `disassemble_bytes`: the given bytes stand at `address`, and it raises past them.
unfoldable pub reader_of : List ℕ → ℕ → Reader
reader_of bytes address = λ where_. get_elem? bytes (u16 (where_ + 0x10000 - address))

-- Whether `bytes(data)` is made without an error.
unfoldable pub all_bytes : List ℕ → Bool
all_bytes [] = true
all_bytes (b ∷ bs) = leb b 0xff && all_bytes bs

-- `disassemble_bytes`
unfoldable pub disassemble_bytes : List ℕ → ℕ → Option Instruction
unfolding all_bytes reader_of disassemble
disassemble_bytes bytes address =
    check (all_bytes bytes && ltb 0 (length bytes)) (disassemble (reader_of bytes address) address)

-- `disassemble_range`
unfoldable pub disassemble_range : Reader → ℕ → ℕ → Option (List Instruction)
unfolding disassemble next_address
disassemble_range reader address zero = some []
disassemble_range reader address (suc count) = bind (disassemble reader address) (λ instruction.
    bind (disassemble_range reader (next_address instruction) count)
      (λ listing. some (instruction ∷ listing)))
