-- ===== src/Console/Views.antt =====
-- src/sixfiveohtwo/console.py: the commands that mark addresses, show memory and history, and step over.
use python.Prelude.{
  ℕ, zero, suc, ◌+◌, ◌-◌, Option, none, some, List, [], ◌∷◌, ◌++◌, map, ◌==◌, leb, length, u16,
  maybe, bind, if◌then◌else◌,
}
use python.Text.{Text, chars, lower}
use python.Text.Hex.{hex_word}
use python.Cpu.{Bus}
use python.State.{capture_state}
use python.Disasm.{Reader, disassemble_range, read_bytes}
use python.Debug.Records.{StepRecord}
use python.Debug.Session.{
  WatchKind, add_breakpoint, remove_breakpoint, add_watchpoint, remove_watchpoint,
}
use python.Console.Numbers.{number, positive}
use python.Console.Format.{format_instruction, format_record, join_with, byte_texts}
use python.Console.Commands.{Outcome, shown_lines, CoreSession}

unfoldable pub kind_word : WatchKind → Text
kind_word WatchKind.reads = chars "r"
kind_word WatchKind.writes = chars "w"
kind_word WatchKind.both = chars "rw"

-- `sorted`, of addresses and of watchpoints, whose addresses differ.
unfoldable pub insert_address : ℕ → List ℕ → List ℕ
insert_address a [] = a ∷ []
insert_address a (b ∷ bs) =
    let rest = insert_address a bs in if leb a b then a ∷ b ∷ bs else b ∷ rest

unfoldable pub sorted_addresses : List ℕ → List ℕ
unfolding insert_address
sorted_addresses [] = []
sorted_addresses (a ∷ rest) = insert_address a (sorted_addresses rest)

unfoldable pub insert_watchpoint : ℕ × WatchKind → List (ℕ × WatchKind) → List (ℕ × WatchKind)
insert_watchpoint w [] = w ∷ []
insert_watchpoint w (v ∷ vs) =
    let rest = insert_watchpoint w vs in if leb w.0 v.0 then w ∷ v ∷ vs else v ∷ rest

unfoldable pub sorted_watchpoints : List (ℕ × WatchKind) → List (ℕ × WatchKind)
unfolding insert_watchpoint
sorted_watchpoints [] = []
sorted_watchpoints (w ∷ rest) = insert_watchpoint w (sorted_watchpoints rest)

-- The lines, or another where there are none.
unfoldable pub lines_or : Text → List Text → List Text
lines_or other [] = other ∷ []
lines_or other (t ∷ ts) = t ∷ ts

-- The last records, `count` or fewer.
unfoldable pub last_records : ℕ → List StepRecord → List StepRecord
last_records count [] = []
last_records count (r ∷ rs) =
    let rest = last_records count rs in if leb (length (r ∷ rs)) count then r ∷ rs else rest

-- One row of memory.
unfoldable pub row : Reader → ℕ → ℕ → Option Text
unfolding read_bytes byte_texts join_with hex_word
row peek address n =
    bind (read_bytes peek address n)
      (λ values. some (hex_word address ++ chars "  " ++ join_with (chars " ") (byte_texts values)))

-- Rows of 16 bytes, with fuel for the rows: one for each 16 bytes is enough, and the length fuel
-- enough for those.
unfoldable pub rows : ℕ → Reader → ℕ → ℕ → Option (List Text)
unfolding row
rows zero peek address length_ = some []
rows (suc fuel) peek address length_ =
    let others = rows fuel peek (u16 (address + 16)) (length_ - 16) in
    if length_ == 0
    then some []
    else bind (row peek address (if leb length_ 16 then length_ else 16))
        (λ t. bind others (λ ts. some (t ∷ ts)))

-- The first byte that `peek` cannot give, or gives wrongly (`_read_peek`), ends in an error.
unfoldable pub first_error : Reader → ℕ → ℕ → Option Outcome
first_error peek address zero = none
first_error peek address (suc n) =
    let later = first_error peek (u16 (address + 1)) n in
    elim (peek address) [
      | none ↦ some Outcome.raised
      | some value ↦ if leb value 0xff then later else some Outcome.command_error
    ]

unfoldable pub memory_lines : Reader → ℕ → ℕ → Outcome
unfolding rows shown_lines first_error
memory_lines peek address length_ =
    maybe (maybe Outcome.raised (λ ts. shown_lines ts) (rows length_ peek address length_)) (λ o. o)
      (first_error peek address length_)

unfoldable pub listing : Reader → ℕ → ℕ → Outcome
unfolding disassemble_range shown_lines format_instruction
listing peek address count =
    maybe Outcome.raised (λ is. shown_lines (map format_instruction is))
      (disassemble_range peek address count)

module _ {H : Type 0} (bus : Bus H) where
  -- A mark on an address, which `add_breakpoint` and its kin take.
  unfoldable pub marked :
      Text
      → (ℕ → CoreSession bus → Option (CoreSession bus))
      → (ℕ → Text)
      → CoreSession bus
      → Outcome × CoreSession bus
  unfolding number shown_lines
  marked address mark line s =
      maybe (Outcome.command_error, s)
        (λ a. maybe (Outcome.raised, s) (λ s'. (shown_lines (line a ∷ []), s')) (mark a s))
        (number address (some 0xffff))

  unfoldable pub do_break : List Text → CoreSession bus → Outcome × CoreSession bus
  unfolding marked add_breakpoint hex_word
  do_break (address ∷ []) s =
      marked address add_breakpoint (λ a. chars "breakpoint added at " ++ hex_word a) s
  do_break _ s = (Outcome.command_error, s)

  unfoldable pub do_delete : List Text → CoreSession bus → Outcome × CoreSession bus
  unfolding marked remove_breakpoint hex_word
  do_delete (address ∷ []) s =
      marked address remove_breakpoint (λ a. chars "breakpoint removed from " ++ hex_word a) s
  do_delete _ s = (Outcome.command_error, s)

  unfoldable pub do_unwatch : List Text → CoreSession bus → Outcome × CoreSession bus
  unfolding marked remove_watchpoint hex_word
  do_unwatch (address ∷ []) s =
      marked address remove_watchpoint (λ a. chars "watchpoint removed from " ++ hex_word a) s
  do_unwatch _ s = (Outcome.command_error, s)

  -- A ValueError of `add_watchpoint` is a CommandError here.
  unfoldable pub watch_at : Text → Text → CoreSession bus → Outcome × CoreSession bus
  unfolding number add_watchpoint shown_lines hex_word
  watch_at address kind s =
      maybe (Outcome.command_error, s)
        (λ a.
          maybe (Outcome.command_error, s)
            (λ s'. (
              shown_lines (
                  (chars "watchpoint added at " ++ hex_word a ++ chars " (" ++ kind ++ chars ")")
                  ∷ []),
              s',
            ))
            (add_watchpoint a kind s))
        (number address (some 0xffff))

  unfoldable pub do_watch : List Text → CoreSession bus → Outcome × CoreSession bus
  unfolding watch_at lower
  do_watch (address ∷ []) s = watch_at address (chars "rw") s
  do_watch (address ∷ kind ∷ []) s = watch_at address (lower kind) s
  do_watch _ s = (Outcome.command_error, s)

  unfoldable pub do_breakpoints : CoreSession bus → Outcome
  unfolding shown_lines lines_or sorted_addresses sorted_watchpoints kind_word hex_word
  do_breakpoints s = shown_lines (
      lines_or (chars "no breakpoints") (
        map (λ a. hex_word a) (sorted_addresses s.breakpoints)
        ++ map (λ (w : ℕ × WatchKind). chars "watch " ++ hex_word w.0 ++ chars " " ++ kind_word w.1)
            (sorted_watchpoints s.watchpoints)))

  -- The reader of `_require_peek`.
  unfoldable pub peek_of : CoreSession bus → Option Reader
  peek_of s = maybe none (λ peek. some (peek s.target)) s.peek_byte

  -- `_disassemble`
  unfoldable pub do_disassemble : List Text → CoreSession bus → Outcome
  unfolding peek_of listing number positive
  do_disassemble [] s =
      maybe Outcome.command_error
        (λ peek. maybe Outcome.raised (λ t. listing peek t.pc 8) (capture_state s.target.0))
        (peek_of s)
  do_disassemble (address ∷ []) s =
      maybe Outcome.command_error
        (λ peek.
          maybe Outcome.raised
            (λ t.
              maybe Outcome.command_error (λ a. listing peek a 8) (number address (some 0xffff)))
            (capture_state s.target.0))
        (peek_of s)
  do_disassemble (address ∷ count ∷ []) s =
      maybe Outcome.command_error
        (λ peek.
          maybe Outcome.raised
            (λ t.
              maybe Outcome.command_error
                (λ a.
                  maybe Outcome.command_error (λ n. listing peek a n) (positive count (some 256)))
                (number address (some 0xffff)))
            (capture_state s.target.0))
        (peek_of s)
  do_disassemble _ s = Outcome.command_error

  -- `_memory`
  unfoldable pub do_memory : List Text → CoreSession bus → Outcome
  unfolding peek_of memory_lines number positive
  do_memory (address ∷ []) s =
      maybe Outcome.command_error
        (λ peek.
          maybe Outcome.command_error (λ a. memory_lines peek a 16) (number address (some 0xffff)))
        (peek_of s)
  do_memory (address ∷ length_ ∷ []) s =
      maybe Outcome.command_error
        (λ peek.
          maybe Outcome.command_error
            (λ a.
              maybe Outcome.command_error (λ n. memory_lines peek a n)
                (positive length_ (some 256)))
            (number address (some 0xffff)))
        (peek_of s)
  do_memory _ s = Outcome.command_error

  -- `_history`
  unfoldable pub do_history : List Text → CoreSession bus → Outcome
  unfolding last_records shown_lines lines_or format_record positive
  do_history [] s =
      shown_lines (lines_or (chars "history empty") (map format_record (last_records 16 s.history)))
  do_history (count ∷ []) s =
      maybe Outcome.command_error
        (λ n.
          shown_lines
            (lines_or (chars "history empty") (map format_record (last_records n s.history))))
        (positive count (some 10000))
  do_history _ s = Outcome.command_error
