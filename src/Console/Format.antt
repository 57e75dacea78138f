-- ===== src/Console/Format.antt =====
-- src/sixfiveohtwo/console.py: the lines that commands print.
use python.Prelude.{
  ℕ, zero, suc, ◌-◌, Bool, Option, List, [], ◌∷◌, ◌++◌, length, bit_and, truth, maybe,
  if◌then◌else◌,
}
use python.Text.{Text, chars}
use python.Text.Hex.{hex_byte, hex_word}
use python.State.{CpuState}
use python.Disasm.{Instruction, instruction_text}
use python.Debug.Access.{Access}
use python.Debug.Records.{StopReason, StepRecord, RunResult}
use python.Trace.{kind_text, kind_letter}
use python.Console.Numbers.{decimal_text}

-- `separator.join(texts)`
unfoldable pub join_with : Text → List Text → Text
join_with separator [] = []
join_with separator (t ∷ []) = t
join_with separator (t ∷ s ∷ rest) = t ++ separator ++ join_with separator (s ∷ rest)

-- `_flags`
unfoldable pub flag_letters : ℕ → Text → List ℕ → Text
flag_letters value (label ∷ labels) (mask ∷ masks) =
    (if truth (bit_and value mask) then label else b'-') ∷ flag_letters value labels masks
flag_letters value _ _ = []

unfoldable pub flags_text : ℕ → Text
unfolding flag_letters
flags_text value =
    flag_letters value (chars "NV-BDIZC")
      (0x80 ∷ 0x40 ∷ 0x20 ∷ 0x10 ∷ 0x08 ∷ 0x04 ∷ 0x02 ∷ 0x01 ∷ [])

-- `int(flag)`
unfoldable pub bit_text : Bool → Text
bit_text b = if b then chars "1" else chars "0"

unfoldable pub polled_text : Text → Option Bool → Text
unfolding bit_text
polled_text name o = maybe [] (λ b. chars " POLLED_" ++ name ++ chars "=" ++ bit_text b) o

-- `_format_state`
unfoldable pub format_state : CpuState → List Text
unfolding flags_text bit_text polled_text hex_byte hex_word
format_state t =
    (chars "PC="
      ++ hex_word t.pc
      ++ chars " A="
      ++ hex_byte t.a
      ++ chars " X="
      ++ hex_byte t.x
      ++ chars " Y="
      ++ hex_byte t.y
      ++ chars " S="
      ++ hex_byte t.s
      ++ chars " P="
      ++ hex_byte t.p
      ++ chars " "
      ++ flags_text t.p)
    ∷ (chars "JAM="
        ++ bit_text t.poll.halted
        ++ chars " RESET="
        ++ bit_text t.poll.reset_pending
        ++ chars " NMI="
        ++ bit_text t.poll.non_maskable_interrupt_pending
        ++ chars " IRQ="
        ++ bit_text t.poll.maskable_interrupt_pending
        ++ chars " POLLED_I="
        ++ maybe (chars "-") bit_text t.poll.polled_i
        ++ polled_text (chars "NMI") t.poll.polled_non_maskable_interrupt
        ++ polled_text (chars "IRQ") t.poll.polled_maskable_interrupt
        ++ (if t.poll.skipped_poll then chars " NO_POLL" else []))
    ∷ []

unfoldable pub spaces : ℕ → Text
spaces zero = []
spaces (suc n) = b' ' ∷ spaces n

-- `f"{text:<width}"`
unfoldable pub padded : ℕ → Text → Text
unfolding spaces
padded width t = t ++ spaces (width - length t)

unfoldable pub byte_texts : List ℕ → List Text
unfolding hex_byte
byte_texts [] = []
byte_texts (b ∷ bs) = hex_byte b ∷ byte_texts bs

-- `format_instruction`
unfoldable pub format_instruction : Instruction → Text
unfolding join_with byte_texts padded hex_word instruction_text
format_instruction i =
    hex_word i.address
    ++ chars "  "
    ++ padded 11 (join_with (chars " ") (byte_texts i.bytes))
    ++ chars "  "
    ++ instruction_text i

-- `format_record`
unfoldable pub format_record : StepRecord → Text
unfolding format_instruction hex_word kind_text decimal_text
format_record r =
    chars "#"
    ++ decimal_text r.sequence
    ++ chars " "
    ++ maybe (hex_word r.before.pc ++ chars "  " ++ kind_text r.kind) format_instruction
        r.instruction
    ++ chars " -> PC="
    ++ hex_word r.after.pc
    ++ chars " +"
    ++ decimal_text r.cycles

-- `StopReason.value`
unfoldable pub reason_text : StopReason → Text
reason_text StopReason.breakpoint = chars "breakpoint"
reason_text StopReason.watchpoint = chars "watchpoint"
reason_text StopReason.halted = chars "halted"
reason_text StopReason.step_limit = chars "step_limit"
reason_text StopReason.cycle_limit = chars "cycle_limit"

unfoldable pub hit_texts : List Access → List Text
unfolding kind_letter hex_word hex_byte
hit_texts [] = []
hit_texts (a ∷ rest) =
    (kind_letter a.kind ++ chars " " ++ hex_word a.address ++ chars "=" ++ hex_byte a.value)
    ∷ hit_texts rest

unfoldable pub hits_text : StopReason → List Access → Text
unfolding join_with hit_texts
hits_text StopReason.watchpoint hits = chars " " ++ join_with (chars " ") (hit_texts hits)
hits_text _ hits = []

-- `format_run`
unfoldable pub format_run : RunResult → Text
unfolding reason_text decimal_text hex_word hits_text
format_run r =
    chars "stopped="
    ++ reason_text r.reason
    ++ chars " steps="
    ++ decimal_text r.steps
    ++ chars " instructions="
    ++ decimal_text r.instructions
    ++ chars " cycles="
    ++ decimal_text r.cycles
    ++ chars " PC="
    ++ hex_word r.state.pc
    ++ hits_text r.reason r.hits
