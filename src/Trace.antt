-- ===== src/Trace.antt =====
-- src/sixfiveohtwo/trace.py: the comparison of two traces. An iterator is the list of what it yields.
pub mod Texts
pub mod Json
pub mod Reading
pub mod Roundtrip
pub mod Sessions
pub mod Lockstep
pub mod Compare
pub mod Divergence
use python.Prelude.{
  ℕ, zero, suc, ◌+◌, Bool, true, false, Option, none, some, List, [], ◌∷◌, ◌++◌, map, ◌&&◌, ◌||◌,
  not, ◌==◌, maybe, length, ltb, check, if◌then◌else◌,
}
use python.Text.{Text, chars, text_eq}
use python.Text.Hex.{hex_byte, hex_word, hex_text}
use python.State.{CpuState}
use python.Disasm.{Instruction}
use python.Debug.Access.{Kind, Access}
use python.Debug.Boundary.{BoundaryKind}
use python.Debug.Records.{StepRecord}

-- `TraceValue`
pub data TraceValue : Type 0 where
  number : ℕ → TraceValue
  flag : Bool → TraceValue
  text : Text → TraceValue
  texts : List Text → TraceValue
  nothing : TraceValue

unfoldable pub flag_eq : Bool → Bool → Bool
flag_eq true b = b
flag_eq false b = not b

unfoldable pub texts_eq : List Text → List Text → Bool
unfolding text_eq
texts_eq [] [] = true
texts_eq (s ∷ ss) (t ∷ ts) = text_eq s t && texts_eq ss ts
texts_eq _ _ = false

-- `left == right`, of values of one path.
unfoldable pub value_eq : TraceValue → TraceValue → Bool
unfolding flag_eq text_eq texts_eq
value_eq (number m) (number n) = m == n
value_eq (flag b) (flag c) = flag_eq b c
value_eq (text s) (text t) = text_eq s t
value_eq (texts ss) (texts ts) = texts_eq ss ts
value_eq nothing nothing = true
value_eq _ _ = false

pub record TraceDifference : Type 0 where
  pub path : Text
  pub left : TraceValue
  pub right : TraceValue

-- What `_append` adds.
unfoldable pub difference : Text → TraceValue → TraceValue → List TraceDifference
unfolding value_eq
difference path left right =
    if value_eq left right then [] else record { path = path; left = left; right = right } ∷ []

-- `BoundaryKind.value`
unfoldable pub kind_text : BoundaryKind → Text
kind_text BoundaryKind.instruction_kind = chars "instruction"
kind_text BoundaryKind.jam_idle = chars "jam_idle"
kind_text BoundaryKind.reset = chars "reset"
kind_text BoundaryKind.nmi = chars "nmi"
kind_text BoundaryKind.irq = chars "irq"

-- `kind_type(kind_value)`
unfoldable pub kind_of_text : Text → Option BoundaryKind
unfolding text_eq
kind_of_text t =
    if text_eq t (chars "instruction")
    then some BoundaryKind.instruction_kind
    else if text_eq t (chars "jam_idle")
    then some BoundaryKind.jam_idle
    else if text_eq t (chars "reset")
    then some BoundaryKind.reset
    else if text_eq t (chars "nmi")
    then some BoundaryKind.nmi
    else if text_eq t (chars "irq")
    then some BoundaryKind.irq
    else none

-- `_state_fields`
abbrev pub state_fields : List Text
state_fields =
    chars "a"
    ∷ chars "x"
    ∷ chars "y"
    ∷ chars "s"
    ∷ chars "pc"
    ∷ chars "p"
    ∷ chars "halted"
    ∷ chars "reset_pending"
    ∷ chars "maskable_interrupt_pending"
    ∷ chars "non_maskable_interrupt_pending"
    ∷ chars "polled_i"
    ∷ chars "polled_maskable_interrupt"
    ∷ chars "polled_non_maskable_interrupt"
    ∷ chars "skipped_poll"
    ∷ []

unfoldable pub optional_flag : Option Bool → TraceValue
optional_flag o = maybe nothing (λ b. flag b) o

-- The values of a state's fields, in order.
unfoldable pub state_values : CpuState → List TraceValue
unfolding optional_flag
state_values t =
    number t.a
    ∷ number t.x
    ∷ number t.y
    ∷ number t.s
    ∷ number t.pc
    ∷ number t.p
    ∷ flag t.poll.halted
    ∷ flag t.poll.reset_pending
    ∷ flag t.poll.maskable_interrupt_pending
    ∷ flag t.poll.non_maskable_interrupt_pending
    ∷ optional_flag t.poll.polled_i
    ∷ optional_flag t.poll.polled_maskable_interrupt
    ∷ optional_flag t.poll.polled_non_maskable_interrupt
    ∷ flag t.poll.skipped_poll
    ∷ []

unfoldable pub values_eq : List TraceValue → List TraceValue → Bool
unfolding value_eq
values_eq [] [] = true
values_eq (v ∷ vs) (w ∷ ws) = value_eq v w && values_eq vs ws
values_eq _ _ = false

unfoldable pub compare_fields :
    Text → List Text → List TraceValue → List TraceValue → List TraceDifference
unfolding difference
compare_fields prefix (name ∷ names) (v ∷ vs) (w ∷ ws) =
    difference (prefix ++ chars "." ++ name) v w ++ compare_fields prefix names vs ws
compare_fields prefix _ _ _ = []

-- `_compare_state`
unfoldable pub compare_state : Text → CpuState → CpuState → List TraceDifference
unfolding state_values values_eq compare_fields
compare_state prefix left right =
    if values_eq (state_values left) (state_values right)
    then []
    else compare_fields prefix state_fields (state_values left) (state_values right)

-- `None if instruction is None else "present"`
unfoldable pub presence : Option Instruction → TraceValue
presence o = maybe nothing (λ _. text (chars "present")) o

-- `_compare_instruction`
unfoldable pub compare_instruction : Option Instruction → Option Instruction → List TraceDifference
unfolding presence difference hex_text
compare_instruction (some i) (some j) =
    difference (chars "instruction.address") (number i.address) (number j.address)
    ++ difference (chars "instruction.data") (text (hex_text i.bytes)) (text (hex_text j.bytes))
    ++ difference (chars "instruction.mnemonic") (text i.mnemonic) (text j.mnemonic)
    ++ difference (chars "instruction.operands") (texts i.operands) (texts j.operands)
compare_instruction left right = difference (chars "instruction") (presence left) (presence right)

unfoldable pub kind_letter : Kind → Text
kind_letter Kind.r = chars "r"
kind_letter Kind.w = chars "w"

unfoldable pub access_text : Access → Text
unfolding kind_letter hex_word hex_byte
access_text access =
    kind_letter access.kind
    ++ (chars " " ++ hex_word access.address ++ chars "=" ++ hex_byte access.value)

-- `_access_texts`
unfoldable pub access_texts : List Access → List Text
unfolding access_text
access_texts accesses = map access_text accesses

unfoldable pub compare_accesses : Option (List Access) → Option (List Access) → List TraceDifference
unfolding difference access_texts
compare_accesses (some left) (some right) =
    difference (chars "accesses") (texts (access_texts left)) (texts (access_texts right))
compare_accesses _ _ = []

-- `compare_step_records`
unfoldable pub compare_step_records : StepRecord → StepRecord → List TraceDifference
unfolding difference kind_text compare_instruction compare_state compare_accesses
compare_step_records left right =
    difference (chars "kind") (text (kind_text left.kind)) (text (kind_text right.kind))
    ++ compare_instruction left.instruction right.instruction
    ++ difference (chars "cycles") (number left.cycles) (number right.cycles)
    ++ compare_state (chars "before") left.before right.before
    ++ compare_state (chars "after") left.after right.after
    ++ compare_accesses left.accesses right.accesses

pub record TraceDivergence : Type 0 where
  pub position : ℕ
  pub left_record : Option StepRecord
  pub right_record : Option StepRecord
  pub differences : List TraceDifference

-- `iter_trace_divergences`, from a position on.
unfoldable pub iter_trace_divergences : ℕ → List StepRecord → List StepRecord → List TraceDivergence
iter_trace_divergences position [] [] = []
iter_trace_divergences position [] (r ∷ right) =
    record {
      position = position;
      left_record = none;
      right_record = some r;
      differences =
          record { path = chars "record"; left = nothing; right = text (chars "present") } ∷ [];
    }
    ∷ iter_trace_divergences (suc position) [] right
iter_trace_divergences position (l ∷ left) [] =
    record {
      position = position;
      left_record = some l;
      right_record = none;
      differences =
          record { path = chars "record"; left = text (chars "present"); right = nothing } ∷ [];
    }
    ∷ iter_trace_divergences (suc position) left []
iter_trace_divergences position (l ∷ left) (r ∷ right) =
    let rest = iter_trace_divergences (suc position) left right in
    elim (compare_step_records l r) [
      | [] ↦ rest
      | d ∷ ds ↦
          record {
            position = position;
            left_record = some l;
            right_record = some r;
            differences = d ∷ ds;
          }
          ∷ rest
    ]

-- `first_trace_divergence`
unfoldable pub first_trace_divergence : List StepRecord → List StepRecord → Option TraceDivergence
unfolding iter_trace_divergences
first_trace_divergence left right = elim (iter_trace_divergences 0 left right) [
  | [] ↦ none
  | d ∷ _ ↦ some d
]
