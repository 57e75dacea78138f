-- ===== src/Trace/Reading.antt =====
-- src/sixfiveohtwo/trace.py: `step_record_from_dict` and the decoding of its parts.
use python.Prelude.{Option, none, some, List, [], ◌∷◌, ◌||◌, ◌==◌, leb, bind, check, if◌then◌else◌}
use python.Text.{Text, chars, text_eq}
use python.Text.Hex.{from_hex}
use python.Disasm.{Instruction, make_instruction, disassemble_bytes}
use python.Debug.Access.{Kind, Access}
use python.Debug.Records.{StepRecord, make_record}
use python.Trace.{kind_of_text}
use python.Trace.Json.{
  Json, Items, Fields, null, array, no_items, item, as_natural, as_text, as_items, as_object,
  has_key, has_keys, get, state_from_dict,
}

-- The list of strings that an array holds.
unfoldable pub texts_from : Items → Option (List Text)
unfolding as_text
texts_from no_items = some []
texts_from (item value rest) =
    let others = texts_from rest in bind (as_text value) (λ t. bind others (λ ts. some (t ∷ ts)))

-- An instruction with the text that the record gives, where it gives one.
unfoldable pub with_text : Fields → Instruction → Option Instruction
unfolding has_key get as_items as_text texts_from
with_text fields derived =
    if has_key fields (chars "mnemonic")
    then bind (get as_items fields (chars "operands")) (λ items.
      bind (texts_from items) (λ operands. bind (get as_text fields (chars "mnemonic")) (λ mnemonic.
        make_instruction (record derived { mnemonic = mnemonic; operands = operands }))))
    else some derived

-- `_instruction_from_dict` of an object.
unfoldable pub instruction_from_fields : Fields → Option Instruction
unfolding has_keys get as_text as_natural text_eq with_text
instruction_from_fields fields =
    let required = chars "address" ∷ chars "data" ∷ [] in
    let whole = chars "address" ∷ chars "data" ∷ chars "mnemonic" ∷ chars "operands" ∷ [] in
    check (has_keys fields required || has_keys fields whole) (
      bind (get as_text fields (chars "data")) (λ digits. bind (from_hex digits) (λ bytes.
        bind (get as_natural fields (chars "address")) (λ address. check (leb address 0xffff) (
          bind (disassemble_bytes bytes address)
            (λ derived. check (text_eq derived.bytes bytes) (with_text fields derived)))))))

-- `_instruction_from_dict`
unfoldable pub instruction_from_dict : Json → Option (Option Instruction)
unfolding as_object instruction_from_fields
instruction_from_dict null = some none
instruction_from_dict value =
    bind (as_object value) (λ fields. bind (instruction_from_fields fields) (λ i. some (some i)))

unfoldable pub kind_from_letter : Text → Option Kind
unfolding text_eq
kind_from_letter t =
    if text_eq t (chars "r")
    then some Kind.r
    else if text_eq t (chars "w")
    then some Kind.w
    else none

unfoldable pub access_from : Json → Option Access
unfolding as_text as_natural kind_from_letter
access_from (array (item kind (item address (item value no_items)))) =
    bind (as_text kind) (λ letter. bind (kind_from_letter letter) (λ k.
      bind (as_natural address)
        (λ a. bind (as_natural value) (λ v. some (record { kind = k; address = a; value = v })))))
access_from _ = none

-- `_accesses_from_list`, with the tests of the record's accesses.
unfoldable pub accesses_from : Items → Option (List Access)
unfolding access_from
accesses_from no_items = some []
accesses_from (item value rest) =
    let others = accesses_from rest in
    bind (access_from value) (λ a. bind others (λ accesses. some (a ∷ accesses)))

unfoldable pub optional_accesses : Fields → Option (Option (List Access))
unfolding has_key get as_items accesses_from
optional_accesses fields =
    if has_key fields (chars "accesses")
    then bind (get as_items fields (chars "accesses"))
        (λ items. bind (accesses_from items) (λ accesses. some (some accesses)))
    else some none

abbrev pub required_keys : List Text
required_keys =
    chars "version"
    ∷ chars "sequence"
    ∷ chars "kind"
    ∷ chars "cycles"
    ∷ chars "instruction"
    ∷ chars "before"
    ∷ chars "after"
    ∷ []

-- `step_record_from_dict`
unfoldable pub step_record_from_dict : Json → Option StepRecord
unfolding as_object has_key has_keys get as_natural as_text optional_accesses
step_record_from_dict value = bind (as_object value) (λ root.
    let keys =
      if has_key root (chars "accesses") then chars "accesses" ∷ required_keys else required_keys in
    check (has_keys root keys) (
      bind (get as_natural root (chars "version")) (λ version. check (version == 1) (
        bind (get as_natural root (chars "sequence")) (λ sequence.
          bind (get as_natural root (chars "cycles")) (λ cycles.
            bind (get as_text root (chars "kind")) (λ kind_value.
              bind (kind_of_text kind_value) (λ kind.
                bind (get state_from_dict root (chars "before")) (λ before.
                  bind (get state_from_dict root (chars "after")) (λ after.
                    bind (get instruction_from_dict root (chars "instruction")) (λ instruction.
                      bind (optional_accesses root) (λ accesses. make_record (record {
                        sequence = sequence;
                        kind = kind;
                        before = before;
                        after = after;
                        cycles = cycles;
                        instruction = instruction;
                        accesses = accesses;
                      })))))))))))))
