-- ===== src/Trace/Json.antt =====
-- src/sixfiveohtwo/trace.py: records as JSON values, `step_record_to_dict` and `step_record_from_dict`.
-- `none` is an error that the reader reports.
use python.Prelude.{
  ℕ, Bool, true, false, Option, none, some, List, [], ◌∷◌, ◌&&◌, ◌||◌, maybe, bind, check,
  if◌then◌else◌,
}
use python.Text.{Text, chars, text_eq}
use python.Text.Hex.{hex_text}
use python.State.{CpuState, make_state}
use python.Disasm.{Instruction}
use python.Debug.Access.{Access}
use python.Debug.Records.{StepRecord}
use python.Trace.{
  TraceValue, number, flag, text, texts, nothing, kind_text, kind_letter, state_fields,
  state_values,
}

-- A number that is not a natural one is `other_number`.
mutual
  pub data Json : Type 0 where
    null : Json
    boolean : Bool → Json
    natural : ℕ → Json
    other_number : Json
    string : Text → Json
    array : Items → Json
    object : Fields → Json

  pub data Items : Type 0 where
    no_items : Items
    item : Json → Items → Items

  pub data Fields : Type 0 where
    no_fields : Fields
    field : Text → Json → Fields → Fields

unfoldable pub text_items : List Text → Items
text_items [] = no_items
text_items (t ∷ ts) = item (string t) (text_items ts)

unfoldable pub json_of : TraceValue → Json
unfolding text_items
json_of (number n) = natural n
json_of (flag b) = boolean b
json_of (text t) = string t
json_of (texts ts) = array (text_items ts)
json_of nothing = null

unfoldable pub fields_of : List Text → List TraceValue → Fields
unfolding json_of
fields_of (name ∷ names) (v ∷ vs) = field name (json_of v) (fields_of names vs)
fields_of _ _ = no_fields

-- `_state_to_dict`
unfoldable pub state_to_dict : CpuState → Json
unfolding fields_of state_values
state_to_dict t = object (fields_of state_fields (state_values t))

unfoldable pub instruction_to_dict : Option Instruction → Json
unfolding text_items hex_text
instruction_to_dict none = null
instruction_to_dict (some i) = object (
    field (chars "address") (natural i.address) (
      field (chars "data") (string (hex_text i.bytes)) (
        field (chars "mnemonic") (string i.mnemonic)
          (field (chars "operands") (array (text_items i.operands)) no_fields))))

unfoldable pub access_items : List Access → Items
unfolding kind_letter
access_items [] = no_items
access_items (a ∷ rest) =
    item
      (array (
        item (string (kind_letter a.kind))
          (item (natural a.address) (item (natural a.value) no_items))))
      (access_items rest)

unfoldable pub accesses_field : Option (List Access) → Fields
unfolding access_items
accesses_field none = no_fields
accesses_field (some accesses) = field (chars "accesses") (array (access_items accesses)) no_fields

-- `step_record_to_dict`
unfoldable pub step_record_to_dict : StepRecord → Json
unfolding accesses_field
step_record_to_dict r = object (
    field (chars "version") (natural 1) (
      field (chars "sequence") (natural r.sequence) (
        field (chars "kind") (string (kind_text r.kind)) (
          field (chars "cycles") (natural r.cycles) (
            field (chars "instruction") (instruction_to_dict r.instruction) (
              field (chars "before") (state_to_dict r.before)
                (field (chars "after") (state_to_dict r.after) (accesses_field r.accesses))))))))

-- The tests of types.
unfoldable pub as_natural : Json → Option ℕ
as_natural (natural n) = some n
as_natural _ = none

unfoldable pub as_flag : Json → Option Bool
as_flag (boolean b) = some b
as_flag _ = none

unfoldable pub as_optional_flag : Json → Option (Option Bool)
as_optional_flag null = some none
as_optional_flag (boolean b) = some (some b)
as_optional_flag _ = none

unfoldable pub as_text : Json → Option Text
as_text (string t) = some t
as_text _ = none

unfoldable pub as_items : Json → Option Items
as_items (array items) = some items
as_items _ = none

-- `_require_object`
unfoldable pub as_object : Json → Option Fields
as_object (object fields) = some fields
as_object _ = none

unfoldable pub lookup : Text → Fields → Option Json
unfolding text_eq
lookup key no_fields = none
lookup key (field name value rest) =
    let others = lookup key rest in if text_eq key name then some value else others

unfoldable pub has_key : Fields → Text → Bool
unfolding lookup
has_key fields key = maybe false (λ _. true) (lookup key fields)

unfoldable pub has_all : Fields → List Text → Bool
unfolding has_key
has_all found [] = true
has_all found (key ∷ keys) = has_key found key && has_all found keys

unfoldable pub is_among : Text → List Text → Bool
unfolding text_eq
is_among t [] = false
is_among t (s ∷ rest) = text_eq t s || is_among t rest

unfoldable pub all_among : Fields → List Text → Bool
unfolding is_among
all_among no_fields keys = true
all_among (field name _ rest) keys = is_among name keys && all_among rest keys

-- `_require_keys`
unfoldable pub has_keys : Fields → List Text → Bool
unfolding has_all all_among
has_keys fields keys = has_all fields keys && all_among fields keys

unfoldable pub get : {A : Type 0} → (Json → Option A) → Fields → Text → Option A
unfolding lookup
get convert fields key = bind (lookup key fields) convert

-- `_state_from_dict`
unfoldable pub state_from_dict : Json → Option CpuState
unfolding as_object has_keys get as_natural as_flag as_optional_flag make_state
state_from_dict value = bind (as_object value) (λ fields. check (has_keys fields state_fields) (
    bind (get as_natural fields (chars "a")) (λ a. bind (get as_natural fields (chars "x")) (λ x.
      bind (get as_natural fields (chars "y")) (λ y. bind (get as_natural fields (chars "s")) (λ s.
        bind (get as_natural fields (chars "pc")) (λ pc.
          bind (get as_natural fields (chars "p")) (λ p.
            bind (get as_flag fields (chars "halted")) (λ halted.
              bind (get as_flag fields (chars "reset_pending")) (λ reset_pending.
                bind (get as_flag fields (chars "maskable_interrupt_pending")) (λ maskable.
                  bind (get as_flag fields (chars "non_maskable_interrupt_pending"))
                    (λ non_maskable.
                      bind (get as_optional_flag fields (chars "polled_i")) (λ polled_i.
                        bind (get as_optional_flag fields (chars "polled_maskable_interrupt"))
                          (λ polled_maskable.
                            bind
                              (get as_optional_flag fields (chars "polled_non_maskable_interrupt"))
                              (λ polled_non_maskable.
                                bind (get as_flag fields (chars "skipped_poll")) (λ skipped_poll.
                                  make_state (record {
                                    a = a;
                                    x = x;
                                    y = y;
                                    s = s;
                                    pc = pc;
                                    p = p;
                                    poll = record {
                                      halted = halted;
                                      reset_pending = reset_pending;
                                      maskable_interrupt_pending = maskable;
                                      non_maskable_interrupt_pending = non_maskable;
                                      polled_i = polled_i;
                                      polled_maskable_interrupt = polled_maskable;
                                      polled_non_maskable_interrupt = polled_non_maskable;
                                      skipped_poll = skipped_poll;
                                    };
                                  })))))))))))))))))
