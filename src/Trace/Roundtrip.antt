-- ===== src/Trace/Roundtrip.antt =====
-- A record of src/sixfiveohtwo/trace.py is read back from the JSON value that it is written as.
use python.Prelude.{
  ◌≡◌, refl, ◌∙◌, ap, subst, leb, arith, Bool, true, Option, none, some, List, [], ◌∷◌, ◌&&◌, ltb,
  length, check-eq-some, Option-cases, inl, inr,
}
use python.Text.{Text, chars, text_eq_iff}
use python.Text.Hex.{hex_text}
use python.State.{CpuState, state_fits, make_state}
use python.Disasm.{Instruction, make_instruction, all_bytes, disassemble_bytes}
use python.Debug.Access.{Kind, Access}
use python.Debug.Records.{StepRecord, record_fits, make_record}
use python.Trace.{optional_flag, kind_letter}
use python.Trace.Texts.{kind_of_text-kind_text, from_hex-all_bytes}
use python.Trace.Json.{
  natural, string, array, field, no_fields, text_items, json_of, state_to_dict, instruction_to_dict,
  access_items, accesses_field, step_record_to_dict, as_optional_flag, as_natural, as_text,
  state_from_dict,
}
use python.Trace.Reading.{
  texts_from, with_text, instruction_from_dict, kind_from_letter, access_from, accesses_from,
  optional_accesses, step_record_from_dict,
}

texts_from-text_items : (ts : List Text) → texts_from (text_items ts) ≡ some ts
unfolding texts_from text_items as_text
texts_from-text_items [] = refl
texts_from-text_items (t ∷ ts) = rw (texts_from-text_items ts) refl

kind_from_letter-kind_letter : (k : Kind) → kind_from_letter (kind_letter k) ≡ some k
unfolding kind_from_letter kind_letter
kind_from_letter-kind_letter Kind.r = refl
kind_from_letter-kind_letter Kind.w = refl

accesses_from-access_items : (xs : List Access) → accesses_from (access_items xs) ≡ some xs
unfolding accesses_from access_items access_from as_text as_natural
accesses_from-access_items [] = refl
accesses_from-access_items (x ∷ xs) =
    rw (accesses_from-access_items xs) (rw (kind_from_letter-kind_letter x.kind) refl)

optional_flag-read : (o : Option Bool) → as_optional_flag (json_of (optional_flag o)) ≡ some o
unfolding as_optional_flag json_of optional_flag
optional_flag-read none = refl
optional_flag-read (some b) = refl

make_state-fits : (t : CpuState) → state_fits t ≡ true → make_state t ≡ some t
unfolding make_state
make_state-fits t h = rw h refl

state_from_dict-state_to_dict :
    (t : CpuState) → state_fits t ≡ true → state_from_dict (state_to_dict t) ≡ some t
unfolding state_from_dict state_to_dict
state_from_dict-state_to_dict t h = rw (optional_flag-read t.poll.polled_i) (
    rw (optional_flag-read t.poll.polled_maskable_interrupt)
      (rw (optional_flag-read t.poll.polled_non_maskable_interrupt) (make_state-fits t h)))

-- The bytes of an instruction are exactly an encoding, with the mode, the target and the documented flag
-- that decoding gives; its mnemonic, which is not empty, and its operands may be other texts.
pub record IsEncoding (i : Instruction) : Type 0 where
  pub are_bytes : all_bytes i.bytes ≡ true
  pub derived : Instruction
  pub decoded : disassemble_bytes i.bytes i.address ≡ some derived
  pub same_but_text : record derived { mnemonic = i.mnemonic; operands = i.operands } ≡ i
  pub made : make_instruction i ≡ some i

in_range : (i : Instruction) → make_instruction i ≡ some i → leb i.address 0xffff ≡ true
unfolding make_instruction
in_range i e =
    let (h, _) =
      check-eq-some (leb i.address 0xffff && ltb 0 (length i.bytes) && ltb 0 (length i.mnemonic))
        (some i) e in
    first _ _ _ h
  where
    first : (a b c : Bool) → (a && b && c) ≡ true → a ≡ true
    first a b c h = ground (arith, h)

instruction_fields-read :
    (i : Instruction)
    → IsEncoding i
    → instruction_from_dict (instruction_to_dict (some i)) ≡ some (some i)
unfolding instruction_from_dict instruction_to_dict
instruction_fields-read i h = rw (from_hex-all_bytes i.bytes h.are_bytes) (
    rw (in_range i h.made) (
      rw h.decoded (
        rw ((text_eq_iff h.derived.bytes i.bytes).1 (ap (λ j. j.bytes) h.same_but_text))
          (rw with_text-read refl))))
  where
    with_text-read :
        with_text
          (field (chars "address") (natural i.address) (
            field (chars "data") (string (hex_text i.bytes)) (
              field
                (chars "mnemonic")
                (string i.mnemonic)
                (field (chars "operands") (array (text_items i.operands)) no_fields))))
          h.derived
        ≡ some i
    with_text-read =
        rw (texts_from-text_items i.operands) (ap make_instruction h.same_but_text ∙ h.made)

-- What a record's parts must satisfy, as those of a record that a session made do.
pub record IsWritable (r : StepRecord) : Type 0 where
  pub fits : record_fits r ≡ true
  pub before_fits : state_fits r.before ≡ true
  pub after_fits : state_fits r.after ≡ true
  pub instruction_encoded : (i : Instruction) → r.instruction ≡ some i → IsEncoding i

no_instruction-read : instruction_from_dict (instruction_to_dict none) ≡ some none
unfolding instruction_from_dict instruction_to_dict
no_instruction-read = refl

instruction_read :
    (o : Option Instruction)
    → ((i : Instruction) → o ≡ some i → IsEncoding i)
    → instruction_from_dict (instruction_to_dict o) ≡ some o
instruction_read none h = no_instruction-read
instruction_read (some i) h = instruction_fields-read i (h i refl)

make_record-fits : (r : StepRecord) → record_fits r ≡ true → make_record r ≡ some r
unfolding make_record
make_record-fits r h = rw h refl

-- A record with valid states, whose instruction's bytes are exactly an encoding with the mode, the target
-- and the documented flag that decoding gives, whatever operands and mnemonic, not empty, it shows, is read
-- back from the JSON value that it is written as: nothing is lost, with or without an instruction and
-- accesses.
pub step_record_from_dict-step_record_to_dict :
    (r : StepRecord) → IsWritable r → step_record_from_dict (step_record_to_dict r) ≡ some r
unfolding step_record_from_dict step_record_to_dict accesses_field optional_accesses
step_record_from_dict-step_record_to_dict r w =
    let kind = kind_of_text-kind_text r.kind in
    let before = state_from_dict-state_to_dict r.before (w.before_fits) in
    let after = state_from_dict-state_to_dict r.after (w.after_fits) in
    let instruction = instruction_read r.instruction (w.instruction_encoded) in
    let made = make_record-fits r (w.fits) in
    elim (Option-cases r.accesses) [
      | inl e ↦ rw e (
          rw kind (
            rw before (
              rw after (
                rw instruction (
                  subst
                    (λ a.
                      make_record (record r { accesses = a }) ≡ some (record r { accesses = a }))
                    e made)))))
      | inr (xs, e) ↦ rw e (
          rw kind (
            rw before (
              rw after (
                rw instruction (
                  rw (accesses_from-access_items xs) (
                    subst
                      (λ a.
                        make_record (record r { accesses = a }) ≡ some (record r { accesses = a }))
                      e made))))))
    ]
