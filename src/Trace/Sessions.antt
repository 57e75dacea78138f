-- ===== src/Trace/Sessions.antt =====
-- src/sixfiveohtwo/trace.py over live sessions: the records that a session over the 6502 core makes.
use python.Prelude.{
  ℕ, ◌≡◌, refl, ◌≢◌, subst, ◌∙◌, ap, true, Bool-cases, Option, Option-cases, none, some,
  bind-eq-some, inl, inr,
}
use python.Cpu.{Cpu, Bus}
use python.State.{CpuState, state_fits, state_of, make_state, capture_state}
use python.Disasm.{Instruction, Reader, disassemble, disassemble_bytes}
use python.Disasm.Decoding.{
  disassemble-IsDecoded, disassemble_bytes-disassemble, IsDecoded-fields, IsDecoded-bytes,
  IsDecoded-make_instruction,
}
use python.Debug.Boundary.{next_boundary}
use python.Debug.Records.{StepRecord, is_instruction}
use python.Debug.Session.{Session, shown, debug_step}
use python.Debug.Session.Steps.{debug_step-IsStep}
use python.Debug.Session.Host.{core_target}
use python.Trace.Json.{step_record_to_dict}
use python.Trace.Reading.{step_record_from_dict}
use python.Trace.Roundtrip.{IsEncoding, step_record_from_dict-step_record_to_dict}

none≢some : {A : Type 0} {a : A} → none ≢ some a
none≢some e = cc

-- A state that was captured is in range.
capture_state-fits : (c : Cpu) {t : CpuState} → capture_state c ≡ some t → state_fits t ≡ true
unfolding capture_state make_state
capture_state-fits c {t} e = elim (Bool-cases (state_fits (state_of c))) [
  | inl f ↦ let same : state_of c ≡ t = cc (rw f at e) in subst (λ t. state_fits t ≡ true) same f
  | inr f ↦ absurd (none≢some (rw f at e))
]

-- A decoded instruction's bytes are exactly its encoding.
disassemble-IsEncoding :
    (reader : Reader) (address : ℕ) (i : Instruction)
    → disassemble reader address ≡ some i
    → IsEncoding i
disassemble-IsEncoding reader address i e =
    let d = disassemble-IsDecoded reader address e in
    let (_, _, _, _, _, bytes, _) = IsDecoded-bytes reader address i d in
    let (here, _, _) = IsDecoded-fields reader address i d in
    record {
      are_bytes = bytes;
      derived = i;
      decoded =
          ap (disassemble_bytes i.bytes) here ∙ disassemble_bytes-disassemble reader address i e;
      same_but_text = refl;
      made = IsDecoded-make_instruction reader address i d;
    }

-- So is that of the instruction that a record shows.
pub shown-IsEncoding :
    {T : Type 0} (s : Session T) (before : CpuState) {o : Option Instruction}
    → shown s before ≡ some o
    → (i : Instruction) → o ≡ some i
    → IsEncoding i
unfolding shown
shown-IsEncoding s before e i same = elim (Bool-cases (is_instruction (next_boundary before))) [
  | inr f ↦
      let nothing_shown : none ≡ some i = cc (rw f at e, same) in absurd (none≢some nothing_shown)
  | inl f ↦ elim (Option-cases s.peek_byte) [
    | inl p ↦
        let nothing_shown : none ≡ some i = cc (rw p at (rw f at e), same) in
        absurd (none≢some nothing_shown)
    | inr (peek, p) ↦
        let (j, decoded, g) =
          bind-eq-some (disassemble (peek s.target) before.pc) (λ i. some (some i))
            (rw p at (rw f at e)) in
        let found : j ≡ i = cc (g, same) in
        disassemble-IsEncoding (peek s.target) before.pc i (decoded ∙ ap some found)
  ]
]

-- The record of any step of a session over a 6502 core, on any host and with any side-effect-free view
-- of its memory, is read back from the JSON value that it is written as.
pub core_record-read :
    {H : Type 0} (bus : Bus H) (s s' : Session (Cpu × H)) (r : StepRecord)
    → debug_step (core_target bus) s ≡ (some r, s')
    → step_record_from_dict (step_record_to_dict r) ≡ some r
unfolding core_target
core_record-read bus s s' r e =
    let d = debug_step-IsStep (core_target bus) s s' e in
    step_record_from_dict-step_record_to_dict r (record {
      fits = d.fits;
      before_fits = capture_state-fits s.target.0 (d.before_eq);
      after_fits = capture_state-fits _ (d.after_eq);
      instruction_encoded = shown-IsEncoding s r.before (d.shown_eq);
    })
