-- ===== src/Tests/Traces.antt =====
-- The theorems on traces at concrete inputs.
use python.Prelude.{◌≡◌, ◌↔◌, ◌⊎◌, refl, subst, false, none, some, [], ◌∷◌, arith, maybe}
use python.Cpu.{Cpu}
use python.State.{initial_state, state_fits}
use python.Text.{chars}
use python.Disasm.{
  Instruction, make_instruction, length_of, decode, assemble, disassemble_bytes, all_bytes,
}
use python.Debug.Access.{Kind}
use python.Debug.Boundary.{BoundaryKind}
use python.Debug.Records.{StepRecord, record_fits, all_valid}
use python.Debug.Session.{Session}
use python.Debug.Session.Host.{core_target, CoreReady, core_target-IsTarget}
use python.Trace.{TraceDivergence, compare_step_records, first_trace_divergence}
use python.Trace.Compare.{Agrees, IsEvidence, compare_step_records-nil}
use python.Trace.Divergence.{TracesAgree, DivergesAt, first_trace_divergence_lem}
use python.Trace.Json.{step_record_to_dict}
use python.Trace.Reading.{step_record_from_dict}
use python.Trace.Roundtrip.{IsEncoding, IsWritable, step_record_from_dict-step_record_to_dict}
use python.Trace.Sessions.{core_record-read}
use python.Trace.Lockstep.{first_session_divergence, first_session_divergence_twins}
use python.Tests.{Memory, ram}
use python.Tests.Tools.{
  lda, new_core_session, new_core_session-CoreReady, new_core_session-Peeks, core_stepped,
}

-- LDA #$2A at $0000.
abbrev lda_record : StepRecord
lda_record = record {
  sequence = 0;
  kind = BoundaryKind.instruction_kind;
  before = initial_state;
  after = record initial_state { a = 0x2a; pc = 2 };
  cycles = 2;
  instruction = some lda;
  accesses = some (
      record { kind = Kind.r; address = 0; value = 0xa9 }
      ∷ record { kind = Kind.r; address = 1; value = 0x2a }
      ∷ []);
}

-- The same step that took a cycle more.
abbrev slow_record : StepRecord
slow_record = record lda_record { sequence = 7; cycles = 3 }

lda_record-IsEvidence : IsEvidence lda_record
unfolding IsEvidence all_bytes all_valid
lda_record-IsEvidence = (refl, refl)

slow_record-IsEvidence : IsEvidence slow_record
unfolding IsEvidence all_bytes all_valid
slow_record-IsEvidence = (refl, refl)

compare_step_records_example :
    (compare_step_records lda_record slow_record ≡ []) ↔ Agrees lda_record slow_record
compare_step_records_example =
    compare_step_records-nil lda_record slow_record lda_record-IsEvidence slow_record-IsEvidence

first_trace_divergence_example :
    ((first_trace_divergence (lda_record ∷ lda_record ∷ []) (lda_record ∷ slow_record ∷ []) ≡ none)
      × TracesAgree (lda_record ∷ lda_record ∷ []) (lda_record ∷ slow_record ∷ []))
    ⊎ ((d : TraceDivergence) × (first_trace_divergence
            (lda_record ∷ lda_record ∷ [])
            (lda_record ∷ slow_record ∷ [])
          ≡ some d)
        × DivergesAt d.position (lda_record ∷ lda_record ∷ []) (lda_record ∷ slow_record ∷ []))
first_trace_divergence_example =
    first_trace_divergence_lem (lda_record ∷ lda_record ∷ []) (lda_record ∷ slow_record ∷ [])
      (lda_record-IsEvidence, (lda_record-IsEvidence, tt))
      (lda_record-IsEvidence, (slow_record-IsEvidence, tt))

-- It is found at position 1.
divergence_found :
    maybe 9
      (λ d. d.position)
      (first_trace_divergence (lda_record ∷ lda_record ∷ []) (lda_record ∷ slow_record ∷ []))
    ≡ 1
unfolding first_trace_divergence compare_step_records
divergence_found = refl

-- The instruction as another core writes it, and the record that shows it.
abbrev foreign : Instruction
foreign = record lda { mnemonic = chars "lda.b"; operands = chars "42" ∷ [] }

abbrev foreign_record : StepRecord
foreign_record = record lda_record { instruction = some foreign }

foreign-IsEncoding : IsEncoding foreign
unfolding all_bytes disassemble_bytes length_of decode assemble make_instruction
foreign-IsEncoding = record {
  are_bytes = refl;
  derived = lda;
  decoded = refl;
  same_but_text = refl;
  made = refl;
}

foreign_record-IsWritable : IsWritable foreign_record
unfolding record_fits state_fits
foreign_record-IsWritable = record {
  fits = refl;
  before_fits = refl;
  after_fits = refl;
  instruction_encoded =
      λ i e. let same : foreign ≡ i = cc e in subst IsEncoding same foreign-IsEncoding;
}

step_record_from_dict_example :
    step_record_from_dict (step_record_to_dict foreign_record) ≡ some foreign_record
step_record_from_dict_example =
    step_record_from_dict-step_record_to_dict foreign_record foreign_record-IsWritable

core_record-read_example :
    step_record_from_dict (step_record_to_dict core_stepped.0) ≡ some core_stepped.0
core_record-read_example =
    core_record-read ram new_core_session core_stepped.1 core_stepped.0 core_stepped.2

-- A session that neither tracks accesses nor keeps a history.
abbrev plain_session : Session (Cpu × Memory)
plain_session = record new_core_session {
  tracking = false;
  history_limit = 0;
  breakpoints = 3 ∷ [];
}

first_session_divergence_example :
    (first_session_divergence
      (core_target ram)
      (core_target ram)
      100
      new_core_session
      plain_session).0
    ≡ some none
first_session_divergence_example =
    first_session_divergence_twins (core_target ram) CoreReady (core_target-IsTarget ram) 100
      new_core_session plain_session (omega arith) refl refl new_core_session-CoreReady
      new_core_session-Peeks
