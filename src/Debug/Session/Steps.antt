-- ===== src/Debug/Session/Steps.antt =====
-- `DebugSession.step` of src/sixfiveohtwo/debug.py: what a record that it returns holds, and when it raises.
use python.Prelude.{
  ℕ, ◌<◌, ◌≡◌, ◌≢◌, refl, sym, ◌∙◌, ap, subst, Bool, Bool-cases, Option-cases, true, false, Option,
  none, some, List, ◌&&◌, ◌||◌, ltb, bind, check, maybe, bind-eq-some, check-eq-some, check-some,
  maybe-eq, inl, inr, if◌then◌else◌, arith,
}
use python.State.{CpuState}
use python.Disasm.{Instruction}
use python.Disasm.Errors.{IsTotal, disassemble-total}
use python.Debug.Access.{Access}
use python.Debug.Boundary.{next_boundary}
use python.Debug.Records.{StepRecord, is_instruction, record_fits, make_record, all_valid}
use python.Debug.Session.{DebugTarget, Session, shown, counted, recorded, advance, debug_step}

module _ {T : Type 0} (t : DebugTarget T) where
  -- A step that returned: its record is the evidence of the target's step, and the session has
  -- counted it.
  pub record IsStep (s : Session T) (r : StepRecord) (s' : Session T) : Type 0 where
    pub before_eq : t.capture_state s.target ≡ some r.before
    pub shown_eq : shown s r.before ≡ some r.instruction
    pub sequence_eq : r.sequence ≡ s.total_steps
    pub kind_eq : r.kind ≡ next_boundary r.before
    pub cycles_eq : r.cycles ≡ (t.step s.target).0
    pub accesses_eq : r.accesses ≡ (if s.tracking then some (t.step s.target).1 else none)
    pub after_eq : t.capture_state (t.step s.target).2 ≡ some r.after
    pub fits : record_fits r ≡ true
    pub session_eq : s' ≡ counted (record s { target = (t.step s.target).2 }) r

  recorded-IsStep :
      (s : Session T) (before after : CpuState) (instruction : Option Instruction) {r : StepRecord}
      → let (cycles, accesses, target) = t.step s.target in
        t.capture_state s.target ≡ some before
        → shown s before ≡ some instruction
        → t.capture_state target ≡ some after
        → recorded (record s { target = target }) before instruction cycles accesses after ≡ some r
        → IsStep s r (counted (record s { target = target }) r)
  unfolding recorded make_record
  recorded-IsStep s before after instruction {r} b i a e =
      let (cycles, accesses, target) = t.step s.target in
      let made : StepRecord = record {
        sequence = s.total_steps;
        kind = next_boundary before;
        before = before;
        after = after;
        cycles = cycles;
        instruction = instruction;
        accesses = if s.tracking then some accesses else none;
      } in
      let (fits, same) = check-eq-some (record_fits made) (some made) e in
      let done : IsStep s made (counted (record s { target = target }) made) = record {
        before_eq = b;
        shown_eq = i;
        sequence_eq = refl;
        kind_eq = refl;
        cycles_eq = refl;
        accesses_eq = refl;
        after_eq = a;
        fits = fits;
        session_eq = refl;
      } in
      subst (λ r. IsStep s r (counted (record s { target = target }) r)) (cc same) done

  advance-IsStep :
      (s s' : Session T) (before : CpuState) (instruction : Option Instruction) {r : StepRecord}
      → t.capture_state s.target ≡ some before
      → shown s before ≡ some instruction
      → advance t s before instruction ≡ (some r, s')
      → IsStep s r s'
  unfolding advance
  advance-IsStep s s' before instruction {r} b i e =
      let (cycles, accesses, target) = t.step s.target in
      let moved : Session T = record s { target = target } in
      let made =
        check (ltb 0 cycles)
          (bind (t.capture_state target) (recorded moved before instruction cycles accesses)) in
      let given : made ≡ some r = ap (λ p. p.0) e in
      let (_, made_eq) = check-eq-some (ltb 0 cycles) _ given in
      let (after, captured, recorded_eq) = bind-eq-some (t.capture_state target) _ made_eq in
      let session_eq : counted moved r ≡ s' =
        ap (maybe moved (counted moved)) (sym given) ∙ ap (λ p. p.1) e in
      subst (IsStep s r) session_eq
        (recorded-IsStep s before after instruction b i captured recorded_eq)

  pub debug_step-IsStep :
      (s s' : Session T) {r : StepRecord} → debug_step t s ≡ (some r, s') → IsStep s r s'
  unfolding debug_step
  debug_step-IsStep s s' {r} e = elim (maybe-eq _ _ (t.capture_state s.target) e) [
    | inl (_, raised) ↦ absurd (none≢some (ap (λ p. p.0) raised))
    | inr (before, b, e') ↦ elim (maybe-eq _ _ (shown s before) e') [
      | inl (_, raised) ↦ absurd (none≢some (ap (λ p. p.0) raised))
      | inr (instruction, i, e'') ↦ advance-IsStep s s' before instruction b i e''
    ]
  ]
    where
      none≢some : {r : StepRecord} → none ≢ some r
      none≢some e = cc

-- What a session asks of its target: a set of the target's states that stepping keeps, in which
-- states can be captured and a step takes a cycle or more and makes valid accesses.
pub record IsTarget {T : Type 0} (t : DebugTarget T) (Ready : T → Type 0) : Type 0 where
  pub captures :
      (x : T) → Ready x → (state : CpuState) × (t.capture_state x ≡ some state) × (state.pc < 65536)
  pub takes_cycles : (x : T) → Ready x → 0 < (t.step x).0
  pub makes_valid : (x : T) → Ready x → all_valid (t.step x).1 ≡ true
  pub steps_on : (x : T) → Ready x → Ready (t.step x).2

-- What it asks of `peek_byte`: a byte for each address.
unfoldable pub Peeks : {T : Type 0} → Session T → Type 0
unfolding IsTotal
Peeks s = maybe Unit (λ peek. (x : _) → IsTotal (peek x)) s.peek_byte

module _ {T : Type 0} (t : DebugTarget T) (Ready : T → Type 0) (target : IsTarget t Ready) where
  shown-some :
      (s : Session T) (before : CpuState)
      → Peeks s
      → before.pc < 65536
      → (instruction : Option Instruction) × (shown s before ≡ some instruction)
        × ((is_instruction (next_boundary before) || maybe true (λ _. false) instruction) ≡ true)
  unfolding shown Peeks
  shown-some s before p h = elim (Bool-cases (is_instruction (next_boundary before))) [
    | inr e ↦ (none, rw e refl, rw e refl)
    | inl e ↦ elim (Option-cases s.peek_byte) [
      | inl n ↦ (none, rw e (rw n refl), rw e refl)
      | inr (peek, k) ↦
          let (i, decoded, _, _) =
            disassemble-total (peek s.target) before.pc ((rw k at p) s.target) h in
          (some i, rw e (rw k (rw decoded refl)), rw e refl)
    ]
  ]

  recorded-some :
      (s : Session T) (before after : CpuState) (instruction : Option Instruction) (cycles : ℕ)
      (accesses : List Access)
      → (is_instruction (next_boundary before) || maybe true (λ _. false) instruction) ≡ true
      → 0 < cycles
      → all_valid accesses ≡ true
      → (r : StepRecord) × (recorded s before instruction cycles accesses after ≡ some r)
  unfolding recorded make_record record_fits
  recorded-some s before after instruction cycles accesses i h v = (
    _,
    check-some _ _ (
        fits (is_instruction (next_boundary before) || maybe true (λ _. false) instruction)
          s.tracking i),
  )
    where
      fits :
          (b tracking : Bool)
          → b ≡ true
          → (ltb 0 cycles && b && maybe true all_valid (if tracking then some accesses else none))
            ≡ true
      fits b true e = ground (arith, h, v, e)
      fits b false e = ground (arith, h, e)

  advance-some :
      (s : Session T) (before : CpuState) (instruction : Option Instruction)
      → (is_instruction (next_boundary before) || maybe true (λ _. false) instruction) ≡ true
      → Ready s.target
      → (r : StepRecord) × (advance t s before instruction
          ≡ (some r, counted (record s { target = (t.step s.target).2 }) r))
  unfolding advance
  advance-some s before instruction i ready =
      let (cycles, accesses, next) = t.step s.target in
      let (after, captured, _) = target.captures next (target.steps_on s.target ready) in
      let positive = target.takes_cycles s.target ready in
      let (r, made) =
        recorded-some (record s { target = next }) before after instruction cycles accesses i
          positive (target.makes_valid s.target ready) in
      (r, rw (ltb-true 0 cycles positive) (rw captured (rw made refl)))
    where
      ltb-true : (a b : ℕ) → a < b → ltb a b ≡ true
      ltb-true a b h = ground arith

  -- A step returns a record, and keeps the target in its set of states.
  pub debug_step-some :
      (s : Session T)
      → Ready s.target
      → Peeks s
      → (r : StepRecord) × (s' : Session T) × (debug_step t s ≡ (some r, s'))
        × Ready s'.target
        × Peeks s'
  unfolding debug_step counted Peeks
  debug_step-some s ready p =
      let (before, captured, h) = target.captures s.target ready in
      let (instruction, i, fits) = shown-some s before p h in
      let (r, done) = advance-some s before instruction fits ready in
      (
        r,
        counted (record s { target = (t.step s.target).2 }) r,
        rw captured (rw i done),
        target.steps_on s.target ready,
        p,
      )
