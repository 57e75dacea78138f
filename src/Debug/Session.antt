-- ===== src/Debug/Session.antt =====
-- src/sixfiveohtwo/debug.py: `DebugSession`, over a target and its own state. An operation that may
-- raise gives `none` beside the session that it leaves behind.
pub mod Steps
pub mod History
pub mod Reached
pub mod Log
pub mod Marks
pub mod Host
use python.Prelude.{
  ℕ, zero, suc, ◌+◌, Bool, true, false, Option, none, some, List, [], ◌∷◌, ◌++◌, ◌&&◌, ◌||◌, not,
  leb, ltb, ◌==◌, length, bind, check, maybe, if◌then◌else◌,
}
use python.Text.{Text, chars, text_eq}
use python.State.{CpuState}
use python.Disasm.{Instruction, Reader, disassemble}
use python.Debug.Access.{Kind, Access}
use python.Debug.Boundary.{BoundaryKind, next_boundary}
use python.Debug.Records.{
  StopReason, StepRecord, is_instruction, is_halted, make_record, RunResult, make_result,
}

-- The target with its bus: `step` also gives the accesses that it made through the two bus
-- callables, in order, which the tracking wrappers log.
pub record DebugTarget (T : Type 0) : Type 0 where
  pub step : T → ℕ × List Access × T
  pub capture_state : T → Option CpuState

-- The kinds of a watchpoint, `"r"`, `"w"` and `"rw"`.
pub data WatchKind : Type 0 where
  reads writes both : WatchKind

unfoldable pub watch_kind : Text → Option WatchKind
unfolding text_eq
watch_kind t =
    if text_eq t (chars "r")
    then some WatchKind.reads
    else if text_eq t (chars "w")
    then some WatchKind.writes
    else if text_eq t (chars "rw")
    then some WatchKind.both
    else none

-- `kind in watch` of an access's kind.
unfoldable pub watches : WatchKind → Kind → Bool
watches WatchKind.both _ = true
watches WatchKind.reads Kind.r = true
watches WatchKind.reads Kind.w = false
watches WatchKind.writes Kind.w = true
watches WatchKind.writes Kind.r = false

-- The session's state. `peek_byte` reads the target's memory.
pub record Session (T : Type 0) : Type 0 where
  pub target : T
  pub peek_byte : Option (T → Reader)
  pub history_limit : ℕ
  pub breakpoints : List ℕ
  pub watchpoints : List (ℕ × WatchKind)
  pub total_steps : ℕ
  pub total_instructions : ℕ
  pub total_cycles : ℕ
  pub history : List StepRecord
  pub tracking : Bool

-- `__init__`
unfoldable pub init_session : {T : Type 0} → T → Option (T → Reader) → ℕ → Bool → Session T
init_session target peek_byte history_limit track_accesses = record {
  target = target;
  peek_byte = peek_byte;
  history_limit = history_limit;
  breakpoints = [];
  watchpoints = [];
  total_steps = 0;
  total_instructions = 0;
  total_cycles = 0;
  history = [];
  tracking = track_accesses;
}

-- A set of addresses as a list without repeats.
unfoldable pub member : ℕ → List ℕ → Bool
member x [] = false
member x (y ∷ ys) = x == y || member x ys

unfoldable pub discard : ℕ → List ℕ → List ℕ
discard x [] = []
discard x (y ∷ ys) = let rest = discard x ys in if x == y then rest else y ∷ rest

-- A dictionary as a list of its items, in the order in which they were added.
unfoldable pub watched : List (ℕ × WatchKind) → ℕ → Option WatchKind
watched [] x = none
watched (item ∷ items) x = let rest = watched items x in if x == item.0 then some item.1 else rest

unfoldable pub set_item : List (ℕ × WatchKind) → ℕ → WatchKind → List (ℕ × WatchKind)
set_item [] x kind = (x, kind) ∷ []
set_item (item ∷ items) x kind =
    let rest = set_item items x kind in if x == item.0 then (x, kind) ∷ items else item ∷ rest

unfoldable pub pop_item : List (ℕ × WatchKind) → ℕ → List (ℕ × WatchKind)
pop_item [] x = []
pop_item (item ∷ items) x =
    let rest = pop_item items x in if x == item.0 then items else item ∷ rest

-- `_validate_address`
unfoldable pub validate_address : ℕ → Option ℕ
validate_address address = check (leb address 0xffff) (some address)

module _ {T : Type 0} where
  unfoldable pub add_breakpoint : ℕ → Session T → Option (Session T)
  unfolding validate_address member
  add_breakpoint address s = bind (validate_address address) (λ x.
      some (if member x s.breakpoints then s else record s { breakpoints = x ∷ s.breakpoints }))

  unfoldable pub remove_breakpoint : ℕ → Session T → Option (Session T)
  unfolding validate_address discard
  remove_breakpoint address s =
      bind (validate_address address)
        (λ x. some (record s { breakpoints = discard x s.breakpoints }))

  unfoldable pub add_watchpoint : ℕ → Text → Session T → Option (Session T)
  unfolding validate_address watch_kind set_item
  add_watchpoint address kind s = check s.tracking (
      bind (watch_kind kind) (λ watch.
        bind (validate_address address)
          (λ x. some (record s { watchpoints = set_item s.watchpoints x watch }))))

  unfoldable pub remove_watchpoint : ℕ → Session T → Option (Session T)
  unfolding validate_address pop_item
  remove_watchpoint address s =
      bind (validate_address address)
        (λ x. some (record s { watchpoints = pop_item s.watchpoints x }))

  unfoldable pub clear_history : Session T → Session T
  clear_history s = record s { history = [] }

  -- `close`: the log is dropped with the wrappers.
  unfoldable pub close : Session T → Session T
  close s = record s { tracking = false }

-- `append` of a deque of at most `limit` elements.
unfoldable pub append_bounded : ℕ → List StepRecord → StepRecord → List StepRecord
append_bounded limit [] r = r ∷ []
append_bounded limit (oldest ∷ rest) r =
    if ltb (length (oldest ∷ rest)) limit then (oldest ∷ rest) ++ r ∷ [] else rest ++ r ∷ []

-- The accesses that a watchpoint stops at.
unfoldable pub is_hit : List (ℕ × WatchKind) → Access → Bool
unfolding watched watches
is_hit watchpoints access =
    maybe false (λ watch. watches watch access.kind) (watched watchpoints access.address)

unfoldable pub hits_among : List (ℕ × WatchKind) → List Access → List Access
unfolding is_hit
hits_among watchpoints [] = []
hits_among watchpoints (access ∷ rest) =
    let others = hits_among watchpoints rest in
    if is_hit watchpoints access then access ∷ others else others

module _ {T : Type 0} where
  -- The instruction that the record of a step from a state shows.
  unfoldable pub shown : Session T → CpuState → Option (Option Instruction)
  unfolding is_instruction
  shown s before =
      if is_instruction (next_boundary before)
      then maybe (some none)
          (λ peek. bind (disassemble (peek s.target) before.pc) (λ i. some (some i))) s.peek_byte
      else some none

  -- The totals and the history, with a new record.
  unfoldable pub counted : Session T → StepRecord → Session T
  unfolding is_instruction append_bounded
  counted s r = record s {
    total_steps = s.total_steps + 1;
    total_instructions =
        if is_instruction r.kind then s.total_instructions + 1 else s.total_instructions;
    total_cycles = s.total_cycles + r.cycles;
    history =
        if ltb 0 s.history_limit then append_bounded s.history_limit s.history r else s.history;
  }

  -- After the target's step, its state before and after, and the session with the stepped target.
  unfoldable pub recorded :
      Session T → CpuState → Option Instruction → ℕ → List Access → CpuState → Option StepRecord
  unfolding make_record
  recorded s before instruction cycles accesses after = make_record (record {
    sequence = s.total_steps;
    kind = next_boundary before;
    before = before;
    after = after;
    cycles = cycles;
    instruction = instruction;
    accesses = if s.tracking then some accesses else none;
  })

  -- `_watch_hits`
  unfoldable pub watch_hits : Session T → StepRecord → List Access
  unfolding hits_among
  watch_hits s r = maybe [] (hits_among s.watchpoints) r.accesses

module _ {T : Type 0} (t : DebugTarget T) where
  -- The rest of `step`, once the state before it and its instruction are known.
  unfoldable pub advance : Session T → CpuState → Option Instruction → Option StepRecord × Session T
  unfolding recorded counted
  advance s before instruction =
      let (cycles, accesses, target) = t.step s.target in
      let moved = record s { target = target } in
      let made =
        check (ltb 0 cycles)
          (bind (t.capture_state target) (recorded moved before instruction cycles accesses)) in
      (made, maybe moved (counted moved) made)

  -- `step`
  unfoldable pub debug_step : Session T → Option StepRecord × Session T
  unfolding shown advance
  debug_step s =
      maybe (none, s) (λ before. maybe (none, s) (advance s before) (shown s before))
        (t.capture_state s.target)
