-- ===== src/Tests/Tools.antt =====
-- The theorems on the tools around the core at concrete inputs.
use python.Prelude.{
  ◌⊎◌, ℕ, zero, suc, ◌+◌, ◌%◌, ◌≤◌, ◌<◌, ◌≡◌, refl, true, false, Option, none, some, List, u16, [],
  ◌∷◌, ◌++◌, length, map, maybe, ◌==◌, ◌&&◌, ◌||◌, not, if◌then◌else◌, arith,
}
use python.Text.{chars}
use python.Cpu.{Cpu, mos6502, run}
use python.Control.{branch_target}
use python.Step.{execute}
use python.State.{initial_state}
use python.Debug.Access.{Kind, Access}
use python.Disasm.{
  Addressing, Instruction, Reader, length_of, decode, byte, read_bytes, assemble, documented,
  disassemble, disassemble_bytes, disassemble_range, next_address, relative_target,
}
use python.Disasm.Decoding.{disassemble_bytes-disassemble}
use python.Disasm.Lengths.{next_address-execute, relative_target-branch_target}
use python.Disasm.Errors.{IsTotal, disassemble-total, disassemble_bytes_lem}
use python.Disasm.Listing.{listed_bytes, disassemble_range_lem}
use python.Disasm.{all_bytes}
use python.Step.Counter.{entry_jumps}
use python.Dispatch.{entry}
use python.Debug.Boundary.{next_boundary}
use python.Debug.Records.{RunResult, StopReason, StepRecord, all_valid}
use python.Debug.Session.{
  WatchKind, watched, DebugTarget, Session, init_session, debug_step, add_breakpoint,
  remove_breakpoint, add_watchpoint, remove_watchpoint, member, watch_kind, watches, is_hit,
}
use python.Debug.Session.Steps.{IsTarget, Peeks, debug_step-some}
use python.Debug.Session.Reached.{started, stepped, extended, Continues}
use python.Debug.Session.Log.{Represents, Reached-Represents}
use python.Debug.Session.Marks.{
  HasKeysOnce, breakpoint_lem, add_watchpoint_lem, remove_watchpoint_lem,
}
use python.Debug.Session.Host.{
  core_target, CoreReady, core_target-IsTarget, core_record_accesses, core_run-some,
}
use python.Debug.Run.Stops.{Runs, debug_run-Runs}
use python.Debug.Run.Returns.{debug_run-some}
use python.Debug.Run.Totals.{Counts, debug_run-totals}
use python.Debug.Run.{result, RunLimits, debug_run, run_fits}
use python.Tests.{Memory, program, ram, new-IsReady}

abbrev peek : Memory → Reader
peek memory address = some (memory address % 256)

abbrev pub lda : Instruction
lda = record {
  address = 0;
  bytes = 0xa9 ∷ 0x2a ∷ [];
  mnemonic = chars "LDA";
  operands = chars "#$2A" ∷ [];
  mode = Addressing.immediate;
  target = none;
  is_documented = true;
}

lda-disassemble : disassemble (peek program) 0 ≡ some lda
unfolding disassemble length_of decode assemble
lda-disassemble = refl

disassemble_bytes-disassemble_example : disassemble_bytes (0xa9 ∷ 0x2a ∷ []) 0 ≡ some lda
disassemble_bytes-disassemble_example =
    disassemble_bytes-disassemble (peek program) 0 lda lda-disassemble

next_address-execute_example : next_address lda ≡ (run ram execute mos6502 program).1.pc
unfolding mos6502 byte entry_jumps entry
next_address-execute_example =
    next_address-execute ram (peek program) mos6502 program lda lda-disassemble refl refl

relative_target-branch_target_example :
    relative_target 0x1000 0xfe ≡ branch_target (u16 (0x1000 + 2)) 0xfe
relative_target-branch_target_example = relative_target-branch_target 0x1000 0xfe (omega arith)

peek-IsTotal : (memory : Memory) → IsTotal (peek memory)
unfolding IsTotal
peek-IsTotal memory address h = (memory address % 256, refl, omega arith)

disassemble-total_example :
    (i : Instruction) × (disassemble (peek program) 0 ≡ some i)
    × (1 ≤ length i.bytes)
    × (length i.bytes ≤ 3)
disassemble-total_example = disassemble-total (peek program) 0 (peek-IsTotal program) (omega arith)

-- LDA # without its operand.
abbrev cut : List ℕ
cut = 0xa9 ∷ []

disassemble_bytes_example :
    ((length cut < length_of (decode 0xa9).1) × (disassemble_bytes cut 0 ≡ none))
    ⊎ ((length_of (decode 0xa9).1 ≤ length cut)
        × (i : Instruction) × (after : List ℕ) × (disassemble_bytes cut 0 ≡ some i)
        × (i.bytes ++ after ≡ cut)
        × (length i.bytes ≡ length_of (decode 0xa9).1))
unfolding all_bytes
disassemble_bytes_example = disassemble_bytes_lem 0xa9 [] 0 (omega arith) refl

lda-disassemble_range : disassemble_range (peek program) 0 1 ≡ some (lda ∷ [])
unfolding disassemble_range length_of decode assemble
lda-disassemble_range = refl

disassemble_range_example :
    (length (lda ∷ []) ≡ 1)
    × (read_bytes (peek program) 0 (length (listed_bytes (lda ∷ [])))
        ≡ some (listed_bytes (lda ∷ [])))
disassemble_range_example =
    disassemble_range_lem (peek program) 0 1 (lda ∷ []) (omega arith) lda-disassemble_range

-- The opcodes below a number that MOS documents.
unfoldable documented_below : ℕ → ℕ
unfolding documented
documented_below zero = 0
documented_below (suc n) = let rest = documented_below n in if documented n then suc rest else rest

documented_count : documented_below 256 ≡ 151
unfolding documented_below
documented_count = refl

-- A target that counts: each step takes two cycles, reads its counter and moves PC on by one.
abbrev counter : DebugTarget ℕ
counter = record {
  step = λ n. (2, record { kind = Kind.r; address = n; value = 0 } ∷ [], u16 (n + 1));
  capture_state = λ n. some (record initial_state { pc = n });
}

abbrev new_session : Session ℕ
new_session = record {
  target = 0;
  peek_byte = none;
  history_limit = 2;
  breakpoints = 3 ∷ [];
  watchpoints = [];
  total_steps = 0;
  total_instructions = 0;
  total_cycles = 0;
  history = [];
  tracking = true;
}

abbrev limits : RunLimits
limits = record { max_steps = 5; max_cycles = some 100; stop_on_halt = true }

abbrev Low : ℕ → Type 0
Low n = n < 65536

counter-IsTarget : IsTarget counter Low
unfolding all_valid
counter-IsTarget = record {
  captures = λ x h. (record initial_state { pc = x }, refl, h);
  takes_cycles = λ x h. omega arith;
  makes_valid = λ x h. ground (arith, h);
  steps_on = λ x h. omega arith;
}

new_session-Peeks : Peeks new_session
unfolding Peeks
new_session-Peeks = tt

limits-fit : run_fits limits ≡ true
unfolding run_fits
limits-fit = refl

abbrev ran :
    (o : RunResult) × (s' : Session ℕ) × (debug_run counter limits new_session ≡ (some o, s'))
    × Low s'.target
ran =
    debug_run-some counter limits Low counter-IsTarget new_session limits-fit (omega arith)
      new_session-Peeks

-- The run stops at the breakpoint after three steps, and keeps the last two records.
ran_to_breakpoint :
    let (o, s) = debug_run counter limits new_session in
    (maybe StopReason.halted (λ x. x.reason) o ≡ StopReason.breakpoint)
    × (maybe 0 (λ x. x.cycles) o ≡ 6)
    × (map (λ r. r.sequence) s.history ≡ 1 ∷ 2 ∷ [])
unfolding debug_run result next_boundary
ran_to_breakpoint = (refl, refl, refl)

debug_run-Runs_example :
    Runs counter limits new_session ran.0 ran.1 × (ran.0.steps ≤ limits.max_steps)
debug_run-Runs_example = debug_run-Runs counter limits new_session ran.1 ran.0 ran.2

debug_run-totals_example : Counts new_session ran.1 ran.0.steps ran.0.instructions ran.0.cycles
debug_run-totals_example = debug_run-totals counter limits new_session ran.1 ran.0 ran.2

abbrev pub new_core_session : Session (Cpu × Memory)
new_core_session = init_session (mos6502, program) (some (λ x. peek x.1)) 4 true

pub new_core_session-Peeks : Peeks new_core_session
unfolding Peeks init_session
new_core_session-Peeks x = peek-IsTotal x.1

pub new_core_session-CoreReady : CoreReady new_core_session.target
unfolding init_session
new_core_session-CoreReady = new-IsReady

abbrev pub core_stepped :
    (r : StepRecord) × (s' : Session (Cpu × Memory)) × (debug_step
        (core_target ram)
        new_core_session
      ≡ (some r, s'))
    × CoreReady s'.target
    × Peeks s'
core_stepped =
    debug_step-some (core_target ram) CoreReady (core_target-IsTarget ram) new_core_session
      new_core_session-CoreReady new_core_session-Peeks

core_run-some_example :
    (o : RunResult) × (s' : Session (Cpu × Memory)) × (debug_run
        (core_target ram)
        limits
        new_core_session
      ≡ (some o, s'))
    × CoreReady s'.target
unfolding init_session
core_run-some_example =
    core_run-some ram limits new_core_session limits-fit new-IsReady new_core_session-Peeks

core_record_accesses_example :
    (log : List Access) × (core_stepped.0.accesses ≡ some log)
    × (length log ≡ core_stepped.0.cycles)
    × (1 ≤ core_stepped.0.cycles)
unfolding init_session
core_record_accesses_example =
    core_record_accesses ram new_core_session core_stepped.1 core_stepped.0 new-IsReady refl
      core_stepped.2

abbrev fresh_session : Session ℕ
fresh_session = init_session 0 none 2 true

abbrev stepped_once : Option StepRecord × Session ℕ
stepped_once = debug_step counter fresh_session

Reached-Represents_example :
    Represents stepped_once.1 (extended [] stepped_once.0) (extended [] stepped_once.0)
    × (length stepped_once.1.history ≤ stepped_once.1.history_limit)
    × Continues counter
        (extended [] stepped_once.0)
        (extended [] stepped_once.0)
        (debug_run counter limits stepped_once.1).1
Reached-Represents_example =
    Reached-Represents counter limits stepped_once.1 (extended [] stepped_once.0)
      (extended [] stepped_once.0) (stepped (started 0 none 2 true))

breakpoint_example :
    ((0x10000 ≤ 7)
      × (add_breakpoint 7 new_session ≡ none)
      × (remove_breakpoint 7 new_session ≡ none))
    ⊎ ((7 < 0x10000)
        × (added : Session ℕ) × (removed : Session ℕ) × (add_breakpoint 7 new_session ≡ some added)
        × (member 3 added.breakpoints ≡ (3 == 7 || member 3 new_session.breakpoints))
        × (remove_breakpoint 7 new_session ≡ some removed)
        × (member 3 removed.breakpoints ≡ (not (3 == 7) && member 3 new_session.breakpoints)))
breakpoint_example = breakpoint_lem 7 3 new_session

abbrev touched : Access
touched = record { kind = Kind.w; address = 0x200; value = 0 }

no_watchpoints : HasKeysOnce []
unfolding HasKeysOnce
no_watchpoints = tt

add_watchpoint_example :
    (((new_session.tracking ≡ false) ⊎ (watch_kind (chars "rw") ≡ none) ⊎ (0x10000 ≤ 0x200))
      × (add_watchpoint 0x200 (chars "rw") new_session ≡ none))
    ⊎ ((new_session.tracking ≡ true)
        × (0x200 < 0x10000)
        × (watch : WatchKind) × (added : Session ℕ) × (watch_kind (chars "rw") ≡ some watch)
        × (add_watchpoint 0x200 (chars "rw") new_session ≡ some added)
        × HasKeysOnce added.watchpoints
        × (is_hit added.watchpoints touched ≡ (
            if touched.address == 0x200
            then watches watch touched.kind
            else is_hit new_session.watchpoints touched)))
add_watchpoint_example = add_watchpoint_lem 0x200 (chars "rw") touched new_session no_watchpoints

-- A session with two watchpoints.
abbrev watching : Session ℕ
watching = record new_session {
  watchpoints = (0x200, WatchKind.both) ∷ (0x300, WatchKind.reads) ∷ [];
}

watching-HasKeysOnce : HasKeysOnce watching.watchpoints
unfolding HasKeysOnce watched
watching-HasKeysOnce = (refl, (refl, tt))

remove_watchpoint_example :
    (removed : Session ℕ) × (remove_watchpoint 0x200 watching ≡ some removed)
    × HasKeysOnce removed.watchpoints
    × (is_hit removed.watchpoints touched
        ≡ (not (touched.address == 0x200) && is_hit watching.watchpoints touched))
remove_watchpoint_example =
    remove_watchpoint_lem 0x200 touched watching watching-HasKeysOnce (omega arith)
