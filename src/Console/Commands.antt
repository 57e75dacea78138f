-- ===== src/Console/Commands.antt =====
-- src/sixfiveohtwo/console.py: the commands, over a session on a 6502 core.
use python.Prelude.{
  ℕ, zero, suc, Bool, true, false, Option, none, some, List, [], ◌∷◌, ◌++◌, map, ◌||◌, maybe, bind,
  bit_or, if◌then◌else◌,
}
use python.Prelude.Bits.{and_not}
use python.Text.{Text, chars, text_eq, upper, lower}
use python.Frame.{Call, call}
use python.Cpu.{Cpu, Bus}
use python.State.{capture_state}
use python.Debug.Records.{StepRecord}
use python.Debug.Session.{Session, debug_step, member}
use python.Debug.Session.Host.{core_target}
use python.Debug.Run.{RunLimits, debug_run}
use python.Console.Numbers.{number, positive}
use python.Console.Format.{format_state, format_record, format_run}

-- What a command ends in: the lines of a `CommandResult` and whether to quit, a CommandError, or another
-- error that was raised.
pub data Outcome : Type 0 where
  lines : List Text → Bool → Outcome
  command_error raised : Outcome

unfoldable pub shown_lines : List Text → Outcome
shown_lines texts = lines texts false

-- `registers`: the largest value of each.
unfoldable pub register_maximum : Text → Option ℕ
unfolding text_eq
register_maximum name =
    if text_eq name (chars "PC")
    then some 0xffff
    else if text_eq name (chars "A")
        || text_eq name (chars "X")
        || text_eq name (chars "Y")
        || text_eq name (chars "S")
        || text_eq name (chars "P")
    then some 0xff
    else none

-- `set_register`
unfoldable pub set_register : Text → ℕ → Cpu → Cpu
unfolding text_eq
set_register name value c =
    if text_eq name (chars "A")
    then record c { a = value }
    else if text_eq name (chars "X")
    then record c { x = value }
    else if text_eq name (chars "Y")
    then record c { y = value }
    else if text_eq name (chars "S")
    then record c { s = value }
    else if text_eq name (chars "P")
    then record c { p = and_not (bit_or value 0x20) 0x10 }
    else if text_eq name (chars "PC")
    then record c { pc = value }
    else c

module _ {H : Type 0} (bus : Bus H) where
  abbrev pub CoreSession : Type 0
  CoreSession = Session (Cpu × H)

  -- The lines of the CPU's state.
  unfoldable pub state_lines : CoreSession → Outcome
  unfolding shown_lines format_state
  state_lines s =
      maybe Outcome.raised (λ t. shown_lines (format_state t)) (capture_state s.target.0)

  unfoldable pub with_cpu : Cpu → CoreSession → CoreSession
  with_cpu c s = record s { target = (c, s.target.1) }

  -- `count` steps, and the records of them, or the error of one.
  unfoldable pub steps_of : ℕ → CoreSession → Option (List StepRecord) × CoreSession
  unfolding debug_step
  steps_of zero s = (some [], s)
  steps_of (suc count) s =
      let (record_, s') = debug_step (core_target bus) s in
      let (others, s'') = steps_of count s' in
      elim record_ [
        | none ↦ (none, s')
        | some r ↦ (bind others (λ records. some (r ∷ records)), s'')
      ]

  unfoldable pub record_lines : List StepRecord → List Text
  unfolding format_record
  record_lines records = map format_record records

  unfoldable pub step_lines : ℕ → CoreSession → Outcome × CoreSession
  unfolding steps_of shown_lines record_lines
  step_lines count s =
      let (records, s') = steps_of count s in
      (maybe Outcome.raised (λ rs. shown_lines (record_lines rs)) records, s')

  -- `_step`
  unfoldable pub do_step : List Text → CoreSession → Outcome × CoreSession
  unfolding step_lines positive
  do_step [] s = step_lines 1 s
  do_step (count ∷ []) s =
      maybe (Outcome.command_error, s) (λ n. step_lines n s) (positive count (some 10000))
  do_step _ s = (Outcome.command_error, s)

  -- `_run`
  unfoldable pub run_lines : RunLimits → CoreSession → Outcome × CoreSession
  unfolding debug_run shown_lines format_run
  run_lines limits s =
      let (result, s') = debug_run (core_target bus) limits s in
      (maybe Outcome.raised (λ r. shown_lines (format_run r ∷ [])) result, s')

  unfoldable pub do_run : List Text → CoreSession → Outcome × CoreSession
  unfolding run_lines positive
  do_run (steps ∷ []) s =
      maybe (Outcome.command_error, s)
        (λ n. run_lines (record { max_steps = n; max_cycles = none; stop_on_halt = true }) s)
        (positive steps none)
  do_run (steps ∷ cycles ∷ []) s =
      maybe (Outcome.command_error, s)
        (λ n.
          maybe (Outcome.command_error, s)
            (λ m. run_lines (record { max_steps = n; max_cycles = some m; stop_on_halt = true }) s)
            (positive cycles none))
        (positive steps none)
  do_run _ s = (Outcome.command_error, s)

  -- The rest of `_continue`, with the lines so far and the steps left.
  unfoldable pub continued : List Text → ℕ → CoreSession → Outcome × CoreSession
  unfolding debug_run shown_lines format_run
  continued before steps s =
      let (result, s') =
        debug_run (core_target bus)
          (record { max_steps = steps; max_cycles = none; stop_on_halt = true }) s in
      (maybe Outcome.raised (λ r. shown_lines (before ++ format_run r ∷ [])) result, s')

  -- `_continue`
  unfoldable pub do_continue : List Text → CoreSession → Outcome × CoreSession
  unfolding continued debug_step member format_record
  do_continue [] s =
      maybe (Outcome.raised, s)
        (λ t.
          if member t.pc s.breakpoints
          then (let (record_, s') = debug_step (core_target bus) s in
              maybe (Outcome.raised, s') (λ r. continued (format_record r ∷ []) 999999 s') record_)
          else continued [] 1000000 s)
        (capture_state s.target.0)
  do_continue _ s = (Outcome.command_error, s)

  -- `_set`
  unfoldable pub do_set : List Text → CoreSession → Outcome × CoreSession
  unfolding register_maximum set_register state_lines number upper with_cpu
  do_set (name ∷ value ∷ []) s =
      maybe (Outcome.command_error, s)
        (λ most.
          maybe (Outcome.command_error, s)
            (λ n.
              let s' = with_cpu (set_register (upper name) n s.target.0) s in (state_lines s', s'))
            (number value (some most)))
        (register_maximum (upper name))
  do_set _ s = (Outcome.command_error, s)

  -- A call of the CPU's interrupt inputs.
  unfoldable pub with_call : Call → CoreSession → CoreSession
  unfolding with_cpu
  with_call k s = with_cpu (record (s.target.0) { frame = call k s.target.0.frame }) s

  -- `_interrupt`
  unfoldable pub do_irq : List Text → CoreSession → Outcome × CoreSession
  unfolding with_call shown_lines lower text_eq
  do_irq (level ∷ []) s =
      if text_eq (lower level) (chars "off")
      then (shown_lines (chars "IRQ released" ∷ []), with_call Call.release_irq s)
      else if text_eq (lower level) (chars "on")
      then (
        shown_lines (chars "IRQ asserted; it stays asserted until irq off" ∷ []),
        with_call Call.raise_irq s,
      )
      else (Outcome.command_error, s)
  do_irq _ s = (Outcome.command_error, s)
