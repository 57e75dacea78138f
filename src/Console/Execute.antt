-- ===== src/Console/Execute.antt =====
-- src/sixfiveohtwo/console.py: `execute`, a command after `shlex.split`.
pub mod Answered
pub mod Refused
use python.Prelude.{
  Bool, true, false, Option, none, some, List, [], ◌∷◌, ◌||◌, maybe, if◌then◌else◌,
}
use python.Text.{Text, chars, text_eq, lower}
use python.Frame.{Call}
use python.Cpu.{Cpu, Bus}
use python.State.{capture_state}
use python.Debug.Records.{StepRecord}
use python.Debug.Session.{Session, debug_step}
use python.Debug.Session.Host.{core_target}
use python.Console.Format.{format_state, format_record}
use python.Console.Commands.{
  Outcome, lines, command_error, raised, shown_lines, CoreSession, state_lines, do_step, do_run,
  do_continue, do_set, do_irq, with_call,
}
use python.Console.Views.{
  do_break, do_delete, do_watch, do_unwatch, do_breakpoints, do_disassemble, do_memory, do_history,
}
use python.Console.Over.{do_over}

-- `_HELP`
abbrev pub help_lines : List Text
help_lines =
    chars "help | ?                     Show this command summary"
    ∷ chars "registers | regs | r         Show CPU registers and lifecycle state"
    ∷ chars "step [COUNT] | s             Execute one or more boundaries (ignores breakpoints)"
    ∷ chars "over | o                     Step, running a JSR through to its return"
    ∷ chars "run STEPS [CYCLES]           Run with finite step and optional cycle limits"
    ∷ chars "continue | c                 Run up to 1,000,000 steps, off a breakpoint if on one"
    ∷ chars "break ADDRESS | b            Add an execute breakpoint"
    ∷ chars "delete ADDRESS               Remove an execute breakpoint"
    ∷ chars "breakpoints                  List breakpoints and watchpoints"
    ∷ chars "watch ADDRESS [r|w|rw]       Stop after a step that touches the byte at ADDRESS"
    ∷ chars "unwatch ADDRESS              Remove a watchpoint"
    ∷ chars "disassemble [ADDRESS] [COUNT] | d  Decode instructions without side effects"
    ∷ chars "memory ADDRESS [LENGTH] | m  Display up to 256 bytes"
    ∷ chars "history [COUNT]              Show retained step records"
    ∷ chars "set REGISTER VALUE           Set A X Y S P PC"
    ∷ chars "irq on | irq off             Assert or release the IRQ line (a level)"
    ∷ chars "nmi | reset                  Latch an NMI edge, or run the reset sequence"
    ∷ chars "quit | exit | q              Leave the command loop"
    ∷ chars "Numbers are decimal; 0x1234 or $1234 is hexadecimal."
    ∷ []

-- `_ALIASES`, of a name in lower case.
unfoldable pub alias : Text → Text
unfolding text_eq
alias name =
    if text_eq name (chars "?")
    then chars "help"
    else if text_eq name (chars "r")
    then chars "registers"
    else if text_eq name (chars "s")
    then chars "step"
    else if text_eq name (chars "o")
    then chars "over"
    else if text_eq name (chars "c")
    then chars "continue"
    else if text_eq name (chars "b")
    then chars "break"
    else if text_eq name (chars "d")
    then chars "disassemble"
    else if text_eq name (chars "m")
    then chars "memory"
    else if text_eq name (chars "q")
    then chars "quit"
    else name

-- The commands, of a name that is no alias.
pub data Command : Type 0 where
  quit_ help registers step over run continue_ watch unwatch set_ irq nmi reset break_ delete
        breakpoints disassemble memory history :
      Command

unfoldable pub command_of : Text → Option Command
unfolding text_eq
command_of name =
    if text_eq name (chars "quit") || text_eq name (chars "exit")
    then some Command.quit_
    else if text_eq name (chars "help")
    then some Command.help
    else if text_eq name (chars "registers") || text_eq name (chars "regs")
    then some Command.registers
    else if text_eq name (chars "step")
    then some Command.step
    else if text_eq name (chars "over")
    then some Command.over
    else if text_eq name (chars "run")
    then some Command.run
    else if text_eq name (chars "continue")
    then some Command.continue_
    else if text_eq name (chars "watch")
    then some Command.watch
    else if text_eq name (chars "unwatch")
    then some Command.unwatch
    else if text_eq name (chars "set")
    then some Command.set_
    else if text_eq name (chars "irq")
    then some Command.irq
    else if text_eq name (chars "nmi")
    then some Command.nmi
    else if text_eq name (chars "reset")
    then some Command.reset
    else if text_eq name (chars "break")
    then some Command.break_
    else if text_eq name (chars "delete")
    then some Command.delete
    else if text_eq name (chars "breakpoints")
    then some Command.breakpoints
    else if text_eq name (chars "disassemble") || text_eq name (chars "disasm")
    then some Command.disassemble
    else if text_eq name (chars "memory")
    then some Command.memory
    else if text_eq name (chars "history")
    then some Command.history
    else none

-- A command that takes no argument, `_arity(name, arguments, 0)`.
unfoldable pub no_arguments : {A : Type 0} → List Text → Outcome × A → A → Outcome × A
no_arguments [] done s = done
no_arguments (_ ∷ _) done s = (Outcome.command_error, s)

module _ {H : Type 0} (bus : Bus H) where
  -- The reset is requested, and its step is run.
  unfoldable pub do_reset : CoreSession bus → Outcome × CoreSession bus
  unfolding with_call debug_step shown_lines format_record format_state
  do_reset s =
      let (record_, s') = debug_step (core_target bus) (with_call bus Call.raise_reset s) in
      (
        maybe Outcome.raised
            (λ r.
              maybe Outcome.raised (λ t. shown_lines (format_record r ∷ format_state t))
                (capture_state s'.target.0))
            record_,
        s',
      )

  unfoldable pub perform_command : Command → List Text → CoreSession bus → Outcome × CoreSession bus
  unfolding no_arguments shown_lines state_lines do_step do_over do_run do_continue do_watch
      do_unwatch do_set do_irq with_call do_reset do_break do_delete do_breakpoints do_disassemble
      do_memory do_history
  perform_command Command.quit_ arguments s = no_arguments arguments (lines [] true, s) s
  perform_command Command.help arguments s = no_arguments arguments (shown_lines help_lines, s) s
  perform_command Command.registers arguments s = no_arguments arguments (state_lines bus s, s) s
  perform_command Command.step arguments s = do_step bus arguments s
  perform_command Command.over arguments s = do_over bus arguments s
  perform_command Command.run arguments s = do_run bus arguments s
  perform_command Command.continue_ arguments s = do_continue bus arguments s
  perform_command Command.watch arguments s = do_watch bus arguments s
  perform_command Command.unwatch arguments s = do_unwatch bus arguments s
  perform_command Command.set_ arguments s = do_set bus arguments s
  perform_command Command.irq arguments s = do_irq bus arguments s
  perform_command Command.nmi arguments s =
      no_arguments arguments
        (
          shown_lines (chars "NMI latched; taken at the next step" ∷ []),
          with_call bus Call.raise_nmi s,
        )
        s
  perform_command Command.reset arguments s = no_arguments arguments (do_reset s) s
  perform_command Command.break_ arguments s = do_break bus arguments s
  perform_command Command.delete arguments s = do_delete bus arguments s
  perform_command Command.breakpoints arguments s =
      no_arguments arguments (do_breakpoints bus s, s) s
  perform_command Command.disassemble arguments s = (do_disassemble bus arguments s, s)
  perform_command Command.memory arguments s = (do_memory bus arguments s, s)
  perform_command Command.history arguments s = (do_history bus arguments s, s)

  -- `execute`, of the words of a command.
  unfoldable pub execute_words : List Text → CoreSession bus → Outcome × CoreSession bus
  unfolding shown_lines alias lower command_of perform_command
  execute_words [] s = (shown_lines [], s)
  execute_words (name ∷ arguments) s =
      maybe (Outcome.command_error, s) (λ command. perform_command command arguments s)
        (command_of (alias (lower name)))
