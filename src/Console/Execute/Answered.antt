-- ===== src/Console/Execute/Answered.antt =====
-- src/sixfiveohtwo/console.py: every command answers, and leaves a session that the next can use.
use python.Prelude.{◌≡◌, true, false, List, [], ◌∷◌}
use python.Text.{Text, lower}
use python.Frame.{Call}
use python.Cpu.{Bus}
use python.Debug.Session.Steps.{Peeks}
use python.Debug.Session.Host.{CoreReady}
use python.Console.Commands.{Outcome, CoreSession, shown_lines, state_lines, with_call}
use python.Console.Views.{do_breakpoints}
use python.Console.Keeps.{
  Good, Keeps, lines-Keeps, command_error-Keeps, needed-Keeps, state_lines-Keeps, do_step-Keeps,
  do_run-Keeps, do_continue-Keeps,
}
use python.Console.Execute.{
  Command, command_of, alias, no_arguments, do_reset, perform_command, execute_words,
}
use python.Console.Keeps.Inputs.{with_call-Good, do_set-Keeps, do_irq-Keeps, do_reset-Keeps}
use python.Console.Keeps.Marks.{do_break-Keeps, do_delete-Keeps, do_unwatch-Keeps, do_watch-Keeps}
use python.Console.Keeps.Views.{do_memory-Answers, do_history-Answers, do_disassemble-Answers}
use python.Console.Keeps.Over.{do_over-Keeps}

module _ {H : Type 0} (bus : Bus H) where
  no_arguments-Keeps :
      (arguments : List Text) (x : Outcome × CoreSession bus) (s : CoreSession bus)
      → Keeps bus x
      → Good bus s
      → Keeps bus (no_arguments arguments x s)
  unfolding no_arguments
  no_arguments-Keeps [] x s h good = h
  no_arguments-Keeps (_ ∷ _) x s h good = command_error-Keeps bus s good

  perform_command-Keeps :
      (command : Command) (arguments : List Text) (s : CoreSession bus)
      → Good bus s
      → Keeps bus (perform_command bus command arguments s)
  unfolding perform_command shown_lines state_lines do_breakpoints
  perform_command-Keeps Command.quit_ arguments s good =
      no_arguments-Keeps arguments _ s (lines-Keeps bus [] true s good) good
  perform_command-Keeps Command.help arguments s good =
      no_arguments-Keeps arguments _ s (lines-Keeps bus _ false s good) good
  perform_command-Keeps Command.registers arguments s good =
      no_arguments-Keeps arguments (state_lines bus s, s) s (state_lines-Keeps bus [] s good) good
  perform_command-Keeps Command.step arguments s good = do_step-Keeps bus arguments s good
  perform_command-Keeps Command.over arguments s good = do_over-Keeps bus arguments s good
  perform_command-Keeps Command.run arguments s good = do_run-Keeps bus arguments s good
  perform_command-Keeps Command.continue_ arguments s good = do_continue-Keeps bus arguments s good
  perform_command-Keeps Command.watch arguments s good = do_watch-Keeps bus arguments s good
  perform_command-Keeps Command.unwatch arguments s good = do_unwatch-Keeps bus arguments s good
  perform_command-Keeps Command.set_ arguments s good = do_set-Keeps bus arguments s good
  perform_command-Keeps Command.irq arguments s good = do_irq-Keeps bus arguments s good
  perform_command-Keeps Command.nmi arguments s good =
      no_arguments-Keeps arguments _ s
        (lines-Keeps bus _ false (with_call bus Call.raise_nmi s)
          (with_call-Good bus Call.raise_nmi s good))
        good
  perform_command-Keeps Command.reset arguments s good =
      no_arguments-Keeps arguments (do_reset bus s) s (do_reset-Keeps bus s good) good
  perform_command-Keeps Command.break_ arguments s good = do_break-Keeps bus arguments s good
  perform_command-Keeps Command.delete arguments s good = do_delete-Keeps bus arguments s good
  perform_command-Keeps Command.breakpoints arguments s good =
      no_arguments-Keeps arguments _ s (lines-Keeps bus _ false s good) good
  perform_command-Keeps Command.disassemble arguments s good =
      (do_disassemble-Answers bus arguments s good, good)
  perform_command-Keeps Command.memory arguments s good =
      (do_memory-Answers bus arguments s good, good)
  perform_command-Keeps Command.history arguments s good =
      (do_history-Answers bus arguments s, good)

  execute_words-Keeps :
      (words : List Text) (s : CoreSession bus) → Good bus s → Keeps bus (execute_words bus words s)
  unfolding execute_words shown_lines
  execute_words-Keeps [] s good = lines-Keeps bus [] false s good
  execute_words-Keeps (name ∷ arguments) s good =
      needed-Keeps bus s (λ command. perform_command bus command arguments s)
        (command_of (alias (lower name))) good
        (λ command _. perform_command-Keeps command arguments s good)

  -- On any host, over a CPU whose attributes are in range, and with no peek or one that gives a byte
  -- for each address: whatever the words of a command, it returns lines or ends in a CommandError, never
  -- in another error, and it leaves a CPU in range and such a peek, so that the next command does too.
  pub execute_words_answered :
      (words : List Text) (s : CoreSession bus)
      → CoreReady s.target
      → Peeks s
      → let (outcome, s') = execute_words bus words s in
        ¬ (outcome ≡ Outcome.raised) × CoreReady s'.target × Peeks s'
  execute_words_answered words s ready peeks =
      let (answered, good) = execute_words-Keeps words s (ready, peeks) in
      (answered, good.0, good.1)
