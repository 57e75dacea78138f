-- ===== src/Console/Execute/Refused.antt =====
-- src/sixfiveohtwo/console.py: what a command that is refused leaves.
use python.Prelude.{
  ℕ, zero, suc, ◌≡◌, refl, Bool, true, false, Option, none, some, List, [], ◌∷◌, ◌++◌, ◌&&◌, ◌==◌,
}
use python.Text.{Text, chars, text_eq, lower}
use python.Frame.{Call}
use python.Cpu.{Bus}
use python.State.{CpuState, capture_state}
use python.Debug.Session.{
  debug_step, member, add_breakpoint, remove_breakpoint, add_watchpoint, remove_watchpoint,
}
use python.Debug.Session.Host.{core_target}
use python.Debug.Run.{debug_run}
use python.Debug.Records.{RunResult}
use python.Text.Hex.{hex_word}
use python.Disasm.{disassemble, next_address}
use python.Console.Format.{format_record, format_state, format_run}
use python.Console.Numbers.{number}
use python.Console.Commands.{Outcome, shown_lines, CoreSession, with_call}
use python.Console.Views.{peek_of, marked, do_break, do_delete, watch_at, do_watch, do_unwatch}
use python.Console.Over.{one_step, is_step_limit, over_lines, over_loop, do_over}
use python.Console.Execute.{
  Command, command_of, alias, no_arguments, do_reset, perform_command, execute_words,
}
use python.Console.Refusals.{
  Refuses, Answers, raised-Answers, lines-Answers, maybe-Answers, Answers-Refuses, maybe-Refuses,
  raised-Refuses, if-Refuses, do_step-Refuses, do_run-Refuses, do_continue-Refuses, do_set-Refuses,
  do_irq-Refuses,
}

module _ {S : Type 0} (s : S) where
  no_arguments-Refuses :
      (arguments : List Text) (x : Outcome × S)
      → Refuses s x
      → Refuses s (no_arguments arguments x s)
  unfolding no_arguments
  no_arguments-Refuses [] x h = h
  no_arguments-Refuses (_ ∷ _) x h = λ e. refl

module _ {H : Type 0} (bus : Bus H) where
  marked-Refuses :
      (address : Text) (mark : ℕ → CoreSession bus → Option (CoreSession bus)) (line : ℕ → Text)
      (s : CoreSession bus)
      → Refuses s (marked bus address mark line s)
  unfolding marked shown_lines
  marked-Refuses address mark line s =
      maybe-Refuses s _ _ (number address (some 0xffff))
        (λ a. maybe-Refuses s _ _ (mark a s) (λ s'. Answers-Refuses s _ s' (lines-Answers _ false)))

  do_break-Refuses :
      (arguments : List Text) (s : CoreSession bus) → Refuses s (do_break bus arguments s)
  unfolding do_break
  do_break-Refuses [] s = λ e. refl
  do_break-Refuses (address ∷ []) s =
      marked-Refuses address add_breakpoint (λ a. chars "breakpoint added at " ++ hex_word a) s
  do_break-Refuses (_ ∷ _ ∷ _) s = λ e. refl

  do_delete-Refuses :
      (arguments : List Text) (s : CoreSession bus) → Refuses s (do_delete bus arguments s)
  unfolding do_delete
  do_delete-Refuses [] s = λ e. refl
  do_delete-Refuses (address ∷ []) s =
      marked-Refuses address remove_breakpoint (λ a. chars "breakpoint removed from " ++ hex_word a)
        s
  do_delete-Refuses (_ ∷ _ ∷ _) s = λ e. refl

  do_unwatch-Refuses :
      (arguments : List Text) (s : CoreSession bus) → Refuses s (do_unwatch bus arguments s)
  unfolding do_unwatch
  do_unwatch-Refuses [] s = λ e. refl
  do_unwatch-Refuses (address ∷ []) s =
      marked-Refuses address remove_watchpoint (λ a. chars "watchpoint removed from " ++ hex_word a)
        s
  do_unwatch-Refuses (_ ∷ _ ∷ _) s = λ e. refl

  watch_at-Refuses :
      (address kind : Text) (s : CoreSession bus) → Refuses s (watch_at bus address kind s)
  unfolding watch_at shown_lines
  watch_at-Refuses address kind s = maybe-Refuses s _ _ (number address (some 0xffff)) (λ a.
      maybe-Refuses s Outcome.command_error
        (λ s'. (
          shown_lines (
              (chars "watchpoint added at " ++ hex_word a ++ chars " (" ++ kind ++ chars ")") ∷ []),
          s',
        ))
        (add_watchpoint a kind s) (λ s'. Answers-Refuses s _ s' (lines-Answers _ false)))

  do_watch-Refuses :
      (arguments : List Text) (s : CoreSession bus) → Refuses s (do_watch bus arguments s)
  unfolding do_watch
  do_watch-Refuses [] s = λ e. refl
  do_watch-Refuses (address ∷ []) s = watch_at-Refuses address (chars "rw") s
  do_watch-Refuses (address ∷ kind ∷ []) s = watch_at-Refuses address (lower kind) s
  do_watch-Refuses (_ ∷ _ ∷ _ ∷ _) s = λ e. refl

  do_reset-Refuses : (s : CoreSession bus) → Refuses s (do_reset bus s)
  unfolding do_reset shown_lines
  do_reset-Refuses s =
      let (record_, s') = debug_step (core_target bus) (with_call bus Call.raise_reset s) in
      Answers-Refuses s _ _ (
        maybe-Answers _ record_ (λ r.
          maybe-Answers _ (capture_state s'.target.0)
            (λ t. lines-Answers (format_record r ∷ format_state t) false)))

  over_lines-Answers :
      (before : List Text) (s : CoreSession bus) → Answers (over_lines bus before s).0
  unfolding over_lines shown_lines
  over_lines-Answers before s = maybe-Answers _ _ (λ t. lines-Answers _ false)

  over_loop-Answers :
      (n return_address stack : ℕ) (before : List Text) (s : CoreSession bus)
      → Answers (over_loop bus n return_address stack before s).0
  unfolding over_loop
  over_loop-Answers zero return_address stack before s = over_lines-Answers _ s
  over_loop-Answers (suc n) return_address stack before s =
      started (λ s'. over_loop-Answers n return_address stack before s') (capture_state s.target.0)
    where
      Rest : Type 0
      Rest = (s' : CoreSession bus) → Answers (over_loop bus n return_address stack before s').0

      within : Bool → RunResult → CoreSession bus → Outcome × CoreSession bus
      within b r s' = elim b [
        | true ↦ over_loop bus n return_address stack before s'
        | false ↦ over_lines bus (before ++ format_run r ∷ []) s'
      ]

      passed : Option RunResult × CoreSession bus → Outcome × CoreSession bus
      passed (result, s') = elim result [
        | none ↦ (Outcome.raised, s')
        | some r ↦ within (is_step_limit r.reason) r s'
      ]

      at : Bool → Bool → CpuState → Outcome × CoreSession bus
      at b c now = elim b [
        | true ↦ over_lines bus before s
        | false ↦ elim c [
          | true ↦ over_lines bus (before ++ (chars "breakpoint at " ++ hex_word now.pc) ∷ []) s
          | false ↦ passed (debug_run (core_target bus) one_step s)
        ]
      ]

      begun : Option CpuState → Outcome × CoreSession bus
      begun o = elim o [
        | none ↦ (Outcome.raised, s)
        | some now ↦
            at (now.pc == return_address && now.s == stack) (member now.pc s.breakpoints) now
      ]

      within-Answers :
          Rest → (b : Bool) (r : RunResult) (s' : CoreSession bus) → Answers (within b r s').0
      within-Answers rest true r s' = rest s'
      within-Answers rest false r s' = over_lines-Answers (before ++ format_run r ∷ []) s'

      passed-Answers : Rest → (x : Option RunResult × CoreSession bus) → Answers (passed x).0
      passed-Answers rest (none, s') = raised-Answers
      passed-Answers rest (some r, s') = within-Answers rest (is_step_limit r.reason) r s'

      at-Answers : Rest → (b c : Bool) (now : CpuState) → Answers (at b c now).0
      at-Answers rest true c now = over_lines-Answers before s
      at-Answers rest false true now =
          over_lines-Answers (before ++ (chars "breakpoint at " ++ hex_word now.pc) ∷ []) s
      at-Answers rest false false now = passed-Answers rest (debug_run (core_target bus) one_step s)

      started : Rest → (o : Option CpuState) → Answers (begun o).0
      started rest none = raised-Answers
      started rest (some now) =
          at-Answers rest (now.pc == return_address && now.s == stack) (member now.pc s.breakpoints)
            now

  do_over-Refuses :
      (arguments : List Text) (s : CoreSession bus) → Refuses s (do_over bus arguments s)
  unfolding do_over
  do_over-Refuses [] s = maybe-Refuses s _ _ (capture_state s.target.0) (λ state.
      maybe-Refuses s _ _ (peek_of bus s) (λ peek.
        maybe-Refuses s _ _ (disassemble peek state.pc) (λ i.
          let (record_, s') = debug_step (core_target bus) s in
          if-Refuses s (text_eq i.mnemonic (chars "JSR")) _ _
            (raised-Refuses s s'
              (λ r. over_loop bus 1000000 (next_address i) state.s (format_record r ∷ []) s')
              record_
              (λ r.
                Answers-Refuses s _ _
                  (over_loop-Answers 1000000 (next_address i) state.s (format_record r ∷ []) s')))
            (do_step-Refuses bus [] s))))
  do_over-Refuses (_ ∷ _) s = λ e. refl

  perform_command-Refuses :
      (command : Command) (arguments : List Text) (s : CoreSession bus)
      → Refuses s (perform_command bus command arguments s)
  unfolding perform_command shown_lines
  perform_command-Refuses Command.quit_ arguments s = no_arguments-Refuses s arguments _ (λ e. refl)
  perform_command-Refuses Command.help arguments s = no_arguments-Refuses s arguments _ (λ e. refl)
  perform_command-Refuses Command.registers arguments s =
      no_arguments-Refuses s arguments _ (λ e. refl)
  perform_command-Refuses Command.step arguments s = do_step-Refuses bus arguments s
  perform_command-Refuses Command.over arguments s = do_over-Refuses arguments s
  perform_command-Refuses Command.run arguments s = do_run-Refuses bus arguments s
  perform_command-Refuses Command.continue_ arguments s = do_continue-Refuses bus arguments s
  perform_command-Refuses Command.watch arguments s = do_watch-Refuses arguments s
  perform_command-Refuses Command.unwatch arguments s = do_unwatch-Refuses arguments s
  perform_command-Refuses Command.set_ arguments s = do_set-Refuses bus arguments s
  perform_command-Refuses Command.irq arguments s = do_irq-Refuses bus arguments s
  perform_command-Refuses Command.nmi arguments s = no_arguments-Refuses s arguments _ (
      Answers-Refuses s _ (with_call bus Call.raise_nmi s)
        (lines-Answers (chars "NMI latched; taken at the next step" ∷ []) false))
  perform_command-Refuses Command.reset arguments s =
      no_arguments-Refuses s arguments (do_reset bus s) (do_reset-Refuses s)
  perform_command-Refuses Command.break_ arguments s = do_break-Refuses arguments s
  perform_command-Refuses Command.delete arguments s = do_delete-Refuses arguments s
  perform_command-Refuses Command.breakpoints arguments s =
      no_arguments-Refuses s arguments _ (λ e. refl)
  perform_command-Refuses Command.disassemble arguments s = λ e. refl
  perform_command-Refuses Command.memory arguments s = λ e. refl
  perform_command-Refuses Command.history arguments s = λ e. refl

  -- A command that ends in a CommandError, whatever it complains of, leaves the session, the CPU and the
  -- host as they were.
  pub execute_words_refused :
      (words : List Text) (s : CoreSession bus)
      → (execute_words bus words s).0 ≡ Outcome.command_error
      → (execute_words bus words s).1 ≡ s
  unfolding execute_words
  execute_words_refused [] s = λ e. refl
  execute_words_refused (name ∷ arguments) s =
      maybe-Refuses s _ _ (command_of (alias (lower name)))
        (λ command. perform_command-Refuses command arguments s)
