-- ===== src/Console/Keeps/Inputs.antt =====
-- src/sixfiveohtwo/console.py: `set`, `irq` and `reset` keep the CPU in range.
use python.Prelude.{ℕ, false, Option, some, List, [], ◌∷◌, maybe}
use python.Text.{Text, chars, text_eq, upper, lower}
use python.Frame.{Call, Frame, call, run_calls}
use python.Frame.Disturbed.{IsFrame, run_calls-IsFrame}
use python.Cpu.{Cpu, Bus}
use python.Step.Cycles.{IsReady}
use python.State.{capture_state}
use python.Debug.Records.{StepRecord}
use python.Debug.Session.Steps.{Peeks}
use python.Console.Numbers.{number}
use python.Console.Format.{format_record, format_state}
use python.Console.Commands.{
  Outcome, CoreSession, lines, shown_lines, set_register, register_maximum, do_set, do_irq,
  state_lines, with_call, with_cpu,
}
use python.Console.Works.{number-le, set_register-IsReady}
use python.Console.Keeps.{
  Good, Keeps, lines-Keeps, command_error-Keeps, if-Keeps, needed-Keeps, state_lines-Keeps,
  stepped-Keeps,
}
use python.Console.Execute.{do_reset}

call-IsReady : (k : Call) (c : Cpu) → IsReady c → IsReady (record c { frame = call k c.frame })
unfolding run_calls
call-IsReady k c ready = record {
  safe = record {
    a_fits = ready.safe.a_fits;
    x_fits = ready.safe.x_fits;
    y_fits = ready.safe.y_fits;
    s_fits = ready.safe.s_fits;
    pc_fits = ready.safe.pc_fits;
    p_status = ready.safe.p_status;
    ane_fits = ready.safe.ane_fits;
    lxa_fits = ready.safe.lxa_fits;
    frame_fits = called k c.frame (ready.safe.frame_fits);
  };
  no_extra = ready.no_extra;
}
  where
    called : (k : Call) (f : Frame) → IsFrame f → IsFrame (call k f)
    called k f i = (run_calls-IsFrame (k ∷ []) f i).0

module _ {H : Type 0} (bus : Bus H) where
  pub with_call-Good : (k : Call) (s : CoreSession bus) → Good bus s → Good bus (with_call bus k s)
  unfolding with_call Peeks
  with_call-Good k s good = (call-IsReady k s.target.0 (good.0), good.1)

  pub do_set-Keeps :
      (arguments : List Text) (s : CoreSession bus)
      → Good bus s
      → Keeps bus (do_set bus arguments s)
  unfolding do_set state_lines shown_lines Peeks
  do_set-Keeps [] s good = command_error-Keeps bus s good
  do_set-Keeps (_ ∷ []) s good = command_error-Keeps bus s good
  do_set-Keeps (name ∷ value ∷ []) s good =
      needed-Keeps bus s
        (λ most. maybe (Outcome.command_error, s) (written) (number value (some most)))
        (register_maximum (upper name)) good
        (λ most e. needed-Keeps bus s written (number value (some most)) good (λ n k.
          state_lines-Keeps bus [] (with_cpu bus (set_register (upper name) n s.target.0) s) (
            set_register-IsReady (upper name) most n s.target.0 e (number-le value most n k)
                (good.0),
            good.1,
          )))
    where
      written : ℕ → Outcome × CoreSession bus
      written n =
          let s' = with_cpu bus (set_register (upper name) n s.target.0) s in
          (state_lines bus s', s')
  do_set-Keeps (_ ∷ _ ∷ _ ∷ _) s good = command_error-Keeps bus s good

  pub do_irq-Keeps :
      (arguments : List Text) (s : CoreSession bus)
      → Good bus s
      → Keeps bus (do_irq bus arguments s)
  unfolding do_irq shown_lines
  do_irq-Keeps [] s good = command_error-Keeps bus s good
  do_irq-Keeps (level ∷ []) s good =
      if-Keeps bus (text_eq (lower level) (chars "off")) _ _
        (lines-Keeps bus (chars "IRQ released" ∷ []) false _
          (with_call-Good Call.release_irq s good))
        (if-Keeps bus (text_eq (lower level) (chars "on")) _ _
          (lines-Keeps bus (chars "IRQ asserted; it stays asserted until irq off" ∷ []) false _
            (with_call-Good Call.raise_irq s good))
          (command_error-Keeps bus s good))
  do_irq-Keeps (_ ∷ _ ∷ _) s good = command_error-Keeps bus s good

  pub do_reset-Keeps : (s : CoreSession bus) → Good bus s → Keeps bus (do_reset bus s)
  unfolding do_reset shown_lines
  do_reset-Keeps s good =
      stepped-Keeps bus
        (λ (x : Option StepRecord × CoreSession bus). (
          maybe Outcome.raised
              (λ r.
                maybe Outcome.raised (λ t. lines (format_record r ∷ format_state t) false)
                  (capture_state x.1.target.0))
              x.0,
          x.1,
        ))
        (with_call bus Call.raise_reset s) (with_call-Good Call.raise_reset s good)
        (λ r s' good'. state_lines-Keeps bus (format_record r ∷ []) s' good')
