-- ===== src/Console/Keeps/Over.antt =====
-- src/sixfiveohtwo/console.py: `over` ends, and keeps the CPU in range.
use python.Prelude.{
  ℕ, zero, suc, refl, sym, subst, Bool, true, false, Option, none, some, List, [], ◌∷◌, ◌++◌, maybe,
  ◌==◌, ◌&&◌, if◌then◌else◌,
}
use python.Text.{Text, chars, text_eq}
use python.Text.Hex.{hex_word}
use python.Cpu.{Bus}
use python.State.{CpuState, capture_state}
use python.Disasm.{Reader, Instruction, disassemble, next_address}
use python.Disasm.Errors.{disassemble-total}
use python.Debug.Records.{StepRecord, RunResult}
use python.Debug.Session.{debug_step, member}
use python.Debug.Session.Host.{core_target}
use python.Debug.Run.{run_fits, debug_run}
use python.Console.Format.{format_record, format_run}
use python.Console.Commands.{Outcome, CoreSession, shown_lines, do_step}
use python.Console.Views.{peek_of}
use python.Console.Over.{one_step, is_step_limit, over_lines, over_loop, do_over}
use python.Console.Keeps.{
  Good, Keeps, command_error-Keeps, if-Keeps, needed-Keeps, there-Keeps, captured,
  state_lines-Keeps, stepped-Keeps, run-Keeps, do_step-Keeps,
}
use python.Console.Keeps.Views.{peek_of-IsTotal}

module _ {H : Type 0} (bus : Bus H) where
  over_lines-Keeps :
      (before : List Text) (s : CoreSession bus) → Good bus s → Keeps bus (over_lines bus before s)
  unfolding over_lines shown_lines
  over_lines-Keeps before s good = state_lines-Keeps bus before s good

  over_loop-Keeps :
      (n return_address stack : ℕ) (before : List Text) (s : CoreSession bus)
      → Good bus s
      → Keeps bus (over_loop bus n return_address stack before s)
  unfolding over_loop run_fits
  over_loop-Keeps zero return_address stack before s good =
      over_lines-Keeps (before ++ chars "gave up after 1,000,000 steps" ∷ []) s good
  over_loop-Keeps (suc n) return_address stack before s good =
      let (t, e, _) = captured bus s good in
      subst (λ o. Keeps bus (begun o)) (sym e)
        (at-Keeps (λ s' good'. over_loop-Keeps n return_address stack before s' good')
          (t.pc == return_address && t.s == stack) (member t.pc s.breakpoints) t)
    where
      Rest : Type 0
      Rest =
          (s' : CoreSession bus)
          → Good bus s'
          → Keeps bus (over_loop bus n return_address stack before s')

      within : Bool → RunResult → CoreSession bus → Outcome × CoreSession bus
      within b r s' = elim b [
        | true ↦ over_loop bus n return_address stack before s'
        | false ↦ over_lines bus (before ++ format_run r ∷ []) s'
      ]

      passed : Option RunResult × CoreSession bus → Outcome × CoreSession bus
      passed (result, s') = elim result [
        | none ↦ (Outcome.raised, s')
        | some r ↦ within (is_step_limit r.reason) r s'
      ]

      at : Bool → Bool → CpuState → Outcome × CoreSession bus
      at b c now = elim b [
        | true ↦ over_lines bus before s
        | false ↦ elim c [
          | true ↦ over_lines bus (before ++ (chars "breakpoint at " ++ hex_word now.pc) ∷ []) s
          | false ↦ passed (debug_run (core_target bus) one_step s)
        ]
      ]

      begun : Option CpuState → Outcome × CoreSession bus
      begun o = elim o [
        | none ↦ (Outcome.raised, s)
        | some now ↦
            at (now.pc == return_address && now.s == stack) (member now.pc s.breakpoints) now
      ]

      within-Keeps :
          Rest
          → (b : Bool) (r : RunResult) (s' : CoreSession bus) → Good bus s'
          → Keeps bus (within b r s')
      within-Keeps rest true r s' good' = rest s' good'
      within-Keeps rest false r s' good' = over_lines-Keeps (before ++ format_run r ∷ []) s' good'

      at-Keeps : Rest → (b c : Bool) (now : CpuState) → Keeps bus (at b c now)
      at-Keeps rest true c now = over_lines-Keeps before s good
      at-Keeps rest false true now =
          over_lines-Keeps (before ++ (chars "breakpoint at " ++ hex_word now.pc) ∷ []) s good
      at-Keeps rest false false now =
          run-Keeps bus passed one_step s refl good
            (λ r s' good'. within-Keeps rest (is_step_limit r.reason) r s' good')

  pub do_over-Keeps :
      (arguments : List Text) (s : CoreSession bus)
      → Good bus s
      → Keeps bus (do_over bus arguments s)
  unfolding do_over
  do_over-Keeps [] s good =
      let (t, e, h) = captured bus s good in
      there-Keeps bus (Outcome.raised, s) (λ t. looked t) (capture_state s.target.0) t e
        (needed-Keeps bus s (λ peek. decoded t peek) (peek_of bus s) good
          (λ peek p.
            let (i, d, _, _) =
              disassemble-total peek t.pc (peek_of-IsTotal bus s peek (good.1) p) h in
            there-Keeps bus (Outcome.raised, s) (λ i. chosen t i) (disassemble peek t.pc) i d
              (if-Keeps bus (text_eq i.mnemonic (chars "JSR")) _ _
                (stepped-Keeps bus
                  (λ (x : Option StepRecord × CoreSession bus).
                    maybe (Outcome.raised, x.1)
                      (λ r. over_loop bus 1000000 (next_address i) t.s (format_record r ∷ []) x.1)
                      x.0)
                  s good
                  (λ r s' good'.
                    over_loop-Keeps 1000000 (next_address i) t.s (format_record r ∷ []) s' good'))
                (do_step-Keeps bus [] s good))))
    where
      chosen : CpuState → Instruction → Outcome × CoreSession bus
      chosen t i =
          if text_eq i.mnemonic (chars "JSR")
          then (let (record_, s') = debug_step (core_target bus) s in
              maybe (Outcome.raised, s')
                (λ r. over_loop bus 1000000 (next_address i) t.s (format_record r ∷ []) s') record_)
          else do_step bus [] s

      decoded : CpuState → Reader → Outcome × CoreSession bus
      decoded t peek = maybe (Outcome.raised, s) (λ i. chosen t i) (disassemble peek t.pc)

      looked : CpuState → Outcome × CoreSession bus
      looked t = maybe (Outcome.command_error, s) (λ peek. decoded t peek) (peek_of bus s)
  do_over-Keeps (_ ∷ _) s good = command_error-Keeps bus s good
