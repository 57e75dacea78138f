-- ===== src/Console/Over.antt =====
-- src/sixfiveohtwo/console.py: `_over`, a step that runs a subroutine through to its return.
use python.Prelude.{
  ℕ, zero, suc, Bool, true, false, none, some, List, [], ◌∷◌, ◌++◌, ◌&&◌, ◌==◌, maybe,
  if◌then◌else◌,
}
use python.Text.{Text, chars, text_eq}
use python.Text.Hex.{hex_word}
use python.Cpu.{Bus}
use python.State.{capture_state}
use python.Disasm.{disassemble, next_address}
use python.Debug.Records.{StopReason}
use python.Debug.Session.{debug_step, member}
use python.Debug.Session.Host.{core_target}
use python.Debug.Run.{RunLimits, debug_run}
use python.Console.Format.{format_state, format_record, format_run}
use python.Console.Commands.{Outcome, shown_lines, CoreSession, do_step}
use python.Console.Views.{peek_of}

-- `run(max_steps=1, stop_on_halt=False)`
abbrev pub one_step : RunLimits
one_step = record { max_steps = 1; max_cycles = none; stop_on_halt = false }

unfoldable pub is_step_limit : StopReason → Bool
is_step_limit StopReason.step_limit = true
is_step_limit _ = false

module _ {H : Type 0} (bus : Bus H) where
  -- The lines, and the state after them.
  unfoldable pub over_lines : List Text → CoreSession bus → Outcome × CoreSession bus
  unfolding shown_lines format_state
  over_lines before s = (
    maybe Outcome.raised (λ t. shown_lines (before ++ format_state t)) (capture_state s.target.0),
    s,
  )

  -- The loop, with so many rounds left: `return_address` is after the JSR, and `stack` is S before it.
  unfoldable pub over_loop : ℕ → ℕ → ℕ → List Text → CoreSession bus → Outcome × CoreSession bus
  unfolding over_lines debug_run member hex_word format_run is_step_limit
  over_loop zero return_address stack before s =
      over_lines (before ++ chars "gave up after 1,000,000 steps" ∷ []) s
  over_loop (suc left) return_address stack before s = elim (capture_state s.target.0) [
    | none ↦ (Outcome.raised, s)
    | some now ↦ elim (now.pc == return_address && now.s == stack) [
      | true ↦ over_lines before s
      | false ↦ elim (member now.pc s.breakpoints) [
        | true ↦ over_lines (before ++ (chars "breakpoint at " ++ hex_word now.pc) ∷ []) s
        | false ↦
            let (result, s') = debug_run (core_target bus) one_step s in
            elim result [
              | none ↦ (Outcome.raised, s')
              | some r ↦ elim (is_step_limit r.reason) [
                | true ↦ over_loop left return_address stack before s'
                | false ↦ over_lines (before ++ format_run r ∷ []) s'
              ]
            ]
      ]
    ]
  ]

  -- `_over`
  unfoldable pub do_over : List Text → CoreSession bus → Outcome × CoreSession bus
  unfolding over_loop peek_of disassemble do_step debug_step text_eq format_record next_address
  do_over [] s =
      maybe (Outcome.raised, s)
        (λ state.
          maybe (Outcome.command_error, s)
            (λ peek.
              maybe (Outcome.raised, s)
                (λ instruction.
                  if text_eq instruction.mnemonic (chars "JSR")
                  then (let (record_, s') = debug_step (core_target bus) s in
                      maybe (Outcome.raised, s')
                        (λ r.
                          over_loop 1000000 (next_address instruction) state.s
                            (format_record r ∷ []) s')
                        record_)
                  else do_step bus [] s)
                (disassemble peek state.pc))
            (peek_of bus s))
        (capture_state s.target.0)
  do_over _ s = (Outcome.command_error, s)
