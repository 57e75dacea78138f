-- ===== src/Console/Keeps.antt =====
-- src/sixfiveohtwo/console.py: commands on a session whose CPU is in range, and whose peek gives bytes.
pub mod Inputs
pub mod Marks
pub mod Views
pub mod Over
use python.Prelude.{
  ℕ, zero, suc, ◌+◌, ◌-◌, ◌<◌, ◌≤◌, ◌≡◌, refl, sym, ◌∙◌, ap, subst, Bool, true, false, Option, none,
  some, List, [], ◌∷◌, ◌++◌, maybe, bind, check, truth, leb, ltb, ◌==◌, length, u16, ◌&&◌,
  bind-eq-some, check-eq-some, Bool-cases, ◌⊎◌, inl, inr, if◌then◌else◌, arith, leb→le,
}
use python.Text.{Text, chars, text_eq, upper, lower}
use python.Frame.{Call, call}
use python.Frame.Disturbed.{run_calls-IsFrame}
use python.Cpu.{Cpu, Bus}
use python.Cpu.Safe.{IsSafe}
use python.Step.Cycles.{IsReady}
use python.State.{CpuState, capture_state}
use python.Debug.Records.{StepRecord, RunResult}
use python.Debug.Session.{Session, debug_step, member}
use python.Debug.Session.Steps.{IsTarget, Peeks, debug_step-some}
use python.Debug.Session.Host.{core_target, CoreReady, core_target-IsTarget, core_run-some}
use python.Debug.Run.Returns.{debug_run-keeps}
use python.Debug.Run.{RunLimits, run_fits, debug_run}
use python.Console.Numbers.{number, positive}
use python.Console.Format.{format_record, format_run, format_state}
use python.Console.Commands.{
  Outcome, CoreSession, raised, command_error, lines, shown_lines, steps_of, step_lines, do_step,
  run_lines, do_run, continued, do_continue, set_register, register_maximum, do_set, do_irq,
  state_lines, with_call, with_cpu, record_lines,
}
use python.Console.Works.{number-le, positive-lt, set_register-IsReady}

module _ {H : Type 0} (bus : Bus H) where
  -- A session whose CPU is in range, and whose peek, if any, gives a byte for each address.
  abbrev pub Good : CoreSession bus → Type 0
  Good s = CoreReady s.target × Peeks s

  -- A result that is no error but a CommandError, and a session such as before.
  abbrev pub Keeps : Outcome × CoreSession bus → Type 0
  Keeps x = ¬ (x.0 ≡ Outcome.raised) × Good x.1

  pub lines-Keeps :
      (ts : List Text) (quit : Bool) (s : CoreSession bus) → Good s → Keeps (lines ts quit, s)
  lines-Keeps ts quit s good = (λ e. cc, good)

  pub command_error-Keeps : (s : CoreSession bus) → Good s → Keeps (Outcome.command_error, s)
  command_error-Keeps s good = (λ e. cc, good)

  pub if-Keeps :
      (b : Bool) (x y : Outcome × CoreSession bus) → Keeps x → Keeps y → Keeps (if b then x else y)
  if-Keeps true x y h k = h
  if-Keeps false x y h k = k

  -- A value that is needed, or a CommandError.
  pub needed-Keeps :
      {A : Type 0} (s : CoreSession bus) (f : A → Outcome × CoreSession bus) (o : Option A)
      → Good s
      → ((a : A) → o ≡ some a → Keeps (f a))
      → Keeps (maybe (Outcome.command_error, s) f o)
  needed-Keeps s f none good h = command_error-Keeps s good
  needed-Keeps s f (some a) good h = h a refl

  -- A value that is there.
  pub there-Keeps :
      {A : Type 0} (x : Outcome × CoreSession bus) (f : A → Outcome × CoreSession bus)
      (o : Option A) (a : A)
      → o ≡ some a
      → Keeps (f a)
      → Keeps (maybe x f o)
  there-Keeps x f o a e h = subst (λ o. Keeps (maybe x f o)) (sym e) h

  pub captured :
      (s : CoreSession bus)
      → Good s
      → (t : CpuState) × (capture_state s.target.0 ≡ some t) × (t.pc < 65536)
  unfolding core_target
  captured s good = (core_target-IsTarget bus).captures s.target (good.0)

  pub state_lines-Keeps :
      (before : List Text) (s : CoreSession bus)
      → Good s
      → Keeps (
        maybe Outcome.raised
            (λ t. lines (before ++ format_state t) false)
            (capture_state s.target.0),
        s,
      )
  state_lines-Keeps before s good =
      let (t, e, _) = captured s good in
      subst (λ o. Keeps (maybe Outcome.raised (λ t. lines (before ++ format_state t) false) o, s))
        (sym e) (lines-Keeps (before ++ format_state t) false s good)

  -- What follows a step.
  pub stepped-Keeps :
      (f : Option StepRecord × CoreSession bus → Outcome × CoreSession bus) (s : CoreSession bus)
      → Good s
      → ((r : StepRecord) (s' : CoreSession bus) → Good s' → Keeps (f (some r, s')))
      → Keeps (f (debug_step (core_target bus) s))
  stepped-Keeps f s good h =
      let (r, s', e, ready, peeks) =
        debug_step-some (core_target bus) CoreReady (core_target-IsTarget bus) s (good.0)
          (good.1) in
      subst (λ x. Keeps (f x)) (sym e) (h r s' (ready, peeks))

  -- What follows a run.
  pub run-Keeps :
      (f : Option RunResult × CoreSession bus → Outcome × CoreSession bus) (limits : RunLimits)
      (s : CoreSession bus)
      → run_fits limits ≡ true
      → Good s
      → ((r : RunResult) (s' : CoreSession bus) → Good s' → Keeps (f (some r, s')))
      → Keeps (f (debug_run (core_target bus) limits s))
  run-Keeps f limits s fits good h =
      let (r, s', e, ready, peeks) =
        debug_run-keeps (core_target bus) limits CoreReady (core_target-IsTarget bus) s fits
          (good.0) (good.1) in
      subst (λ x. Keeps (f x)) (sym e) (h r s' (ready, peeks))

  steps_of-some :
      (n : ℕ) (s : CoreSession bus)
      → Good s
      → (rs : List StepRecord) × (s' : CoreSession bus) × (steps_of bus n s ≡ (some rs, s'))
        × Good s'
  unfolding steps_of
  steps_of-some zero s good = ([], s, refl, good)
  steps_of-some (suc n) s good =
      let (r, s1, e, ready1, peeks1) =
        debug_step-some (core_target bus) CoreReady (core_target-IsTarget bus) s (good.0)
          (good.1) in
      let (rs, s2, others, good2) = steps_of-some n s1 (ready1, peeks1) in
      (
        r ∷ rs,
        s2,
        ap after e ∙ ap (λ x. (bind x.0 (λ records. some (r ∷ records)), x.1)) others,
        good2,
      )
    where
      after : Option StepRecord × CoreSession bus → Option (List StepRecord) × CoreSession bus
      after (record_, x) =
          let (others, y) = steps_of bus n x in
          elim record_ [
            | none ↦ (none, x)
            | some r ↦ (bind others (λ records. some (r ∷ records)), y)
          ]

  step_lines-Keeps : (n : ℕ) (s : CoreSession bus) → Good s → Keeps (step_lines bus n s)
  unfolding step_lines shown_lines
  step_lines-Keeps n s good =
      let (rs, s', e, good') = steps_of-some n s good in
      subst
        (λ (x : Option (List StepRecord) × CoreSession bus).
          Keeps (maybe Outcome.raised (λ rs. lines (record_lines bus rs) false) x.0, x.1))
        (sym e) (lines-Keeps (record_lines bus rs) false s' good')

  pub do_step-Keeps :
      (arguments : List Text) (s : CoreSession bus) → Good s → Keeps (do_step bus arguments s)
  unfolding do_step
  do_step-Keeps [] s good = step_lines-Keeps 1 s good
  do_step-Keeps (count ∷ []) s good =
      needed-Keeps s (λ n. step_lines bus n s) (positive count (some 10000)) good
        (λ n e. step_lines-Keeps n s good)
  do_step-Keeps (_ ∷ _ ∷ _) s good = command_error-Keeps s good

  run_lines-Keeps :
      (limits : RunLimits) (s : CoreSession bus)
      → run_fits limits ≡ true
      → Good s
      → Keeps (run_lines bus limits s)
  unfolding run_lines shown_lines
  run_lines-Keeps limits s fits good =
      run-Keeps (λ x. (maybe Outcome.raised (λ r. lines (format_run r ∷ []) false) x.0, x.1)) limits
        s fits good (λ r s' good'. lines-Keeps (format_run r ∷ []) false s' good')

  pub do_run-Keeps :
      (arguments : List Text) (s : CoreSession bus) → Good s → Keeps (do_run bus arguments s)
  unfolding do_run run_fits
  do_run-Keeps [] s good = command_error-Keeps s good
  do_run-Keeps (steps ∷ []) s good =
      needed-Keeps s
        (λ n. run_lines bus (record { max_steps = n; max_cycles = none; stop_on_halt = true }) s)
        (positive steps none) good
        (λ n e.
          run_lines-Keeps (record { max_steps = n; max_cycles = none; stop_on_halt = true }) s
            (fits n (positive-lt steps none n e)) good)
    where
      fits : (n : ℕ) → 0 < n → (ltb 0 n && true) ≡ true
      fits n h = ground (arith, h)
  do_run-Keeps (steps ∷ cycles ∷ []) s good =
      needed-Keeps s
        (λ n.
          maybe (Outcome.command_error, s)
            (λ m.
              run_lines bus (record { max_steps = n; max_cycles = some m; stop_on_halt = true }) s)
            (positive cycles none))
        (positive steps none) good
        (λ n e.
          needed-Keeps s
            (λ m.
              run_lines bus (record { max_steps = n; max_cycles = some m; stop_on_halt = true }) s)
            (positive cycles none) good
            (λ m k.
              run_lines-Keeps (record { max_steps = n; max_cycles = some m; stop_on_halt = true }) s
                (fits n m (positive-lt steps none n e) (positive-lt cycles none m k)) good))
    where
      fits : (n m : ℕ) → 0 < n → 0 < m → (ltb 0 n && ltb 0 m) ≡ true
      fits n m h k = ground (arith, h, k)
  do_run-Keeps (_ ∷ _ ∷ _ ∷ _) s good = command_error-Keeps s good

  continued-Keeps :
      (before : List Text) (n : ℕ) (s : CoreSession bus)
      → 0 < n
      → Good s
      → Keeps (continued bus before n s)
  unfolding continued shown_lines run_fits
  continued-Keeps before n s h good =
      run-Keeps
        (λ x. (maybe Outcome.raised (λ r. lines (before ++ format_run r ∷ []) false) x.0, x.1))
        (record { max_steps = n; max_cycles = none; stop_on_halt = true }) s (fits n h) good
        (λ r s' good'. lines-Keeps (before ++ format_run r ∷ []) false s' good')
    where
      fits :
          (n : ℕ)
          → 0 < n
          → run_fits (record { max_steps = n; max_cycles = none; stop_on_halt = true }) ≡ true
      fits n h = ground (arith, h)

  pub do_continue-Keeps :
      (arguments : List Text) (s : CoreSession bus) → Good s → Keeps (do_continue bus arguments s)
  unfolding do_continue
  do_continue-Keeps [] s good =
      let (t, e, _) = captured s good in
      there-Keeps (Outcome.raised, s)
        (λ t.
          if member t.pc s.breakpoints
          then (let (record_, s') = debug_step (core_target bus) s in
              maybe (Outcome.raised, s') (λ r. continued bus (format_record r ∷ []) 999999 s')
                record_)
          else continued bus [] 1000000 s)
        (capture_state s.target.0) t e
        (if-Keeps (member t.pc s.breakpoints) _ _
          (stepped-Keeps
            (λ (x : Option StepRecord × CoreSession bus).
              maybe (Outcome.raised, x.1) (λ r. continued bus (format_record r ∷ []) 999999 x.1)
                x.0)
            s good
            (λ r s' good'. continued-Keeps (format_record r ∷ []) 999999 s' (omega arith) good'))
          (continued-Keeps [] 1000000 s (omega arith) good))
  do_continue-Keeps (_ ∷ _) s good = command_error-Keeps s good
