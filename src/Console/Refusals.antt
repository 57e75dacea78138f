-- ===== src/Console/Refusals.antt =====
-- src/sixfiveohtwo/console.py: commands that are refused, as a property of their results.
use python.Prelude.{
  ℕ, ◌≡◌, refl, Bool, true, false, Option, none, some, List, [], ◌∷◌, maybe, if◌then◌else◌,
}
use python.Text.{Text, chars, text_eq, lower, upper}
use python.Frame.{Call}
use python.Cpu.{Bus}
use python.State.{capture_state}
use python.Debug.Session.{debug_step, member}
use python.Debug.Session.Host.{core_target}
use python.Console.Format.{format_record}
use python.Console.Numbers.{number, positive}
use python.Console.Commands.{
  Outcome, lines, shown_lines, CoreSession, state_lines, step_lines, do_step, run_lines, do_run,
  continued, do_continue, do_set, do_irq, with_call, register_maximum,
}

-- A result that, where it is a CommandError, leaves what was there before.
abbrev pub Refuses : {S : Type 0} → S → Outcome × S → Type 0
Refuses s x = x.0 ≡ Outcome.command_error → x.1 ≡ s

-- A result that is no CommandError.
abbrev pub Answers : Outcome → Type 0
Answers o = ¬ (o ≡ Outcome.command_error)

pub raised-Answers : Answers Outcome.raised
raised-Answers = λ e. cc

pub lines-Answers : (ts : List Text) (quit : Bool) → Answers (lines ts quit)
lines-Answers ts quit = λ e. cc

pub maybe-Answers :
    {A : Type 0} (f : A → Outcome) (o : Option A)
    → ((a : A) → Answers (f a))
    → Answers (maybe Outcome.raised f o)
maybe-Answers f none h = raised-Answers
maybe-Answers f (some a) h = h a

module _ {S : Type 0} (s : S) where
  pub Answers-Refuses : (o : Outcome) (s' : S) → Answers o → Refuses s (o, s')
  Answers-Refuses o s' h = λ e. absurd (h e)

  -- A value that is needed, or an error that leaves `s`.
  pub maybe-Refuses :
      {A : Type 0} (o : Outcome) (f : A → Outcome × S) (x : Option A)
      → ((a : A) → Refuses s (f a))
      → Refuses s (maybe (o, s) f x)
  maybe-Refuses o f none h = λ e. refl
  maybe-Refuses o f (some a) h = h a

  -- An error after which `s'` is left.
  pub raised-Refuses :
      {A : Type 0} (s' : S) (f : A → Outcome × S) (x : Option A)
      → ((a : A) → Refuses s (f a))
      → Refuses s (maybe (Outcome.raised, s') f x)
  raised-Refuses s' f none h = Answers-Refuses _ s' raised-Answers
  raised-Refuses s' f (some a) h = h a

  pub if-Refuses :
      (b : Bool) (x y : Outcome × S) → Refuses s x → Refuses s y → Refuses s (if b then x else y)
  if-Refuses true x y h k = h
  if-Refuses false x y h k = k

module _ {H : Type 0} (bus : Bus H) where
  pub step_lines-Refuses : (n : ℕ) (s : CoreSession bus) → Refuses s (step_lines bus n s)
  unfolding step_lines shown_lines
  step_lines-Refuses n s = Answers-Refuses s _ _ (maybe-Answers _ _ (λ rs. lines-Answers _ false))

  pub do_step-Refuses :
      (arguments : List Text) (s : CoreSession bus) → Refuses s (do_step bus arguments s)
  unfolding do_step
  do_step-Refuses [] s = step_lines-Refuses 1 s
  do_step-Refuses (count ∷ []) s =
      maybe-Refuses s _ _ (positive count (some 10000)) (λ n. step_lines-Refuses n s)
  do_step-Refuses (_ ∷ _ ∷ _) s = λ e. refl

  pub do_run-Refuses :
      (arguments : List Text) (s : CoreSession bus) → Refuses s (do_run bus arguments s)
  unfolding do_run run_lines shown_lines
  do_run-Refuses [] s = λ e. refl
  do_run-Refuses (steps ∷ []) s =
      maybe-Refuses s _ _ (positive steps none)
        (λ n. Answers-Refuses s _ _ (maybe-Answers _ _ (λ r. lines-Answers _ false)))
  do_run-Refuses (steps ∷ cycles ∷ []) s = maybe-Refuses s _ _ (positive steps none) (λ n.
      maybe-Refuses s _ _ (positive cycles none)
        (λ m. Answers-Refuses s _ _ (maybe-Answers _ _ (λ r. lines-Answers _ false))))
  do_run-Refuses (_ ∷ _ ∷ _ ∷ _) s = λ e. refl

  pub continued-Refuses :
      (before : List Text) (n : ℕ) (s s' : CoreSession bus) → Refuses s (continued bus before n s')
  unfolding continued shown_lines
  continued-Refuses before n s s' =
      Answers-Refuses s _ _ (maybe-Answers _ _ (λ r. lines-Answers _ false))

  pub do_continue-Refuses :
      (arguments : List Text) (s : CoreSession bus) → Refuses s (do_continue bus arguments s)
  unfolding do_continue
  do_continue-Refuses [] s = maybe-Refuses s _ _ (capture_state s.target.0) (λ t.
      let (record_, s') = debug_step (core_target bus) s in
      if-Refuses s (member t.pc s.breakpoints) _ _
        (raised-Refuses s s' (λ r. continued bus (format_record r ∷ []) 999999 s') record_
          (λ r. continued-Refuses (format_record r ∷ []) 999999 s s'))
        (continued-Refuses [] 1000000 s s))
  do_continue-Refuses (_ ∷ _) s = λ e. refl

  pub do_set-Refuses :
      (arguments : List Text) (s : CoreSession bus) → Refuses s (do_set bus arguments s)
  unfolding do_set state_lines shown_lines
  do_set-Refuses [] s = λ e. refl
  do_set-Refuses (_ ∷ []) s = λ e. refl
  do_set-Refuses (name ∷ value ∷ []) s =
      maybe-Refuses s _ _ (register_maximum (upper name)) (λ most.
        maybe-Refuses s _ _ (number value (some most))
          (λ n. Answers-Refuses s _ _ (maybe-Answers _ _ (λ t. lines-Answers _ false))))
  do_set-Refuses (_ ∷ _ ∷ _ ∷ _) s = λ e. refl

  pub do_irq-Refuses :
      (arguments : List Text) (s : CoreSession bus) → Refuses s (do_irq bus arguments s)
  unfolding do_irq shown_lines
  do_irq-Refuses [] s = λ e. refl
  do_irq-Refuses (level ∷ []) s =
      if-Refuses s (text_eq (lower level) (chars "off")) (_, with_call bus Call.release_irq s) _
        (Answers-Refuses s _ _ (lines-Answers (chars "IRQ released" ∷ []) false))
        (if-Refuses s (text_eq (lower level) (chars "on")) (_, with_call bus Call.raise_irq s)
          (Outcome.command_error, s)
          (Answers-Refuses s _ _
            (lines-Answers (chars "IRQ asserted; it stays asserted until irq off" ∷ []) false))
          (λ e. refl))
  do_irq-Refuses (_ ∷ _ ∷ _) s = λ e. refl
