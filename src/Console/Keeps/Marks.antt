-- ===== src/Console/Keeps/Marks.antt =====
-- src/sixfiveohtwo/console.py: the commands that mark addresses.
use python.Prelude.{
  ℕ, ◌≤◌, ◌≡◌, refl, subst, Bool, true, false, Option, some, List, [], ◌∷◌, ◌++◌, maybe, bind, leb,
  if◌then◌else◌, arith, check-eq-some, bind-eq-some,
}
use python.Text.{Text, chars, lower}
use python.Text.Hex.{hex_word}
use python.Cpu.{Bus}
use python.Debug.Session.{
  member, add_breakpoint, remove_breakpoint, add_watchpoint, remove_watchpoint, discard, pop_item,
  set_item, watch_kind, validate_address,
}
use python.Debug.Session.Steps.{Peeks}
use python.Console.Numbers.{number}
use python.Console.Commands.{Outcome, CoreSession, lines, shown_lines}
use python.Console.Views.{marked, do_break, do_delete, watch_at, do_watch, do_unwatch}
use python.Console.Works.{number-le}
use python.Console.Keeps.{Good, Keeps, lines-Keeps, command_error-Keeps, needed-Keeps, there-Keeps}

leb-true : (a : ℕ) → a ≤ 0xffff → leb a 0xffff ≡ true
leb-true a h = ground (arith, h)

module _ {H : Type 0} (bus : Bus H) where
  marked-Keeps :
      (address : Text) (mark : ℕ → CoreSession bus → Option (CoreSession bus)) (line : ℕ → Text)
      (s : CoreSession bus)
      → Good bus s
      → ((a : ℕ) → a ≤ 0xffff → (s' : CoreSession bus) × (mark a s ≡ some s') × Good bus s')
      → Keeps bus (marked bus address mark line s)
  unfolding marked shown_lines
  marked-Keeps address mark line s good h =
      needed-Keeps bus s
        (λ a. maybe (Outcome.raised, s) (λ s'. (lines (line a ∷ []) false, s')) (mark a s))
        (number address (some 0xffff)) good
        (λ a k.
          let (s', e, good') = h a (number-le address 0xffff a k) in
          there-Keeps bus (Outcome.raised, s) (λ s'. (lines (line a ∷ []) false, s')) (mark a s) s'
            e (lines-Keeps bus (line a ∷ []) false s' good'))

  pub do_break-Keeps :
      (arguments : List Text) (s : CoreSession bus)
      → Good bus s
      → Keeps bus (do_break bus arguments s)
  unfolding do_break add_breakpoint validate_address Peeks
  do_break-Keeps [] s good = command_error-Keeps bus s good
  do_break-Keeps (address ∷ []) s good =
      marked-Keeps address add_breakpoint (λ a. chars "breakpoint added at " ++ hex_word a) s good
        (λ a h. (
          if member a s.breakpoints then s else record s { breakpoints = a ∷ s.breakpoints },
          rw (leb-true a h) refl,
          kept (member a s.breakpoints) a,
        ))
    where
      kept :
          (b : Bool) (a : ℕ)
          → Good bus (if b then s else record s { breakpoints = a ∷ s.breakpoints })
      kept true a = good
      kept false a = good
  do_break-Keeps (_ ∷ _ ∷ _) s good = command_error-Keeps bus s good

  pub do_delete-Keeps :
      (arguments : List Text) (s : CoreSession bus)
      → Good bus s
      → Keeps bus (do_delete bus arguments s)
  unfolding do_delete remove_breakpoint validate_address Peeks
  do_delete-Keeps [] s good = command_error-Keeps bus s good
  do_delete-Keeps (address ∷ []) s good =
      marked-Keeps address remove_breakpoint (λ a. chars "breakpoint removed from " ++ hex_word a) s
        good
        (λ a h. (record s { breakpoints = discard a s.breakpoints }, rw (leb-true a h) refl, good))
  do_delete-Keeps (_ ∷ _ ∷ _) s good = command_error-Keeps bus s good

  pub do_unwatch-Keeps :
      (arguments : List Text) (s : CoreSession bus)
      → Good bus s
      → Keeps bus (do_unwatch bus arguments s)
  unfolding do_unwatch remove_watchpoint validate_address Peeks
  do_unwatch-Keeps [] s good = command_error-Keeps bus s good
  do_unwatch-Keeps (address ∷ []) s good =
      marked-Keeps address remove_watchpoint (λ a. chars "watchpoint removed from " ++ hex_word a) s
        good
        (λ a h. (record s { watchpoints = pop_item s.watchpoints a }, rw (leb-true a h) refl, good))
  do_unwatch-Keeps (_ ∷ _ ∷ _) s good = command_error-Keeps bus s good

  add_watchpoint-Good :
      (a : ℕ) (kind : Text) (s s' : CoreSession bus)
      → Good bus s
      → add_watchpoint a kind s ≡ some s'
      → Good bus s'
  unfolding add_watchpoint Peeks
  add_watchpoint-Good a kind s s' good e =
      let (_, made) =
        check-eq-some s.tracking
          (bind (watch_kind kind) (λ watch.
            bind (validate_address a)
              (λ x. some (record s { watchpoints = set_item s.watchpoints x watch }))))
          e in
      let (watch, _, placed) = bind-eq-some (watch_kind kind) _ made in
      let (x, _, same) = bind-eq-some (validate_address a) _ placed in
      subst (λ o. maybe Unit (λ s. Good bus s) o) same good

  watch_at-Keeps :
      (address kind : Text) (s : CoreSession bus)
      → Good bus s
      → Keeps bus (watch_at bus address kind s)
  unfolding watch_at shown_lines
  watch_at-Keeps address kind s good =
      needed-Keeps bus s
        (λ a. maybe (Outcome.command_error, s) (λ s'. (added a, s')) (add_watchpoint a kind s))
        (number address (some 0xffff)) good
        (λ a k.
          needed-Keeps bus s (λ s'. (added a, s')) (add_watchpoint a kind s) good
            (λ s' e. lines-Keeps bus _ false s' (add_watchpoint-Good a kind s s' good e)))
    where
      added : ℕ → Outcome
      added a =
          lines
            ((chars "watchpoint added at " ++ hex_word a ++ chars " (" ++ kind ++ chars ")") ∷ [])
            false

  pub do_watch-Keeps :
      (arguments : List Text) (s : CoreSession bus)
      → Good bus s
      → Keeps bus (do_watch bus arguments s)
  unfolding do_watch
  do_watch-Keeps [] s good = command_error-Keeps bus s good
  do_watch-Keeps (address ∷ []) s good = watch_at-Keeps address (chars "rw") s good
  do_watch-Keeps (address ∷ kind ∷ []) s good = watch_at-Keeps address (lower kind) s good
  do_watch-Keeps (_ ∷ _ ∷ _ ∷ _) s good = command_error-Keeps bus s good
