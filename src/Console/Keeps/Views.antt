-- ===== src/Console/Keeps/Views.antt =====
-- src/sixfiveohtwo/console.py: the commands that show memory, instructions and history.
use python.Prelude.{
  ℕ, ◌<◌, ◌≡◌, refl, sym, subst, false, Option, none, some, List, [], ◌∷◌, map, maybe, inl, inr,
  arith, maybe-eq,
}
use python.Text.{Text}
use python.Cpu.{Cpu, Bus}
use python.State.{capture_state}
use python.Disasm.{Reader}
use python.Disasm.Errors.{IsTotal}
use python.Debug.Session.Steps.{Peeks}
use python.Console.Numbers.{number, positive}
use python.Console.Format.{format_instruction}
use python.Console.Commands.{Outcome, CoreSession, lines, shown_lines}
use python.Console.Views.{
  peek_of, do_disassemble, do_memory, do_history, memory_lines, listing, rows,
}
use python.Console.Works.{number-le, first_error-none, rows-some, disassemble_range-some}
use python.Console.Keeps.{Good, captured}

-- An outcome that is no error but a CommandError.
abbrev Answers : Outcome → Type 0
Answers o = ¬ (o ≡ Outcome.raised)

needed-Answers :
    {A : Type 0} (f : A → Outcome) (o : Option A)
    → ((a : A) → o ≡ some a → Answers (f a))
    → Answers (maybe Outcome.command_error f o)
needed-Answers f none h = λ e. cc
needed-Answers f (some a) h = h a refl

there-Answers :
    {A : Type 0} (d : Outcome) (f : A → Outcome) (o : Option A) (a : A)
    → o ≡ some a
    → Answers (f a)
    → Answers (maybe d f o)
there-Answers d f o a e h = subst (λ o. Answers (maybe d f o)) (sym e) h

listing-Answers :
    (peek : Reader) (address n : ℕ)
    → IsTotal peek
    → address < 65536
    → Answers (listing peek address n)
unfolding listing shown_lines
listing-Answers peek address n total h =
    let (is, e) = disassemble_range-some peek address n total h in
    there-Answers Outcome.raised (λ is. lines (map format_instruction is) false) _ is e (λ e. cc)

memory_lines-Answers :
    (peek : Reader) (address n : ℕ)
    → IsTotal peek
    → address < 65536
    → Answers (memory_lines peek address n)
unfolding memory_lines shown_lines
memory_lines-Answers peek address n total h =
    let (ts, e) = rows-some n peek address n total h in
    subst
      (λ o.
        Answers
          (maybe (maybe Outcome.raised (λ ts. lines ts false) (rows n peek address n)) (λ o. o) o))
      (sym (first_error-none peek address n total h))
      (there-Answers Outcome.raised (λ ts. lines ts false) _ ts e (λ e. cc))

module _ {H : Type 0} (bus : Bus H) where
  pub peek_of-IsTotal :
      (s : CoreSession bus) (peek : Reader) → Peeks s → peek_of bus s ≡ some peek → IsTotal peek
  unfolding peek_of Peeks
  peek_of-IsTotal s peek total e =
      elim (maybe-eq none (λ (p : Cpu × H → Reader). some (p s.target)) s.peek_byte e) [
        | inl (_, n) ↦ cc
        | inr (p, k, same) ↦ subst IsTotal (some-same same) ((rw k at total) s.target)
      ]
    where
      some-same : {p q : Reader} → some p ≡ some q → p ≡ q
      some-same e = cc

  pub do_memory-Answers :
      (arguments : List Text) (s : CoreSession bus)
      → Good bus s
      → Answers (do_memory bus arguments s)
  unfolding do_memory
  do_memory-Answers [] s good = λ e. cc
  do_memory-Answers (address ∷ []) s good = needed-Answers _ (peek_of bus s) (λ peek p.
      needed-Answers (λ a. memory_lines peek a 16) (number address (some 0xffff))
        (λ a k.
          memory_lines-Answers peek a 16 (peek_of-IsTotal s peek (good.1) p)
            (omega (arith, number-le address 0xffff a k))))
  do_memory-Answers (address ∷ length_ ∷ []) s good = needed-Answers _ (peek_of bus s) (λ peek p.
      needed-Answers _ (number address (some 0xffff)) (λ a k.
        needed-Answers (λ n. memory_lines peek a n) (positive length_ (some 256))
          (λ n _.
            memory_lines-Answers peek a n (peek_of-IsTotal s peek (good.1) p)
              (omega (arith, number-le address 0xffff a k)))))
  do_memory-Answers (_ ∷ _ ∷ _ ∷ _) s good = λ e. cc

  pub do_history-Answers :
      (arguments : List Text) (s : CoreSession bus) → Answers (do_history bus arguments s)
  unfolding do_history shown_lines
  do_history-Answers [] s = λ e. cc
  do_history-Answers (count ∷ []) s = needed-Answers _ (positive count (some 10000)) (λ n _ e. cc)
  do_history-Answers (_ ∷ _ ∷ _) s = λ e. cc

  pub do_disassemble-Answers :
      (arguments : List Text) (s : CoreSession bus)
      → Good bus s
      → Answers (do_disassemble bus arguments s)
  unfolding do_disassemble
  do_disassemble-Answers [] s good =
      let (t, e, h) = captured bus s good in
      needed-Answers _ (peek_of bus s) (λ peek p.
        there-Answers Outcome.raised (λ t. listing peek t.pc 8) (capture_state s.target.0) t e
          (listing-Answers peek t.pc 8 (peek_of-IsTotal s peek (good.1) p) h))
  do_disassemble-Answers (address ∷ []) s good =
      let (t, e, _) = captured bus s good in
      needed-Answers _ (peek_of bus s) (λ peek p.
        there-Answers Outcome.raised
          (λ t. maybe Outcome.command_error (λ a. listing peek a 8) (number address (some 0xffff)))
          (capture_state s.target.0) t e
          (needed-Answers (λ a. listing peek a 8) (number address (some 0xffff))
            (λ a k.
              listing-Answers peek a 8 (peek_of-IsTotal s peek (good.1) p)
                (omega (arith, number-le address 0xffff a k)))))
  do_disassemble-Answers (address ∷ count ∷ []) s good =
      let (t, e, _) = captured bus s good in
      needed-Answers _ (peek_of bus s) (λ peek p.
        there-Answers Outcome.raised
          (λ t.
            maybe Outcome.command_error
              (λ a. maybe Outcome.command_error (λ n. listing peek a n) (positive count (some 256)))
              (number address (some 0xffff)))
          (capture_state s.target.0) t e
          (needed-Answers _ (number address (some 0xffff)) (λ a k.
            needed-Answers (λ n. listing peek a n) (positive count (some 256))
              (λ n _.
                listing-Answers peek a n (peek_of-IsTotal s peek (good.1) p)
                  (omega (arith, number-le address 0xffff a k))))))
  do_disassemble-Answers (_ ∷ _ ∷ _ ∷ _) s good = λ e. cc
