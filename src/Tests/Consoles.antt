-- ===== src/Tests/Consoles.antt =====
-- src/sixfiveohtwo/console.py: commands on the session of the tools' tests.
use python.Prelude.{◌≡◌, refl, some, none, List, [], ◌∷◌, arith}
use python.Text.{Text, chars}
use python.Text.Hex.{hex_word}
use python.Console.Numbers.{number, strip, unsigned, number-hex_word}
use python.Console.Commands.{Outcome}
use python.Console.Execute.{execute_words}
use python.Console.Execute.Answered.{execute_words_answered}
use python.Debug.Session.Steps.{Peeks}
use python.Debug.Session.Host.{CoreReady}
use python.Console.Execute.Refused.{execute_words_refused}
use python.Tests.{ram}
use python.Tests.Tools.{new_core_session, new_core_session-CoreReady, new_core_session-Peeks}

-- `set a $100`
abbrev too_large : List Text
too_large = chars "set" ∷ chars "a" ∷ chars "$100" ∷ []

too_large_lem : (execute_words ram too_large new_core_session).0 ≡ Outcome.command_error
unfolding execute_words strip unsigned
too_large_lem = refl

execute_words_refused_example : (execute_words ram too_large new_core_session).1 ≡ new_core_session
execute_words_refused_example = execute_words_refused ram too_large new_core_session too_large_lem

-- `over`, of an instruction that is no JSR.
execute_words_answered_example :
    let (outcome, s') = execute_words ram (chars "o" ∷ []) new_core_session in
    ¬ (outcome ≡ Outcome.raised) × CoreReady s'.target × Peeks s'
execute_words_answered_example =
    execute_words_answered ram (chars "o" ∷ []) new_core_session new_core_session-CoreReady
      new_core_session-Peeks

number-hex_word_example : number (chars "$1234") (some 0xffff) ≡ some 0x1234
unfolding hex_word
number-hex_word_example = number-hex_word 0x1234 (omega arith)

-- What `int` reads, and what it does not.
numbers :
    (number (chars "0x_1f") (some 0xff) ≡ some 31)
    × (number (chars " +1_000 ") (some 1000) ≡ some 1000)
    × (number (chars "010") (some 1000) ≡ none)
    × (number (chars "0b101") (some 1000) ≡ some 5)
unfolding number strip unsigned
numbers = (refl, refl, refl, refl)
