-- ===== src/Text/Hex.antt =====
-- Bytes and words in hexadecimal: `f"{n:02X}"`, `f"{n:04X}"`, `bytes.hex` and `bytes.fromhex`.
use python.Prelude.{
  ℕ, ◌+◌, ◌-◌, ◌*◌, ◌/◌, ◌%◌, ◌<◌, ◌≡◌, refl, ap, Bool, false, Option, none, some, List, [], ◌∷◌,
  ◌++◌, ltb, leb, ◌==◌, ◌&&◌, ◌||◌, bind, if◌then◌else◌, All, arith,
}
use python.Text.{Text}

-- A digit in upper and in lower case.
unfoldable pub hex_digit : ℕ → ℕ
hex_digit d = if ltb d 10 then b'0' + d else b'A' + (d - 10)

unfoldable pub small_digit : ℕ → ℕ
small_digit d = if ltb d 10 then b'0' + d else b'a' + (d - 10)

-- `f"{n:02X}"` of a byte and `f"{n:04X}"` of a word.
unfoldable pub hex_byte : ℕ → Text
unfolding hex_digit
hex_byte n = hex_digit (n / 16 % 16) ∷ hex_digit (n % 16) ∷ []

unfoldable pub hex_word : ℕ → Text
unfolding hex_byte
hex_word n = hex_byte (n / 256) ++ hex_byte (n % 256)

-- `bytes.hex`
unfoldable pub hex_text : List ℕ → Text
unfolding small_digit
hex_text [] = []
hex_text (b ∷ bs) = small_digit (b / 16) ∷ small_digit (b % 16) ∷ hex_text bs

unfoldable pub digit_value : ℕ → Option ℕ
digit_value c =
    if leb b'0' c && leb c b'9'
    then some (c - b'0')
    else if leb b'a' c && leb c b'f'
    then some (c - b'a' + 10)
    else if leb b'A' c && leb c b'F'
    then some (c - b'A' + 10)
    else none

-- ASCII white space.
unfoldable pub is_blank : ℕ → Bool
is_blank c = c == 32 || (leb 9 c && leb c 13)

-- Two digits, most significant first.
unfoldable pub digit_pair : ℕ → ℕ → Option ℕ
unfolding digit_value
digit_pair c d = bind (digit_value c) (λ high. bind (digit_value d) (λ low. some (high * 16 + low)))

-- `bytes.fromhex`, which skips white space between bytes and raises on anything else.
unfoldable pub from_hex : Text → Option (List ℕ)
unfolding digit_pair is_blank
from_hex [] = some []
from_hex (c ∷ []) = if is_blank c then some [] else none
from_hex (c ∷ d ∷ rest) =
    let skipped = from_hex (d ∷ rest) in
    let others = from_hex rest in
    if is_blank c
    then skipped
    else bind (digit_pair c d) (λ byte. bind others (λ bytes. some (byte ∷ bytes)))

-- A digit is read back.
digit_value-small_digit :
    (d : ℕ) → d < 16 → (digit_value (small_digit d) ≡ some d) × (is_blank (small_digit d) ≡ false)
unfolding digit_value small_digit is_blank
digit_value-small_digit d h = (ground arith, ground arith)

digit_pair-small_digit :
    (b : ℕ)
    → b < 256
    → (digit_pair (small_digit (b / 16)) (small_digit (b % 16)) ≡ some b)
      × (is_blank (small_digit (b / 16)) ≡ false)
unfolding digit_pair
digit_pair-small_digit b h =
    let high = digit_value-small_digit (b / 16) (omega arith) in
    (
      rw (high.0) (rw ((digit_value-small_digit (b % 16) (omega arith)).0) (ap some (omega arith))),
      high.1,
    )

-- Bytes are read back from their hexadecimal text.
pub from_hex-hex_text : (bs : List ℕ) → All (λ b. b < 256) bs → from_hex (hex_text bs) ≡ some bs
unfolding from_hex hex_text
from_hex-hex_text [] h = refl
from_hex-hex_text (b ∷ bs) h =
    let pair = digit_pair-small_digit b (h.0) in
    rw (pair.1) (rw (pair.0) (rw (from_hex-hex_text bs (h.1)) refl))
