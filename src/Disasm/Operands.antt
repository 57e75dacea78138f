-- ===== src/Disasm/Operands.antt =====
-- The operands that src/sixfiveohtwo/disasm.py shows of an instruction's bytes.
use python.Prelude.{ℕ, ◌≡◌, refl, Option, some, List, [], ◌∷◌, length, arith}
use python.Text.{Text}
use python.Disasm.{Addressing, length_of, operands_of, rest_of}

-- That the bytes of an instruction have operands.
abbrev pub Shows : Addressing → ℕ → List ℕ → Type 0
Shows mode address bytes =
    (operands : List Text × Option ℕ) × (operands_of mode address (rest_of bytes) ≡ some operands)

-- Bytes by their number.
module _ (P : List ℕ → Type 0) where
  one_byte : ((a : ℕ) → P (a ∷ [])) → (bytes : List ℕ) → length bytes ≡ 1 → P bytes
  one_byte h [] e = absurd (omega (arith, e))
  one_byte h (a ∷ []) e = h a
  one_byte h (a ∷ b ∷ bytes) e = absurd (omega (arith, e))

  two_bytes : ((a b : ℕ) → P (a ∷ b ∷ [])) → (bytes : List ℕ) → length bytes ≡ 2 → P bytes
  two_bytes h [] e = absurd (omega (arith, e))
  two_bytes h (a ∷ []) e = absurd (omega (arith, e))
  two_bytes h (a ∷ b ∷ []) e = h a b
  two_bytes h (a ∷ b ∷ c ∷ bytes) e = absurd (omega (arith, e))

  three_bytes : ((a b c : ℕ) → P (a ∷ b ∷ c ∷ [])) → (bytes : List ℕ) → length bytes ≡ 3 → P bytes
  three_bytes h [] e = absurd (omega (arith, e))
  three_bytes h (a ∷ []) e = absurd (omega (arith, e))
  three_bytes h (a ∷ b ∷ []) e = absurd (omega (arith, e))
  three_bytes h (a ∷ b ∷ c ∷ []) e = h a b c
  three_bytes h (a ∷ b ∷ c ∷ d ∷ bytes) e = absurd (omega (arith, e))

-- As many bytes as a mode's length have operands.
pub operands_of-some :
    (mode : Addressing) (address : ℕ) (bytes : List ℕ)
    → length bytes ≡ length_of mode
    → Shows mode address bytes
unfolding operands_of rest_of length_of
operands_of-some Addressing.implied address bytes e =
    one_byte (Shows Addressing.implied address) (λ a. (_, refl)) bytes e
operands_of-some Addressing.accumulator address bytes e =
    one_byte (Shows Addressing.accumulator address) (λ a. (_, refl)) bytes e
operands_of-some Addressing.immediate address bytes e =
    two_bytes (Shows Addressing.immediate address) (λ a b. (_, refl)) bytes e
operands_of-some Addressing.relative address bytes e =
    two_bytes (Shows Addressing.relative address) (λ a b. (_, refl)) bytes e
operands_of-some Addressing.zero_page address bytes e =
    two_bytes (Shows Addressing.zero_page address) (λ a b. (_, refl)) bytes e
operands_of-some Addressing.zero_page_x address bytes e =
    two_bytes (Shows Addressing.zero_page_x address) (λ a b. (_, refl)) bytes e
operands_of-some Addressing.zero_page_y address bytes e =
    two_bytes (Shows Addressing.zero_page_y address) (λ a b. (_, refl)) bytes e
operands_of-some Addressing.indexed_indirect address bytes e =
    two_bytes (Shows Addressing.indexed_indirect address) (λ a b. (_, refl)) bytes e
operands_of-some Addressing.indirect_indexed address bytes e =
    two_bytes (Shows Addressing.indirect_indexed address) (λ a b. (_, refl)) bytes e
operands_of-some Addressing.absolute address bytes e =
    three_bytes (Shows Addressing.absolute address) (λ a b c. (_, refl)) bytes e
operands_of-some Addressing.absolute_x address bytes e =
    three_bytes (Shows Addressing.absolute_x address) (λ a b c. (_, refl)) bytes e
operands_of-some Addressing.absolute_y address bytes e =
    three_bytes (Shows Addressing.absolute_y address) (λ a b c. (_, refl)) bytes e
operands_of-some Addressing.indirect address bytes e =
    three_bytes (Shows Addressing.indirect address) (λ a b c. (_, refl)) bytes e
