-- ===== src/Core/Addresses.antt =====
-- The addresses that the helpers of src/sixfiveohtwo/_core.py compute.
use python.Prelude.{ℕ, ◌+◌, ◌*◌, ◌<◌, ◌≡◌, bit_or, arith}
use python.Prelude.Bits.{bit_or-lt, bit_and-le, bit_or-shifted}
use python.Flags.{stack}
use python.Core.{word, same_page}

-- Two bytes make an address.
pub word-eq : (high low : ℕ) → low < 256 → word high low ≡ high * 256 + low
unfolding word
word-eq high low h = bit_or-shifted 8 high low h

pub word-lt : (high low : ℕ) → high < 256 → low < 256 → word high low < 65536
word-lt high low h k = omega (arith, word-eq high low k)

pub stack-lt : (s : ℕ) → s < 256 → bit_or stack s < 65536
stack-lt s h = omega (arith, bit_or-shifted 8 1 s h)

pub same_page-lt : (a b : ℕ) → a < 65536 → same_page a b < 65536
unfolding same_page
same_page-lt a b h = bit_or-lt 16 _ _ (omega (arith, bit_and-le a 0xff00)) (omega arith)
