-- ===== src/Control/Ranges.antt =====
-- The ranges of what src/sixfiveohtwo/_control.py computes.
use python.Prelude.{
  ℕ, ◌/◌, ◌%◌, ◌<◌, ◌≡◌, refl, true, ◌&&◌, ◌==◌, ltb, bit_and, bit_or, ◌⊎◌, some, every_below,
  every_below_lem, arith,
}
use python.Prelude.Bits.{and_not, bit_or-byte, bit_and_four}
use python.Flags.{flag_i}
use python.Frame.{nmi_latch}
use python.Frame.Disturbed.{Held}
use python.Cpu.Safe.{IsStatus}
use python.Control.{pulled_p, branch_target}

pulled_p_table : every_below 256 (λ v. ltb (pulled_p v) 256 && (pulled_p v / 16 % 4 == 2)) ≡ true
unfolding every_below pulled_p
pulled_p_table = refl

-- P as it is pulled has bit 5 set and B clear, whatever byte was on the stack.
pub pulled_p-IsStatus : (v : ℕ) → v < 256 → IsStatus (pulled_p v)
pulled_p-IsStatus v h = ground (
  arith,
  every_below_lem 256 (λ v. ltb (pulled_p v) 256 && (pulled_p v / 16 % 4 == 2)) v pulled_p_table h,
)

-- P as BRK and PHP push it.
pub pushed_p-byte : (p : ℕ) → p < 256 → bit_or (bit_or p 0x10) 0x20 < 256
pushed_p-byte p h = bit_or-byte _ _ (bit_or-byte p 0x10 h (omega arith)) (omega arith)

-- The I flag that CLI, SEI and PLP leave for the next poll.
pub bit_and_i-Held : (p : ℕ) → Held (λ v. (v ≡ 0) ⊎ (v ≡ 4)) (some (bit_and p flag_i))
bit_and_i-Held p = omega (arith, bit_and_four p)

-- A branch stays in the address space.
pub branch_target-lt : (pc offset : ℕ) → branch_target pc offset < 65536
unfolding branch_target
branch_target-lt pc offset = omega arith

-- What an NMI leaves of the requests.
pub taken_nmi-lt : (r : ℕ) → r < 4 → and_not r nmi_latch < 4
taken_nmi-lt r h = omega arith
