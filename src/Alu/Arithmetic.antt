-- ===== src/Alu/Arithmetic.antt =====
-- Binary addition, subtraction and comparison are the arithmetic of bytes
-- (src/sixfiveohtwo/_alu.py).
use python.Prelude.{
  ℕ, ◌+◌, ◌-◌, ◌*◌, ◌/◌, ◌%◌, ◌<◌, ◌≡◌, refl, sym, ◌∙◌, inl, inr, ap, ◌⊎◌, Bool, true, false, truth,
  ltb, leb, ◌==◌, bit_and, bit_or, bit_xor, u8, arith,
}
use python.Prelude.Bits.{and_not, bit_and-one}
use python.Flags.{nz}
use python.Cpu.Safe.{IsStatus}
use python.Alu.{or_if, add_overflows, add_binary, add, subtract}
use python.Alu.Status.{
  flag_if, status_nvzc, signed_sum_overflows, and_not_nvzc, or_z, or_c, or_v, or_nz, or_n,
  add_overflows_lem, subtract_overflows_lem,
}

flag_if_cases : (t : Bool) (m : ℕ) → (flag_if t m ≡ 0) ⊎ (flag_if t m ≡ m)
flag_if_cases true m = inr refl
flag_if_cases false m = inl refl

-- Setting the four flags one by one in the order of `add`.
set_flags :
    (p r : ℕ) (v z c : Bool)
    → IsStatus p
    → r < 256
    → or_if c 1 (or_if v 64 (bit_or (or_if z 2 (and_not p 0xc3)) (bit_and r 128)))
      ≡ status_nvzc p (leb 128 r) v z c
unfolding status_nvzc
set_flags p r v z c s h =
    let q = p / 4 % 16 * 4 in
    rw (and_not_nvzc p s) (
      rw (or_z z q (omega arith)) (
        rw (or_n r (q + flag_if z 2) (omega (arith, flag_if_cases z 2))) (
          rw (or_v v (q + flag_if z 2 + r / 128 % 2 * 128) (omega (arith, flag_if_cases z 2))) (
            rw
              (or_c c (q + flag_if z 2 + r / 128 % 2 * 128 + flag_if v 64)
                (omega (arith, flag_if_cases z 2, flag_if_cases v 64)))
              (ground (arith, h))))))

ltb-leb : (m n : ℕ) → ltb m n ≡ leb (m + 1) n
ltb-leb m n = ground arith

-- The overflow test is the range of the signed sum.
signed_sum :
    (a v c : ℕ)
    → a < 256
    → v < 256
    → c < 2
    → add_overflows a v (u8 (a + v + c)) ≡ signed_sum_overflows a v c
unfolding signed_sum_overflows
signed_sum a v c h k l = ground (arith, add_overflows_lem a v (u8 (a + v + c)) h k)

-- On bytes and a P in range, without the decimal mode, the sum of A, the operand and the carry is A
-- and C as the two digits of a number in base 256; Z and N are those of A, and V says that the signed sum is out of range.
pub add_binary_lem :
    (a v p : ℕ)
    → a < 256
    → v < 256
    → IsStatus p
    → let total = a + v + p % 2 in
      add a v p 0 ≡ (
        total % 256,
        status_nvzc p
            (leb 128 (total % 256))
            (signed_sum_overflows a v (p % 2))
            (total % 256 == 0)
            (leb 256 total),
      )
unfolding add add_binary
add_binary_lem a v p h k s = rw bit_and-one (
    rw (signed_sum a v (p % 2) h k (omega arith)) (
      ap (λ (q : ℕ). (u8 (a + v + p % 2), q))
        (set_flags p (u8 (a + v + p % 2)) _ _ _ s (omega arith)
          ∙ ap (status_nvzc p _ _ _) (ltb-leb 255 (a + v + p % 2)))))

-- The flags of a difference in the order of `subtract`.
set_flags_nz :
    (p r : ℕ) (v c : Bool)
    → IsStatus p
    → r < 256
    → or_if c 1 (or_if v 64 (bit_or (and_not p 0xc3) (nz r)))
      ≡ status_nvzc p (leb 128 r) v (r == 0) c
unfolding status_nvzc
set_flags_nz p r v c s h =
    let q = p / 4 % 16 * 4 in
    let m = flag_if (leb 128 r) 128 + flag_if (r == 0) 2 in
    rw (and_not_nvzc p s) (
      rw (or_nz q r h (omega arith) (omega arith)) (
        rw (or_v v (q + m) (ground arith))
          (rw (or_c c (q + m + flag_if v 64) (ground arith)) (omega arith))))

signed_difference :
    (a v b : ℕ)
    → a < 256
    → v < 256
    → b < 2
    → truth (bit_and (bit_and (bit_xor a (u8 (a + 512 - (v + b)))) (bit_xor a v)) 128)
      ≡ signed_sum_overflows a (255 - v) (1 - b)
unfolding signed_sum_overflows
signed_difference a v b h k l =
    ground (arith, subtract_overflows_lem a v (u8 (a + 512 - (v + b))) h k)

-- A result and its flags, from a byte, V and C.
abbrev result_of : ℕ → ℕ → Bool → Bool → ℕ × ℕ
result_of p r v c = (r, status_nvzc p (leb 128 r) v (r == 0) c)

difference_sum :
    (a v b : ℕ) → v < 256 → b < 2 → u8 (a + 512 - (v + (1 - b))) ≡ u8 (a + (255 - v) + b)
difference_sum a v b h k = omega arith

no_borrow_carry : (a v b : ℕ) → v < 256 → b < 2 → leb (v + (1 - b)) a ≡ leb 256 (a + (255 - v) + b)
no_borrow_carry a v b h k = ground arith

same_result_of :
    (p : ℕ) {r r' : ℕ} {v v' c c' : Bool}
    → r ≡ r'
    → v ≡ v'
    → c ≡ c'
    → result_of p r v c ≡ result_of p r' v' c'
same_result_of p d e f = cc

-- On bytes and a P in range, without the decimal mode, a subtraction is the addition of the operand's complement, in the
-- result and in every flag.
pub subtract-add :
    (a v p : ℕ) → a < 256 → v < 256 → IsStatus p → subtract a v p 0 ≡ add a (255 - v) p 0
unfolding subtract
subtract-add a v p h k s =
    rw bit_and-one (
      ap (λ (q : ℕ). (u8 (a + 512 - (v + (1 - p % 2))), q))
        (set_flags_nz p (u8 (a + 512 - (v + (1 - p % 2)))) _ _ s (omega arith)))
    ∙ same_result_of p (difference_sum a v (p % 2) k (omega arith))
        (signed_difference a v (1 - p % 2) h k (omega arith)
          ∙ ap (signed_sum_overflows a (255 - v)) (omega arith))
        (no_borrow_carry a v (p % 2) k (omega arith))
    ∙ sym (add_binary_lem a (255 - v) p h (omega arith) s)
