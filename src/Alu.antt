-- ===== src/Alu.antt =====
-- src/sixfiveohtwo/_alu.py: arithmetic, logic, compare and bit test.
pub mod Ranges
pub mod Runs
pub mod Status
pub mod Arithmetic
pub mod Decimal
pub mod Compare
use python.Prelude.{
  ℕ, ◌+◌, ◌-◌, ◌*◌, ◌/◌, ◌%◌, bit_and, bit_or, bit_xor, Bool, not, truth, ltb, leb, u8, ◌==◌,
  if◌then◌else◌,
}
use python.Prelude.Bits.{and_not}
use python.Flags.{flag_n, flag_v, flag_z, flag_c, nz, set_nz, set_nz_clear_c}
use python.Cpu.{Cpu, Program, ret, ◌>>=◌, ◌>>◌, Action, gets, modify, read}

-- `if test: p |= mask`
unfoldable pub or_if : Bool → ℕ → ℕ → ℕ
or_if test mask p = if test then bit_or p mask else p

abbrev pub flags_nvzc : ℕ
flags_nvzc = flag_n + flag_v + flag_z + flag_c

-- `~(a ^ value) & (a ^ result) & 0x80`: both operands have one sign, and the result the other.
unfoldable pub add_overflows : ℕ → ℕ → ℕ → Bool
add_overflows a value result = truth (bit_and (and_not (bit_xor a result) (bit_xor a value)) 0x80)

-- The decimal branch of `add`, with `p` after Z is set.
unfoldable pub add_decimal : ℕ → ℕ → ℕ → ℕ → ℕ × ℕ
unfolding or_if add_overflows
add_decimal a value carry p =
    let sum = bit_and a 0x0f + bit_and value 0x0f + carry in
    let low = if leb 0x0a sum then bit_and (sum + 0x06) 0x0f + 0x10 else sum in
    let total = bit_and a 0xf0 + bit_and value 0xf0 + low in
    let with_n = bit_or p (bit_and total flag_n) in
    let with_v = or_if (add_overflows a value total) flag_v with_n in
    let adjusted = if leb 0xa0 total then total + 0x60 else total in
    (u8 adjusted, or_if (leb 0x100 adjusted) flag_c with_v)

-- The binary branch of `add`, with `p` after Z is set.
unfoldable pub add_binary : ℕ → ℕ → ℕ → ℕ → ℕ × ℕ
unfolding or_if add_overflows
add_binary a value total p =
    let result = u8 total in
    let with_n = bit_or p (bit_and result flag_n) in
    let with_v = or_if (add_overflows a value result) flag_v with_n in
    (result, or_if (ltb 0xff total) flag_c with_v)

-- `add`
unfoldable pub add : ℕ → ℕ → ℕ → ℕ → ℕ × ℕ
unfolding or_if add_decimal add_binary
add a value p decimal =
    let carry = bit_and p flag_c in
    let total = a + value + carry in
    let with_z = or_if (u8 total == 0) flag_z (and_not p flags_nvzc) in
    if truth decimal then add_decimal a value carry with_z else add_binary a value total with_z

-- The decimal digits of `subtract`. `low` and `high` are held with 0x20 added, a multiple of the
-- 0x10 that is masked off, so a negative one is below 0x20.
unfoldable pub subtract_decimal : ℕ → ℕ → ℕ → ℕ
subtract_decimal a value borrow =
    let low = bit_and a 0x0f + 0x20 - (bit_and value 0x0f + borrow) in
    let high = a / 0x10 + 0x20 - value / 0x10 in
    let low' = if ltb low 0x20 then low - 6 else low in
    let high' = if ltb low 0x20 then high - 1 else high in
    let high'' = if ltb high' 0x20 then high' - 6 else high' in
    u8 (bit_or (high'' * 0x10) (bit_and low' 0x0f))

-- `subtract`, on bytes. `difference >= 0` is `value + borrow <= a`.
unfoldable pub subtract : ℕ → ℕ → ℕ → ℕ → ℕ × ℕ
unfolding nz or_if subtract_decimal
subtract a value p decimal =
    let borrow = 1 - bit_and p flag_c in
    let binary = u8 (a + 0x200 - (value + borrow)) in
    let with_nz = bit_or (and_not p flags_nvzc) (nz binary) in
    let with_v =
      or_if (truth (bit_and (bit_and (bit_xor a binary) (bit_xor a value)) 0x80)) flag_v with_nz in
    let with_c = or_if (leb (value + borrow) a) flag_c with_v in
    if not (truth decimal) then (binary, with_c) else (subtract_decimal a value borrow, with_c)

-- Store a result pair into A and P.
unfoldable pub set_ap : ℕ × ℕ → Action
set_ap (a, p) = modify (λ c. record c { a = a; p = p })

-- Store a result into A, with N and Z.
unfoldable pub set_a_nz : ℕ → Action
set_a_nz a = modify (λ c. record c { a = a; p = set_nz c.p a })

unfoldable pub op_adc : ℕ → Action
unfolding set_ap
op_adc address = do
  p ← gets (λ c. c.p)
  a ← gets (λ c. c.a)
  value ← read address
  mode ← gets (λ c. c.decimal_mode)
  set_ap (add a value p (bit_and p mode))

unfoldable pub op_sbc : ℕ → Action
unfolding set_ap
op_sbc address = do
  p ← gets (λ c. c.p)
  a ← gets (λ c. c.a)
  value ← read address
  mode ← gets (λ c. c.decimal_mode)
  set_ap (subtract a value p (bit_and p mode))

unfoldable pub op_and : ℕ → Action
unfolding set_a_nz
op_and address = do a ← gets (λ c. c.a); value ← read address; set_a_nz (bit_and a value)

unfoldable pub op_ora : ℕ → Action
unfolding set_a_nz
op_ora address = do a ← gets (λ c. c.a); value ← read address; set_a_nz (bit_or a value)

unfoldable pub op_eor : ℕ → Action
unfolding set_a_nz
op_eor address = do a ← gets (λ c. c.a); value ← read address; set_a_nz (bit_xor a value)

-- The status that `_compare` leaves.
unfoldable pub compare_flags : ℕ → ℕ → ℕ → ℕ
unfolding set_nz_clear_c or_if
compare_flags register value p =
    or_if (leb value register) flag_c (set_nz_clear_c p (u8 (register + 0x100 - value)))

-- `_compare`
unfoldable pub compare_with : ℕ → ℕ → Action
compare_with register value = modify (λ c. record c { p = compare_flags register value c.p })

unfoldable pub op_cmp : ℕ → Action
unfolding compare_with
op_cmp address = do a ← gets (λ c. c.a); value ← read address; compare_with a value

unfoldable pub op_cpx : ℕ → Action
unfolding compare_with
op_cpx address = do x ← gets (λ c. c.x); value ← read address; compare_with x value

unfoldable pub op_cpy : ℕ → Action
unfolding compare_with
op_cpy address = do y ← gets (λ c. c.y); value ← read address; compare_with y value

-- The status that BIT leaves.
unfoldable pub bit_flags : ℕ → ℕ → ℕ → ℕ
unfolding or_if
bit_flags a value p =
    or_if (not (truth (bit_and a value))) flag_z
      (bit_or (and_not p (flag_n + flag_v + flag_z)) (bit_and value (flag_n + flag_v)))

unfoldable pub op_bit : ℕ → Action
op_bit address = do value ← read address; modify (λ c. record c { p = bit_flags c.a value c.p })
