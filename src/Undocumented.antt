-- ===== src/Undocumented.antt =====
-- src/sixfiveohtwo/_undocumented.py: the opcodes that MOS did not document.
pub mod Ranges
pub mod Runs
use python.Prelude.{
  ℕ, ◌+◌, ◌-◌, ◌*◌, ◌/◌, ◌%◌, bit_and, bit_or, bit_xor, Bool, true, false, truth, leb, u8, u16,
  List, [], ◌∷◌, if◌then◌else◌,
}
use python.Prelude.Bits.{and_not}
use python.Flags.{flag_n, flag_v, flag_z, flag_c, nz, set_nz, set_nz_clear_c}
use python.Frame.{Frame}
use python.Cpu.{Cpu, Program, ret, ◌>>=◌, ◌>>◌, Action, gets, modify, read, write}
use python.Core.{read_pc, crosses_page}
use python.Alu.{add, subtract, set_ap, set_a_nz, or_if, compare_with, flags_nvzc}
use python.Shifts.{asl, lsr, rol, ror, read_modify, set_p}

-- What the chip reads once JAM has stopped it.
abbrev pub jam_reads : List ℕ
jam_reads = 0xffff ∷ 0xfffe ∷ 0xfffe ∷ 0xffff ∷ 0xffff ∷ 0xffff ∷ 0xffff ∷ 0xffff ∷ 0xffff ∷ []

-- A shift of memory, and then A combined with the result; the shift's status is kept until N and Z
-- of A replace its own.
unfoldable pub shift_combine : (ℕ → ℕ → ℕ × ℕ) → (ℕ → ℕ → ℕ) → ℕ → Action
unfolding read_modify
shift_combine shift combine address = do
  old ← read_modify address
  result ← gets (λ c. shift old c.p)
  write address result.0
  a ← gets (λ c. combine c.a result.0)
  modify (λ c. record c { a = a; p = set_nz result.1 a })

unfoldable pub op_slo : ℕ → Action
unfolding shift_combine
op_slo = shift_combine asl bit_or

unfoldable pub op_rla : ℕ → Action
unfolding shift_combine
op_rla = shift_combine rol bit_and

unfoldable pub op_sre : ℕ → Action
unfolding shift_combine
op_sre = shift_combine lsr bit_xor

unfoldable pub op_rra : ℕ → Action
unfolding read_modify set_ap
op_rra address = do
  old ← read_modify address
  result ← gets (λ c. ror old c.p)
  write address result.0
  sum ← gets (λ c. add c.a result.0 result.1 (bit_and result.1 c.decimal_mode))
  set_ap sum

unfoldable pub op_dcp : ℕ → Action
unfolding read_modify compare_with
op_dcp address = do
  old ← read_modify address
  let value = u8 (old + 0xff)
  write address value
  a ← gets (λ c. c.a)
  compare_with a value

unfoldable pub op_isc : ℕ → Action
unfolding read_modify set_ap
op_isc address = do
  old ← read_modify address
  let value = u8 (old + 1)
  write address value
  difference ← gets (λ c. subtract c.a value c.p (bit_and c.p c.decimal_mode))
  set_ap difference

unfoldable pub op_sax : ℕ → Action
op_sax address = do value ← gets (λ c. bit_and c.a c.x); write address value

unfoldable pub op_lax : ℕ → Action
op_lax address = do
  value ← read address
  modify (λ c. record c { a = value; x = value; p = set_nz c.p value })

unfoldable pub op_las : ℕ → Action
op_las address = do
  operand ← read address
  value ← gets (λ c. bit_and operand c.s)
  modify (λ c. record c { a = value; x = value; s = value; p = set_nz c.p value })

unfoldable pub op_anc : ℕ → Action
op_anc address = do
  old ← gets (λ c. c.a)
  value ← read address
  let a = bit_and old value
  modify (λ c. record c { a = a; p = bit_or (set_nz_clear_c c.p a) (a / 0x80) })

unfoldable pub op_alr : ℕ → Action
unfolding set_ap
op_alr address = do
  a ← gets (λ c. c.a)
  value ← read address
  result ← gets (λ c. lsr (bit_and a value) c.p)
  set_ap result

-- The decimal fix-up of ARR on the rotated `result`, with the digits of the `value` before it.
unfoldable pub arr_decimal : ℕ → ℕ → ℕ → ℕ × ℕ
unfolding or_if
arr_decimal value result p =
    let low =
      if leb 0x05 (bit_and value 0x0f)
      then bit_or (bit_and result 0xf0) (bit_and (result + 0x06) 0x0f)
      else result in
    let high = leb 0x50 (bit_and value 0xf0) in
    (if high then u8 (low + 0x60) else low, or_if high flag_c p)

-- ARR of the byte `value`: the result and the new status.
unfoldable pub arr : ℕ → ℕ → ℕ → ℕ × ℕ
unfolding nz or_if arr_decimal
arr value p decimal_mode =
    let result = bit_or (value / 2) (bit_and p flag_c * 0x80) in
    let p' =
      bit_or (bit_or (and_not p flags_nvzc) (nz result))
        (bit_and (bit_xor result (result * 2)) flag_v) in
    if truth (bit_and p' decimal_mode)
    then arr_decimal value result p'
    else (result, or_if (truth (bit_and result 0x40)) flag_c p')

unfoldable pub op_arr : ℕ → Action
unfolding set_ap
op_arr address = do
  a ← gets (λ c. c.a)
  value ← read address
  result ← gets (λ c. arr (bit_and a value) c.p c.decimal_mode)
  set_ap result

-- The status that SBX leaves. `difference >= 0` is `value <= register`.
unfoldable pub sbx_flags : ℕ → ℕ → ℕ → ℕ
unfolding set_nz_clear_c
sbx_flags register value p =
    bit_or (set_nz_clear_c p (u8 (register + 0x100 - value)))
      (if leb value register then flag_c else 0)

unfoldable pub op_sbx : ℕ → Action
op_sbx address = do
  register ← gets (λ c. bit_and c.a c.x)
  value ← read address
  modify (λ c. record c { x = u8 (register + 0x100 - value); p = sbx_flags register value c.p })

unfoldable pub op_usbc : ℕ → Action
unfolding set_ap
op_usbc address = do
  p ← gets (λ c. c.p)
  a ← gets (λ c. c.a)
  value ← read address
  mode ← gets (λ c. c.decimal_mode)
  set_ap (subtract a value p (bit_and p mode))

unfoldable pub op_ane : ℕ → Action
unfolding set_a_nz
op_ane address = do
  mask ← gets (λ c. bit_and (bit_or c.a c.ane_constant) c.x)
  value ← read address
  set_a_nz (bit_and mask value)

unfoldable pub op_lxa : ℕ → Action
op_lxa address = do
  mask ← gets (λ c. bit_or c.a c.lxa_constant)
  value ← read address
  let a = bit_and mask value
  modify (λ c. record c { a = a; x = a; p = set_nz c.p a })

-- `_store_and_high`: the address that is written, and the ANDed value.
unfoldable pub anded_store : ℕ → ℕ → ℕ → ℕ × ℕ
unfolding crosses_page
anded_store address index value =
    let base = u16 (address + 0x10000 - index) in
    let anded = bit_and (bit_and value (base / 0x100 + 1)) 0xff in
    (if crosses_page address base then bit_or (anded * 0x100) (u8 address) else address, anded)

unfoldable pub store_and_high : ℕ → ℕ → ℕ → Action
store_and_high address index value = do
  stalled ← gets (λ c. c.frame.dma_stalled)
  let (target, anded) = anded_store address index value
  write target (if stalled then value else anded)

unfoldable pub op_sha : ℕ → Action
unfolding store_and_high
op_sha address = do
  y ← gets (λ c. c.y)
  value ← gets (λ c. bit_and c.a c.x)
  store_and_high address y value

unfoldable pub op_shx : ℕ → Action
unfolding store_and_high
op_shx address = do y ← gets (λ c. c.y); x ← gets (λ c. c.x); store_and_high address y x

unfoldable pub op_shy : ℕ → Action
unfolding store_and_high
op_shy address = do x ← gets (λ c. c.x); y ← gets (λ c. c.y); store_and_high address x y

unfoldable pub op_tas : ℕ → Action
unfolding store_and_high
op_tas address = do
  s ← gets (λ c. bit_and c.a c.x)
  modify (λ c. record c { s = s })
  y ← gets (λ c. c.y)
  store_and_high address y s

unfoldable pub op_nop_read : ℕ → Action
op_nop_read address = do read address; ret tt

-- A read of each address in turn.
unfoldable pub read_each : List ℕ → Action
read_each [] = ret tt
read_each (address ∷ rest) = do read address; read_each rest

unfoldable pub op_jam : Action
unfolding read_pc read_each
op_jam = do
  read_pc
  read_each jam_reads
  modify (λ c. record c { frame = record (c.frame) { halted = true } })
