-- ===== src/Shifts.antt =====
-- src/sixfiveohtwo/_shifts.py: shifts, rotates, and memory increment and decrement.
pub mod Ranges
pub mod Runs
use python.Prelude.{ℕ, ◌+◌, ◌*◌, ◌/◌, bit_and, bit_or, u8}
use python.Flags.{flag_c, set_nz, set_nz_clear_c}
use python.Cpu.{Cpu, Program, ret, ◌>>=◌, ◌>>◌, Action, gets, modify, read, write}
use python.Core.{read_pc}
use python.Alu.{set_ap}

-- `_asl`, `_lsr`, `_rol` and `_ror`: the result and the new status.
unfoldable pub asl : ℕ → ℕ → ℕ × ℕ
unfolding set_nz_clear_c
asl value p =
    let result = u8 (value * 2) in (result, bit_or (set_nz_clear_c p result) (value / 0x80))

unfoldable pub lsr : ℕ → ℕ → ℕ × ℕ
unfolding set_nz_clear_c
lsr value p =
    let result = value / 2 in (result, bit_or (set_nz_clear_c p result) (bit_and value flag_c))

unfoldable pub rol : ℕ → ℕ → ℕ × ℕ
unfolding set_nz_clear_c
rol value p =
    let result = u8 (bit_or (value * 2) (bit_and p flag_c)) in
    (result, bit_or (set_nz_clear_c p result) (value / 0x80))

unfoldable pub ror : ℕ → ℕ → ℕ × ℕ
unfolding set_nz_clear_c
ror value p =
    let result = bit_or (value / 2) (bit_and p flag_c * 0x80) in
    (result, bit_or (set_nz_clear_c p result) (bit_and value flag_c))

-- `_modify` of the byte at an address: read it, and write it back unchanged.
unfoldable pub read_modify : ℕ → Program ℕ
read_modify address = do value ← read address; write address value; ret value

unfoldable pub set_p : ℕ → Action
set_p p = modify (λ c. record c { p = p })

-- A read-modify-write by one of the shifts; the shifted value is returned, with P stored.
unfoldable pub shift_memory : (ℕ → ℕ → ℕ × ℕ) → ℕ → Program ℕ
unfolding read_modify set_p
shift_memory shift address = do
  value ← read_modify address
  result ← gets (λ c. shift value c.p)
  set_p result.1
  ret result.0

-- A shift of A.
unfoldable pub shift_a : (ℕ → ℕ → ℕ × ℕ) → Action
unfolding read_pc set_ap
shift_a shift = do read_pc; result ← gets (λ c. shift c.a c.p); set_ap result

unfoldable pub op_asl : ℕ → Action
unfolding shift_memory
op_asl address = do value ← shift_memory asl address; write address value

unfoldable pub op_lsr : ℕ → Action
unfolding shift_memory
op_lsr address = do value ← shift_memory lsr address; write address value

unfoldable pub op_rol : ℕ → Action
unfolding shift_memory
op_rol address = do value ← shift_memory rol address; write address value

unfoldable pub op_ror : ℕ → Action
unfolding shift_memory
op_ror address = do value ← shift_memory ror address; write address value

unfoldable pub op_inc : ℕ → Action
unfolding read_modify
op_inc address = do
  old ← read_modify address
  let value = u8 (old + 1)
  modify (λ c. record c { p = set_nz c.p value })
  write address value

unfoldable pub op_dec : ℕ → Action
unfolding read_modify
op_dec address = do
  old ← read_modify address
  let value = u8 (old + 0xff)
  modify (λ c. record c { p = set_nz c.p value })
  write address value

unfoldable pub op_asl_a : Action
unfolding shift_a
op_asl_a = shift_a asl

unfoldable pub op_lsr_a : Action
unfolding shift_a
op_lsr_a = shift_a lsr

unfoldable pub op_rol_a : Action
unfolding shift_a
op_rol_a = shift_a rol

unfoldable pub op_ror_a : Action
unfolding shift_a
op_ror_a = shift_a ror
