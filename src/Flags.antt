-- ===== src/Flags.antt =====
-- src/sixfiveohtwo/_core.py: the status bits of P, and N and Z of a result.
use python.Prelude.{ℕ, ◌+◌, bit_and, bit_or, ◌==◌, if◌then◌else◌}
use python.Prelude.Bits.{and_not}

abbrev pub flag_n : ℕ
flag_n = 0x80

abbrev pub flag_v : ℕ
flag_v = 0x40

abbrev pub flag_u : ℕ
flag_u = 0x20

abbrev pub flag_b : ℕ
flag_b = 0x10

abbrev pub flag_d : ℕ
flag_d = 0x08

abbrev pub flag_i : ℕ
flag_i = 0x04

abbrev pub flag_z : ℕ
flag_z = 0x02

abbrev pub flag_c : ℕ
flag_c = 0x01

-- The stack is page one.
abbrev pub stack : ℕ
stack = 0x0100

-- `NZ[value]`, at a byte.
unfoldable pub nz : ℕ → ℕ
nz value = bit_or (bit_and value flag_n) (if value == 0 then flag_z else 0)

-- `(p & ~(N | Z)) | NZ[value]`
unfoldable pub set_nz : ℕ → ℕ → ℕ
unfolding nz
set_nz p value = bit_or (and_not p (flag_n + flag_z)) (nz value)

-- `(p & ~(N | Z | C)) | NZ[value]`
unfoldable pub set_nz_clear_c : ℕ → ℕ → ℕ
unfolding nz
set_nz_clear_c p value = bit_or (and_not p (flag_n + flag_z + flag_c)) (nz value)
