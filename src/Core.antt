-- ===== src/Core.antt =====
-- src/sixfiveohtwo/_core.py: fetch, effective addresses and the stack, one bus cycle a line.
pub mod Addresses
pub mod Runs
use python.Prelude.{
  ℕ, ◌+◌, ◌*◌, ◌%◌, bit_and, bit_or, bit_xor, Bool, true, false, ◌||◌, truth, u8, u16,
  if◌then◌else◌,
}
use python.Flags.{stack}
use python.Cpu.{Cpu, Program, ret, ◌>>=◌, ◌>>◌, Action, gets, modify, read, write}

-- `(high << 8) | low`
unfoldable pub word : ℕ → ℕ → ℕ
word high low = bit_or (high * 0x100) low

-- Whether two addresses lie on different pages: `(a ^ b) & 0xFF00`.
unfoldable pub crosses_page : ℕ → ℕ → Bool
crosses_page a b = truth (bit_and (bit_xor a b) 0xff00)

-- The page of one address with the low byte of another: `(a & 0xFF00) | (b & 0xFF)`.
unfoldable pub same_page : ℕ → ℕ → ℕ
same_page a b = bit_or (bit_and a 0xff00) (u8 b)

unfoldable pub set_pc : ℕ → Action
set_pc pc = modify (λ c. record c { pc = pc })

-- `_fetch`
unfoldable pub fetch : Program ℕ
unfolding set_pc
fetch = do pc ← gets (λ c. c.pc); set_pc (u16 (pc + 1)); read pc

-- `_fetch_word`: the low byte first.
unfoldable pub fetch_word : Program ℕ
unfolding fetch
fetch_word = do low ← fetch; high ← fetch; ret (word high low)

-- `_read_pc`: a dummy read.
unfoldable pub read_pc : Program ℕ
read_pc = do pc ← gets (λ c. c.pc); read pc

unfoldable pub ea_imm : Program ℕ
unfolding set_pc
ea_imm = do pc ← gets (λ c. c.pc); set_pc (u16 (pc + 1)); ret pc

unfoldable pub ea_zp : Program ℕ
unfolding fetch
ea_zp = fetch

unfoldable pub ea_zpx : Program ℕ
unfolding fetch
ea_zpx = do base ← fetch; read base; x ← gets (λ c. c.x); ret (u8 (base + x))

unfoldable pub ea_zpy : Program ℕ
unfolding fetch
ea_zpy = do base ← fetch; read base; y ← gets (λ c. c.y); ret (u8 (base + y))

unfoldable pub ea_abs : Program ℕ
unfolding fetch_word
ea_abs = fetch_word

-- What `_indexed` does after the dummy read: a read that crossed a page costs a cycle more.
unfoldable pub charge : Bool → Action
charge true = ret tt
charge false = modify (λ c. record c { extra = 1 })

-- `_indexed`
unfoldable pub indexed : ℕ → ℕ → Bool → Program ℕ
unfolding charge
indexed base index is_write =
    let address = u16 (base + index) in
    if is_write || crosses_page address base
    then (do read (same_page base address); charge is_write; ret address)
    else ret address

unfoldable pub ea_abx : Program ℕ
unfolding fetch_word indexed
ea_abx = do base ← fetch_word; x ← gets (λ c. c.x); indexed base x false

unfoldable pub ea_aby : Program ℕ
unfolding fetch_word indexed
ea_aby = do base ← fetch_word; y ← gets (λ c. c.y); indexed base y false

unfoldable pub ea_abx_w : Program ℕ
unfolding fetch_word indexed
ea_abx_w = do base ← fetch_word; x ← gets (λ c. c.x); indexed base x true

unfoldable pub ea_aby_w : Program ℕ
unfolding fetch_word indexed
ea_aby_w = do base ← fetch_word; y ← gets (λ c. c.y); indexed base y true

-- A pointer's two bytes in page zero, the second wrapping within it.
unfoldable pub zero_page_word : ℕ → Program ℕ
zero_page_word pointer = do low ← read pointer; high ← read (u8 (pointer + 1)); ret (word high low)

unfoldable pub ea_izx : Program ℕ
unfolding fetch zero_page_word
ea_izx = do base ← fetch; read base; x ← gets (λ c. c.x); zero_page_word (u8 (base + x))

-- `_izy_base`
unfoldable pub izy_base : Program ℕ
unfolding fetch zero_page_word
izy_base = do pointer ← fetch; zero_page_word pointer

unfoldable pub ea_izy : Program ℕ
unfolding izy_base indexed
ea_izy = do base ← izy_base; y ← gets (λ c. c.y); indexed base y false

unfoldable pub ea_izy_w : Program ℕ
unfolding izy_base indexed
ea_izy_w = do base ← izy_base; y ← gets (λ c. c.y); indexed base y true

-- `_push`
unfoldable pub push : ℕ → Action
push value = do
  s ← gets (λ c. c.s)
  write (bit_or stack s) value
  modify (λ c. record c { s = u8 (s + 0xff) })

-- `_pull`
unfoldable pub pull : Program ℕ
pull = do s ← gets (λ c. u8 (c.s + 1)); modify (λ c. record c { s = s }); read (bit_or stack s)

-- `_read_stack`: a dummy read.
unfoldable pub read_stack : Program ℕ
read_stack = do s ← gets (λ c. c.s); read (bit_or stack s)
