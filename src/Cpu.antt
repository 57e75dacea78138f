-- ===== src/Cpu.antt =====
-- The attributes of a CPU (src/sixfiveohtwo/_core.py and cpu.py), and its programs: what a handler
-- does is a sequence of bus cycles, with the attributes read and set in between. The host, which
-- owns memory and every device, is the record `Bus`; `run` lets a program run on one.
pub mod Wp
pub mod Safe
pub mod Runs
pub mod Binds
use python.Prelude.{ℕ, ◌+◌, ◌<◌, Bool, true, false, List, if◌then◌else◌}
use python.Flags.{flag_u, flag_i, flag_d}
use python.Frame.{Frame, init_frame, confirm, Call, run_calls}

pub record Cpu : Type 0 where
  pub a : ℕ
  pub x : ℕ
  pub y : ℕ
  pub s : ℕ
  pub pc : ℕ
  pub p : ℕ
  pub extra : ℕ
  pub decimal_mode : ℕ
  pub ane_constant : ℕ
  pub lxa_constant : ℕ
  pub frame : Frame

-- A new `MOS6502`: `_init_core` and the class attributes.
unfoldable pub mos6502 : Cpu
mos6502 = record {
  a = 0;
  x = 0;
  y = 0;
  s = 0;
  pc = 0;
  p = flag_u + flag_i;
  extra = 0;
  decimal_mode = flag_d;
  ane_constant = 0xee;
  lxa_constant = 0xee;
  frame = init_frame;
}

-- A new `RP2A03`.
unfoldable pub rp2a03 : Cpu
unfolding mos6502
rp2a03 = record mos6502 { decimal_mode = 0 }

-- A sequence of bus cycles with a result.
pub data Program (A : Type 0) : Type 0 where
  ret : A → Program A
  get : (Cpu → Program A) → Program A
  put : Cpu → Program A → Program A
  read_cycle : ℕ → (ℕ → Program A) → Program A
  write_cycle : ℕ → ℕ → Program A → Program A

infixl 5 ◌>>=◌ ◌>>◌
abbrev pub ◌>>=◌ : {A B : Type 0} → Program A → (A → Program B) → Program B
ret a >>= k = k a
get f >>= k = get (λ c. f c >>= k)
put c m >>= k = put c (m >>= k)
read_cycle address f >>= k = read_cycle address (λ value. f value >>= k)
write_cycle address value m >>= k = write_cycle address value (m >>= k)

abbrev pub ◌>>◌ : {A B : Type 0} → Program A → Program B → Program B
m >> k = m >>= λ _. k

abbrev pub Action : Type 0
Action = Program (Unit {0})

-- The attributes, read and changed.
abbrev pub gets : {A : Type 0} → (Cpu → A) → Program A
gets f = get (λ c. ret (f c))

abbrev pub modify : (Cpu → Cpu) → Action
modify f = get (λ c. put (f c) (ret tt))

-- `self._read(address)` and `self._write(address, value)`
abbrev pub read : ℕ → Program ℕ
read address = read_cycle address (λ value. ret value)

abbrev pub write : ℕ → ℕ → Action
write address value = write_cycle address value (ret tt)

-- The host's two callables over its own state `H`. Each also makes some calls on the CPU, in
-- order. What `read_byte` returns is a byte.
pub record Bus (H : Type 0) : Type 0 where
  pub read_byte : ℕ → H → ℕ × List Call × H
  pub write_byte : ℕ → ℕ → H → List Call × H
  pub read_byte-lt : (address : ℕ) (h : H) → (read_byte address h).0 < 256

-- The routes `_read_confirming` and `_write_confirming` confirm, and the plain ones do not.
unfoldable pub routed : Bool → Frame → Frame
routed confirming f = if confirming then confirm f else f

module _ {H : Type 0} (bus : Bus H) where
  unfoldable pub run : {A : Type 0} → Program A → Cpu → H → A × Cpu × H
  unfolding routed
  run (ret a) c h = (a, c, h)
  run (get f) c h = run (f c) c h
  run (put c' m) c h = run m c' h
  run (read_cycle address f) c h =
      let (value, calls, h') = bus.read_byte address h in
      run (f value) (record c { frame = run_calls calls (routed c.frame.read_confirming c.frame) })
        h'
  run (write_cycle address value m) c h =
      let (calls, h') = bus.write_byte address value h in
      run m (record c { frame = run_calls calls (routed c.frame.write_confirming c.frame) }) h'
