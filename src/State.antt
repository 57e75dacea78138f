-- ===== src/State.antt =====
-- src/sixfiveohtwo/state.py, with `capture_state` and `restore_state` of cpu.py. `none` is the
-- ValueError of a state that is out of range.
pub mod Roundtrip
use python.Prelude.{
  ℕ, ◌+◌, Bool, true, false, Option, none, some, ◌&&◌, ◌==◌, leb, bit_and, if◌then◌else◌,
}
use python.Flags.{flag_u, flag_i}
use python.Frame.{Frame}
use python.Frame.Boundary.{PollFields, poll_fields, restore_poll}
use python.Cpu.{Cpu}

-- `CPUState`; its last eight attributes are the frame's.
pub record CpuState : Type 0 where
  pub a : ℕ
  pub x : ℕ
  pub y : ℕ
  pub s : ℕ
  pub pc : ℕ
  pub p : ℕ
  pub poll : PollFields

-- The default values of the class.
abbrev pub initial_state : CpuState
initial_state = record {
  a = 0;
  x = 0;
  y = 0;
  s = 0;
  pc = 0;
  p = 0x24;
  poll = record {
    halted = false;
    reset_pending = false;
    maskable_interrupt_pending = false;
    non_maskable_interrupt_pending = false;
    polled_i = none;
    polled_maskable_interrupt = none;
    polled_non_maskable_interrupt = none;
    skipped_poll = false;
  };
}

-- The tests of `__post_init__` on the numbers; those of the other attributes are the types here.
unfoldable pub state_fits : CpuState → Bool
state_fits t =
    leb t.a 0xff
    && leb t.x 0xff
    && leb t.y 0xff
    && leb t.s 0xff
    && leb t.p 0xff
    && leb t.pc 0xffff
    && (bit_and t.p 0x30 == 0x20)

-- The construction of a state, which raises on one that is out of range.
unfoldable pub make_state : CpuState → Option CpuState
unfolding state_fits
make_state t = if state_fits t then some t else none

-- What `capture_state` passes to the constructor.
unfoldable pub state_of : Cpu → CpuState
unfolding poll_fields
state_of c = record {
  a = c.a;
  x = c.x;
  y = c.y;
  s = c.s;
  pc = c.pc;
  p = c.p;
  poll = poll_fields c.frame;
}

-- `capture_state`
unfoldable pub capture_state : Cpu → Option CpuState
unfolding make_state state_of
capture_state c = make_state (state_of c)

-- `restore_state`
unfoldable pub restore_state : CpuState → Cpu → Cpu
unfolding restore_poll
restore_state t c = record c {
  a = t.a;
  x = t.x;
  y = t.y;
  s = t.s;
  pc = t.pc;
  p = t.p;
  frame = restore_poll t.poll c.frame;
  extra = 0;
}
