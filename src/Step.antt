-- ===== src/Step.antt =====
-- src/sixfiveohtwo/cpu.py and frame.py: one instruction, and the step at a boundary.
pub mod Cycles
pub mod Polls
pub mod Counter
use python.Prelude.{
  ℕ, ◌+◌, Bool, true, false, Option, none, some, ◌||◌, truth, u16, maybe, if◌then◌else◌,
}
use python.Frame.{Frame}
use python.Frame.Boundary.{boundary_interrupt}
use python.Cpu.{Cpu, Program, ret, get, put, ◌>>=◌, ◌>>◌, Action, gets, modify, read}
use python.Core.{set_pc}
use python.Control.{modify_frame, enter_interrupt, accept_reset}
use python.Dispatch.{entry, effective_address, implied_handler, addressed_handler}
use python.Dispatch.Names.{Entry, implied, addressed, base_cycles}

-- The handler of an entry, given the address that its mode computes.
unfoldable pub dispatch : Entry → Action
dispatch (implied handler _) = implied_handler handler
dispatch (addressed handler mode _) = do
  address ← effective_address mode
  addressed_handler handler address

-- The count of an instruction: the base count, and the extra cycles, which are reset.
unfoldable pub count_cycles : ℕ → Program ℕ
count_cycles cycles =
    get λ c.
      if truth c.extra then put (record c { extra = 0 }) (ret (cycles + c.extra)) else ret cycles

-- `_execute`
unfoldable pub execute : Program ℕ
unfolding set_pc count_cycles
execute = do
  pc ← gets (λ c. c.pc)
  opcode ← read pc
  set_pc (u16 (pc + 1))
  dispatch (entry opcode)
  count_cycles (base_cycles (entry opcode))

-- `_halted`
unfoldable pub halted_cycle : Program ℕ
halted_cycle = do read 0xffff; ret 1

-- Whether a boundary has an interrupt to decide.
unfoldable pub remembers : Frame → Bool
remembers f =
    truth f.requests || (maybe false (λ _. true) f.polled || maybe false (λ _. true) f.polled_i)

-- The interrupt to take, 0 for none; the decision is skipped where nothing is remembered.
unfoldable pub decide : Program ℕ
decide = get λ c.
    if remembers c.frame
    then (let (taken, f) = boundary_interrupt c.p c.frame in
        put (record c { frame = f }) (ret taken))
    else ret 0

-- What an instruction's poll saw is kept for the next boundary when a request has changed since.
unfoldable pub settle : Frame → Frame
settle f = elim f.deferred [
  | none ↦ f
  | some requests ↦ record f { polled = some requests; deferred = none }
]

-- An instruction, and the memory of its poll.
unfoldable pub instruction : Program ℕ
instruction = do cycles ← execute; modify_frame settle; ret cycles

-- At a boundary with no reset pending and no halt.
unfoldable pub proceed : ℕ → Program ℕ
proceed taken = if truth taken then enter_interrupt taken else instruction

-- A boundary of a running CPU.
unfoldable pub boundary : Program ℕ
boundary = do taken ← decide; proceed taken

-- `step`
unfoldable pub step : Program ℕ
step = get λ c.
    if c.frame.reset_pending
    then accept_reset
    else if c.frame.halted
    then halted_cycle
    else boundary
