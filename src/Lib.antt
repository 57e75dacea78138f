-- ===== src/Lib.antt =====
-- The NMOS 6502 emulator `sixfiveohtwo`: the core with its instructions, bus cycles, interrupts and
-- state, and the tools around it: the disassembler, the debug session, traces and the command
-- debugger. Paths are from the repository's root.
--
-- The parts. A host owns memory and every device and gives the CPU two callables, `read_byte` and
-- `write_byte`; from inside them it may call the CPU's interrupt inputs. The frame
-- (src/sixfiveohtwo/frame.py) keeps the requests and what an instruction's interrupt poll saw of
-- them. The core (_core.py) makes the bus cycles of fetches, addressing modes and the stack; the
-- handlers (_alu.py, _loads.py, _shifts.py, _undocumented.py, _control.py) use it; the opcode map
-- (_dispatch.py) gives each opcode its handler, mode and base cycles; cpu.py runs one instruction,
-- and `step` of the frame runs one boundary. state.py is the snapshot of all this. disasm.py
-- decodes instructions from the same map. debug.py drives a CPU one boundary at a time, logs its
-- bus accesses and keeps records of the steps; trace.py compares and serializes those records;
-- console.py turns commands into calls of a debug session.
--
-- Which file models which part:
--   Prelude      shared names, tests on numbers, results that may be errors (Prelude/Options),
--                the binary digits of the bit operations
--   Text         texts as lists of code points, and hexadecimal (Text/Hex)
--   Flags        the status bits of P (_core.py)
--   Frame        frame.py: requests and polls; Frame/Boundary the decision and the snapshot
--                fields; Frame/Disturbed what a callback may change
--   Cpu          the attributes of a CPU and the type `Program` of sequences of bus cycles; a
--                host is a record `Bus` over a state of its own, and `run` runs a program on it
--   Cpu/Wp, Cpu/Safe, Cpu/Runs, Cpu/Binds
--                reasoning about a program on every host at once, the ranges of the attributes
--   Frame/Polls, Step/Polls, Control/Delays
--                which requests a boundary takes: made between steps, in a last cycle, after a
--                step that did not poll, and after CLI, SEI and PLP
--   Core, Alu, Loads, Shifts, Undocumented, Control
--                one definition per method of _core.py and of the handlers' files, with the name
--                of the method less its underscore; Ranges and Runs below them count cycles and
--                keep ranges; Alu/Arithmetic, Alu/Decimal and Alu/Compare are the
--                arithmetic
--   Dispatch     the opcode map (_dispatch.py), and its cycle counts
--   Step         `_execute`, `_halted` (cpu.py) and `step` (frame.py); Step/Counter where PC is
--                after an instruction that does not jump
--   State        state.py, with `capture_state` and `restore_state` of cpu.py
--   Disasm       disasm.py: the decoded table, `disassemble` and its kin (Names, Decoding);
--                Lengths, Errors and Listing below it for what they give and refuse
--   Debug        debug.py: Debug/Access the tracked bus and valid accesses, Debug/Boundary
--                `next_boundary`, Debug/Records the records of steps and runs, Debug/Session the
--                session with its marks, history and totals, Debug/Run its `run`. A target is a
--                record `DebugTarget` of two operations, with the laws `IsTarget` that `run`
--                needs of it; Debug/Session/Host gives both for the core on any host.
--                Debug/Entry, Debug/Reset and Debug/Jumps are the logs of an interrupt entry, of
--                a reset and of an indirect jump
--   Trace        trace.py: comparison of records and traces, the JSON values of a record
--                (Trace/Json) and their strict reading (Trace/Reading), and two live sessions in
--                lockstep (Trace/Lockstep)
--   Console      console.py over a session on the core: numbers, the lines printed, and
--                `execute` (Console/Execute) of a command that `shlex.split` has split in words;
--                Console/Keeps and Console/Refusals follow what each command leaves
--   Tests        the theorems at concrete inputs
--
-- How the code is modelled. `self` is the record `Cpu`, and its interrupt attributes the record
-- `Frame`. A handler is a `Program`: each bus access of the source is one `read_cycle` or
-- `write_cycle`, in the source's order, and each assignment of attributes between two accesses is
-- one `put`. The two bus routes that `_request` and `_confirm` set are two Booleans. A callback
-- is a list of calls of the frame's methods, made in the middle of the cycle, so a theorem for
-- every host covers every interleaving of requests, stalls and resets with the cycles. Numbers are
-- natural numbers with `& 0xFF` written out; where the source takes a difference, a multiple of
-- 256 (or 32) is added first. Programs are finite sequences, so no fuel is needed: a step always
-- ends. Code that may raise returns an `Option`, with the state that it leaves beside it; a command
-- of the console ends in lines, in a CommandError or in another error. The loops of `run`,
-- `first_session_divergence` and `over` recurse on the number of steps that the source bounds them
-- by. Rows of memory and decimal digits recurse on fuel, the number itself, which is more than
-- they use.
--
-- Not modelled: the checks on Python types, which are the types here; replacing the bus callables
-- of a CPU; the text of JSON (`json.dumps` and `json.loads` are the standard library), so
-- `write_trace`, `read_trace` and the `as_dict` reports; `shlex.split`, text streams and
-- `interact`; the messages of errors; the hooks that a subclass for another part overrides; digits
-- and spaces outside ASCII in numbers of the console; `__main__.py`, the benchmarks, the scripts
-- and the tests.
pub mod Prelude
pub mod Text
pub mod Flags
pub mod Frame
pub mod Cpu
pub mod Core
pub mod Alu
pub mod Loads
pub mod Shifts
pub mod Undocumented
pub mod Control
pub mod Dispatch
pub mod Step
pub mod State
pub mod Disasm
pub mod Debug
pub mod Trace
pub mod Console
pub mod Tests
