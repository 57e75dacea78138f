-- ===== src/Disasm/Lengths.antt =====
-- The lengths of src/sixfiveohtwo/disasm.py beside what the core of src/sixfiveohtwo/cpu.py does to PC.
use python.Prelude.{
  ℕ, ◌+◌, ◌-◌, ◌*◌, ◌<◌, ◌≡◌, refl, sym, ◌∙◌, ap, Bool, true, false, ◌||◌, some, length, ◌==◌, u16,
  bit_and, truth, every_below, every_below_lem, ==_iff, if◌then◌else◌, arith,
}
use python.Cpu.{Cpu, Bus, run}
use python.Control.{branch_target}
use python.Dispatch.{entry}
use python.Step.{execute}
use python.Step.Counter.{entry_jumps, entry_operands, execute-pc}
use python.Disasm.{
  length_of, decode, Instruction, Reader, byte, disassemble, relative_target, next_address,
}
use python.Disasm.Decoding.{disassemble-IsDecoded, IsDecoded-fields}

-- Every opcode jumps, or is as long as its operands and itself.
lengths_fit :
    every_below 256 (λ opcode.
      entry_jumps (entry opcode)
      || (length_of (decode opcode).1 == 1 + entry_operands (entry opcode)))
    ≡ true
unfolding every_below decode length_of entry_jumps entry_operands entry
lengths_fit = refl

length_of-decode :
    (opcode : ℕ)
    → opcode < 256
    → entry_jumps (entry opcode) ≡ false
    → length_of (decode opcode).1 ≡ 1 + entry_operands (entry opcode)
length_of-decode opcode h j =
    (==_iff (length_of (decode opcode).1) (1 + entry_operands (entry opcode))).0 (
      or_other _ _
        (every_below_lem 256
          (λ n. entry_jumps (entry n) || (length_of (decode n).1 == 1 + entry_operands (entry n)))
          opcode lengths_fit h)
        j)
  where
    or_other : (a b : Bool) → (a || b) ≡ true → a ≡ false → b ≡ true
    or_other true b h j = cc
    or_other false b h j = h

-- The address after an instruction is where the core's PC stands once it has executed it: on
-- every host, where the disassembler reads the byte at PC that the bus gives and the opcode is
-- not a branch, a jump, a call, a return or BRK.
pub next_address-execute :
    {H : Type 0} (bus : Bus H) (reader : Reader) (c : Cpu) (h : H) (i : Instruction)
    → disassemble reader c.pc ≡ some i
    → byte reader c.pc ≡ some (bus.read_byte c.pc h).0
    → entry_jumps (entry (bus.read_byte c.pc h).0) ≡ false
    → next_address i ≡ (run bus execute c h).1.pc
unfolding next_address
next_address-execute bus reader c h i decoded same j =
    let d = disassemble-IsDecoded reader c.pc decoded in
    let (here, counted, fits) = IsDecoded-fields reader c.pc i d in
    let opcode_eq : (bus.read_byte c.pc h).0 ≡ d.opcode = cc (sym same ∙ d.opcode_read) in
    let long =
      length_of-decode d.opcode fits (ap (λ o. entry_jumps (entry o)) (sym opcode_eq) ∙ j) in
    next_lem i.address (length i.bytes) c.pc (length_of (decode d.opcode).1)
      (entry_operands (entry d.opcode)) here counted long
    ∙ ap (λ o. u16 (c.pc + 1 + entry_operands (entry o))) (sym opcode_eq)
    ∙ sym (execute-pc bus c h j)
  where
    next_lem : (a n pc m k : ℕ) → a ≡ pc → n ≡ m → m ≡ 1 + k → u16 (a + n) ≡ u16 (pc + 1 + k)
    next_lem a n pc m k e f g = omega arith

-- The sign bit of an offset.
sign_bits :
    every_below 256 (λ offset. bit_and offset 0x80 == 0 || bit_and offset 0x80 == 0x80) ≡ true
unfolding every_below
sign_bits = refl

-- A branch's target, as the core computes it from PC after the operand.
pub relative_target-branch_target :
    (address offset : ℕ)
    → offset < 256
    → relative_target address offset ≡ branch_target (u16 (address + 2)) offset
unfolding relative_target branch_target
relative_target-branch_target address offset h =
    let sign =
      every_below_lem 256 (λ o. bit_and o 0x80 == 0 || bit_and o 0x80 == 0x80) offset sign_bits h in
    target_lem (bit_and offset 0x80) sign
  where
    target_lem :
        (b : ℕ)
        → (b == 0 || b == 0x80) ≡ true
        → (if truth b
            then u16 (address + 2 + 0x10000 + offset - 0x100)
            else u16 (address + 2 + offset))
          ≡ u16 (u16 (address + 2) + offset + 0x10000 - b * 2)
    target_lem b e = ground (arith, h, e)
