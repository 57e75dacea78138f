-- ===== src/Debug/Access.antt =====
-- src/sixfiveohtwo/debug.py: a bus access, and the wrappers that record each one.
use python.Prelude.{ℕ, Bool, List, [], ◌∷◌, ◌++◌, ◌&&◌, leb}
use python.Cpu.{Bus}

-- The kind is `"r"` or `"w"`.
pub data Kind : Type 0 where
  r w : Kind

pub record Access : Type 0 where
  pub kind : Kind
  pub address : ℕ
  pub value : ℕ

-- `StepRecord.valid_access`, of a tuple of two numbers with one of the two kinds.
unfoldable pub valid_access : Access → Bool
valid_access access = leb access.address 0xffff && leb access.value 0xff

-- `_wrap_bus`: the two tracked callables over a host and its log. A write is logged before it is
-- made, and a read after.
unfoldable pub tracked : {H : Type 0} → Bus H → Bus (H × List Access)
tracked bus = record {
  read_byte = λ address s.
      let (value, calls, h) = bus.read_byte address s.0 in
      (value, calls, (h, s.1 ++ record { kind = Kind.r; address = address; value = value } ∷ []));
  write_byte = λ address value s.
      let log = s.1 ++ record { kind = Kind.w; address = address; value = value } ∷ [] in
      let (calls, h) = bus.write_byte address value s.0 in (calls, (h, log));
  read_byte-lt = λ address s. bus.read_byte-lt address s.0;
}
