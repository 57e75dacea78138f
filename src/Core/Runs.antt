-- ===== src/Core/Runs.antt =====
-- The addressing modes of src/sixfiveohtwo/_core.py: the bus cycles of each, and the extra cycle of
-- an indexed read that crosses a page.
use python.Prelude.{ℕ, ◌+◌, ◌<◌, ◌∙◌, Bool, true, false, u16, Bool-cases, inl, inr, arith}
use python.Cpu.{Cpu, Program, ◌>>=◌, gets}
use python.Cpu.Wp.{Wp-mono}
use python.Cpu.Runs.{Runs, Charges, Wp-after}
use python.Core.Addresses.{word-lt, stack-lt, same_page-lt}
use python.Core.{fetch_word, crosses_page, indexed, izy_base, ea_imm, ea_zp, ea_zpx, ea_zpy, ea_izx}

ruleset ranges = (arith, word-lt, stack-lt, same_page-lt)

abbrev pub IsAddress : ℕ → Type 0
IsAddress address = address < 65536

pub ea_imm-Runs : Runs IsAddress 0 ea_imm
unfolding ea_imm
ea_imm-Runs c n s = search ranges

pub ea_zp-Runs : Runs IsAddress 1 ea_zp
unfolding ea_zp
ea_zp-Runs c n s = search ranges

pub ea_zpx-Runs : Runs IsAddress 2 ea_zpx
unfolding ea_zpx
ea_zpx-Runs c n s = search ranges

pub ea_zpy-Runs : Runs IsAddress 2 ea_zpy
unfolding ea_zpy
ea_zpy-Runs c n s = search ranges

pub fetch_word-Runs : Runs IsAddress 2 fetch_word
unfolding fetch_word
fetch_word-Runs c n s = search ranges

pub ea_izx-Runs : Runs IsAddress 4 ea_izx
unfolding ea_izx
ea_izx-Runs c n s = search ranges

pub izy_base-Runs : Runs IsAddress 3 izy_base
unfolding izy_base
izy_base-Runs c n s = search ranges

-- A write or a read-modify-write always makes the dummy read.
pub indexed_write-Runs :
    (base index : ℕ) → base < 65536 → Runs IsAddress 1 (indexed base index true)
unfolding indexed
indexed_write-Runs base index h c n s = search ranges

pub indexed-Charges :
    (base index : ℕ) → base < 65536 → Charges IsAddress 0 (indexed base index false)
unfolding indexed
indexed-Charges base index h c n s e = elim (Bool-cases (crosses_page (u16 (base + index)) base)) [
  | inl crossed ↦ rw crossed (search ranges)
  | inr same ↦ rw same (search ranges)
]

-- The absolute and indirect modes compute a base first, and then index it.
module _ (base : Program ℕ) (cycles : ℕ) (register : Cpu → ℕ) where
  abbrev pub indexing : Bool → Program ℕ
  indexing is_write = do address ← base; index ← gets register; indexed address index is_write

  pub indexing_write-Runs : Runs IsAddress cycles base → Runs IsAddress (cycles + 1) (indexing true)
  indexing_write-Runs runs c n s = Wp-after IsAddress cycles _ base _ c n runs s λ a c' s' e fits.
      Wp-mono (indexed a (register c') true) c' (n + cycles)
        (λ r c'' n'' h. (h.0, omega (arith, h.1), h.2 ∙ e, h.3))
        (indexed_write-Runs a (register c') fits c' (n + cycles) s')

  pub indexing-Charges : Runs IsAddress cycles base → Charges IsAddress cycles (indexing false)
  indexing-Charges runs c n s e = Wp-after IsAddress cycles _ base _ c n runs s λ a c' s' e' fits.
      Wp-mono (indexed a (register c') false) c' (n + cycles)
        (λ r c'' n'' h. (h.0, omega (arith, h.1), h.2))
        (indexed-Charges a (register c') fits c' (n + cycles) s' (e' ∙ e))
