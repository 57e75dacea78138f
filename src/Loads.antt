-- ===== src/Loads.antt =====
-- src/sixfiveohtwo/_loads.py: loads, stores, register transfers and register increments.
pub mod Runs
use python.Prelude.{ℕ, ◌+◌, u8}
use python.Flags.{set_nz}
use python.Cpu.{Cpu, Program, ◌>>=◌, ◌>>◌, Action, gets, modify, read, write}
use python.Core.{read_pc}
use python.Alu.{set_a_nz}

unfoldable pub set_x_nz : ℕ → Action
set_x_nz x = modify (λ c. record c { x = x; p = set_nz c.p x })

unfoldable pub set_y_nz : ℕ → Action
set_y_nz y = modify (λ c. record c { y = y; p = set_nz c.p y })

unfoldable pub op_lda : ℕ → Action
unfolding set_a_nz
op_lda address = do a ← read address; set_a_nz a

unfoldable pub op_ldx : ℕ → Action
unfolding set_x_nz
op_ldx address = do x ← read address; set_x_nz x

unfoldable pub op_ldy : ℕ → Action
unfolding set_y_nz
op_ldy address = do y ← read address; set_y_nz y

unfoldable pub op_sta : ℕ → Action
op_sta address = do a ← gets (λ c. c.a); write address a

unfoldable pub op_stx : ℕ → Action
op_stx address = do x ← gets (λ c. c.x); write address x

unfoldable pub op_sty : ℕ → Action
op_sty address = do y ← gets (λ c. c.y); write address y

unfoldable pub op_tax : Action
unfolding read_pc set_x_nz
op_tax = do read_pc; a ← gets (λ c. c.a); set_x_nz a

unfoldable pub op_tay : Action
unfolding read_pc set_y_nz
op_tay = do read_pc; a ← gets (λ c. c.a); set_y_nz a

unfoldable pub op_txa : Action
unfolding read_pc set_a_nz
op_txa = do read_pc; x ← gets (λ c. c.x); set_a_nz x

unfoldable pub op_tya : Action
unfolding read_pc set_a_nz
op_tya = do read_pc; y ← gets (λ c. c.y); set_a_nz y

unfoldable pub op_tsx : Action
unfolding read_pc set_x_nz
op_tsx = do read_pc; s ← gets (λ c. c.s); set_x_nz s

unfoldable pub op_txs : Action
unfolding read_pc
op_txs = do read_pc; modify (λ c. record c { s = c.x })

unfoldable pub op_inx : Action
unfolding read_pc set_x_nz
op_inx = do read_pc; x ← gets (λ c. u8 (c.x + 1)); set_x_nz x

unfoldable pub op_iny : Action
unfolding read_pc set_y_nz
op_iny = do read_pc; y ← gets (λ c. u8 (c.y + 1)); set_y_nz y

unfoldable pub op_dex : Action
unfolding read_pc set_x_nz
op_dex = do read_pc; x ← gets (λ c. u8 (c.x + 0xff)); set_x_nz x

unfoldable pub op_dey : Action
unfolding read_pc set_y_nz
op_dey = do read_pc; y ← gets (λ c. u8 (c.y + 0xff)); set_y_nz y
