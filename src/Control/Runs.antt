-- ===== src/Control/Runs.antt =====
-- The handlers of src/sixfiveohtwo/_control.py: what each puts on the bus, the cycles that it makes,
-- and the ranges of the attributes after it.
use python.Prelude.{arith}
use python.Cpu.Runs.{Runs}
use python.Core.Addresses.{word-lt, stack-lt, same_page-lt}
use python.Cpu.Safe.{set_nz-IsStatus, bit_or-IsStatus, and_not-IsStatus}
use python.Control.Ranges.{pulled_p-IsStatus, pushed_p-byte, bit_and_i-Held}
use python.Control.{
  op_jmp, op_jmp_ind, op_jsr, op_rts, op_pha, op_php, op_pla, op_plp, op_clc, op_sec, op_cld,
  op_sed, op_clv, op_cli, op_sei, op_nop, op_rti,
}

ruleset ranges = (
  arith, set_nz-IsStatus, bit_or-IsStatus, and_not-IsStatus, pulled_p-IsStatus, pushed_p-byte,
  word-lt, stack-lt, same_page-lt, bit_and_i-Held,
)

pub op_jmp-Runs : Runs (λ _. Unit {0}) 2 op_jmp
unfolding op_jmp
op_jmp-Runs c n s = search ranges

pub op_jmp_ind-Runs : Runs (λ _. Unit {0}) 4 op_jmp_ind
unfolding op_jmp_ind
op_jmp_ind-Runs c n s = search ranges

pub op_jsr-Runs : Runs (λ _. Unit {0}) 5 op_jsr
unfolding op_jsr
op_jsr-Runs c n s = search ranges

pub op_rts-Runs : Runs (λ _. Unit {0}) 5 op_rts
unfolding op_rts
op_rts-Runs c n s = search ranges

pub op_pha-Runs : Runs (λ _. Unit {0}) 2 op_pha
unfolding op_pha
op_pha-Runs c n s = search ranges

pub op_php-Runs : Runs (λ _. Unit {0}) 2 op_php
unfolding op_php
op_php-Runs c n s = search ranges

pub op_pla-Runs : Runs (λ _. Unit {0}) 3 op_pla
unfolding op_pla
op_pla-Runs c n s = search ranges

pub op_plp-Runs : Runs (λ _. Unit {0}) 3 op_plp
unfolding op_plp
op_plp-Runs c n s = search ranges

pub op_clc-Runs : Runs (λ _. Unit {0}) 1 op_clc
unfolding op_clc
op_clc-Runs c n s = search ranges

pub op_sec-Runs : Runs (λ _. Unit {0}) 1 op_sec
unfolding op_sec
op_sec-Runs c n s = search ranges

pub op_cld-Runs : Runs (λ _. Unit {0}) 1 op_cld
unfolding op_cld
op_cld-Runs c n s = search ranges

pub op_sed-Runs : Runs (λ _. Unit {0}) 1 op_sed
unfolding op_sed
op_sed-Runs c n s = search ranges

pub op_clv-Runs : Runs (λ _. Unit {0}) 1 op_clv
unfolding op_clv
op_clv-Runs c n s = search ranges

pub op_cli-Runs : Runs (λ _. Unit {0}) 1 op_cli
unfolding op_cli
op_cli-Runs c n s = search ranges

pub op_sei-Runs : Runs (λ _. Unit {0}) 1 op_sei
unfolding op_sei
op_sei-Runs c n s = search ranges

pub op_nop-Runs : Runs (λ _. Unit {0}) 1 op_nop
unfolding op_nop
op_nop-Runs c n s = search ranges

pub op_rti-Runs : Runs (λ _. Unit {0}) 5 op_rti
unfolding op_rti
op_rti-Runs c n s = search ranges
