-- ===== src/Board/Examples.antt =====
-- A controller that lets line 33 through, and a UART that takes a byte.
use oemu.Common.{◌≡◌, refl, true, arith}
use oemu.Common.Status.{ok}
use oemu.Gicv2.{Gicv2, lines_of, lowest_active, running_priority}
use oemu.Pl011.{Pl011, init, inject, update_flags}
use oemu.Sysreg.{Sysregs}
use oemu.Board.{uart_spi, refresh_levels}
use oemu.Board.Deliver.{LetsThrough, refresh_levels-inject}

abbrev board_gic : Gicv2
board_gic = record {
  ctl = 1;
  typer = 1;
  iidr = 0;
  cpu_ctl = 1;
  cpu_pmr = 0xf0;
  cpu_bpr = 0;
  running_pri = 256;
  ccpner = 0;
  enable = λ i. 1;
  pending = λ i. 0;
  active = λ i. 0;
  config = λ i. 0;
  group = λ i. 0;
  priority = λ i. 0x80;
  target = λ i. 1;
  sgir = 0;
}

board_gic-LetsThrough : LetsThrough board_gic uart_spi
unfolding lines_of running_priority lowest_active
board_gic-LetsThrough = record {
  distributor_on = omega arith;
  interface_on = omega arith;
  present = omega arith;
  enabled = omega arith;
  idle = refl;
  targeted = omega arith;
  below_mask = omega arith;
  below_running = omega arith;
}

abbrev board_uart : Pl011
board_uart = record (init true) { cr = 0x201; imsc = 0x10 }

board_uart_accepts : (inject board_uart 67).0 ≡ ok
unfolding inject init update_flags
board_uart_accepts = refl

abbrev board_sys : Sysregs
board_sys = record {
  sp_el = λ i. 0;
  elr_el = λ i. 0;
  spsr_el = λ i. 0;
  vbar_el = λ i. 0;
  esr_el = λ i. 0;
  far_el = λ i. 0;
  sctlr_el1 = 0;
  ttbr0_el1 = 0;
  ttbr1_el1 = 0;
  tcr_el1 = 0;
  mair_el1 = 0;
  par_el1 = 0;
  cntvoff_el1 = 0;
  cntv_ctl_el1 = 1;
  cntv_cval_el1 = 100;
  cntkctl_el1 = 0;
  cntp_ctl_el1 = 0;
  cntp_cval_el1 = 0;
  cntfrq_el0 = 0;
  cntvct = 50;
  amair_el1 = 0;
  contextidr_el1 = 0;
  cpacr_el1 = 0;
  fpcr = 0;
  fpsr = 0;
  tpidr_el1 = 0;
  tpidr_el0 = 0;
  tpidrro_el0 = 0;
  pstate = 5;
}

refresh_levels-inject_example : refresh_levels board_gic (inject board_uart 67).1 board_sys ≡ true
refresh_levels-inject_example =
    refresh_levels-inject board_gic board_uart board_sys 67 board_gic-LetsThrough board_uart_accepts
      (omega arith)
