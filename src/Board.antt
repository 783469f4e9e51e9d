-- ===== src/Board.antt =====
-- src/main.c: `boot_refresh_levels`, which samples the level-driven interrupt sources and hands the
-- controller's word to the vCPU.
pub mod Deliver
mod Examples
use oemu.Common.{ℕ, ◌+◌, ◌-◌, ◌^◌, Bool, ◌!=◌}
use oemu.Common.Word.{u64}
use oemu.Gicv2.{Gicv2, set_pending}
use oemu.Gicv2 as Gic
use oemu.Gtimer.{pending}
use oemu.Pl011.{Pl011}
use oemu.Pl011.Bus as Uart
use oemu.Sysreg.{Sysregs}

-- BOOT_UART_SPI, BOOT_TIMER_PHYS_PPI and BOOT_TIMER_VIRT_PPI
abbrev pub uart_spi : ℕ
uart_spi = 33

abbrev pub timer_phys_ppi : ℕ
timer_phys_ppi = 30

abbrev pub timer_virt_ppi : ℕ
timer_virt_ppi = 27

-- The three calls of `oemu_gicv2_set_pending`.
unfoldable pub sample_levels : Gicv2 → Pl011 → Sysregs → Gicv2
unfolding pending
sample_levels gic uart sys =
    let with_uart = set_pending gic uart_spi (Uart.irq_level uart) in
    let with_virt = set_pending with_uart timer_virt_ppi (
      pending (u64 (sys.cntvct + 2 ^ 64 - sys.cntvoff_el1)) sys.cntv_ctl_el1 sys.cntv_cval_el1
      != 0) in
    set_pending with_virt timer_phys_ppi
      (pending sys.cntvct sys.cntp_ctl_el1 sys.cntp_cval_el1 != 0)

-- The level that the vCPU is given.
unfoldable pub refresh_levels : Gicv2 → Pl011 → Sysregs → Bool
unfolding sample_levels
refresh_levels gic uart sys = Gic.irq_level (sample_levels gic uart sys) != 0
