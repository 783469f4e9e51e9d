-- ===== src/Board/Deliver.antt =====
-- src/main.c: a byte from the host, on its way to the vCPU's interrupt input.
use oemu.Common.{ℕ, ◌<◌, min, bit_and, ◌≡◌, ◌≢◌, refl, ap, true, ◌!=◌, arith}
use oemu.Common.Status.{ok}
use oemu.Gicv2.{Gicv2, max_lines, lines_of, running_priority, set_pending}
use oemu.Gicv2.Scan.{IsCandidate}
use oemu.Gicv2.Acknowledge.{irq_level_iff}
use oemu.Pl011.{Pl011, int_rx, inject}
use oemu.Pl011.Bus as Uart
use oemu.Pl011.Receive.{irq_level-inject}
use oemu.Sysreg.{Sysregs}
use oemu.Board.{uart_spi, sample_levels, refresh_levels}

-- The controller lets the line through: all that a candidate needs but its pending state.
pub record LetsThrough (gic : Gicv2) (line : ℕ) : Type 0 where
  pub distributor_on : bit_and gic.ctl 1 ≢ 0
  pub interface_on : bit_and gic.cpu_ctl 1 ≢ 0
  pub present : line < min (lines_of gic) max_lines
  pub enabled : gic.enable line ≢ 0
  pub idle : gic.active line ≡ 0
  pub targeted : bit_and (gic.target line) 1 ≢ 0
  pub below_mask : gic.priority line < bit_and gic.cpu_pmr 0xff
  pub below_running : gic.priority line < running_priority gic

sample_levels-IsCandidate :
    (gic : Gicv2) (uart : Pl011) (sys : Sysregs)
    → LetsThrough gic uart_spi
    → Uart.irq_level uart ≡ true
    → IsCandidate (sample_levels gic uart sys) uart_spi
unfolding sample_levels set_pending running_priority lines_of
sample_levels-IsCandidate gic uart sys lets raised = (
  lets.present,
  (
    lets.enabled,
    ground (arith, raised),
    lets.idle,
    lets.targeted,
    lets.below_mask,
    lets.below_running,
  ),
)

sample_levels-enables :
    (gic : Gicv2) (uart : Pl011) (sys : Sysregs)
    → ((sample_levels gic uart sys).ctl ≡ gic.ctl)
      × ((sample_levels gic uart sys).cpu_ctl ≡ gic.cpu_ctl)
unfolding sample_levels set_pending
sample_levels-enables gic uart sys = (refl, refl)

-- Where the controller lets the UART's line through and the receive interrupt is not masked, a byte
-- that the UART accepts from the host raises the vCPU's interrupt input at the next refresh of the
-- levels, whatever the timers do.
pub refresh_levels-inject :
    (gic : Gicv2) (uart : Pl011) (sys : Sysregs) (byte : ℕ)
    → LetsThrough gic uart_spi
    → (inject uart byte).0 ≡ ok
    → bit_and uart.imsc int_rx ≢ 0
    → refresh_levels gic (inject uart byte).1 sys ≡ true
unfolding refresh_levels
refresh_levels-inject gic uart sys byte lets accepted unmasked =
    ap (λ t. t != 0)
      ((irq_level_iff (sample_levels gic (inject uart byte).1 sys)).1 (
        rw (enables.0) lets.distributor_on,
        rw (enables.1) lets.interface_on,
        (
          uart_spi,
          sample_levels-IsCandidate gic (inject uart byte).1 sys lets
              (irq_level-inject uart byte accepted unmasked),
        ),
      ))
  where
    enables :
        ((sample_levels gic (inject uart byte).1 sys).ctl ≡ gic.ctl)
        × ((sample_levels gic (inject uart byte).1 sys).cpu_ctl ≡ gic.cpu_ctl)
    enables = sample_levels-enables gic (inject uart byte).1 sys
