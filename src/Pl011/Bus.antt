-- ===== src/Pl011/Bus.antt =====
-- The bus callbacks and the public service of src/dev/pl011.c: the DR write with its loopback,
-- the register writes, the pump and the interrupt line.
use oemu.Common.{
  ℕ, zero, suc, ◌+◌, ◌-◌, ◌%◌, bit_and, bit_or, Bool, true, false, ◌&&◌, Option, none, some, ◌==◌,
  ◌!=◌, if◌then◌else◌,
}
use oemu.Common.Word.{u8, u32, u64, complement}
use oemu.Common.Status.{Status, ok, err_invalid_arg, is_ok, MemSize}
use oemu.Pl011.{
  Pl011, tx_ring, cr_fen, cr_lbe, cr_rxe, int_txis, update_flags, emit, tx_push, inject, read_dr,
  read_register, is_too_wide,
}

-- `pl011_read`: the status, what `*value_out` is set to, and the new state.
unfoldable pub read : Pl011 → ℕ → MemSize → Status × Option ℕ × Pl011
unfolding is_too_wide
read uart offset size =
    if is_too_wide size
    then (err_invalid_arg, none, uart)
    else if offset == 0x00
    then (let (v, uart') = read_dr uart in (ok, some v, uart'))
    else (ok, some (read_register uart offset), uart)

-- The byte goes straight to the sink with the FIFO off, and into the ring with the FIFO on.
unfoldable pub transmit : Pl011 → ℕ → Pl011
transmit uart byte =
    if bit_and uart.cr cr_fen == 0
    then (let emitted = emit uart byte in
        record emitted { tx_emitted = u64 (emitted.tx_emitted + 1) })
    else tx_push uart byte

unfoldable pub loop_back : Pl011 → ℕ → Pl011
loop_back uart byte =
    if bit_and uart.cr cr_lbe != 0 && bit_and uart.cr cr_rxe != 0
    then (let (st, uart') = inject uart byte in
        if is_ok st then uart' else record uart' { rx_dropped = u64 (uart'.rx_dropped + 1) })
    else uart

unfoldable pub write_dr : Pl011 → ℕ → Pl011
unfolding transmit loop_back
write_dr uart v =
    let transmitted = transmit uart (u8 v) in
    loop_back (record transmitted { ris = bit_or transmitted.ris int_txis }) (u8 v)

-- The `switch` of `pl011_write`.
unfoldable pub write_register : Pl011 → ℕ → ℕ → Pl011
unfolding write_dr
write_register uart offset v =
    if offset == 0x00
    then write_dr uart v
    else if offset == 0x24
    then record uart { ibrd = v }
    else if offset == 0x28
    then record uart { fbrd = v }
    else if offset == 0x2c
    then record uart { lcr_h = v }
    else if offset == 0x30
    then record uart { cr = v }
    else if offset == 0x34
    then record uart { fifls = v }
    else if offset == 0x38
    then record uart { imsc = v }
    else if offset == 0x44
    then record uart { ris = bit_and uart.ris (complement 32 v) }
    else uart

unfoldable pub write : Pl011 → ℕ → MemSize → ℕ → Status × Pl011
unfolding is_too_wide write_register
write uart offset size value =
    if is_too_wide size
    then (err_invalid_arg, uart)
    else (ok, update_flags (write_register uart offset (u32 value)))

-- One round of the loop of `oemu_pl011_pump`.
unfoldable pub pump_round : Pl011 → Pl011
pump_round uart =
    let taken = record uart {
      tx_head = (uart.tx_head + 1) % tx_ring;
      tx_count = uart.tx_count - 1;
    } in
    let emitted = emit taken (uart.tx uart.tx_head) in
    record emitted { tx_emitted = u64 (emitted.tx_emitted + 1) }

-- `while (uart->tx_count != 0U)`, with the number of bytes emitted; one round of fuel for each
-- queued byte is enough (Pl011/Transmit.antt).
unfoldable pub pump_loop : ℕ → Pl011 → ℕ → ℕ × Pl011
pump_loop zero uart emitted = (emitted, uart)
pump_loop (suc fuel) uart emitted = elim (uart.tx_count != 0) [
  | true ↦ pump_loop fuel (pump_round uart) (emitted + 1)
  | false ↦ (emitted, uart)
]

unfoldable pub pump : Pl011 → ℕ × Pl011
unfolding pump_loop pump_round
pump uart = let (emitted, uart') = pump_loop uart.tx_count uart 0 in (emitted, update_flags uart')

unfoldable pub irq_level : Pl011 → Bool
irq_level uart = bit_and uart.ris uart.imsc != 0
