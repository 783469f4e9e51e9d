-- ===== src/Pl011/Examples.antt =====
-- A UART with a sink and its receiver on, that has taken two bytes from the host.
use mathlib.Core.Option
use oemu.Common.{
  ◌+◌, ◌%◌, ◌^◌, bit_and, ◌≡◌, refl, ◌⊎◌, inl, true, false, none, some, List, [], ◌∷◌, ◌++◌, length,
  leb, ◌==◌, if◌then◌else◌, arith,
}
use oemu.Common.Status.{ok, byte, word}
use oemu.Common.Word.{u8, u32, u64}
use oemu.Pl011.{Pl011, tx_ring, int_rx, init, inject, tx_push, update_flags, flags, is_too_wide}
use oemu.Pl011.Bus.{read, write, pump}
use oemu.Pl011.Invariant.{IsValid, init-IsValid}
use oemu.Pl011.Receive.{rx_queue, is_receiving, offer, take_byte, inject-offer, read-take_byte}
use oemu.Pl011.Transmit.{tx_queue, handed, drop_first, tx_push_lem, pump_lem}
use oemu.Pl011.Run.{
  Event, store, receive, drain, run, dr_stores, accounted, Told, fr_txff, run-IsValid,
  accounted-run, store_overtakes,
}

-- UARTEN, RXE and no FEN; the receive interrupt unmasked; then two bytes.
abbrev setup : List Event
setup = store 0x30 word 0x201 ∷ store 0x38 word 0x10 ∷ receive 65 ∷ receive 66 ∷ []

abbrev uart_on : Pl011
uart_on = record (init true) { cr = 0x201; imsc = 0x10; tx_count = 1; rx_tail = 2; rx_count = 2 }

uart_on-IsValid : IsValid uart_on
unfolding init flags
uart_on-IsValid = record {
  tx_head_in = omega arith;
  tx_count_in = omega arith;
  rx_head_in = omega arith;
  rx_count_in = omega arith;
  rx_tail_at = refl;
  fr_in = inl refl;
}

run-IsValid_example :
    IsValid (run (init true) setup)
    × (Told (run (init true) setup))
    × (Option.map (λ fr. bit_and fr fr_txff) (read (run (init true) setup) 0x18 word).1
        ≡ (if is_too_wide word then none else some 0))
run-IsValid_example = run-IsValid setup word (init-IsValid true)

accounted-run_example :
    accounted (run uart_on (store 0 byte 65 ∷ drain ∷ store 0 byte 66 ∷ []))
    ≡ (accounted uart_on + dr_stores (store 0 byte 65 ∷ drain ∷ store 0 byte 66 ∷ [])) % 2 ^ 64
accounted-run_example =
    accounted-run (store 0 byte 65 ∷ drain ∷ store 0 byte 66 ∷ []) uart_on-IsValid

inject-offer_example :
    let (st, uart') = inject uart_on 67 in
    ((st, rx_queue uart') ≡ offer (is_receiving uart_on) (rx_queue uart_on) 67)
    × ((st ≡ ok) ⊎ (uart' ≡ uart_on))
inject-offer_example = inject-offer 67 uart_on-IsValid

narrow : is_too_wide byte ≡ false
unfolding is_too_wide
narrow = refl

read-take_byte_example :
    let (v, q) = take_byte (rx_queue uart_on) in
    (uart' : Pl011) × (read uart_on 0x00 byte ≡ (ok, some v, uart'))
    × (rx_queue uart' ≡ q)
    × (bit_and uart'.ris int_rx ≡ (if uart_on.rx_count == 1 then 0 else bit_and uart_on.ris int_rx))
read-take_byte_example = read-take_byte byte narrow uart_on-IsValid

injected : (inject uart_on 67).0 ≡ ok
unfolding inject update_flags flags init
injected = refl

tx_push_lem_example :
    let full = leb tx_ring (length (tx_queue uart_on)) in
    (tx_queue (tx_push uart_on 68)
      ≡ (if full then drop_first (tx_queue uart_on) else tx_queue uart_on) ++ (68 ∷ []))
    × ((tx_push uart_on 68).tx_dropped
        ≡ (if full then u64 (uart_on.tx_dropped + 1) else uart_on.tx_dropped))
tx_push_lem_example = tx_push_lem 68 uart_on-IsValid

pump_lem_example :
    let (emitted, uart') = pump uart_on in
    (emitted ≡ uart_on.tx_count)
    × (tx_queue uart' ≡ [])
    × (uart'.sent ≡ uart_on.sent ++ handed uart_on (tx_queue uart_on))
    × (uart'.tx_emitted % 2 ^ 64 ≡ (uart_on.tx_emitted + uart_on.tx_count) % 2 ^ 64)
pump_lem_example = pump_lem uart_on-IsValid

sink_there : uart_on.has_sink ≡ true
unfolding init
sink_there = refl

store_overtakes_example :
    (pump (write uart_on 0x00 byte 69).1).1.sent ≡ uart_on.sent ++ (u8 (u32 69) ∷ tx_queue uart_on)
store_overtakes_example = store_overtakes byte 69 uart_on-IsValid narrow refl sink_there
