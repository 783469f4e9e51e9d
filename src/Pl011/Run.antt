-- ===== src/Pl011/Run.antt =====
-- src/dev/pl011.c: sequences of accesses, injected bytes and pumps.
use oemu.Common.{
  ℕ, refl, ap, ◌∙◌, ◌⊎◌, inl, inr, none, some, if_both, ◌+◌, ◌%◌, ◌^◌, ◌≡◌, Bool, true, false, List,
  [], ◌∷◌, ◌++◌, bit_and, bit_or, arith, ◌==◌, ◌&&◌, if◌then◌else◌, Bank, not,
}
use mathlib.Core.Option
use mathlib.Core.List.{append_assoc}
use oemu.Common.Status.{MemSize}
use oemu.Common.Word.{u8, u32, u64}
use oemu.Pl011.{
  Pl011, cr_fen, int_txis, emit, drop_oldest, append_tx, tx_push, inject, read_dr, pop_rx,
  update_flags, flags, is_too_wide, read_register,
}
use oemu.Pl011.Bus.{read, transmit, loop_back, write_dr, write_register, write, pump}
use oemu.Pl011.Invariant.{IsValid, read-IsValid, write-IsValid, inject-IsValid, pump-IsValid}
use oemu.Pl011.Transmit.{tx_queue, pump_lem, pump_counts}

-- One event: a bus access, a byte from the host, or the machine's call of the pump.
pub data Event : Type 0 where
  load : ℕ → MemSize → Event
  store : ℕ → MemSize → ℕ → Event
  receive : ℕ → Event
  drain : Event

unfoldable pub handle : Pl011 → Event → Pl011
handle uart (load offset size) = (read uart offset size).2
handle uart (store offset size value) = (write uart offset size value).1
handle uart (receive byte) = (inject uart byte).1
handle uart drain = (pump uart).1

unfoldable pub run : Pl011 → List Event → Pl011
run uart [] = uart
run uart (e ∷ es) = run (handle uart e) es

handle-IsValid : (e : Event) {uart : Pl011} → IsValid uart → IsValid (handle uart e)
unfolding handle
handle-IsValid (load offset size) v = read-IsValid v offset size
handle-IsValid (store offset size value) v = write-IsValid v offset size value
handle-IsValid (receive byte) v = inject-IsValid v byte
handle-IsValid drain v = pump-IsValid v

run_from-IsValid : (es : List Event) {uart : Pl011} → IsValid uart → IsValid (run uart es)
unfolding run
run_from-IsValid [] v = v
run_from-IsValid (e ∷ es) v = run_from-IsValid es (handle-IsValid e v)

-- PL011_FR_TXFF, the bit that a driver waits on before it stores to DR
abbrev pub fr_txff : ℕ
fr_txff = 0x20

-- The bits of the flag register: none before the first refresh, then TXFE and, on an empty receive
-- ring, RXFE.
abbrev pub Told : Pl011 → Type 0
Told uart = (uart.fr ≡ 0) ⊎ (uart.fr ≡ (if uart.rx_count == 0 then 0x90 else 0x80))

told : {uart : Pl011} → IsValid uart → Told uart
unfolding flags
told v = v.fr_in

ready : (uart : Pl011) → Told uart → bit_and uart.fr fr_txff ≡ 0
ready uart (inl e) = rw e refl
ready uart (inr e) =
    rw e (if_both (λ t. bit_and t fr_txff ≡ 0) (uart.rx_count == 0) (λ _. refl) λ _. refl)

-- A read of the flag register gives the register.
read_fr :
    (uart : Pl011) (size : MemSize)
    → (read uart 0x18 size).1 ≡ (if is_too_wide size then none else some uart.fr)
unfolding read read_register
read_fr uart size = ground arith

-- From any valid state, whatever the guest, the host and the machine do, the rings stay within
-- their arrays, the flag register is 0 (as before the first refresh) or TXFE with RXFE exactly where
-- the receive ring is empty, and a guest that then reads it, with an access of an accepted
-- size, never finds TXFF, the bit that tells a driver to wait.
pub run-IsValid :
    (es : List Event) (size : MemSize) {uart : Pl011}
    → IsValid uart
    → IsValid (run uart es)
      × (Told (run uart es))
      × (Option.map (λ fr. bit_and fr fr_txff) (read (run uart es) 0x18 size).1
          ≡ (if is_too_wide size then none else some 0))
run-IsValid es size {uart} v =
    let after = run_from-IsValid es v in
    (
      after,
      told after,
      ap (Option.map λ fr. bit_and fr fr_txff) (read_fr (run uart es) size)
          ∙ ground (arith, ready (run uart es) (told after)),
    )

-- The bytes that the guest wrote to DR.
abbrev pub dr_stores : List Event → ℕ
dr_stores [] = 0
dr_stores (load offset size ∷ es) = dr_stores es
dr_stores (store offset size value ∷ es) =
    (if not (is_too_wide size) && offset == 0 then 1 else 0) + dr_stores es
dr_stores (receive byte ∷ es) = dr_stores es
dr_stores (drain ∷ es) = dr_stores es

-- Emitted, dropped or still queued, in the 64 bits of the counters.
abbrev pub accounted : Pl011 → ℕ
accounted uart = (uart.tx_emitted + uart.tx_dropped + uart.tx_count) % 2 ^ 64

-- The part of the state that only the transmit path touches.
abbrev tx_part : Pl011 → Bank × ℕ × ℕ × ℕ × ℕ × List ℕ × Bool
tx_part uart = (
  uart.tx, uart.tx_head, uart.tx_count, uart.tx_emitted, uart.tx_dropped, uart.sent, uart.has_sink,
)

tx_part-inject : (uart : Pl011) (byte : ℕ) → tx_part (inject uart byte).1 ≡ tx_part uart
unfolding inject update_flags
tx_part-inject uart byte = ground arith

tx_part-loop_back : (uart : Pl011) (byte : ℕ) → tx_part (loop_back uart byte) ≡ tx_part uart
unfolding loop_back
tx_part-loop_back uart byte = ground (arith, tx_part-inject uart byte)

tx_part-read :
    (uart : Pl011) (offset : ℕ) (size : MemSize) → tx_part (read uart offset size).2 ≡ tx_part uart
unfolding read read_dr pop_rx update_flags
tx_part-read uart offset size = ground arith

accounted-transmit :
    {uart : Pl011} (byte : ℕ)
    → IsValid uart
    → accounted (transmit uart byte) ≡ (accounted uart + 1) % 2 ^ 64
unfolding transmit emit tx_push drop_oldest append_tx
accounted-transmit byte v = ground arith

accounted-write_dr :
    {uart : Pl011} (v : ℕ)
    → IsValid uart
    → accounted (write_dr uart v) ≡ (accounted uart + 1) % 2 ^ 64
unfolding write_dr
accounted-write_dr {uart} v valid = ground (
  arith,
  tx_part-loop_back
      (record (transmit uart (u8 v)) { ris = bit_or (transmit uart (u8 v)).ris int_txis }) (u8 v),
  accounted-transmit (u8 v) valid,
)

accounted-write_register :
    {uart : Pl011} (offset v : ℕ)
    → IsValid uart
    → accounted (write_register uart offset v)
      ≡ (accounted uart + (if offset == 0 then 1 else 0)) % 2 ^ 64
unfolding write_register
accounted-write_register {uart} offset v valid = ground (arith, accounted-write_dr v valid)

accounted-write :
    (offset : ℕ) (size : MemSize) (value : ℕ) {uart : Pl011}
    → IsValid uart
    → accounted (write uart offset size value).1
      ≡ (accounted uart + dr_stores (store offset size value ∷ [])) % 2 ^ 64
unfolding write update_flags
accounted-write offset size value {uart} v =
    ground (arith, accounted-write_register offset (u32 value) v)

accounted-pump :
    {uart : Pl011} → IsValid uart → accounted (pump uart).1 ≡ (accounted uart + 0) % 2 ^ 64
accounted-pump {uart} v = omega (arith, pump_counts v, pump_lem v)

dr_stores-cons :
    (e : Event) (es : List Event) → dr_stores (e ∷ es) ≡ dr_stores (e ∷ []) + dr_stores es
dr_stores-cons (load offset size) es = omega arith
dr_stores-cons (store offset size value) es = omega arith
dr_stores-cons (receive byte) es = omega arith
dr_stores-cons drain es = omega arith

accounted-handle :
    (e : Event) {uart : Pl011}
    → IsValid uart
    → accounted (handle uart e) ≡ (accounted uart + dr_stores (e ∷ [])) % 2 ^ 64
unfolding handle
accounted-handle (load offset size) {uart} v = ground (arith, tx_part-read uart offset size)
accounted-handle (store offset size value) {uart} v = accounted-write offset size value v
accounted-handle (receive byte) {uart} v = ground (arith, tx_part-inject uart byte)
accounted-handle drain {uart} v = accounted-pump v

-- Every byte that the guest stores to DR is, at any later moment, emitted, counted as dropped, or
-- still queued: over any sequence of events on a valid UART the three numbers grow together by
-- the number of such stores, in the 64 bits of the counters.
pub accounted-run :
    (es : List Event) {uart : Pl011}
    → IsValid uart
    → accounted (run uart es) ≡ (accounted uart + dr_stores es) % 2 ^ 64
unfolding run
accounted-run [] v = omega arith
accounted-run (e ∷ es) {uart} v =
    ground (arith, accounted-run es (handle-IsValid e v), accounted-handle e v, dr_stores-cons e es)

tx_part-transmit :
    (uart : Pl011) (byte : ℕ)
    → bit_and uart.cr cr_fen ≡ 0
    → uart.has_sink ≡ true
    → tx_part (transmit uart byte) ≡ (
      uart.tx,
      uart.tx_head,
      uart.tx_count,
      u64 (uart.tx_emitted + 1),
      uart.tx_dropped,
      uart.sent ++ (byte ∷ []),
      true,
    )
unfolding transmit emit
tx_part-transmit uart byte off sink = ground arith

tx_part-write_dr :
    (uart : Pl011) (v : ℕ) → tx_part (write_dr uart v) ≡ tx_part (transmit uart (u8 v))
unfolding write_dr
tx_part-write_dr uart v =
    tx_part-loop_back
      (record (transmit uart (u8 v)) { ris = bit_or (transmit uart (u8 v)).ris int_txis }) (u8 v)

tx_part-write :
    (uart : Pl011) (size : MemSize) (value : ℕ)
    → is_too_wide size ≡ false
    → tx_part (write uart 0x00 size value).1 ≡ tx_part (transmit uart (u8 (u32 value)))
unfolding write update_flags write_register
tx_part-write uart size value narrow = rw narrow (tx_part-write_dr uart (u32 value))

-- On a valid UART with a sink and the FIFO off, a byte stored by an access of an accepted size does
-- not wait behind what the FIFO still holds: after the store and a pump, the sink has been handed
-- the new byte first and the queued bytes after it.
pub store_overtakes :
    {uart : Pl011} (size : MemSize) (value : ℕ)
    → IsValid uart
    → is_too_wide size ≡ false
    → bit_and uart.cr cr_fen ≡ 0
    → uart.has_sink ≡ true
    → (pump (write uart 0x00 size value).1).1.sent ≡ uart.sent ++ (u8 (u32 value) ∷ tx_queue uart)
store_overtakes {uart} size value v narrow off sink = ground (
  arith,
  pump_lem (write-IsValid v 0x00 size value),
  tx_part-write uart size value narrow,
  tx_part-transmit uart (u8 (u32 value)) off sink,
  append_assoc uart.sent (u8 (u32 value) ∷ []) (tx_queue uart),
)
