-- ===== src/Pl011/Receive.antt =====
-- src/dev/pl011.c: the receive path, `oemu_pl011_inject` and the DR read.
use oemu.Common.{
  ℕ, ◌≤◌, ◌≡◌, ◌≢◌, ◌⊎◌, inl, inr, Bool, true, false, some, List, [], ◌∷◌, ◌++◌, bit_and, bit_or,
  arith, Bool-cases, ◌==◌, ◌!=◌, leb, if◌then◌else◌, length, ap,
}
use oemu.Common.Bits.{bit-bit_or, bit-bit_and, le_of_bits}
use oemu.Common.Bits.Masks.{bit_and_assoc, bit_and-zero}
use oemu.Common.Ring.{queue, queue-append, queue-pop, length-queue_from}
use oemu.Common.Status.{Status, ok, err_state, err_full, MemSize}
use oemu.Common.Word.{complement}
use oemu.Pl011.{
  Pl011, rx_ring, cr_uarten, cr_rxe, int_rx, inject, read_dr, pop_rx, is_too_wide, update_flags,
}
use oemu.Pl011.Bus.{read, irq_level}
use oemu.Pl011.Invariant.{IsValid}

-- The bytes that wait for the guest, oldest first.
abbrev pub rx_queue : Pl011 → List ℕ
rx_queue uart = queue uart.rx rx_ring uart.rx_head uart.rx_count

-- UARTEN and RXE are both set.
abbrev pub is_receiving : Pl011 → Bool
is_receiving uart = bit_and uart.cr (bit_or cr_uarten cr_rxe) == bit_or cr_uarten cr_rxe

-- Raising `int_rx` shows through a mask that lets some of it through.
unmasked : (ris imsc : ℕ) → bit_and imsc int_rx ≤ bit_and (bit_or ris int_rx) imsc
unmasked ris imsc = le_of_bits _ _ λ k. omega (
  arith,
  bit-bit_and imsc int_rx k,
  bit-bit_and (bit_or ris int_rx) imsc k,
  bit-bit_or ris int_rx k,
)

-- What a queue of 16 bytes behind a switch answers to a byte.
abbrev pub offer : Bool → List ℕ → ℕ → Status × List ℕ
offer false q byte = (err_state, q)
offer true q byte = if leb 16 (length q) then (err_full, q) else (ok, q ++ (byte ∷ []))

-- What a reader takes from it; an empty queue reads as 0.
abbrev pub take_byte : List ℕ → ℕ × List ℕ
take_byte [] = (0, [])
take_byte (byte ∷ q) = (byte, q)

-- On a valid UART, injecting a byte does what the switched queue of 16 bytes does; where it
-- reports an error it changes nothing.
pub inject-offer :
    {uart : Pl011} (byte : ℕ)
    → IsValid uart
    → (let (st, uart') = inject uart byte in
        ((st, rx_queue uart') ≡ offer (is_receiving uart) (rx_queue uart) byte)
        × ((st ≡ ok) ⊎ (uart' ≡ uart)))
unfolding inject update_flags
inject-offer {uart} byte v = ground (
  arith,
  length-queue_from uart.rx rx_ring uart.rx_head 0 uart.rx_count,
  queue-append uart.rx rx_ring uart.rx_head uart.rx_count byte,
)

read_dr_lem :
    {uart : Pl011}
    → IsValid uart
    → ((read_dr uart).0 ≡ (take_byte (rx_queue uart)).0)
      × (rx_queue (read_dr uart).1 ≡ (take_byte (rx_queue uart)).1)
unfolding read_dr pop_rx update_flags
read_dr_lem {uart} v = elim (Bool-cases (uart.rx_count != 0)) [
  | inl some_left ↦
      ground (arith, queue-pop uart.rx rx_ring uart.rx_head uart.rx_count v.rx_head_in)
  | inr empty ↦ ground arith
]

drained-read_dr :
    (uart : Pl011)
    → bit_and (read_dr uart).1.ris int_rx
      ≡ (if uart.rx_count == 1 then 0 else bit_and uart.ris int_rx)
unfolding read_dr pop_rx update_flags
drained-read_dr uart =
    ground (arith, bit_and_assoc uart.ris (complement 32 int_rx) int_rx, bit_and-zero uart.ris)

-- On a valid UART, a guest's read of DR of an accepted size takes the oldest byte of the queue, and
-- reads 0 from an empty one; the read that empties the queue drops both receive interrupts, and any
-- other leaves them.
pub read-take_byte :
    {uart : Pl011} (size : MemSize)
    → is_too_wide size ≡ false
    → IsValid uart
    → (let (v, q) = take_byte (rx_queue uart) in
        (uart' : Pl011) × (read uart 0x00 size ≡ (ok, some v, uart'))
        × (rx_queue uart' ≡ q)
        × (bit_and uart'.ris int_rx ≡ (if uart.rx_count == 1 then 0 else bit_and uart.ris int_rx)))
unfolding read
read-take_byte {uart} size narrow v = (
  (read_dr uart).1,
  rw narrow (ap (λ t. (ok, some t, (read_dr uart).1)) taken.0),
  taken.1,
  drained-read_dr uart,
)
  where
    taken :
        ((read_dr uart).0 ≡ (take_byte (rx_queue uart)).0)
        × (rx_queue (read_dr uart).1 ≡ (take_byte (rx_queue uart)).1)
    taken = read_dr_lem v

-- Where a received byte's interrupt is not masked, a successful injection raises the line.
pub irq_level-inject :
    (uart : Pl011) (byte : ℕ)
    → (inject uart byte).0 ≡ ok
    → bit_and uart.imsc int_rx ≢ 0
    → irq_level (inject uart byte).1 ≡ true
unfolding inject irq_level update_flags
irq_level-inject uart byte h m = ground (arith, unmasked uart.ris uart.imsc)
