-- ===== src/Pl011/Invariant.antt =====
-- src/dev/pl011.c: the well-formedness of the UART's rings and flag register.
use oemu.Common.{
  ℕ, zero, suc, ◌+◌, ◌-◌, ◌%◌, ◌≤◌, ◌<◌, ◌≡◌, ◌⊎◌, inl, inr, Bool, true, false, [], ◌∷◌, ◌++◌,
  bit_and, bit_or, arith, Bool-cases, ◌==◌, ◌!=◌, ◌&&◌, if◌then◌else◌,
}
use oemu.Common.Status.{MemSize, is_ok}
use oemu.Common.Word.{u8, u32, u64, complement}
use oemu.Pl011.{
  Pl011, tx_ring, rx_ring, init, flags, update_flags, emit, drop_oldest, append_tx, tx_push, inject,
  pop_rx, read_dr, cr_fen, cr_lbe, cr_rxe, int_txis,
}
use oemu.Pl011.Bus.{
  read, transmit, loop_back, write_dr, write_register, write, pump_round, pump_loop, pump,
}

-- The rings are within their arrays, the receive tail is where the next byte goes, and the flag
-- register is that of the reset or of the receive ring as it is now.
pub record IsValid (uart : Pl011) : Type 0 where
  pub tx_head_in : uart.tx_head < tx_ring
  pub tx_count_in : uart.tx_count ≤ tx_ring
  pub rx_head_in : uart.rx_head < rx_ring
  pub rx_count_in : uart.rx_count ≤ rx_ring
  pub rx_tail_at : uart.rx_tail ≡ (uart.rx_head + uart.rx_count) % rx_ring
  pub fr_in : (uart.fr ≡ 0) ⊎ (uart.fr ≡ flags uart.rx_count)

pub init-IsValid : (has_sink : Bool) → IsValid (init has_sink)
unfolding init
init-IsValid has_sink = ground arith

if-IsValid : (c : Bool) (a b : Pl011) → IsValid a → IsValid b → IsValid (if c then a else b)
if-IsValid true a b p q = p
if-IsValid false a b p q = q

module _ {uart : Pl011} (v : IsValid uart) where
  pub update_flags-IsValid : IsValid (update_flags uart)
  unfolding update_flags
  update_flags-IsValid = ground arith

  emit-IsValid : (byte : ℕ) → IsValid (emit uart byte)
  unfolding emit
  emit-IsValid byte =
      if-IsValid uart.has_sink (record uart { sent = uart.sent ++ (byte ∷ []) }) _ (assumption) v

  pub drop_oldest-IsValid : IsValid (drop_oldest uart) × ((drop_oldest uart).tx_count < tx_ring)
  unfolding drop_oldest
  drop_oldest-IsValid = ground arith

  append_tx-IsValid : (byte : ℕ) → uart.tx_count < tx_ring → IsValid (append_tx uart byte)
  unfolding append_tx
  append_tx-IsValid byte h = ground arith

  pub inject-IsValid : (byte : ℕ) → IsValid (inject uart byte).1
  unfolding inject update_flags
  inject-IsValid byte = ground arith

  read_dr-IsValid : IsValid (read_dr uart).1
  unfolding read_dr pop_rx update_flags
  read_dr-IsValid = ground arith

module _ {uart : Pl011} (v : IsValid uart) where
  tx_push-IsValid : (byte : ℕ) → IsValid (tx_push uart byte)
  unfolding tx_push
  tx_push-IsValid byte =
      let (dropped, room) = drop_oldest-IsValid v in append_tx-IsValid dropped byte room

  pub read-IsValid : (offset : ℕ) (size : MemSize) → IsValid (read uart offset size).2
  unfolding read
  read-IsValid offset size = ground (arith, read_dr-IsValid v)

  transmit-IsValid : (byte : ℕ) → IsValid (transmit uart byte)
  unfolding transmit
  transmit-IsValid byte =
      if-IsValid (bit_and uart.cr cr_fen == 0) _ _ (counted (emit-IsValid v byte))
        (tx_push-IsValid byte)
    where
      counted : {u : Pl011} → IsValid u → IsValid (record u { tx_emitted = u64 (u.tx_emitted + 1) })
      counted h = assumption

  loop_back-IsValid : (byte : ℕ) → IsValid (loop_back uart byte)
  unfolding loop_back
  loop_back-IsValid byte =
      if-IsValid (bit_and uart.cr cr_lbe != 0 && bit_and uart.cr cr_rxe != 0) _ _
        (if-IsValid (is_ok (inject uart byte).0) _ _ (inject-IsValid v byte)
          (lost (inject-IsValid v byte)))
        v
    where
      lost : {u : Pl011} → IsValid u → IsValid (record u { rx_dropped = u64 (u.rx_dropped + 1) })
      lost h = assumption

module _ {uart : Pl011} (v : IsValid uart) where
  write_dr-IsValid : (w : ℕ) → IsValid (write_dr uart w)
  unfolding write_dr
  write_dr-IsValid w = loop_back-IsValid (raised (transmit-IsValid v (u8 w))) (u8 w)
    where
      raised : {u : Pl011} → IsValid u → IsValid (record u { ris = bit_or u.ris int_txis })
      raised h = assumption

  pub write_register-IsValid : (offset w : ℕ) → IsValid (write_register uart offset w)
  unfolding write_register
  write_register-IsValid offset w = if-IsValid (offset == 0x00) _ _ (write_dr-IsValid w) (
      if-IsValid (offset == 0x24) (record uart { ibrd = w }) _ (assumption)
        (if-IsValid (offset == 0x28) (record uart { fbrd = w }) _ (assumption)
          (if-IsValid (offset == 0x2c) (record uart { lcr_h = w }) _ (assumption)
            (if-IsValid (offset == 0x30) (record uart { cr = w }) _ (assumption)
              (if-IsValid (offset == 0x34) (record uart { fifls = w }) _ (assumption)
                (if-IsValid (offset == 0x38) (record uart { imsc = w }) _ (assumption)
                  (if-IsValid (offset == 0x44)
                    (record uart { ris = bit_and uart.ris (complement 32 w) }) _ (assumption)
                    v)))))))

  pub write-IsValid :
      (offset : ℕ) (size : MemSize) (value : ℕ) → IsValid (write uart offset size value).1
  unfolding write
  write-IsValid offset size value =
      ground (arith, update_flags-IsValid (write_register-IsValid offset (u32 value)))

  pub pump_round-IsValid : IsValid (pump_round uart)
  unfolding pump_round
  pump_round-IsValid = counted (emit-IsValid taken (uart.tx uart.tx_head))
    where
      taken :
          IsValid
            (record uart { tx_head = (uart.tx_head + 1) % tx_ring; tx_count = uart.tx_count - 1 })
      taken = ground arith

      counted : {u : Pl011} → IsValid u → IsValid (record u { tx_emitted = u64 (u.tx_emitted + 1) })
      counted h = assumption

pump_loop-IsValid :
    (fuel emitted : ℕ) {uart : Pl011} → IsValid uart → IsValid (pump_loop fuel uart emitted).1
unfolding pump_loop
pump_loop-IsValid zero emitted v = v
pump_loop-IsValid (suc fuel) emitted {uart} v = elim (Bool-cases (uart.tx_count != 0)) [
  | inl more ↦ rw (more, pump_loop) (pump_loop-IsValid fuel (emitted + 1) (pump_round-IsValid v))
  | inr done ↦ rw (done, pump_loop) v
]

pub pump-IsValid : {uart : Pl011} → IsValid uart → IsValid (pump uart).1
unfolding pump
pump-IsValid {uart} v = update_flags-IsValid (pump_loop-IsValid uart.tx_count 0 v)
