-- ===== src/Pl011.antt =====
-- The UART of src/dev/pl011.c: its state, the two byte rings and the callbacks. The rings are
-- arrays of 65536 and 16 bytes. The host's output sink is outside the repository: `has_sink`
-- tells whether one is installed, and `sent` records the bytes that it was handed, in order.
pub mod Bus
pub mod Run
pub mod Transmit
pub mod Receive
pub mod Invariant
mod Examples
use oemu.Common.{
  ℕ, zero, suc, ◌+◌, ◌-◌, ◌%◌, ◌^◌, bit_and, bit_or, Bool, true, false, ◌&&◌, Option, none, some,
  List, [], ◌∷◌, ◌++◌, Bank, update, leb, ◌==◌, ◌!=◌, if◌then◌else◌,
}
use oemu.Common.Word.{u8, u32, u64, complement, any_set}
use oemu.Common.Status.{Status, ok, err_invalid_arg, err_state, err_full, is_ok, MemSize, quad}

-- OEMU_PL011_TX_RING and OEMU_PL011_RX_RING
abbrev pub tx_ring : ℕ
tx_ring = 65536

abbrev pub rx_ring : ℕ
rx_ring = 16

-- The bits of CR that the model consults, and of RIS.
abbrev pub cr_uarten : ℕ
cr_uarten = 0x01

abbrev pub cr_fen : ℕ
cr_fen = 0x10

abbrev pub cr_lbe : ℕ
cr_lbe = 0x80

abbrev pub cr_rxe : ℕ
cr_rxe = 0x200

abbrev pub cr_reset : ℕ
cr_reset = bit_or 0x100 0x80

abbrev pub int_txis : ℕ
int_txis = 0x20

-- PL011_INT_RX, that is RXIS | RTIS
abbrev pub int_rx : ℕ
int_rx = bit_or 0x10 0x40

-- `oemu_pl011`, without the table of callbacks.
pub record Pl011 : Type 0 where
  pub dr : ℕ
  pub fr : ℕ
  pub cr : ℕ
  pub ibrd : ℕ
  pub fbrd : ℕ
  pub lcr_h : ℕ
  pub fifls : ℕ
  pub imsc : ℕ
  pub ris : ℕ
  pub tx : Bank
  pub tx_head : ℕ
  pub tx_count : ℕ
  pub rx : Bank
  pub rx_head : ℕ
  pub rx_tail : ℕ
  pub rx_count : ℕ
  pub tx_emitted : ℕ
  pub tx_dropped : ℕ
  pub rx_dropped : ℕ
  pub has_sink : Bool
  pub sent : List ℕ

-- `oemu_pl011_init`
unfoldable pub init : Bool → Pl011
init has_sink = record {
  dr = 0;
  fr = 0;
  cr = cr_reset;
  ibrd = 0;
  fbrd = 0;
  lcr_h = 0;
  fifls = 0;
  imsc = 0;
  ris = 0;
  tx = λ i. 0;
  tx_head = 0;
  tx_count = 0;
  rx = λ i. 0;
  rx_head = 0;
  rx_tail = 0;
  rx_count = 0;
  tx_emitted = 0;
  tx_dropped = 0;
  rx_dropped = 0;
  has_sink = has_sink;
  sent = [];
}

-- `oemu_pl011_internal_update_flags`: TXFE always, RXFE on an empty receive ring.
unfoldable pub flags : ℕ → ℕ
flags rx_count = if rx_count == 0 then bit_or 0x80 0x10 else 0x80

unfoldable pub update_flags : Pl011 → Pl011
update_flags uart = record uart { fr = flags uart.rx_count }

-- A call of the sink, where there is one.
pub emit : Pl011 → ℕ → Pl011
emit uart byte = if uart.has_sink then record uart { sent = uart.sent ++ (byte ∷ []) } else uart

-- The first step of `pl011_tx_push`: a full ring loses its oldest byte.
pub drop_oldest : Pl011 → Pl011
drop_oldest uart =
    if leb tx_ring uart.tx_count
    then record uart {
      tx_head = (uart.tx_head + 1) % tx_ring;
      tx_count = uart.tx_count - 1;
      tx_dropped = u64 (uart.tx_dropped + 1);
    }
    else uart

pub append_tx : Pl011 → ℕ → Pl011
append_tx uart byte = record uart {
  tx = update uart.tx ((uart.tx_head + uart.tx_count) % tx_ring) byte;
  tx_count = uart.tx_count + 1;
}

pub tx_push : Pl011 → ℕ → Pl011
tx_push uart byte = append_tx (drop_oldest uart) byte

-- `oemu_pl011_inject`, on a device that is there
unfoldable pub inject : Pl011 → ℕ → Status × Pl011
inject uart byte =
    if bit_and uart.cr (bit_or cr_uarten cr_rxe) != bit_or cr_uarten cr_rxe
    then (err_state, uart)
    else if leb rx_ring uart.rx_count
    then (err_full, uart)
    else (
      ok,
      update_flags (record uart {
        rx = update uart.rx uart.rx_tail byte;
        rx_tail = (uart.rx_tail + 1) % rx_ring;
        rx_count = uart.rx_count + 1;
        ris = bit_or uart.ris int_rx;
      }),
    )

-- A read of DR: the value and the state before the flags are refreshed.
pub pop_rx : Pl011 → ℕ × Pl011
pop_rx uart =
    if uart.rx_count != 0
    then (
      uart.rx uart.rx_head,
      record uart {
        rx_head = (uart.rx_head + 1) % rx_ring;
        rx_count = uart.rx_count - 1;
        ris = if uart.rx_count - 1 == 0 then bit_and uart.ris (complement 32 int_rx) else uart.ris;
      },
    )
    else (0, uart)

pub read_dr : Pl011 → ℕ × Pl011
read_dr uart = let (v, uart') = pop_rx uart in (v, update_flags uart')

-- The identification block at the end of the page.
pub read_id : ℕ → ℕ
read_id offset =
    if offset == 0xfe0
    then 0x11
    else if offset == 0xfe4
    then 0x10
    else if offset == 0xfe8
    then 0x14
    else if offset == 0xfec
    then 0x00
    else if offset == 0xff0
    then 0x0d
    else if offset == 0xff4
    then 0xf0
    else if offset == 0xff8
    then 0x05
    else if offset == 0xffc
    then 0xb1
    else 0

-- The registers that a read leaves alone.
pub read_register : Pl011 → ℕ → ℕ
read_register uart offset =
    if offset == 0x18
    then uart.fr
    else if offset == 0x20
    then 0
    else if offset == 0x24
    then uart.ibrd
    else if offset == 0x28
    then uart.fbrd
    else if offset == 0x2c
    then uart.lcr_h
    else if offset == 0x30
    then uart.cr
    else if offset == 0x34
    then uart.fifls
    else if offset == 0x04
    then 0
    else if offset == 0x38
    then uart.imsc
    else if offset == 0x44
    then 0
    else if offset == 0x3c
    then uart.ris
    else if offset == 0x40
    then bit_and uart.ris uart.imsc
    else read_id offset

-- `size > OEMU_MEM_DWORD`
pub is_too_wide : MemSize → Bool
is_too_wide quad = true
is_too_wide _ = false
