-- ===== src/Pl011/Transmit.antt =====
-- src/dev/pl011.c: the transmit path, `pl011_tx_push` and `oemu_pl011_pump`.
use oemu.Common.{
  ℕ, zero, suc, ◌+◌, ◌-◌, ◌%◌, ◌^◌, ◌≤◌, ◌≡◌, ◌≢◌, inl, inr, refl, Bool, true, false, List, [], ◌∷◌,
  ◌++◌, arith, Bool-cases, ◌!=◌, leb, if◌then◌else◌, length,
}
use mathlib.Core.List.{append-nil, append_assoc}
use oemu.Common.Ring.{queue, queue-append, queue-pop, length-queue_from}
use oemu.Common.Word.{u64}
use oemu.Pl011.{Pl011, tx_ring, emit, drop_oldest, append_tx, tx_push, update_flags}
use oemu.Pl011.Bus.{pump_round, pump_loop, pump}
use oemu.Pl011.Invariant.{IsValid, pump_round-IsValid}

-- The bytes that wait for the pump, oldest first.
abbrev pub tx_queue : Pl011 → List ℕ
tx_queue uart = queue uart.tx tx_ring uart.tx_head uart.tx_count

abbrev pub drop_first : List ℕ → List ℕ
drop_first [] = []
drop_first (byte ∷ q) = q

-- On a valid UART, pushing a byte appends it; a full ring loses its oldest byte, counted as
-- dropped, and nothing else is lost.
pub tx_push_lem :
    {uart : Pl011} (byte : ℕ)
    → IsValid uart
    → (let full = leb tx_ring (length (tx_queue uart)) in
        (tx_queue (tx_push uart byte)
          ≡ (if full then drop_first (tx_queue uart) else tx_queue uart) ++ (byte ∷ []))
        × ((tx_push uart byte).tx_dropped
            ≡ (if full then u64 (uart.tx_dropped + 1) else uart.tx_dropped)))
unfolding tx_push append_tx drop_oldest
tx_push_lem {uart} byte v = elim (Bool-cases (leb tx_ring uart.tx_count)) [
  | inl full ↦ ground (
    arith,
    length-queue_from uart.tx tx_ring uart.tx_head 0 uart.tx_count,
    queue-pop uart.tx tx_ring uart.tx_head uart.tx_count,
    queue-append uart.tx tx_ring ((uart.tx_head + 1) % tx_ring) (uart.tx_count - 1) byte,
  )
  | inr room ↦ ground (
    arith,
    length-queue_from uart.tx tx_ring uart.tx_head 0 uart.tx_count,
    queue-append uart.tx tx_ring uart.tx_head uart.tx_count byte,
  )
]

-- What the sink is handed for a list of bytes.
abbrev pub handed : Pl011 → List ℕ → List ℕ
handed uart bytes = if uart.has_sink then bytes else []

-- What a loop that emits all that is queued leaves behind.
record IsDrained (uart : Pl011) (emitted : ℕ) (out : ℕ × Pl011) : Type 0 where
  count : out.0 ≡ emitted + uart.tx_count
  empty : out.1.tx_count ≡ 0
  dropped : out.1.tx_dropped ≡ uart.tx_dropped
  sent : out.1.sent ≡ uart.sent ++ handed uart (tx_queue uart)
  tally : out.1.tx_emitted % 2 ^ 64 ≡ (uart.tx_emitted + uart.tx_count) % 2 ^ 64

pump_round_lem :
    {uart : Pl011}
    → IsValid uart
    → uart.tx_count ≢ 0
    → (tx_queue uart ≡ uart.tx uart.tx_head ∷ tx_queue (pump_round uart))
      × ((pump_round uart).tx_count ≡ uart.tx_count - 1)
      × ((pump_round uart).has_sink ≡ uart.has_sink)
      × ((pump_round uart).tx_dropped ≡ uart.tx_dropped)
      × ((pump_round uart).sent ≡ uart.sent ++ handed uart (uart.tx uart.tx_head ∷ []))
      × ((pump_round uart).tx_emitted ≡ (uart.tx_emitted + 1) % 2 ^ 64)
unfolding pump_round emit
pump_round_lem {uart} v ne = (
  ground (arith, queue-pop uart.tx tx_ring uart.tx_head uart.tx_count),
  ground arith,
  ground arith,
  ground arith,
  ground (arith, append-nil uart.sent),
  ground arith,
)

IsDrained-of_empty :
    (emitted : ℕ) (uart : Pl011) → uart.tx_count ≡ 0 → IsDrained uart emitted (emitted, uart)
IsDrained-of_empty emitted uart e = record {
  count = omega arith;
  empty = e;
  dropped = refl;
  sent = ground (arith, append-nil uart.sent);
  tally = omega arith;
}

handed_join :
    (sink : Bool) (a q : List ℕ) (byte : ℕ)
    → (a ++ (if sink then byte ∷ [] else [])) ++ (if sink then q else [])
      ≡ a ++ (if sink then byte ∷ q else [])
handed_join true a q byte = append_assoc a (byte ∷ []) q
handed_join false a q byte = append-nil (a ++ [])

IsDrained-round :
    {uart : Pl011} {emitted : ℕ} {out : ℕ × Pl011}
    → IsValid uart
    → uart.tx_count ≢ 0
    → IsDrained (pump_round uart) (emitted + 1) out
    → IsDrained uart emitted out
IsDrained-round {uart} v ne rest = record {
  count = omega (arith, rest.count, pump_round_lem v ne);
  empty = rest.empty;
  dropped = ground (arith, rest.dropped, pump_round_lem v ne);
  sent = ground (
    arith,
    rest.sent,
    pump_round_lem v ne,
    handed_join uart.has_sink uart.sent (tx_queue (pump_round uart)) (uart.tx uart.tx_head),
  );
  tally = omega (arith, rest.tally, pump_round_lem v ne);
}

pump_loop-IsDrained :
    (fuel emitted : ℕ) {uart : Pl011}
    → IsValid uart
    → uart.tx_count ≤ fuel
    → IsDrained uart emitted (pump_loop fuel uart emitted)
unfolding pump_loop
pump_loop-IsDrained zero emitted {uart} v h = IsDrained-of_empty emitted uart (omega arith)
pump_loop-IsDrained (suc fuel) emitted {uart} v h = elim (Bool-cases (uart.tx_count != 0)) [
  | inl more ↦
      rw (more, pump_loop)
        (IsDrained-round v (ground arith) (
          pump_loop-IsDrained fuel (emitted + 1) (pump_round-IsValid v)
            (omega (arith, pump_round_lem v (ground arith)))))
  | inr done ↦ rw (done, pump_loop) (IsDrained-of_empty emitted uart (ground arith))
]

pub pump_counts :
    {uart : Pl011}
    → IsValid uart
    → ((pump uart).1.tx_count ≡ 0) × ((pump uart).1.tx_dropped ≡ uart.tx_dropped)
unfolding pump update_flags
pump_counts {uart} v =
    let done = pump_loop-IsDrained uart.tx_count 0 v (omega arith) in (done.empty, done.dropped)

-- On a valid UART, the pump ends with an empty queue. It hands all that was queued to the sink,
-- oldest byte first, where there is a sink, and returns and counts as many bytes as were queued.
pub pump_lem :
    {uart : Pl011}
    → IsValid uart
    → (let (emitted, uart') = pump uart in
        (emitted ≡ uart.tx_count)
        × (tx_queue uart' ≡ [])
        × (uart'.sent ≡ uart.sent ++ handed uart (tx_queue uart))
        × (uart'.tx_emitted % 2 ^ 64 ≡ (uart.tx_emitted + uart.tx_count) % 2 ^ 64))
unfolding pump update_flags
pump_lem {uart} v =
    let done = pump_loop-IsDrained uart.tx_count 0 v (omega arith) in
    (omega (arith, done.count), ground (arith, done.empty), done.sent, done.tally)
