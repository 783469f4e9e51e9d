-- ===== src/Gicv2/Acknowledge.antt =====
-- src/dev/gicv2.c: acknowledging a line and ending its interrupt, through the CPU interface.
use oemu.Common.{
  ℕ, ◌%◌, ◌^◌, ◌<◌, bit_and, ◌≡◌, ◌≢◌, ◌↔◌, inl, inr, refl, update, arith, ◌∙◌, ap, update_restore,
  sym, ne→==, lt→ltb, ltb, Bank, if◌then◌else◌,
}
use oemu.Common.Bits.Masks.{bit_and_low}
use oemu.Gicv2.{
  Gicv2, max_lines, lines_of, spurious, running_priority, mark_active, highest_pending,
  lowest_active, acknowledge, irq_level,
}
use oemu.Gicv2.Scan.{IsCandidate, highest_pending_lem}
use oemu.Gicv2.Running.{running_priority-mark_active}
use oemu.Gicv2.Bus.{cpu_read, cpu_write, end_of_interrupt}

highest_pending-IsCandidate :
    (gic : Gicv2) → highest_pending gic ≢ spurious → IsCandidate gic (highest_pending gic)
highest_pending-IsCandidate gic ne = elim (highest_pending_lem gic) [
  | inl quiet ↦ absurd (ne quiet.0)
  | inr best ↦ best.0
]

-- The interrupt output is raised exactly when both enables are set and some line is enabled,
-- pending, not active, targeted here, and beats both the mask and the running priority.
pub irq_level_iff :
    (gic : Gicv2)
    → (irq_level gic ≡ 1)
      ↔ ((bit_and gic.ctl 1 ≢ 0) × (bit_and gic.cpu_ctl 1 ≢ 0) × ((i : ℕ) × IsCandidate gic i))
unfolding irq_level
irq_level_iff gic = elim (highest_pending_lem gic) [
  | inl quiet ↦ (λ h. ground (arith, quiet.0), λ h. absurd (quiet.1 h.2.0 h.2.1))
  | inr best ↦ (
    λ h. (ground arith, ground arith, (highest_pending gic, best.0)),
    λ h. ground (arith, best.0.0),
  )
]

-- A candidate that is left after line `id` was acknowledged was one before, of lower value.
IsCandidate-before :
    (gic : Gicv2) (id j : ℕ)
    → IsCandidate gic id
    → IsCandidate (mark_active gic id) j
    → IsCandidate gic j × (gic.priority j < gic.priority id)
unfolding mark_active lines_of
IsCandidate-before gic id j c after = (
  (
    after.0,
    (
      after.1.0,
      ground (arith, after.1.1),
      ground (arith, after.1.1, after.1.2),
      after.1.3,
      after.1.4,
      omega (arith, lower, c.1.5),
    ),
  ),
  lower,
)
  where
    lower : gic.priority j < gic.priority id
    lower = omega (arith, after.1.5, running_priority-mark_active gic id c)

-- Where a line is waiting, acknowledging it puts every other waiting line behind it: a second
-- acknowledgement with no new event in between is spurious.
pub highest_pending-mark_active :
    (gic : Gicv2)
    → highest_pending gic ≢ spurious
    → highest_pending (mark_active gic (highest_pending gic)) ≡ spurious
highest_pending-mark_active gic ne = elim (highest_pending_lem (mark_active gic id)) [
  | inl quiet ↦ quiet.0
  | inr best ↦ absurd (no_second (highest_pending (mark_active gic id)) best.0)
]
  where
    id : ℕ
    id = highest_pending gic

    no_second : (j : ℕ) → ¬ IsCandidate (mark_active gic id) j
    no_second j c =
        let (before, lower) = IsCandidate-before gic id j (highest_pending-IsCandidate gic ne) c in
        elim (highest_pending_lem gic) [
          | inl quiet ↦ ne quiet.0
          | inr best ↦ omega (arith, lower, best.1 j before)
        ]

end_of_interrupt-mark_active :
    (gic : Gicv2) (id : ℕ)
    → IsCandidate gic id
    → end_of_interrupt (mark_active gic id) id
      ≡ record gic { pending = update gic.pending id 0; running_pri = running_priority gic }
unfolding end_of_interrupt mark_active running_priority
end_of_interrupt-mark_active gic id c = ap with_active (written ∙ restored)
  where
    same_id : bit_and (id % 2 ^ 32) 0x3ff ≡ id
    same_id = bit_and_low 10 (id % 2 ^ 32) ∙ omega (arith, c.0)

    with_active : Bank → Gicv2
    with_active a = record gic {
      active = a;
      pending = update gic.pending id 0;
      running_pri = lowest_active a gic.priority max_lines 0 256;
    }

    marked : Bank
    marked = update gic.active id 1

    written :
        (if ltb (bit_and (id % 2 ^ 32) 0x3ff) max_lines
          then update marked (bit_and (id % 2 ^ 32) 0x3ff) 0
          else marked)
        ≡ update marked id 0
    written = rw (same_id, lt→ltb id max_lines (omega (arith, c.0))) refl

    restored : update (update gic.active id 1) id 0 ≡ gic.active
    restored = ap (update (update gic.active id 1) id) (sym c.1.2) ∙ update_restore gic.active id 1

-- Where a line is waiting, reading the acknowledge register gives it, and writing what was read to
-- the end-of-interrupt register leaves every line as it was, but for the pending state that the
-- read consumed.
pub end_of_interrupt-acknowledge :
    (gic : Gicv2)
    → highest_pending gic ≢ spurious
    → (let (id, gic') = cpu_read gic 0x00c in
        (id ≡ highest_pending gic)
        × (cpu_write gic' 0x010 id ≡ record gic {
          pending = update gic.pending (highest_pending gic) 0;
          running_pri = running_priority gic;
        }))
unfolding cpu_read cpu_write acknowledge
end_of_interrupt-acknowledge gic ne = rw (ne→== (highest_pending gic) spurious ne) (
  refl,
  end_of_interrupt-mark_active gic (highest_pending gic) (highest_pending-IsCandidate gic ne),
)
