-- ===== src/Gicv2/Run.antt =====
-- src/dev/gicv2.c: sequences of bus accesses and wired sources, from `oemu_gicv2_init` on.
use oemu.Common.{
  ℕ, ◌-◌, ◌/◌, ◌%◌, ◌^◌, ◌≤◌, ◌≡◌, refl, subst, Bool, List, [], ◌∷◌, some, arith, ◌∙◌,
}
use oemu.Common.Bits.Masks.{bit_or_fields, bit_and_low}
use oemu.Gicv2.{Gicv2, lines_of, init, reset_state, set_pending}
use oemu.Gicv2.Bus.{dist_write, cpu_read, cpu_write}
use oemu.Gicv2.Invariant.{
  IsValid, set_pending-IsValid, dist_write-IsValid, cpu_read-IsValid, cpu_write-IsValid,
}

-- One event: a bus access or a wired source.
pub data Event : Type 0 where
  read_cpu : ℕ → Event
  write_dist : ℕ → ℕ → Event
  write_cpu : ℕ → ℕ → Event
  drive : ℕ → Bool → Event

unfoldable pub handle : Gicv2 → Event → Gicv2
handle gic (read_cpu offset) = (cpu_read gic offset).1
handle gic (write_dist offset value) = dist_write gic offset value
handle gic (write_cpu offset value) = cpu_write gic offset value
handle gic (drive intid level) = set_pending gic intid level

unfoldable pub run : Gicv2 → List Event → Gicv2
run gic [] = gic
run gic (e ∷ es) = run (handle gic e) es

lines_of-IsValid :
    (lines : ℕ) {gic : Gicv2}
    → 32 ≤ lines
    → lines ≤ 64
    → lines % 32 ≡ 0
    → IsValid lines gic
    → lines_of gic ≡ lines
unfolding lines_of
lines_of-IsValid lines {gic} p q m v = omega (arith, bit_and_low 5 gic.typer, v.typer_fixed)

module _ (lines : ℕ) where
  handle-IsValid : {gic : Gicv2} (e : Event) → IsValid lines gic → IsValid lines (handle gic e)
  unfolding handle
  handle-IsValid (read_cpu offset) v = cpu_read-IsValid lines v offset
  handle-IsValid (write_dist offset value) v = dist_write-IsValid lines v offset value
  handle-IsValid (write_cpu offset value) v = cpu_write-IsValid lines v offset value
  handle-IsValid (drive intid level) v = set_pending-IsValid lines v intid level

  run-IsValid : (es : List Event) {gic : Gicv2} → IsValid lines gic → IsValid lines (run gic es)
  unfolding run
  run-IsValid [] v = v
  run-IsValid (e ∷ es) v = run-IsValid es (handle-IsValid e v)

reset_state-IsValid : (lines : ℕ) → lines ≤ 64 → IsValid lines (reset_state lines)
unfolding reset_state
reset_state-IsValid lines h = record {
  ctl_in = omega arith;
  typer_fixed = bit_or_fields 16 16 ((lines / 32 - 1) % 2 ^ 32) (omega arith) ∙ omega arith;
  iidr_fixed = refl;
  cpu_ctl_in = omega arith;
  cpu_pmr_in = omega arith;
  cpu_bpr_in = omega arith;
  running_pri_in = omega arith;
  ccpner_fixed = refl;
  sgir_in = omega arith;
  enable_in = λ i. omega arith;
  pending_in = λ i. omega arith;
  active_in = λ i. omega arith;
  config_in = λ i. omega arith;
  group_in = λ i. omega arith;
  priority_in = λ i. omega arith;
  target_in = λ i. omega arith;
  target_fixed = λ i p. refl;
}

-- From a successful `init` on, through any bus accesses and wired sources, every register stays
-- in range (the running priority at most 256, the software trigger below 2 ^ 32), the two that
-- nothing writes stay 0, the reported line count is the one asked for, and the SGI and PPI targets
-- stay fixed.
pub run-init-IsValid :
    (lines : ℕ) (es : List Event) {gic : Gicv2}
    → init lines ≡ some gic
    → IsValid lines (run gic es) × (lines_of (run gic es) ≡ lines)
unfolding init
run-init-IsValid lines es {gic} h = (valid, lines_of-IsValid lines facts.0 facts.1 facts.2.0 valid)
  where
    facts : (32 ≤ lines) × (lines ≤ 64) × ((lines % 32 ≡ 0) × (reset_state lines ≡ gic))
    facts = ground arith

    valid : IsValid lines (run gic es)
    valid =
        run-IsValid lines es (subst (IsValid lines) facts.2.1 (reset_state-IsValid lines facts.1))
