-- ===== src/Gicv2/Examples.antt =====
-- A controller with two waiting lines, 33 and 40, of which 40 goes first.
use oemu.Common.{
  ℕ, ◌≤◌, ◌≡◌, ◌≢◌, refl, ◌⊎◌, true, some, List, [], ◌∷◌, update, ◌==◌, if◌then◌else◌, arith,
}
use oemu.Gicv2.{
  Gicv2, spurious, lines_of, lowest_active, running_priority, consider, scan_from, scan,
  highest_pending, init, reset_state,
}
use oemu.Gicv2.Bus.{cpu_read, cpu_write}
use oemu.Gicv2.Scan.{IsCandidate, highest_pending_lem}
use oemu.Gicv2.Acknowledge.{end_of_interrupt-acknowledge}
use oemu.Gicv2.Registers.{IsSetClear, IsSetClear-registers}
use oemu.Gicv2.Invariant.{IsValid}
use oemu.Gicv2.Run.{Event, write_dist, write_cpu, drive, read_cpu, run, run-init-IsValid}

abbrev two_lines : Gicv2
two_lines = record {
  ctl = 1;
  typer = 1;
  iidr = 0;
  cpu_ctl = 1;
  cpu_pmr = 0xf0;
  cpu_bpr = 0;
  running_pri = 256;
  ccpner = 0;
  enable = λ i. 1;
  pending = λ i. if i == 33 then 1 else if i == 40 then 1 else 0;
  active = λ i. 0;
  config = λ i. 0;
  group = λ i. 0;
  priority = λ i. if i == 40 then 0x20 else 0x80;
  target = λ i. 1;
  sgir = 0;
}

two_lines_first : highest_pending two_lines ≡ 40
unfolding highest_pending scan scan_from consider running_priority lowest_active lines_of
two_lines_first = refl

two_lines_waiting : highest_pending two_lines ≢ spurious
two_lines_waiting e = omega (arith, e, two_lines_first)

two_lines-IsCandidate : IsCandidate two_lines 40
unfolding running_priority lowest_active lines_of
two_lines-IsCandidate = omega arith

highest_pending_lem_example :
    ((highest_pending two_lines ≡ spurious) × ((j : ℕ) → ¬ IsCandidate two_lines j))
    ⊎ (IsCandidate two_lines (highest_pending two_lines)
        × ((j : ℕ)
            → IsCandidate two_lines j
            → (two_lines.priority (highest_pending two_lines) ≤ two_lines.priority j)
              × (two_lines.priority (highest_pending two_lines) ≡ two_lines.priority j
                  → highest_pending two_lines ≤ j)))
highest_pending_lem_example = highest_pending_lem two_lines

end_of_interrupt-acknowledge_example :
    let (id, gic') = cpu_read two_lines 0x00c in
    (id ≡ highest_pending two_lines)
    × (cpu_write gic' 0x010 id ≡ record two_lines {
      pending = update two_lines.pending (highest_pending two_lines) 0;
      running_pri = running_priority two_lines;
    })
end_of_interrupt-acknowledge_example = end_of_interrupt-acknowledge two_lines two_lines_waiting

IsSetClear-registers_example :
    IsSetClear two_lines 0x100 0x180 1 2 1
    × IsSetClear two_lines 0x200 0x280 1 2 1
    × IsSetClear two_lines 0x300 0x380 1 2 1
IsSetClear-registers_example = IsSetClear-registers two_lines 1 2 1 (omega arith) (omega arith)

abbrev enable_and_take : List Event
enable_and_take =
    write_dist 0 1 ∷ write_cpu 0 1 ∷ write_dist 0x104 2 ∷ drive 33 true ∷ read_cpu 0x00c ∷ []

init_64 : init 64 ≡ some (reset_state 64)
unfolding init
init_64 = refl

run-init-IsValid_example :
    IsValid 64 (run (reset_state 64) enable_and_take)
    × (lines_of (run (reset_state 64) enable_and_take) ≡ 64)
run-init-IsValid_example = run-init-IsValid 64 enable_and_take init_64
