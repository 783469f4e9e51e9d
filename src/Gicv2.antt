-- ===== src/Gicv2.antt =====
-- The interrupt controller of src/dev/gicv2.c: its state, the priority scan, acknowledgement and
-- the output line. Per-line arrays have 64 entries; every access below is guarded by that bound
-- as in the source. The register windows are in Gicv2/Bus.antt.
pub mod Bus
pub mod Scan
pub mod Banks
pub mod Invariant
pub mod Run
pub mod Registers
pub mod Acknowledge
pub mod Running
mod Examples
use oemu.Common.{
  ℕ, zero, suc, ◌+◌, ◌-◌, ◌*◌, ◌/◌, ◌%◌, min, bit_and, bit_or, Bool, true, false, ◌&&◌, ◌||◌,
  Option, none, some, Bank, update, ltb, leb, ◌==◌, ◌!=◌, if◌then◌else◌,
}
use oemu.Common.Word.{◌<<<◌, u32}

-- OEMU_GICV2_LINES
abbrev pub max_lines : ℕ
max_lines = 64

-- OEMU_GICV2_SPURIOUS
abbrev pub spurious : ℕ
spurious = 1023

-- `oemu_gicv2`, without the two tables of callbacks.
pub record Gicv2 : Type 0 where
  pub ctl : ℕ
  pub typer : ℕ
  pub iidr : ℕ
  pub cpu_ctl : ℕ
  pub cpu_pmr : ℕ
  pub cpu_bpr : ℕ
  pub running_pri : ℕ
  pub ccpner : ℕ
  pub enable : Bank
  pub pending : Bank
  pub active : Bank
  pub config : Bank
  pub group : Bank
  pub priority : Bank
  pub target : Bank
  pub sgir : ℕ

unfoldable pub lines_of : Gicv2 → ℕ
lines_of gic = (bit_and gic.typer 0x1f + 1) * 32

-- The loop of `gic_running_priority` at line `i`, with `left` lines to go.
unfoldable pub lowest_active : Bank → Bank → ℕ → ℕ → ℕ → ℕ
lowest_active active priority zero i best = best
lowest_active active priority (suc left) i best =
    lowest_active active priority left (i + 1)
      (if active i != 0 && ltb (priority i) best then priority i else best)

unfoldable pub running_priority : Gicv2 → ℕ
running_priority gic = lowest_active gic.active gic.priority max_lines 0 256

module _ (enable pending active priority target : Bank) (pmr : ℕ) where
  -- The body of the scan's loop, from the best line so far and its priority.
  pub consider : ℕ → ℕ × ℕ → ℕ × ℕ
  consider i (best, best_pri) =
      if enable i == 0 || pending i == 0 || active i != 0 || bit_and (target i) 1 == 0
      then (best, best_pri)
      else if leb pmr (priority i) || leb best_pri (priority i)
      then (best, best_pri)
      else (i, priority i)

  pub scan_from : ℕ → ℕ → ℕ × ℕ → ℕ × ℕ
  scan_from zero i s = s
  scan_from (suc left) i s = scan_from left (i + 1) (consider i s)

  -- `oemu_gicv2_internal_scan`; the loop runs while `i < lines` and `i < 64`.
  pub scan : ℕ → ℕ → ℕ
  scan running_pri lines = (scan_from (min lines max_lines) 0 (spurious, running_pri)).0

-- The scan as both of its callers make it.
pub highest_pending : Gicv2 → ℕ
highest_pending gic =
    scan gic.enable gic.pending gic.active gic.priority gic.target (bit_and gic.cpu_pmr 0xff)
      (running_priority gic) (lines_of gic)

-- What `gic_acknowledge` records for line `id`.
pub mark_active : Gicv2 → ℕ → Gicv2
mark_active gic id =
    let marked : Gicv2 = record gic {
      active = update gic.active id 1;
      pending = update gic.pending id 0;
    } in
    record marked { running_pri = running_priority marked }

pub acknowledge : Gicv2 → ℕ × Gicv2
acknowledge gic =
    let id = highest_pending gic in
    if id == spurious then (spurious, gic) else (id, mark_active gic id)

-- The state after `memset` and the reset values of `oemu_gicv2_init`.
unfoldable pub reset_state : ℕ → Gicv2
reset_state lines = record {
  ctl = 0;
  typer = bit_or (16 <<< 16) (u32 (lines / 32 - 1));
  iidr = 0;
  cpu_ctl = 0;
  cpu_pmr = 0;
  cpu_bpr = 0;
  running_pri = 0;
  ccpner = 0;
  enable = λ i. 0;
  pending = λ i. 0;
  active = λ i. 0;
  config = λ i. 0;
  group = λ i. 0;
  priority = λ i. 0x80;
  target = λ i. 1;
  sgir = 0;
}

-- `oemu_gicv2_init`; `none` is the failed OEMU_REQUIRE.
pub init : ℕ → Option Gicv2
init lines =
    if lines % 32 == 0 && leb 32 lines && leb lines max_lines
    then some (reset_state lines)
    else none

-- `oemu_gicv2_irq_level`
pub irq_level : Gicv2 → ℕ
irq_level gic =
    if bit_and gic.ctl 1 == 0 || bit_and gic.cpu_ctl 1 == 0
    then 0
    else if highest_pending gic != spurious
    then 1
    else 0

pub nr_lines : Gicv2 → ℕ
nr_lines gic = lines_of gic

unfoldable pub set_pending : Gicv2 → ℕ → Bool → Gicv2
set_pending gic intid level =
    if leb max_lines intid
    then gic
    else record gic { pending = update gic.pending intid (if level then 1 else 0) }
