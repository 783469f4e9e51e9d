-- ===== src/Mmu/Examples.antt =====
-- Stage 1 on, with 39-bit addresses and one table at 0x1000, whose second entry maps the gigabyte
-- at 0x40000000 to itself.
use oemu.Common.{
  Bool, ℕ, ◌≡◌, refl, true, false, Option, some, [], ◌∷◌, ◌==◌, if◌then◌else◌, arith, leb, Bank,
  update,
}
use oemu.Common.Status.{half, dword}
use oemu.Mmu.{Access, start_level, use_ttbr1, region_ok, index, decode, permits}
use oemu.Mmu.Walk.{Control, walk, output_bits, page_base}
use oemu.Mmu.Tlb.{Mmu, translated, init, translate}
use oemu.Mmu.Total.{Ends, walk-Ends}
use oemu.Mmu.Coherent.{Coherent, init-Coherent}
use oemu.Mmu.Transparent.{translate-Coherent}
use oemu.Mmu.Bus.{Bus, Layer, tables, mmu_write}
use oemu.Mmu.Precise.{IsSteady, store_whole}
use oemu.Mmu.Store.{IsWhole, mmu_write-IsWhole}
use oemu.Mmu.Probe.{IsProbed, mmu_validate, mmu_validate-IsProbed}
use oemu.Mmu.Run.{
  access_at, tables_change, run, run_walks, InRange, run_transparent, Reports, translate-Reports,
}

abbrev control : Control
control = record { sctlr = 1; tcr = 25; ttbr0 = 0x1000; ttbr1 = 0; mair = 0 }

abbrev load : Access
load = record { el = 1; is_write = false; is_fetch = false }

abbrev store : Access
store = record { el = 1; is_write = true; is_fetch = false }

abbrev identity : ℕ → Option ℕ
identity a = if a == 0x1008 then some 0x40000401 else some 0

-- The same, for reads only.
abbrev read_only : ℕ → Option ℕ
read_only a = if a == 0x1008 then some 0x40000481 else some 0

abbrev filled : Mmu
filled = (translate identity init control 0x40001234 load).1

first : (translate identity init control 0x40001234 load).0 ≡ some (translated 0x40001234)
unfolding translate init walk start_level use_ttbr1 region_ok output_bits page_base index decode
    permits
first = refl

second : (translate identity filled control 0x40001ff0 store).1.tlb_hits ≡ 1
unfolding translate init walk start_level use_ttbr1 region_ok output_bits page_base index decode
    permits
second = refl

walk-Ends_example : Ends (walk identity control 0x40001234 load)
walk-Ends_example = walk-Ends identity control 0x40001234 load

filled-Coherent : Coherent identity filled
filled-Coherent =
    translate-Coherent identity init control 0x40001234 load (init-Coherent identity) (omega arith)

translate-Reports_example : Reports (translate identity filled control 0x1234 store).0
translate-Reports_example =
    translate-Reports identity filled control 0x1234 store filled-Coherent (omega arith)

run_transparent_example :
    run identity init (
      access_at control 0x40001234 load
      ∷ access_at control 0x40001ff0 store
      ∷ tables_change read_only
      ∷ access_at control 0x40001ff0 store
      ∷ [])
    ≡ run_walks identity (
        access_at control 0x40001234 load
        ∷ access_at control 0x40001ff0 store
        ∷ tables_change read_only
        ∷ access_at control 0x40001ff0 store
        ∷ [])
unfolding InRange
run_transparent_example = run_transparent identity _ (omega arith, (omega arith, (omega arith, tt)))

-- Tables in a memory of words that cannot be stored to, and bytes from 0x40000000 on.
abbrev two_memories : Bus Bank
two_memories = record {
  fetch32 = λ s a. some (s a);
  read = λ s a size. elim size [ dword ↦ (identity a, s) | _ ↦ (some (s a), s) ];
  write = λ s a size v. if leb 0x40000000 a then (true, update s a v) else (false, s);
  validate = λ s a n perms. leb 0x40000000 a;
}

two_memories-IsSteady : IsSteady two_memories control identity (λ s. Unit)
two_memories-IsSteady = record {
  same_walks = λ s v access h. refl;
  same_map = λ s s' a h h'. refl;
  carried_out = λ s a v h ok. (allowed (leb 0x40000000 a) s (update s a v) ok, tt);
  leaves = λ s a v size h refuses. kept (leb 0x40000000 a) s (update s a v) refuses;
}
  where
    allowed :
        (t : Bool) (s after : Bank)
        → t ≡ true
        → (let r : Bool × Bank = if t then (true, after) else (false, s) in r.0) ≡ true
    allowed true s after ok = refl
    allowed false s after ok = ok

    kept :
        (t : Bool) (s after : Bank)
        → (let r : Bool × Bank = if t then (true, after) else (false, s) in r.0) ≡ false
        → (let r : Bool × Bank = if t then (true, after) else (false, s) in r.1) ≡ s
    kept true s after refuses = absurd (ground (arith, refuses))
    kept false s after refuses = refl

abbrev fresh : Layer Bank
fresh = record { mmu = init; state = λ i. 0 }

-- Two bytes on two pages.
mmu_write-IsWhole_example :
    IsWhole fresh.state
      (store_whole two_memories control identity 1 0x40000fff half 0x1234 fresh.state)
      (mmu_write two_memories control 1 fresh 0x40000fff 77 half 0x1234)
mmu_write-IsWhole_example =
    mmu_write-IsWhole two_memories control identity 1 (λ s. Unit) two_memories-IsSteady fresh
      0x40000fff 77 0x1234 half tt (init-Coherent (tables two_memories control fresh.state))
      (omega arith)

mmu_validate-IsProbed_example :
    IsProbed fresh.state (mmu_validate two_memories control 1 fresh 0x40000ff0 0x2000 1)
mmu_validate-IsProbed_example =
    mmu_validate-IsProbed two_memories control 1 fresh 0x40000ff0 0x2000 1
      (init-Coherent (tables two_memories control fresh.state))
