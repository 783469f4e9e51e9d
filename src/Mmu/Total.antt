-- ===== src/Mmu/Total.antt =====
-- src/mmu/mmu.c: the end of the walk's loop, and the syndromes of its faults.
use oemu.Common.{
  if_both, ℕ, zero, suc, ◌+◌, ◌-◌, ◌^◌, ◌≤◌, ◌<◌, bit_and, ◌≡◌, refl, Bool, not, ◌&&◌, ◌||◌, Option,
  none, some, ltb, leb, ◌==◌, ◌!=◌, if◌then◌else◌, arith,
}
use oemu.Common.Word.{◌>>>◌, ◌<<<◌, any_set}
use oemu.Mmu.{
  translation, translation_no_walk, access_flag, permission, address_size, dfsc, start_level,
  region_ok, sctlr_m, decode, permits, Access,
}
use oemu.Mmu.Walk.{
  Control, WalkInfo, Walked, walked_to, walk_faults, fault, Step, stop, deeper, verdict, merge,
  leaf, visit, output_bits, follow, at_entry, descend, enter_region, walk_tables, walk,
  leaf_address,
}

-- A fault whose class and level have a code.
unfoldable pub IsEncodable : Walked → Type 0
IsEncodable (walked_to pa info) = Unit
IsEncodable (walk_faults f) = (code : ℕ) × (dfsc f.cls f.level ≡ some code)

-- The walk ends, with a fault that has a code or with an address.
unfoldable pub Ends : Option Walked → Type 0
Ends none = ⊥
Ends (some w) = IsEncodable w

unfoldable pub StepEnds : ℕ → Step → Type 0
StepEnds level (stop w) = IsEncodable w
StepEnds level (deeper base tattrs) = level < 3

access_flag_code :
    (level va : ℕ) → 1 ≤ level → level ≤ 3 → IsEncodable (fault access_flag (some level) va)
unfolding IsEncodable dfsc
access_flag_code level va above below = (0x08 + level, ground arith)

permission_code :
    (level va : ℕ) → 1 ≤ level → level ≤ 3 → IsEncodable (fault permission (some level) va)
unfolding IsEncodable dfsc
permission_code level va above below = (0x0c + level, ground arith)

translation_code : (level va : ℕ) → level ≤ 3 → IsEncodable (fault translation (some level) va)
unfolding IsEncodable dfsc
translation_code level va below = (0x04 + level, ground arith)

size_code : (level : Option ℕ) (va : ℕ) → IsEncodable (fault address_size level va)
unfolding IsEncodable dfsc
size_code none va = (0x29, refl)
size_code (some level) va = (_, refl)

no_walk_code : (va : ℕ) → IsEncodable (fault translation_no_walk none va)
unfolding IsEncodable dfsc
no_walk_code va = (0x2c, refl)

reached : (pa : ℕ) (info : Option WalkInfo) → IsEncodable (walked_to pa info)
unfolding IsEncodable
reached pa info = tt

verdict-IsEncodable :
    (info : WalkInfo) (addr va : ℕ) (access : Access)
    → 1 ≤ info.level
    → info.level ≤ 3
    → IsEncodable (verdict info addr va access)
unfolding verdict
verdict-IsEncodable info addr va access above below =
    if_both IsEncodable
      (permits info.ap info.xn info.pxn (access.el == 0) access.is_write access.is_fetch)
      (λ _. reached addr (some info)) λ _. permission_code info.level va above below

leaf-IsEncodable :
    (raw level tattrs out_bits va : ℕ) (access : Access)
    → 1 ≤ level
    → level ≤ 3
    → IsEncodable (leaf (decode raw) level tattrs out_bits va access)
unfolding leaf merge
leaf-IsEncodable raw level tattrs out_bits va access above below =
    if_both IsEncodable (leaf_address (decode raw) level va >>> out_bits != 0)
      (λ _. size_code (some level) va)
      λ _.
        if_both IsEncodable (not (decode raw).af) (λ _. access_flag_code level va above below)
          λ _. verdict-IsEncodable (merge (decode raw) level tattrs) _ va access above below

stopped : (level : ℕ) (w : Walked) → IsEncodable w → StepEnds level (stop w)
unfolding StepEnds
stopped level w h = h

goes_deeper : (level base tattrs : ℕ) → level < 3 → StepEnds level (deeper base tattrs)
unfolding StepEnds
goes_deeper level base tattrs h = h

visit-StepEnds :
    (raw level tattrs out_bits va : ℕ) (access : Access)
    → level ≤ 3
    → StepEnds level (visit raw level tattrs out_bits va access)
unfolding visit
visit-StepEnds raw level tattrs out_bits va access below =
    if_both (StepEnds level) (not (decode raw).valid)
      (λ _. stopped level _ (translation_code level va below))
      λ _.
        if_both (StepEnds level) ((decode raw).table && ltb level 3)
          (λ t.
            if_both (StepEnds level) ((decode raw).address >>> out_bits != 0)
              (λ _. stopped level _ (size_code (some level) va))
              λ _. goes_deeper level _ _ (ground (arith, t)))
          λ _.
            if_both (StepEnds level) (not ((decode raw).table || (decode raw).block_page))
              (λ _. stopped level _ (translation_code level va below))
              λ _.
                if_both (StepEnds level) (level == 0)
                  (λ _. stopped level _ (translation_code 0 va (omega arith)))
                  λ z.
                    stopped level _ (
                      leaf-IsEncodable raw level tattrs out_bits va access (ground (arith, z))
                        below)

ended : (w : Walked) → IsEncodable w → Ends (some w)
unfolding Ends
ended w h = h

follow-Ends :
    (next : ℕ → ℕ → Option Walked) (level : ℕ) (step : Step)
    → (level < 3 → (base tattrs : ℕ) → Ends (next base tattrs))
    → StepEnds level step
    → Ends (follow next step)
unfolding follow StepEnds Ends
follow-Ends next level (stop w) rest h = h
follow-Ends next level (deeper base tattrs) rest h = rest h base tattrs

at_entry-Ends :
    (next : ℕ → ℕ → Option Walked) (level tattrs out_bits va : ℕ) (access : Access)
    (read : Option ℕ)
    → level ≤ 3
    → (level < 3 → (base tattrs : ℕ) → Ends (next base tattrs))
    → Ends (at_entry next level tattrs out_bits va access read)
unfolding at_entry
at_entry-Ends next level tattrs out_bits va access none below rest = ended _ (no_walk_code va)
at_entry-Ends next level tattrs out_bits va access (some raw) below rest =
    follow-Ends next level _ rest (visit-StepEnds raw level tattrs out_bits va access below)

-- With a round for each level left, the loop ends.
descend-Ends :
    (table_read : ℕ → Option ℕ) (rounds level base tattrs out_bits va : ℕ) (access : Access)
    → level ≤ 3
    → 4 ≤ rounds + level
    → Ends (descend table_read rounds level base tattrs out_bits va access)
unfolding descend
descend-Ends table_read zero level base tattrs out_bits va access below enough =
    absurd (omega arith)
descend-Ends table_read (suc rounds) level base tattrs out_bits va access below enough =
    at_entry-Ends _ level tattrs out_bits va access _ below λ left base' tattrs'.
      descend-Ends table_read rounds (level + 1) base' tattrs' out_bits va access (omega arith)
        (omega arith)

start_level-bound : (inputsize level : ℕ) → start_level inputsize ≡ some level → level ≤ 3
unfolding start_level
start_level-bound inputsize level e = ground (arith, e)

enter_region-Ends :
    (table_read : ℕ → Option ℕ) (c : Control) (ttbr1 tbi : Bool) (inputsize va : ℕ)
    (start : Option ℕ) (access : Access)
    → ((level : ℕ) → start ≡ some level → level ≤ 3)
    → Ends (enter_region table_read c ttbr1 tbi inputsize va start access)
unfolding enter_region
enter_region-Ends table_read c ttbr1 tbi inputsize va none access below =
    ended _ (translation_code 0 va (omega arith))
enter_region-Ends table_read c ttbr1 tbi inputsize va (some level) access below =
    if_both Ends (not (region_ok va inputsize (if tbi then 56 else 64) ttbr1))
      (λ _. ended _ (translation_code level va (below level refl)))
      λ _.
        if_both Ends (any_set c.tcr (if ttbr1 then 1 <<< 23 else 1 <<< 7))
          (λ _. ended _ (translation_code level va (below level refl)))
          λ _.
            if_both Ends
              (bit_and (if ttbr1 then c.ttbr1 else c.ttbr0) (2 ^ 48 - 2) >>> output_bits c.tcr != 0)
              (λ _. ended _ (size_code none va))
              λ _.
                descend-Ends table_read 4 level _ 0 (output_bits c.tcr) va access (below level refl)
                  (omega arith)

-- Whatever the registers, the tables, the address and the access, the walk ends within four
-- descriptors, and a fault that it ends with has a class and a level that the syndrome can encode,
-- so that no requirement of the encoder fails.
pub walk-Ends :
    (table_read : ℕ → Option ℕ) (c : Control) (va : ℕ) (access : Access)
    → Ends (walk table_read c va access)
unfolding walk walk_tables
walk-Ends table_read c va access =
    if_both Ends (leb 3 access.el || bit_and c.sctlr sctlr_m == 0) (λ _. ended _ (reached va none))
      λ _. enter_region-Ends table_read c _ _ _ _ _ access (start_level-bound _)
