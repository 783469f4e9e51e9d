-- ===== src/Mmu/Descent.antt =====
-- src/mmu/mmu.c: the walks of the addresses of one page, from the registers to the leaf.
use oemu.Common.{
  ℕ, zero, suc, ◌+◌, ◌-◌, ◌^◌, ◌≤◌, ◌<◌, bit_and, bit_or, ◌≡◌, refl, sym, subst, Bool, false, not,
  Option, none, some, ◌!=◌, if◌then◌else◌, if_both, arith,
}
use oemu.Common.Word.{◌>>>◌, ◌<<<◌, any_set}
use oemu.Mmu.{start_level, region_ok, index, Access}
use oemu.Mmu.Walk.{
  Control, Walked, Step, stop, deeper, page_base, output_bits, ignores_top, follow, at_entry,
  descend, enter_region, walk_tables,
}
use oemu.Mmu.Page.{SamePage, index_page, use_ttbr1_page, region_ok_page}
use oemu.Mmu.Follow.{Follows, StepFollows, visit-StepFollows, fault-Follows}

module _ (va va' : ℕ) (access access' : Access) where
  follow-Follows :
      (next next' : ℕ → ℕ → Option Walked) (level : ℕ) (s s' : Step)
      → (level < 3 → (base tattrs : ℕ) → Follows va' access' (next base tattrs) (next' base tattrs))
      → StepFollows level va' access' s s'
      → Follows va' access' (follow next s) (follow next' s')
  unfolding follow StepFollows
  follow-Follows next next' level (stop w) s' rest h = h next'
  follow-Follows next next' level (deeper base tattrs) s' rest (e, below) =
      subst (λ t. Follows va' access' (next base tattrs) (follow next' t)) (sym e)
        (rest below base tattrs)

  at_entry-Follows :
      (next next' : ℕ → ℕ → Option Walked) (level tattrs out_bits : ℕ) (read : Option ℕ)
      → SamePage va va'
      → level ≤ 3
      → 12 ≤ out_bits
      → (level < 3 → (base tattrs : ℕ) → Follows va' access' (next base tattrs) (next' base tattrs))
      → Follows va' access'
          (at_entry next level tattrs out_bits va access read)
          (at_entry next' level tattrs out_bits va' access' read)
  unfolding at_entry
  at_entry-Follows next next' level tattrs out_bits none same below wide rest =
      fault-Follows va' access' _ _ _ _
  at_entry-Follows next next' level tattrs out_bits (some raw) same below wide rest =
      follow-Follows next next' level _ _ rest
        (visit-StepFollows raw level tattrs out_bits va va' access access' same below wide)

module _ (table_read : ℕ → Option ℕ) where
  -- The two loops read the same descriptors.
  descend-Follows :
      (rounds level base tattrs out_bits va va' : ℕ) (access access' : Access)
      → SamePage va va'
      → level ≤ 3
      → 12 ≤ out_bits
      → Follows va' access'
          (descend table_read rounds level base tattrs out_bits va access)
          (descend table_read rounds level base tattrs out_bits va' access')
  unfolding descend Follows
  descend-Follows zero level base tattrs out_bits va va' access access' same below wide = tt
  descend-Follows (suc rounds) level base tattrs out_bits va va' access access' same below wide =
      subst
        (λ t.
          Follows va' access' (descend table_read (suc rounds) level base tattrs out_bits va access)
            (at_entry (λ b a. descend table_read rounds (level + 1) b a out_bits va' access') level
              tattrs out_bits va' access' (table_read (bit_or base t))))
        (index_page va va' level below same)
        (at_entry-Follows va va' access access' _ _ level tattrs out_bits
          (table_read (bit_or base (index va level))) same below wide
          λ left b a.
            descend-Follows rounds (level + 1) b a out_bits va va' access access' same (omega arith)
              wide)

  out_bits_wide : (tcr : ℕ) → 12 ≤ output_bits tcr
  unfolding output_bits
  out_bits_wide tcr = ground arith

  start_level_wide : (inputsize level : ℕ) → start_level inputsize ≡ some level → 25 ≤ inputsize
  unfolding start_level
  start_level_wide inputsize level e = ground (arith, e)

  start_level_low : (inputsize level : ℕ) → start_level inputsize ≡ some level → level ≤ 3
  unfolding start_level
  start_level_low inputsize level e = ground (arith, e)

  module _ (c : Control) (va va' : ℕ) (access access' : Access) where
    enter_region_other :
        (ttbr1 tbi : Bool) (inputsize level : ℕ)
        → 12 ≤ inputsize
        → SamePage va va'
        → not (region_ok va inputsize (if tbi then 56 else 64) ttbr1) ≡ false
        → any_set c.tcr (if ttbr1 then 1 <<< 23 else 1 <<< 7) ≡ false
        → (bit_and (if ttbr1 then c.ttbr1 else c.ttbr0) (2 ^ 48 - 2) >>> output_bits c.tcr != 0)
          ≡ false
        → enter_region table_read c ttbr1 tbi inputsize va' (some level) access'
          ≡ descend table_read 4 level
              (page_base (bit_and (if ttbr1 then c.ttbr1 else c.ttbr0) (2 ^ 48 - 2)))
              0
              (output_bits c.tcr)
              va'
              access'
    unfolding enter_region
    enter_region_other ttbr1 tbi inputsize level wide same region enabled fits =
        rw
          (
            sym (region_ok_page va va' inputsize (if tbi then 56 else 64) ttbr1 wide same),
            region,
            enabled,
            fits,
          )
          refl

    enter_region-Follows :
        (ttbr1 tbi : Bool) (inputsize : ℕ) (start : Option ℕ)
        → SamePage va va'
        → ((level : ℕ) → start ≡ some level → (level ≤ 3) × (25 ≤ inputsize))
        → Follows va' access'
            (enter_region table_read c ttbr1 tbi inputsize va start access)
            (enter_region table_read c ttbr1 tbi inputsize va' start access')
    unfolding enter_region
    enter_region-Follows ttbr1 tbi inputsize none same bounds = fault-Follows va' access' _ _ _ _
    enter_region-Follows ttbr1 tbi inputsize (some level) same bounds =
        if_both P (not (region_ok va inputsize (if tbi then 56 else 64) ttbr1))
          (λ _. fault-Follows va' access' _ _ _ _)
          λ region.
            if_both P (any_set c.tcr (if ttbr1 then 1 <<< 23 else 1 <<< 7))
              (λ _. fault-Follows va' access' _ _ _ _)
              λ enabled.
                if_both P
                  (bit_and (if ttbr1 then c.ttbr1 else c.ttbr0) (2 ^ 48 - 2) >>> output_bits c.tcr
                    != 0)
                  (λ _. fault-Follows va' access' _ _ _ _)
                  λ fits.
                    subst (Follows va' access' _)
                      (sym (
                        enter_region_other ttbr1 tbi inputsize level
                          (omega (arith, (bounds level refl).1)) same region enabled fits))
                      (descend-Follows 4 level _ 0 (output_bits c.tcr) va va' access access' same
                        (bounds level refl).0 (out_bits_wide c.tcr))
      where
        P : Option Walked → Type 0
        P w =
            Follows va' access' w
              (enter_region table_read c ttbr1 tbi inputsize va' (some level) access')

    pub walk_tables-Follows :
        SamePage va va'
        → Follows va' access'
            (walk_tables table_read c va access)
            (walk_tables table_read c va' access')
    unfolding walk_tables
    walk_tables-Follows same =
        subst
          (λ t.
            let inputsize = 64 - bit_and (if t then c.tcr >>> 16 else c.tcr) 0x3f in
            Follows va' access' (walk_tables table_read c va access) (
              enter_region table_read c t (ignores_top c.tcr t) inputsize va'
                (start_level inputsize) access'))
          (use_ttbr1_page va va' same)
          (enter_region-Follows _ _ _ _ same
            λ level e. (start_level_low _ level e, start_level_wide _ level e))
