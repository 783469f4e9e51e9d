-- ===== src/Mmu/Follow.antt =====
-- src/mmu/mmu.c: a walk that ends well, and the walks of the other addresses of its page.
use oemu.Common.{
  ℕ, ◌+◌, ◌*◌, ◌/◌, ◌%◌, ◌^◌, ◌≤◌, ◌<◌, bit_and, bit_or, ◌≡◌, refl, sym, ap, subst, Bool, true,
  false, not, ◌&&◌, ◌||◌, Option, none, some, ltb, ◌==◌, ◌!=◌, if◌then◌else◌, if_both, arith,
}
use oemu.Common.Bits.Masks.{bit_and-le}
use oemu.Common.Word.{◌>>>◌, ◌<<<◌, any_set, complement}
use oemu.Mmu.{FaultClass, decode, permits, table_attrs, Access}
use oemu.Mmu.Walk.{
  WalkInfo, Walked, walked_to, walk_faults, fault, Step, stop, deeper, page_base, verdict, merge,
  leaf, visit, leaf_address, follow,
}
use oemu.Mmu.Page.{SamePage, LeafAddress-page, LeafAddress, shift_page}

-- What a walk that reached `pa` with `info` says of the walk of another address of the page, by any
-- access: it ends at the same attributes, whose verdict is all that can differ.
pub record Reached (va' : ℕ) (access' : Access) (pa : ℕ) (info : WalkInfo) (w' : Option Walked)
    : Type 0 where
  pub address : w' ≡ some (verdict info (pa / 4096 * 4096 + va' % 4096) va' access')
  pub ap_in : info.ap < 4
  pub level_above : 1 ≤ info.level
  pub level_below : info.level ≤ 3
  pub pa_in : pa < 2 ^ 64

unfoldable pub Follows : ℕ → Access → Option Walked → Option Walked → Type 0
Follows va' access' none w' = Unit
Follows va' access' (some (walk_faults f)) w' = Unit
Follows va' access' (some (walked_to pa none)) w' = Unit
Follows va' access' (some (walked_to pa (some info))) w' = Reached va' access' pa info w'

pub fault-Follows :
    (va' : ℕ) (access' : Access) (cls : FaultClass) (level : Option ℕ) (far : ℕ)
    (w' : Option Walked)
    → Follows va' access' (some (fault cls level far)) w'
unfolding Follows
fault-Follows va' access' cls level far w' = tt

reached :
    (va' : ℕ) (access' : Access) (pa : ℕ) (info : WalkInfo) (w' : Option Walked)
    → Reached va' access' pa info w'
    → Follows va' access' (some (walked_to pa (some info))) w'
unfolding Follows
reached va' access' pa info w' h = h

merge_ap :
    (two one low high : Bool)
    → (let ap : ℕ = (if two then 2 else 0) + (if one then 1 else 0) in
        let lowered : ℕ = if low then bit_and ap (complement 32 1) else ap in
        (if high then bit_or lowered 2 else lowered) < 4)
merge_ap true true true high = ground arith
merge_ap true true false high = ground arith
merge_ap true false true high = ground arith
merge_ap true false false high = ground arith
merge_ap false true true high = ground arith
merge_ap false true false high = ground arith
merge_ap false false true high = ground arith
merge_ap false false false high = ground arith

merge_ap_in : (raw level tattrs : ℕ) → (merge (decode raw) level tattrs).ap < 4
unfolding merge decode
merge_ap_in raw level tattrs =
    merge_ap (any_set raw (1 <<< 7)) (any_set raw (1 <<< 6)) (any_set tattrs 4) (any_set tattrs 8)

address_in : (raw : ℕ) → (decode raw).address < 2 ^ 64
unfolding decode
address_in raw = omega (arith, bit_and-le raw 0x0000fffffffff000)

-- One round: the same next table, or an answer that the other address follows.
unfoldable pub StepFollows : ℕ → ℕ → Access → Step → Step → Type 0
unfolding follow
StepFollows level va' access' (stop w) s' =
    (next : ℕ → ℕ → Option Walked) → Follows va' access' (some w) (follow next s')
StepFollows level va' access' (deeper base tattrs) s' = (s' ≡ deeper base tattrs) × (level < 3)

module _ (raw level tattrs out_bits va va' : ℕ) (access access' : Access) where
  -- A leaf that fits the output range does so at every address of the page.
  leaf_other :
      SamePage va va'
      → 1 ≤ level
      → level ≤ 3
      → 12 ≤ out_bits
      → (leaf_address (decode raw) level va >>> out_bits != 0) ≡ false
      → not (decode raw).af ≡ false
      → leaf (decode raw) level tattrs out_bits va' access'
        ≡ verdict
            (merge (decode raw) level tattrs)
            (leaf_address (decode raw) level va / 4096 * 4096 + va' % 4096)
            va'
            access'
  unfolding leaf
  leaf_other same above below wide fits accessed =
      rw (sym (shift_page out_bits _ _ wide parts.same_page), fits, accessed)
        (ap (λ t. verdict (merge (decode raw) level tattrs) t va' access') other)
    where
      parts : LeafAddress (decode raw) level va va'
      parts = LeafAddress-page (decode raw) level va va' (address_in raw) above below same

      other :
          leaf_address (decode raw) level va'
          ≡ leaf_address (decode raw) level va / 4096 * 4096 + va' % 4096
      other = omega (arith, parts.same_page, parts.offset)

  leaf-Follows :
      SamePage va va'
      → 1 ≤ level
      → level ≤ 3
      → 12 ≤ out_bits
      → Follows va' access'
          (some (leaf (decode raw) level tattrs out_bits va access))
          (some (leaf (decode raw) level tattrs out_bits va' access'))
  unfolding leaf verdict
  leaf-Follows same above below wide =
      if_both P (leaf_address (decode raw) level va >>> out_bits != 0)
        (λ _. fault-Follows va' access' _ _ _ _)
        λ fits.
          if_both P (not (decode raw).af) (λ _. fault-Follows va' access' _ _ _ _)
            λ accessed.
              if_both P
                (permits info.ap info.xn info.pxn (access.el == 0) access.is_write access.is_fetch)
                (λ _. reached va' access' _ info _ (record {
                  address = ap some (leaf_other same above below wide fits accessed);
                  ap_in = merge_ap_in raw level tattrs;
                  level_above = above;
                  level_below = below;
                  pa_in = parts.in_range;
                }))
                λ _. fault-Follows va' access' _ _ _ _
    where
      P : Walked → Type 0
      P w =
          Follows va' access' (some w) (some (leaf (decode raw) level tattrs out_bits va' access'))

      info : WalkInfo
      info = merge (decode raw) level tattrs

      parts : LeafAddress (decode raw) level va va'
      parts = LeafAddress-page (decode raw) level va va' (address_in raw) above below same

  stop_fault :
      (cls : FaultClass) (at : Option ℕ) (far : ℕ) (s' : Step)
      → StepFollows level va' access' (stop (fault cls at far)) s'
  unfolding StepFollows
  stop_fault cls at far s' = λ next. fault-Follows va' access' cls at far (follow next s')

  goes_deeper :
      (base tattrs' : ℕ) (s' : Step)
      → s' ≡ deeper base tattrs'
      → level < 3
      → StepFollows level va' access' (deeper base tattrs') s'
  unfolding StepFollows
  goes_deeper base tattrs' s' e h = (e, h)

  stops :
      (w w' : Walked) (s' : Step)
      → s' ≡ stop w'
      → Follows va' access' (some w) (some w')
      → StepFollows level va' access' (stop w) s'
  unfolding StepFollows follow
  stops w w' s' e h = λ next. subst (λ t. Follows va' access' (some w) (follow next t)) (sym e) h

  visit_deeper :
      not (decode raw).valid ≡ false
      → ((decode raw).table && ltb level 3) ≡ true
      → ((decode raw).address >>> out_bits != 0) ≡ false
      → visit raw level tattrs out_bits va' access'
        ≡ deeper (page_base (decode raw).address) (bit_or tattrs (table_attrs raw))
  unfolding visit
  visit_deeper valid table fits = rw (valid, table, fits) refl

  visit-leaf :
      not (decode raw).valid ≡ false
      → ((decode raw).table && ltb level 3) ≡ false
      → not ((decode raw).table || (decode raw).block_page) ≡ false
      → (level == 0) ≡ false
      → visit raw level tattrs out_bits va' access'
        ≡ stop (leaf (decode raw) level tattrs out_bits va' access')
  unfolding visit
  visit-leaf valid table kind z = rw (valid, table, kind, z) refl

  pub visit-StepFollows :
      SamePage va va'
      → level ≤ 3
      → 12 ≤ out_bits
      → StepFollows level va' access'
          (visit raw level tattrs out_bits va access)
          (visit raw level tattrs out_bits va' access')
  unfolding visit
  visit-StepFollows same below wide =
      if_both P (not (decode raw).valid) (λ _. stop_fault _ _ _ _)
        λ valid.
          if_both P ((decode raw).table && ltb level 3)
            (λ table.
              if_both P ((decode raw).address >>> out_bits != 0) (λ _. stop_fault _ _ _ _)
                λ fits. goes_deeper _ _ _ (visit_deeper valid table fits) (ground (arith, table)))
            λ table.
              if_both P (not ((decode raw).table || (decode raw).block_page))
                (λ _. stop_fault _ _ _ _)
                λ kind.
                  if_both P (level == 0) (λ _. stop_fault _ _ _ _)
                    λ z.
                      stops _ _ _ (visit-leaf valid table kind z)
                        (leaf-Follows same (ground (arith, z)) below wide)
    where
      P : Step → Type 0
      P s = StepFollows level va' access' s (visit raw level tattrs out_bits va' access')
