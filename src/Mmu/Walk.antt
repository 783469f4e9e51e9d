-- ===== src/Mmu/Walk.antt =====
-- src/mmu/mmu.c: the table walk. The bus below is a parameter: `table_read` is its answer to the
-- eight-byte reads of a walk, `none` where it is not OEMU_OK; these reads change nothing.
use oemu.Common.{
  ℕ, zero, suc, ◌+◌, ◌-◌, ◌^◌, bit_and, bit_or, Bool, true, not, ◌&&◌, ◌||◌, Option, none, some,
  ltb, leb, ◌==◌, ◌!=◌, if◌then◌else◌,
}
use oemu.Common.Word.{◌>>>◌, ◌<<<◌, complement, any_set}
use oemu.Mmu.{
  FaultClass, translation, translation_no_walk, access_flag, permission, address_size, start_level,
  use_ttbr1, region_ok, sctlr_m, Desc, decode, table_attrs, permits, index, level_shift, Access,
}

-- The registers that a walk and the cache before it depend on, in the order of `tlb_epoch_read`.
pub record Control : Type 0 where
  pub sctlr : ℕ
  pub tcr : ℕ
  pub ttbr0 : ℕ
  pub ttbr1 : ℕ
  pub mair : ℕ

-- `walk_fault`
pub record WalkFault : Type 0 where
  pub cls : FaultClass
  pub level : Option ℕ
  pub far : ℕ

-- `walk_info`, of a walk that read tables
pub record WalkInfo : Type 0 where
  pub level : ℕ
  pub ap : ℕ
  pub xn : Bool
  pub pxn : Bool
  pub ng : Bool

pub data Walked : Type 0 where
  walked_to : ℕ → Option WalkInfo → Walked
  walk_faults : WalkFault → Walked

-- MMU_FAULT
abbrev pub fault : FaultClass → Option ℕ → ℕ → Walked
fault cls level far = walk_faults (record { cls = cls; level = level; far = far })

-- One round of the loop: an answer, or the next table and the constraints so far.
pub data Step : Type 0 where
  stop : Walked → Step
  deeper : ℕ → ℕ → Step

-- `a & ~(MMU_PAGE_SIZE - 1)`
unfoldable pub page_base : ℕ → ℕ
page_base a = bit_and a (complement 64 (2 ^ 12 - 1))

-- The end of the walk: the permission table on the merged attributes.
unfoldable pub verdict : WalkInfo → ℕ → ℕ → Access → Walked
verdict info addr va access =
    if permits info.ap info.xn info.pxn (access.el == 0) access.is_write access.is_fetch
    then walked_to addr (some info)
    else fault permission (some info.level) va

-- The attributes of a leaf under the constraints of the tables above it.
unfoldable pub merge : Desc → ℕ → ℕ → WalkInfo
merge d level tattrs =
    let low : ℕ = if any_set tattrs 4 then bit_and d.ap (complement 32 1) else d.ap in
    record {
      level = level;
      ap = if any_set tattrs 8 then bit_or low 2 else low;
      xn = if any_set tattrs 2 then true else d.xn;
      pxn = if any_set tattrs 1 then true else d.pxn;
      ng = d.ng;
    }

-- The output address of a leaf.
unfoldable pub leaf_address : Desc → ℕ → ℕ → ℕ
leaf_address d level va =
    let size = 1 <<< level_shift level in
    bit_or (bit_and d.address (complement 64 (size - 1))) (bit_and va (size - 1))

-- A leaf at level 1 to 3.
unfoldable pub leaf : Desc → ℕ → ℕ → ℕ → ℕ → Access → Walked
unfolding leaf_address merge verdict
leaf d level tattrs out_bits va access =
    let addr = leaf_address d level va in
    if addr >>> out_bits != 0
    then fault address_size (some level) va
    else if not d.af
    then fault access_flag (some level) va
    else verdict (merge d level tattrs) addr va access

-- The body of the loop, once the descriptor is read.
unfoldable pub visit : ℕ → ℕ → ℕ → ℕ → ℕ → Access → Step
unfolding leaf
visit raw level tattrs out_bits va access =
    let d = decode raw in
    if not d.valid
    then stop (fault translation (some level) va)
    else if d.table && ltb level 3
    then (if d.address >>> out_bits != 0
        then stop (fault address_size (some level) va)
        else deeper (page_base d.address) (bit_or tattrs (table_attrs raw)))
    else if not (d.table || d.block_page)
    then stop (fault translation (some level) va)
    else if level == 0
    then stop (fault translation (some 0) va)
    else stop (leaf d level tattrs out_bits va access)

-- The output bits of a PS field, clamped by PARANGE: `g_pamax_map`.
unfoldable pub output_bits : ℕ → ℕ
output_bits tcr = if bit_and (tcr >>> 27) 0x3f == 0 then 32 else 36

-- TCR_EL1.TBI0 or TBI1
unfoldable pub ignores_top : ℕ → Bool → Bool
ignores_top tcr ttbr1 = any_set tcr (if ttbr1 then 1 <<< 63 else 1 <<< 24)

-- The address without its tag.
unfoldable pub strip : ℕ → ℕ → ℕ
unfolding ignores_top
strip tcr va =
    if ignores_top tcr (use_ttbr1 va) then bit_and va (complement 64 (0xff <<< 56)) else va

-- `continue`, or the return of a round
unfoldable pub follow : (ℕ → ℕ → Option Walked) → Step → Option Walked
follow next (stop w) = some w
follow next (deeper base tattrs) = next base tattrs

-- What a round does with its descriptor: `next` is the rest of the loop.
unfoldable pub at_entry :
    (ℕ → ℕ → Option Walked) → ℕ → ℕ → ℕ → ℕ → Access → Option ℕ → Option Walked
unfolding visit follow
at_entry next level tattrs out_bits va access none = some (fault translation_no_walk none va)
at_entry next level tattrs out_bits va access (some raw) =
    follow next (visit raw level tattrs out_bits va access)

module _ (table_read : ℕ → Option ℕ) where
  -- The loop, from `level` on; `none` means that the rounds ran out.
  unfoldable pub descend : ℕ → ℕ → ℕ → ℕ → ℕ → ℕ → Access → Option Walked
  unfolding at_entry
  descend zero level base tattrs out_bits va access = none
  descend (suc rounds) level base tattrs out_bits va access =
      at_entry (λ base' tattrs'. descend rounds (level + 1) base' tattrs' out_bits va access) level
        tattrs out_bits va access (table_read (bit_or base (index va level)))

  -- The checks before the loop, from the start level on.
  unfoldable pub enter_region : Control → Bool → Bool → ℕ → ℕ → Option ℕ → Access → Option Walked
  unfolding descend
  enter_region c ttbr1 tbi inputsize va none access = some (fault translation (some 0) va)
  enter_region c ttbr1 tbi inputsize va (some level) access =
      let out_bits = output_bits c.tcr in
      let ttbr = bit_and (if ttbr1 then c.ttbr1 else c.ttbr0) (2 ^ 48 - 2) in
      if not (region_ok va inputsize (if tbi then 56 else 64) ttbr1)
      then some (fault translation (some level) va)
      else if any_set c.tcr (if ttbr1 then 1 <<< 23 else 1 <<< 7)
      then some (fault translation (some level) va)
      else if ttbr >>> out_bits != 0
      then some (fault address_size none va)
      else descend 4 level (page_base ttbr) 0 out_bits va access

  -- The table-driven part of `walk`, on the address without its tag.
  unfoldable pub walk_tables : Control → ℕ → Access → Option Walked
  unfolding enter_region
  walk_tables c va access =
      let ttbr1 = use_ttbr1 va in
      let inputsize = 64 - bit_and (if ttbr1 then c.tcr >>> 16 else c.tcr) 0x3f in
      enter_region c ttbr1 (ignores_top c.tcr ttbr1) inputsize va (start_level inputsize) access

  -- `walk`. Bit 55 is not part of the tag, so the address selects the same tables without it.
  unfoldable pub walk : Control → ℕ → Access → Option Walked
  unfolding walk_tables strip
  walk c va access =
      if leb 3 access.el || bit_and c.sctlr sctlr_m == 0
      then some (walked_to va none)
      else walk_tables c (strip c.tcr va) access
