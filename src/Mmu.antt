-- ===== src/Mmu.antt =====
-- src/mmu/mmu.c: the pure functions of stage-1 translation (src/mmu/mmu_internal.h). A level of -1
-- is `none`, where the source passes one.
pub mod Walk
pub mod Tlb
pub mod Total
pub mod Page
pub mod Follow
pub mod Descent
pub mod Parity
pub mod Coherent
pub mod Transparent
pub mod Run
pub mod Bus
pub mod Precise
pub mod Store
pub mod Probe
mod Examples
use oemu.Common.{
  ℕ, ◌+◌, ◌-◌, ◌*◌, ◌/◌, ◌%◌, ◌^◌, bit_and, bit_or, Bool, true, false, not, ◌&&◌, ◌||◌, Option,
  none, some, ltb, leb, ◌==◌, ◌!=◌, if◌then◌else◌,
}
use oemu.Common.Word.{◌>>>◌, ◌<<<◌, u8, u32, complement, any_set}
use oemu.Exc.{route}

-- `oemu_mmu_fault_class`
pub data FaultClass : Type 0 where
  translation translation_no_walk access_flag permission address_size alignment : FaultClass

-- The checks on a level that `oemu_mmu_internal_dfsc` requires.
abbrev pub required : Bool → ℕ → Option ℕ
required true code = some code
required false code = none

-- `oemu_mmu_internal_dfsc`; `none` is a failed OEMU_REQUIRE.
unfoldable pub dfsc : FaultClass → Option ℕ → Option ℕ
dfsc translation none = none
dfsc translation (some level) = required (leb level 3) (0x04 + level)
dfsc translation_no_walk level = some 0x2c
dfsc access_flag none = none
dfsc access_flag (some level) = required (leb 1 level && leb level 3) (0x08 + level)
dfsc permission none = none
dfsc permission (some level) = required (leb 1 level && leb level 3) (0x0c + level)
dfsc address_size none = some 0x29
dfsc address_size (some level) = some (u8 level)
dfsc alignment level = some 0x21

-- `oemu_mmu_internal_start_level`
unfoldable pub start_level : ℕ → Option ℕ
start_level inputsize =
    if ltb inputsize 25 || ltb 48 inputsize then none else some (4 - (inputsize - 4) / 9)

unfoldable pub use_ttbr1 : ℕ → Bool
use_ttbr1 va = bit_and (va >>> 55) 1 != 0

-- `oemu_mmu_internal_region_ok`
unfoldable pub region_ok : ℕ → ℕ → ℕ → Bool → Bool
region_ok va inputsize addrsize ttbr1 =
    let width = addrsize - inputsize in
    let mask : ℕ = if leb 64 width then 2 ^ 64 - 1 else 2 ^ width - 1 in
    let top = bit_and (va >>> inputsize) mask in
    if leb addrsize inputsize then true else if ttbr1 then top == mask else top == 0

abbrev pub sctlr_m : ℕ
sctlr_m = 1

abbrev pub sctlr_a : ℕ
sctlr_a = 2

abbrev pub sctlr_sa0 : ℕ
sctlr_sa0 = 16

-- `oemu_mmu_internal_alignment_required`, of SCTLR_EL1
unfoldable pub alignment_required : ℕ → Bool → Bool
alignment_required sctlr el0 = bit_and sctlr (if el0 then sctlr_sa0 else sctlr_a) != 0

-- `oemu_mmu_desc`, with the fields that the walk reads
pub record Desc : Type 0 where
  pub valid : Bool
  pub table : Bool
  pub block_page : Bool
  pub address : ℕ
  pub ng : Bool
  pub af : Bool
  pub ap : ℕ
  pub xn : Bool
  pub pxn : Bool

-- `oemu_mmu_internal_decode`
unfoldable pub decode : ℕ → Desc
decode descriptor = record {
  valid = any_set descriptor 1;
  table = bit_and descriptor 3 == 3;
  block_page = bit_and descriptor 3 == 1;
  address = bit_and descriptor 0x0000fffffffff000;
  ng = any_set descriptor (1 <<< 11);
  af = any_set descriptor (1 <<< 10);
  ap =
      (if any_set descriptor (1 <<< 7) then 2 else 0)
      + (if any_set descriptor (1 <<< 6) then 1 else 0);
  xn = any_set descriptor (1 <<< 54);
  pxn = any_set descriptor (1 <<< 53);
}

unfoldable pub table_attrs : ℕ → ℕ
table_attrs descriptor = bit_and (descriptor >>> 59) 0x1f

-- `oemu_mmu_internal_permits`
unfoldable pub permits : ℕ → Bool → Bool → Bool → Bool → Bool → Bool
permits ap xn pxn el0 is_write is_fetch =
    let user = any_set ap 1 in
    let ro = any_set ap 2 in
    let read_ok = if el0 then user else true in
    let write_ok = if el0 then user && not ro else not ro in
    if is_fetch
    then (if el0 then read_ok && not xn else not pxn)
    else if is_write
    then write_ok
    else read_ok

-- `oemu_mmu_internal_esr`
unfoldable pub esr : Bool → Bool → Bool → ℕ → ℕ
esr to_lower_el is_fetch is_write code =
    let ec : ℕ =
      if is_fetch
      then (if to_lower_el then 0x20 else 0x21)
      else if to_lower_el
      then 0x24
      else 0x25 in
    bit_or (bit_or (bit_or (u32 (ec <<< 26)) (1 <<< 25)) code)
      (if not is_fetch && is_write then 1 <<< 6 else 0)

-- `level_shift`, for the levels 0 to 3
abbrev pub level_shift : ℕ → ℕ
level_shift level = 12 + (3 - level) * 9

-- `oemu_mmu_internal_index`
unfoldable pub index : ℕ → ℕ → ℕ
index va level = bit_and (va >>> level_shift level) 0x1ff <<< 3

-- What an access is: the level that makes it, and its kind.
pub record Access : Type 0 where
  pub el : ℕ
  pub is_write : Bool
  pub is_fetch : Bool

-- `to_lower_from`
unfoldable pub to_lower_from : ℕ → Bool
to_lower_from el = ltb el (route el)

-- `compose_esr`; `none` where no code fits the class and the level.
unfoldable pub compose_esr : Access → FaultClass → Option ℕ → Option ℕ
unfolding esr dfsc to_lower_from
compose_esr access cls level = elim (dfsc cls level) [
  | none ↦ none
  | some code ↦ some (esr (to_lower_from access.el) access.is_fetch access.is_write code)
]
