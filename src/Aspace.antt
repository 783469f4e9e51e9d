-- ===== src/Aspace.antt =====
-- src/aspace/aspace.c: the physical address space, a table of regions that are memory or devices.
-- The devices are one state and each device's callbacks are functions on it; the host's memory is
-- one function from addresses to bytes. The loops over the bytes of an access are those of
-- src/memory/memory.c, word for word.
pub mod Access
pub mod Route
pub mod Table
mod Examples
use oemu.Common.{
  ℕ, ◌+◌, ◌-◌, ◌*◌, ◌%◌, ◌^◌, bit_and, bit_or, Bool, true, false, not, ◌&&◌, ◌||◌, Option, none,
  some, List, [], ◌∷◌, ◌++◌, length, Bank, ltb, leb, ◌==◌, ◌!=◌, if◌then◌else◌,
}
use oemu.Common.Status.{
  Status, is_ok, ok, err_invalid_arg, err_overflow, err_range, err_no_memory, err_fault, MemSize,
  byte, half, word, dword, quad,
}
use oemu.Common.Word.{◌<<<◌, u64, u32, complement}
use oemu.Memory.{perm_read, perm_write, perm_exec, load, store, clear, disassemble, assemble}

-- A status with the value that comes with OEMU_OK, and the state that the call leaves.
pub record Answer (σ : Type 0) : Type 0 where
  pub status : Status
  pub value : ℕ
  pub state : σ

-- `oemu_device_ops`
pub record DeviceOps (σ : Type 0) : Type 0 where
  pub read : σ → ℕ → MemSize → Answer σ
  pub write : σ → ℕ → MemSize → ℕ → Answer σ

-- `oemu_region_kind`, with what each kind is answered from: a block and whether it is owned, or the
-- callbacks.
pub data Backing (σ : Type 0) : Type 0 where
  ram : ℕ → Bool → Backing σ
  device : DeviceOps σ → Backing σ

-- `oemu_aspace_region`
pub record Region (σ : Type 0) : Type 0 where
  pub pa : ℕ
  pub size : ℕ
  pub perms : ℕ
  pub backing : Backing σ

-- `oemu_aspace`; `regions` is the table up to region_count.
pub record Aspace (σ : Type 0) : Type 0 where
  pub regions : List (Region σ)
  pub region_capacity : ℕ

-- What the accesses act on.
pub record World (σ : Type 0) : Type 0 where
  pub heap : Bank
  pub devices : σ

pub record Mapped (σ : Type 0) : Type 0 where
  pub status : Status
  pub aspace : Aspace σ
  pub heap : Bank

unfoldable pub size_to_bytes : MemSize → ℕ
size_to_bytes byte = 1
size_to_bytes half = 2
size_to_bytes word = 4
size_to_bytes dword = 8
size_to_bytes quad = 16

unfoldable pub extend : ℕ → ℕ → Bool → ℕ
extend value nbytes sign_extend =
    let mask = 2 ^ (nbytes * 8) - 1 in
    let low = bit_and value mask in
    if ltb nbytes 8
    then (if sign_extend && bit_and low (1 <<< (nbytes * 8 - 1)) != 0
        then bit_or low (complement 64 mask)
        else low)
    else value

-- The test of `oemu_aspace_internal_find`.
unfoldable pub covers : {σ : Type 0} → Region σ → ℕ → ℕ → ℕ → Bool
covers r pa size perms =
    leb r.pa pa
    && leb (pa - r.pa) (u64 (r.size + (2 ^ 64 - 1)))
    && leb size (r.size - (pa - r.pa))
    && bit_and r.perms perms == perms

unfoldable pub find_in : {σ : Type 0} → List (Region σ) → ℕ → ℕ → ℕ → Option (Region σ)
unfolding covers
find_in [] pa size perms = none
find_in (r ∷ rs) pa size perms = if covers r pa size perms then some r else find_in rs pa size perms

-- `oemu_aspace_internal_find`
unfoldable pub find : {σ : Type 0} → Aspace σ → ℕ → ℕ → ℕ → Option (Region σ)
unfolding find_in
find space pa size perms = if size == 0 then none else find_in space.regions pa size perms

-- `oemu_aspace_internal_ranges_overlap`
unfoldable pub ranges_overlap : ℕ → ℕ → ℕ → ℕ → Bool
ranges_overlap a a_size b b_size = if leb a b then ltb (b - a) a_size else ltb (a - b) b_size

-- `oemu_aspace_internal_check_map_args`
unfoldable pub check_map_args : ℕ → ℕ → ℕ → Status
check_map_args pa size perms =
    if size == 0 || perms == 0
    then err_invalid_arg
    else if ltb (2 ^ 64 - 1 - pa) (size - 1)
    then err_overflow
    else ok

unfoldable pub overlaps_any : {σ : Type 0} → List (Region σ) → ℕ → ℕ → Bool
unfolding ranges_overlap
overlaps_any [] pa size = false
overlaps_any (r ∷ rs) pa size =
    if ranges_overlap pa size r.pa r.size then true else overlaps_any rs pa size

unfoldable pub check_room : {σ : Type 0} → Aspace σ → ℕ → ℕ → Status
unfolding overlaps_any
check_room space pa size =
    if overlaps_any space.regions pa size
    then err_range
    else if length space.regions == space.region_capacity
    then err_range
    else ok

unfoldable pub map_common : {σ : Type 0} → Aspace σ → ℕ → ℕ → ℕ → Status
unfolding check_map_args check_room
map_common space pa size perms =
    if is_ok (check_map_args pa size perms)
    then check_room space pa size
    else check_map_args pa size perms

-- The new entry of the table.
unfoldable pub add_region : {σ : Type 0} → Aspace σ → Region σ → Aspace σ
add_region space r = record space { regions = space.regions ++ (r ∷ []) }

-- `oemu_aspace_map_ram`; `block` is what the allocator answers.
unfoldable pub map_ram : {σ : Type 0} → Aspace σ → Bank → ℕ → ℕ → ℕ → Option ℕ → Mapped σ
unfolding map_common add_region clear
map_ram space heap pa size perms none =
    if is_ok (map_common space pa size perms)
    then record { status = err_no_memory; aspace = space; heap = heap }
    else record { status = map_common space pa size perms; aspace = space; heap = heap }
map_ram space heap pa size perms (some block) =
    if is_ok (map_common space pa size perms)
    then record {
      status = ok;
      aspace =
          add_region space
            (record { pa = pa; size = size; perms = perms; backing = ram block true });
      heap = clear heap block size;
    }
    else record { status = map_common space pa size perms; aspace = space; heap = heap }

-- `oemu_aspace_map_ram_alias`, of a block that is there
unfoldable pub map_ram_alias : {σ : Type 0} → Aspace σ → Bank → ℕ → ℕ → ℕ → ℕ → Mapped σ
unfolding map_common add_region
map_ram_alias space heap pa host size perms =
    if is_ok (map_common space pa size perms)
    then record {
      status = ok;
      aspace =
          add_region space
            (record { pa = pa; size = size; perms = perms; backing = ram host false });
      heap = heap;
    }
    else record { status = map_common space pa size perms; aspace = space; heap = heap }

-- The place that a device may have: a power of two, aligned to itself.
unfoldable pub device_range : ℕ → ℕ → Bool
device_range pa size = not (size == 0 || bit_and size (size - 1) != 0 || pa % size != 0)

-- `oemu_aspace_attach_device`, of callbacks that are there
unfoldable pub attach_device : {σ : Type 0} → Aspace σ → Bank → ℕ → ℕ → DeviceOps σ → Mapped σ
unfolding map_common add_region device_range
attach_device space heap pa size ops =
    let perms = bit_or perm_read perm_write in
    if not (device_range pa size)
    then record { status = err_invalid_arg; aspace = space; heap = heap }
    else if is_ok (map_common space pa size perms)
    then record {
      status = ok;
      aspace =
          add_region space (record { pa = pa; size = size; perms = perms; backing = device ops });
      heap = heap;
    }
    else record { status = map_common space pa size perms; aspace = space; heap = heap }

-- `oemu_aspace_validate`
unfoldable pub validate : {σ : Type 0} → Aspace σ → ℕ → ℕ → ℕ → Status
unfolding find
validate space pa size perms =
    if size == 0
    then err_invalid_arg
    else elim (find space pa size perms) [ none ↦ err_fault | some r ↦ ok ]
