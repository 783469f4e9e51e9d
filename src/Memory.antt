-- ===== src/Memory.antt =====
-- src/memory/memory.c: guest memory as a table of regions over host memory. `regions` is the table
-- up to region_count; the host's memory is one function from addresses to bytes, so that two
-- regions may name the same block.
pub mod Bytes
pub mod Find
pub mod Table
pub mod Access
mod Examples
use oemu.Common.{
  ℕ, zero, suc, ◌+◌, ◌-◌, ◌*◌, ◌/◌, ◌%◌, ◌^◌, bit_and, bit_or, Bool, true, false, not, ◌&&◌, ◌||◌,
  Option, none, some, List, [], ◌∷◌, ◌++◌, length, Bank, update, ltb, leb, ◌==◌, ◌!=◌,
  if◌then◌else◌,
}
use oemu.Common.Status.{
  Status, is_ok, ok, err_invalid_arg, err_overflow, err_range, err_no_memory, err_fault, MemSize,
  byte, half, word, dword, quad,
}
use oemu.Common.Word.{◌>>>◌, ◌<<<◌, u8, complement}

abbrev pub perm_read : ℕ
perm_read = 1

abbrev pub perm_write : ℕ
perm_write = 2

abbrev pub perm_exec : ℕ
perm_exec = 4

-- `oemu_memory_region`
pub record Region : Type 0 where
  pub gva : ℕ
  pub size : ℕ
  pub perms : ℕ
  pub host : ℕ
  pub owned : Bool

-- `oemu_memory`, with the host memory behind it
pub record Memory : Type 0 where
  pub regions : List Region
  pub region_capacity : ℕ
  pub heap : Bank

-- A status with the memory that it leaves.
pub record Mapped : Type 0 where
  pub status : Status
  pub memory : Memory

-- `oemu_memory_internal_check_map_args`
unfoldable pub check_map_args : ℕ → ℕ → ℕ → Status
check_map_args gva size perms =
    if size == 0 || perms == 0
    then err_invalid_arg
    else if ltb (2 ^ 64 - 1 - gva) (size - 1)
    then err_overflow
    else ok

-- `oemu_memory_internal_ranges_overlap`
unfoldable pub ranges_overlap : ℕ → ℕ → ℕ → ℕ → Bool
ranges_overlap a a_size b b_size = if leb a b then ltb (b - a) a_size else ltb (a - b) b_size

-- The body of the loop of `oemu_memory_internal_find`: the region is not skipped.
unfoldable pub covers : Region → ℕ → ℕ → ℕ → Bool
covers r gva size perms =
    let off = gva - r.gva in
    bit_and r.perms perms == perms
    && not (ltb gva r.gva)
    && not (leb r.size off || ltb (r.size - off) size)

unfoldable pub find_in : List Region → ℕ → ℕ → ℕ → Option Region
find_in [] gva size perms = none
find_in (r ∷ rs) gva size perms =
    if covers r gva size perms then some r else find_in rs gva size perms

-- `oemu_memory_internal_find`
unfoldable pub find : Memory → ℕ → ℕ → ℕ → Option Region
unfolding find_in
find mem gva size perms = if size == 0 then none else find_in mem.regions gva size perms

-- `oemu_memory_internal_disassemble`: the loop, from its i-th byte.
unfoldable pub disassemble_from : List ℕ → ℕ → ℕ → ℕ
disassemble_from [] i value = value
disassemble_from (b ∷ bs) i value = disassemble_from bs (i + 1) (bit_or value (b <<< (8 * i)))

unfoldable pub disassemble : List ℕ → ℕ
unfolding disassemble_from
disassemble src = disassemble_from src 0 0

-- `oemu_memory_internal_assemble`: the loop, with `left` bytes to go from the i-th.
unfoldable pub assemble_from : ℕ → ℕ → ℕ → List ℕ
assemble_from zero i value = []
assemble_from (suc left) i value =
    u8 (bit_and (value >>> (8 * i)) 0xff) ∷ assemble_from left (i + 1) value

unfoldable pub assemble : ℕ → ℕ → List ℕ
unfolding assemble_from
assemble nbytes value = assemble_from nbytes 0 value

-- memcpy out of and into host memory
unfoldable pub load : Bank → ℕ → ℕ → List ℕ
load heap base zero = []
load heap base (suc n) = heap base ∷ load heap (base + 1) n

unfoldable pub store : Bank → ℕ → List ℕ → Bank
store heap base [] = heap
store heap base (b ∷ bs) = store (update heap base b) (base + 1) bs

-- `memset(block, 0, size)`
unfoldable pub clear : Bank → ℕ → ℕ → Bank
clear heap block size i = if leb block i && ltb i (block + size) then 0 else heap i

-- The end of `memory_map`: the new entry of the table.
unfoldable pub add_region : Memory → Region → Memory
add_region mem r = record mem { regions = mem.regions ++ (r ∷ []) }

unfoldable pub overlaps_any : List Region → ℕ → ℕ → Bool
unfolding ranges_overlap
overlaps_any [] gva size = false
overlaps_any (r ∷ rs) gva size =
    if ranges_overlap gva size r.gva r.size then true else overlaps_any rs gva size

-- The block of an owned region: `block` is what the allocator answers, and `contents` the file
-- slice, a list that is empty where the source passes NULL and 0.
unfoldable pub map_owned : Memory → ℕ → ℕ → ℕ → List ℕ → Option ℕ → Mapped
unfolding add_region clear store
map_owned mem gva size perms contents none =
    if ltb size (length contents)
    then record { status = err_invalid_arg; memory = mem }
    else record { status = err_no_memory; memory = mem }
map_owned mem gva size perms contents (some block) =
    if ltb size (length contents)
    then record { status = err_invalid_arg; memory = mem }
    else record {
      status = ok;
      memory =
          record (add_region mem
            (record { gva = gva; size = size; perms = perms; host = block; owned = true })) {
              heap = store (clear mem.heap block size) block contents;
            };
    }

-- The tests of `memory_map` that come before any block.
unfoldable pub check_map : Memory → ℕ → ℕ → ℕ → Status
unfolding check_map_args overlaps_any
check_map mem gva size perms =
    let args = check_map_args gva size perms in
    if not (is_ok args)
    then args
    else if leb mem.region_capacity (length mem.regions)
    then err_range
    else if overlaps_any mem.regions gva size
    then err_range
    else ok

-- A refusal leaves the memory as it was.
unfoldable pub guarded : Status → Memory → Mapped → Mapped
guarded status mem done = if is_ok status then done else record { status = status; memory = mem }

-- `oemu_memory_map_image`; `oemu_memory_map` is the one with no contents.
unfoldable pub map_image : Memory → ℕ → ℕ → ℕ → List ℕ → Option ℕ → Mapped
unfolding check_map guarded map_owned
map_image mem gva size perms contents block =
    guarded (check_map mem gva size perms) mem (map_owned mem gva size perms contents block)

unfoldable pub map : Memory → ℕ → ℕ → ℕ → Option ℕ → Mapped
unfolding map_image
map mem gva size perms block = map_image mem gva size perms [] block

-- `oemu_memory_map_alias`, of a block that is there
unfoldable pub map_alias : Memory → ℕ → ℕ → ℕ → ℕ → Mapped
unfolding check_map guarded add_region
map_alias mem gva host size perms = guarded (check_map mem gva size perms) mem (record {
  status = ok;
  memory =
      add_region mem (record { gva = gva; size = size; perms = perms; host = host; owned = false });
})

-- `1U << size`
abbrev pub nbytes : MemSize → ℕ
nbytes byte = 1
nbytes half = 2
nbytes word = 4
nbytes dword = 8
nbytes quad = 16

-- `oemu_memory_validate`
unfoldable pub validate : Memory → ℕ → ℕ → ℕ → Status
unfolding find
validate mem gva size perms =
    if size == 0
    then err_invalid_arg
    else elim (find mem gva size perms) [ none ↦ err_fault | some r ↦ ok ]

-- The sign extension of `oemu_memory_read`.
unfoldable pub extend : ℕ → Bool → ℕ → ℕ
extend n sign_extend value =
    if sign_extend && bit_and value (1 <<< (8 * n - 1)) != 0
    then bit_or value (complement 64 ((2 ^ 64 - 1) >>> (64 - 8 * n)))
    else value

-- `oemu_memory_read`; `none` is OEMU_ERR_FAULT.
unfoldable pub read : Memory → ℕ → MemSize → Bool → Option ℕ
unfolding find load disassemble extend
read mem gva size sign_extend = elim (find mem gva (nbytes size) perm_read) [
  | none ↦ none
  | some r ↦ some (
      extend (nbytes size) sign_extend
        (disassemble (load mem.heap (r.host + (gva - r.gva)) (nbytes size))))
]

-- `oemu_memory_write`
unfoldable pub write : Memory → ℕ → MemSize → ℕ → Option Memory
unfolding find store assemble
write mem gva size value = elim (find mem gva (nbytes size) perm_write) [
  | none ↦ none
  | some r ↦
      some (record mem {
        heap = store mem.heap (r.host + (gva - r.gva)) (assemble (nbytes size) value);
      })
]

-- `oemu_memory_write_bytes`, from a source that is there
unfoldable pub write_bytes : Memory → ℕ → List ℕ → Option Memory
unfolding find store
write_bytes mem gva [] = some mem
write_bytes mem gva (b ∷ bs) = elim (find mem gva (length (b ∷ bs)) perm_write) [
  | none ↦ none
  | some r ↦ some (record mem { heap = store mem.heap (r.host + (gva - r.gva)) (b ∷ bs) })
]

-- `oemu_memory_fetch32`
unfoldable pub fetch32 : Memory → ℕ → Option ℕ
unfolding find load disassemble
fetch32 mem pc = if bit_and pc (4 - 1) != 0 then none else elim (find mem pc 4 perm_exec) [
  | none ↦ none
  | some r ↦ some (disassemble (load mem.heap (r.host + (pc - r.gva)) 4))
]
