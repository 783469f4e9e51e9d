-- ===== src/Aspace/Access.antt =====
-- src/aspace/aspace.c: the accesses of the bus, and the view of it that the MMU is built on.
use oemu.Common.{ℕ, ◌-◌, ◌+◌, ◌%◌, Bool, false, Option, none, some, ◌!=◌, if◌then◌else◌}
use oemu.Common.Status.{Status, is_ok, ok, err_invalid_arg, err_fault, MemSize}
use oemu.Common.Word.{u32}
use oemu.Memory.{perm_read, perm_write, perm_exec, load, store, disassemble, assemble}
use oemu.Aspace.{
  Answer, Backing, ram, device, Region, Aspace, World, size_to_bytes, extend, find, validate,
}
use oemu.Mmu.Bus.{Bus}

module _ {σ : Type 0} where
  abbrev pub refused : World σ → Status → Answer (World σ)
  refused world status = record { status = status; value = 0; state = world }

  -- What `resolve` found; it is a fault where that is nothing.
  unfoldable pub routed :
      World σ → (Region σ → Answer (World σ)) → Option (Region σ) → Answer (World σ)
  routed world next none = refused world err_fault
  routed world next (some r) = next r

  -- A device's answer to a load, normalised to the width.
  unfoldable pub device_loaded : World σ → ℕ → Bool → Answer σ → Answer (World σ)
  unfolding extend
  device_loaded world nbytes sign_extend a =
      let after : World σ = record world { devices = a.state } in
      if is_ok a.status
      then record { status = ok; value = extend a.value nbytes sign_extend; state = after }
      else refused after a.status

  -- `oemu_aspace_read`, of the region at the offset
  unfoldable pub read_region : World σ → Backing σ → ℕ → ℕ → MemSize → Bool → Answer (World σ)
  unfolding device_loaded load disassemble size_to_bytes
  read_region world (device ops) pa offset size sign_extend =
      if pa % size_to_bytes size != 0
      then refused world err_fault
      else device_loaded world (size_to_bytes size) sign_extend (ops.read world.devices offset size)
  read_region world (ram host owned) pa offset size sign_extend = record {
    status = ok;
    value =
        extend (disassemble (load world.heap (host + offset) (size_to_bytes size)))
          (size_to_bytes size) sign_extend;
    state = world;
  }

  unfoldable pub read : Aspace σ → World σ → ℕ → MemSize → Bool → Answer (World σ)
  unfolding find routed read_region
  read space world pa size sign_extend =
      routed world (λ r. read_region world r.backing pa (pa - r.pa) size sign_extend)
        (find space pa (size_to_bytes size) perm_read)

  -- A device's answer to a store.
  unfoldable pub device_stored : World σ → Answer σ → Answer (World σ)
  device_stored world a = record {
    status = a.status;
    value = 0;
    state = record world { devices = a.state };
  }

  -- `oemu_aspace_write`, of the region at the offset
  unfoldable pub write_region : World σ → Backing σ → ℕ → ℕ → MemSize → ℕ → Answer (World σ)
  unfolding device_stored store assemble size_to_bytes extend
  write_region world (device ops) pa offset size value =
      if pa % size_to_bytes size != 0
      then refused world err_fault
      else device_stored world
          (ops.write world.devices offset size (extend value (size_to_bytes size) false))
  write_region world (ram host owned) pa offset size value = record {
    status = ok;
    value = 0;
    state = record world {
      heap = store world.heap (host + offset) (assemble (size_to_bytes size) value);
    };
  }

  unfoldable pub write : Aspace σ → World σ → ℕ → MemSize → ℕ → Answer (World σ)
  unfolding find routed write_region
  write space world pa size value =
      routed world (λ r. write_region world r.backing pa (pa - r.pa) size value)
        (find space pa (size_to_bytes size) perm_write)

  -- `oemu_aspace_fetch32`, of the region at the offset
  unfoldable pub fetch_region : World σ → Backing σ → ℕ → Answer (World σ)
  unfolding load disassemble
  fetch_region world (device ops) offset = refused world err_fault
  fetch_region world (ram host owned) offset = record {
    status = ok;
    value = u32 (disassemble (load world.heap (host + offset) 4));
    state = world;
  }

  unfoldable pub fetch32 : Aspace σ → World σ → ℕ → Answer (World σ)
  unfolding find routed fetch_region
  fetch32 space world pa =
      if pa % 4 != 0
      then refused world err_invalid_arg
      else routed world (λ r. fetch_region world r.backing (pa - r.pa)) (find space pa 4 perm_exec)

  -- What of an answer the view gives: nothing but OEMU_OK is told apart.
  abbrev pub answered : Answer (World σ) → Option ℕ
  answered a = if is_ok a.status then some a.value else none

  -- `oemu_aspace_memops`
  unfoldable pub memops : Aspace σ → Bus (World σ)
  unfolding fetch32 read write validate
  memops space = record {
    fetch32 = λ world pa. answered (fetch32 space world pa);
    read = λ world pa size.
        (answered (read space world pa size false), (read space world pa size false).state);
    write = λ world pa size v.
        (is_ok (write space world pa size v).status, (write space world pa size v).state);
    validate = λ world pa size perms. is_ok (validate space pa size perms);
  }
