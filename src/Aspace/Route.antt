-- ===== src/Aspace/Route.antt =====
-- src/aspace/aspace.c: the way of an access to the region that was attached for it.
use oemu.Common.{
  ℕ, ◌+◌, ◌-◌, ◌%◌, ◌^◌, ◌≤◌, ◌<◌, bit_and, bit_or, ◌≡◌, refl, ap, ◌∙◌, Bool, true, false, not,
  some, List, [], ◌∷◌, ◌++◌, Bank, ◌==◌, ◌!=◌, if◌then◌else◌, arith,
}
use oemu.Common.Status.{is_ok, err_fault, MemSize, byte, half, word, dword, quad}
use oemu.Memory.{perm_read, perm_write}
use oemu.Aspace.{
  Answer, DeviceOps, device, Region, Aspace, World, size_to_bytes, extend, covers, find_in, find,
  ranges_overlap, overlaps_any, map_common, add_region, device_range, attach_device,
}
use oemu.Aspace.Table.{IsFree, map_common-IsFree}
use oemu.Aspace.Access.{
  refused, routed, device_loaded, read_region, read, device_stored, write_region, write,
}

size_to_bytes_positive : (size : MemSize) → 0 < size_to_bytes size
unfolding size_to_bytes
size_to_bytes_positive byte = omega arith
size_to_bytes_positive half = omega arith
size_to_bytes_positive word = omega arith
size_to_bytes_positive dword = omega arith
size_to_bytes_positive quad = omega arith

module _ {σ : Type 0} where
  -- A region that meets a range nowhere covers no part of it.
  not_covers :
      (r : Region σ) (pa size off n perms : ℕ)
      → ranges_overlap pa size r.pa r.size ≡ false
      → 0 < n
      → off + n ≤ size
      → covers r (pa + off) n perms ≡ false
  unfolding covers ranges_overlap
  not_covers r pa size off n perms apart there within = ground (arith, apart)

  -- The search goes past the older regions.
  find_in_new :
      (rs : List (Region σ)) (r : Region σ) (pa size off n perms : ℕ)
      → overlaps_any rs pa size ≡ false
      → 0 < n
      → off + n ≤ size
      → covers r (pa + off) n perms ≡ true
      → find_in (rs ++ (r ∷ [])) (pa + off) n perms ≡ some r
  unfolding find_in overlaps_any
  find_in_new [] r pa size off n perms apart there within here = rw here refl
  find_in_new (q ∷ rs) r pa size off n perms apart there within here =
      rw (not_covers q pa size off n perms (ground (arith, apart)) there within)
        (find_in_new rs r pa size off n perms (ground (arith, apart)) there within here)

  module _ (space : Aspace σ) (heap : Bank) (pa size : ℕ) (ops : DeviceOps σ) where
    abbrev pub attached : Region σ
    attached = record {
      pa = pa;
      size = size;
      perms = bit_or perm_read perm_write;
      backing = device ops;
    }

    record Tests : Type 0 where
      pub placed : not (device_range pa size) ≡ false
      pub free : is_ok (map_common space pa size (bit_or perm_read perm_write)) ≡ true

    -- What a device that is attached found.
    record IsAttached : Type 0 where
      pub added : (attach_device space heap pa size ops).aspace ≡ add_region space attached
      pub clear : overlaps_any space.regions pa size ≡ false
      pub fits : pa + size ≤ 2 ^ 64

    attach_device-IsAttached :
        pa < 2 ^ 64 → is_ok (attach_device space heap pa size ops).status ≡ true → IsAttached
    unfolding attach_device
    attach_device-IsAttached small h = record {
      added = rw (tests.placed, tests.free) refl;
      clear = f.clear;
      fits = f.fits;
    }
      where
        tests : Tests
        tests = record { placed = ground (arith, h); free = ground (arith, h) }

        f : IsFree space pa size
        f = map_common-IsFree space pa size (bit_or perm_read perm_write) small tests.free

    attached_found :
        (off n perms : ℕ)
        → IsAttached
        → 0 < n
        → off + n ≤ size
        → bit_and 3 perms == perms ≡ true
        → find (attach_device space heap pa size ops).aspace (pa + off) n perms ≡ some attached
    unfolding find add_region covers
    attached_found off n perms h there within allowed =
        rw (h.added, nonzero)
          (find_in_new space.regions attached pa size off n perms h.clear there within here)
      where
        nonzero : (n == 0) ≡ false
        nonzero = ground (arith, there)

        here : covers attached (pa + off) n perms ≡ true
        here = ground (arith, allowed, h.fits)

    pub record Serves (world : World σ) (off : ℕ) (width : MemSize) (sign_extend : Bool) (value : ℕ)
        : Type 0 where
      pub loads :
          read (attach_device space heap pa size ops).aspace world (pa + off) width sign_extend ≡ (
            if (pa + off) % size_to_bytes width == 0
            then device_loaded world
                (size_to_bytes width)
                sign_extend
                (ops.read world.devices off width)
            else refused world err_fault)
      pub stores :
          write (attach_device space heap pa size ops).aspace world (pa + off) width value ≡ (
            if (pa + off) % size_to_bytes width == 0
            then device_stored world
                (ops.write world.devices off width (extend value (size_to_bytes width) false))
            else refused world err_fault)

    -- Once a device is attached at a 64-bit address, a load or a store that lies in its range reaches
    -- its callback with the offset in the range, whatever was mapped before, where the address is a
    -- multiple of the width; else it is a fault, and neither the devices nor the memory change.
    pub attach_device-Serves :
        (world : World σ) (off : ℕ) (width : MemSize) (sign_extend : Bool) (value : ℕ)
        → pa < 2 ^ 64
        → is_ok (attach_device space heap pa size ops).status ≡ true
        → off + size_to_bytes width ≤ size
        → Serves world off width sign_extend value
    unfolding read write routed read_region write_region
    attach_device-Serves world off width sign_extend value small attached_ok within = record {
      loads =
          ap
            (routed world
              (λ r. read_region world r.backing (pa + off) (pa + off - r.pa) width sign_extend))
            (attached_found off n perm_read there (size_to_bytes_positive width) within refl)
          ∙ (ap (λ o. read_region world (device ops) (pa + off) o width sign_extend) offset
              ∙ turned (refused world err_fault)
                  (device_loaded world n sign_extend (ops.read world.devices off width))
                  ((pa + off) % n));
      stores =
          ap
            (routed world
              (λ r. write_region world r.backing (pa + off) (pa + off - r.pa) width value))
            (attached_found off n perm_write there (size_to_bytes_positive width) within refl)
          ∙ (ap (λ o. write_region world (device ops) (pa + off) o width value) offset
              ∙ turned (refused world err_fault)
                  (device_stored world (ops.write world.devices off width (extend value n false)))
                  ((pa + off) % n));
    }
      where
        n : ℕ
        n = size_to_bytes width

        there : IsAttached
        there = attach_device-IsAttached small attached_ok

        offset : pa + off - pa ≡ off
        offset = omega arith

        turned :
            (a b : Answer (World σ)) (m : ℕ) → (if m != 0 then a else b) ≡ (if m == 0 then b else a)
        turned a b m = ground arith
