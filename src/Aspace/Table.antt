-- ===== src/Aspace/Table.antt =====
-- src/aspace/aspace.c: the region table and what is mapped into it.
use oemu.Common.{
  ℕ, ◌+◌, ◌^◌, ◌≤◌, ◌<◌, bit_or, ◌≡◌, ◌⊎◌, inl, inr, true, false, not, Option, none, some, List, [],
  ◌∷◌, ◌++◌, length, length-append, Bank, if_both, arith,
}
use oemu.Common.Status.{is_ok}
use oemu.Memory.{perm_read, perm_write}
use oemu.Aspace.{
  DeviceOps, Backing, ram, device, Region, Aspace, Mapped, check_map_args, ranges_overlap,
  overlaps_any, check_room, map_common, add_region, map_ram, map_ram_alias, device_range,
  attach_device,
}

module _ {σ : Type 0} where
  abbrev pub Apart : Region σ → ℕ → ℕ → Type 0
  Apart r pa size = (r.pa + r.size ≤ pa) ⊎ (pa + size ≤ r.pa)

  unfoldable pub AllApart : List (Region σ) → ℕ → ℕ → Type 0
  AllApart [] pa size = Unit
  AllApart (r ∷ rs) pa size = Apart r pa size × AllApart rs pa size

  -- A device's range is a power of two that is aligned to itself.
  unfoldable pub IsPlaced : Backing σ → ℕ → ℕ → Type 0
  IsPlaced (ram host owned) pa size = Unit
  IsPlaced (device ops) pa size = device_range pa size ≡ true

  -- A range that may stand in a table: it is there, and ends by 2^64.
  pub record IsRegion (r : Region σ) : Type 0 where
    pub there : 0 < r.size
    pub fits : r.pa + r.size ≤ 2 ^ 64
    pub placed : IsPlaced r.backing r.pa r.size

  unfoldable pub IsTable : List (Region σ) → Type 0
  unfolding AllApart
  IsTable [] = Unit
  IsTable (r ∷ rs) = IsRegion r × (AllApart rs r.pa r.size × IsTable rs)

  pub record IsValid (space : Aspace σ) : Type 0 where
    pub table : IsTable space.regions
    pub room : length space.regions ≤ space.region_capacity

  overlaps_any-AllApart :
      (rs : List (Region σ)) (pa size : ℕ) → overlaps_any rs pa size ≡ false → AllApart rs pa size
  unfolding AllApart overlaps_any ranges_overlap
  overlaps_any-AllApart [] pa size h = tt
  overlaps_any-AllApart (r ∷ rs) pa size h =
      (ground (arith, h), overlaps_any-AllApart rs pa size (ground (arith, h)))

  AllApart-snoc :
      (rs : List (Region σ)) (r : Region σ) (pa size : ℕ)
      → AllApart rs pa size
      → Apart r pa size
      → AllApart (rs ++ (r ∷ [])) pa size
  unfolding AllApart
  AllApart-snoc [] r pa size h a = (a, tt)
  AllApart-snoc (q ∷ rs) r pa size (here, there) a = (here, AllApart-snoc rs r pa size there a)

  swap : (q r : Region σ) → Apart q r.pa r.size → Apart r q.pa q.size
  swap q r (inl x) = inr x
  swap q r (inr x) = inl x

  IsTable-snoc :
      (rs : List (Region σ)) (r : Region σ)
      → IsTable rs
      → AllApart rs r.pa r.size
      → IsRegion r
      → IsTable (rs ++ (r ∷ []))
  unfolding IsTable AllApart
  IsTable-snoc [] r h a new = (new, (tt, tt))
  IsTable-snoc (q ∷ rs) r (old, (apart, h)) (here, a) new =
      (old, (AllApart-snoc rs r q.pa q.size apart (swap q r here), IsTable-snoc rs r h a new))

  -- What the tests of a map establish.
  pub record IsFree (space : Aspace σ) (pa size : ℕ) : Type 0 where
    pub there : 0 < size
    pub fits : pa + size ≤ 2 ^ 64
    pub room :
        length space.regions ≤ space.region_capacity → length space.regions < space.region_capacity
    pub clear : overlaps_any space.regions pa size ≡ false

  pub map_common-IsFree :
      (space : Aspace σ) (pa size perms : ℕ)
      → pa < 2 ^ 64
      → is_ok (map_common space pa size perms) ≡ true
      → IsFree space pa size
  unfolding map_common check_map_args check_room
  map_common-IsFree space pa size perms word h = record {
    there = ground (arith, h);
    fits = ground (arith, h);
    room = λ r. ground (arith, h, r);
    clear = ground (arith, h);
  }

  add_region-IsValid :
      (space : Aspace σ) (r : Region σ)
      → IsFree space r.pa r.size
      → IsPlaced r.backing r.pa r.size
      → IsValid space
      → IsValid (add_region space r)
  unfolding add_region
  add_region-IsValid space r free placed valid = record {
    table =
        IsTable-snoc space.regions r valid.table
          (overlaps_any-AllApart space.regions r.pa r.size free.clear)
          (record { there = free.there; fits = free.fits; placed = placed });
    room = omega (arith, free.room valid.room, length-append space.regions (r ∷ []));
  }

  -- What each mapping leaves.
  pub record MapsKeep (space : Aspace σ) (heap : Bank) (pa size perms host : ℕ) (block : Option ℕ)
      (ops : DeviceOps σ) : Type 0 where
    pub owned : IsValid (map_ram space heap pa size perms block).aspace
    pub alias : IsValid (map_ram_alias space heap pa host size perms).aspace
    pub attached : IsValid (attach_device space heap pa size ops).aspace

  map_ram-IsValid :
      (space : Aspace σ) (heap : Bank) (pa size perms : ℕ) (block : Option ℕ)
      → pa < 2 ^ 64
      → IsValid space
      → IsValid (map_ram space heap pa size perms block).aspace
  unfolding map_ram IsPlaced
  map_ram-IsValid space heap pa size perms none word valid =
      if_both (λ (m : Mapped σ). IsValid m.aspace) (is_ok (map_common space pa size perms))
        (λ _. valid) λ _. valid
  map_ram-IsValid space heap pa size perms (some block) word valid =
      if_both (λ (m : Mapped σ). IsValid m.aspace) (is_ok (map_common space pa size perms))
        (λ free.
          add_region-IsValid space _ (map_common-IsFree space pa size perms word free) tt valid)
        λ _. valid

  map_ram_alias-IsValid :
      (space : Aspace σ) (heap : Bank) (pa host size perms : ℕ)
      → pa < 2 ^ 64
      → IsValid space
      → IsValid (map_ram_alias space heap pa host size perms).aspace
  unfolding map_ram_alias IsPlaced
  map_ram_alias-IsValid space heap pa host size perms word valid =
      if_both (λ (m : Mapped σ). IsValid m.aspace) (is_ok (map_common space pa size perms))
        (λ free.
          add_region-IsValid space _ (map_common-IsFree space pa size perms word free) tt valid)
        λ _. valid

  attach_device-IsValid :
      (space : Aspace σ) (heap : Bank) (pa size : ℕ) (ops : DeviceOps σ)
      → pa < 2 ^ 64
      → IsValid space
      → IsValid (attach_device space heap pa size ops).aspace
  unfolding attach_device IsPlaced
  attach_device-IsValid space heap pa size ops word valid =
      if_both (λ (m : Mapped σ). IsValid m.aspace) (not (device_range pa size)) (λ _. valid)
        λ placed.
          if_both (λ (m : Mapped σ). IsValid m.aspace)
            (is_ok (map_common space pa size (bit_or perm_read perm_write)))
            (λ free.
              add_region-IsValid space _
                (map_common-IsFree space pa size (bit_or perm_read perm_write) word free)
                (ground (arith, placed)) valid)
            λ _. valid

  -- In a valid table, each mapping at a 64-bit address keeps the table valid, refused or not: of owned
  -- memory, of borrowed memory and of a device. The ranges are not empty, end by 2^64, meet each
  -- other nowhere and are no more than the capacity, and a device's range is a power of two that is
  -- aligned to itself.
  pub map-MapsKeep :
      (space : Aspace σ) (heap : Bank) (pa size perms host : ℕ) (block : Option ℕ)
      (ops : DeviceOps σ)
      → pa < 2 ^ 64
      → IsValid space
      → MapsKeep space heap pa size perms host block ops
  map-MapsKeep space heap pa size perms host block ops word valid = record {
    owned = map_ram-IsValid space heap pa size perms block word valid;
    alias = map_ram_alias-IsValid space heap pa host size perms word valid;
    attached = attach_device-IsValid space heap pa size ops word valid;
  }
