-- ===== src/Memory/Table.antt =====
-- src/memory/memory.c: the region table and its mappings.
use oemu.Common.{
  Bool-cases, ℕ, ◌+◌, ◌^◌, ◌≤◌, ◌<◌, ◌≡◌, ◌⊎◌, inl, inr, Bool, true, false, Option, none, some,
  List, [], ◌∷◌, ◌++◌, length, length-append, ltb, arith,
}
use oemu.Common.Status.{Status, is_ok}
use oemu.Memory.{
  Region, Memory, check_map_args, ranges_overlap, overlaps_any, check_map, map_owned, map_image,
  map_alias, add_region, Mapped, guarded,
}

-- Two ranges share no address.
abbrev pub Apart : Region → ℕ → ℕ → Type 0
Apart r gva size = (r.gva + r.size ≤ gva) ⊎ (gva + size ≤ r.gva)

unfoldable pub AllApart : List Region → ℕ → ℕ → Type 0
AllApart [] gva size = Unit
AllApart (r ∷ rs) gva size = Apart r gva size × AllApart rs gva size

-- Every range is there, ends by 2^64, and is apart from the later ones.
unfoldable pub IsTable : List Region → Type 0
unfolding AllApart
IsTable [] = Unit
IsTable (r ∷ rs) = (0 < r.size) × (r.gva + r.size ≤ 2 ^ 64) × AllApart rs r.gva r.size × IsTable rs

pub record IsValid (mem : Memory) : Type 0 where
  pub table : IsTable mem.regions
  pub room : length mem.regions ≤ mem.region_capacity

apart_lem :
    (r : Region) (gva size : ℕ) → ranges_overlap gva size r.gva r.size ≡ false → Apart r gva size
unfolding ranges_overlap
apart_lem r gva size e = ground (arith, e)

later :
    (r : Region) (rs : List Region) (gva size : ℕ)
    → overlaps_any (r ∷ rs) gva size ≡ false
    → (ranges_overlap gva size r.gva r.size ≡ false) × (overlaps_any rs gva size ≡ false)
unfolding overlaps_any
later r rs gva size h = ground (arith, h)

overlaps_any-AllApart :
    (rs : List Region) (gva size : ℕ) → overlaps_any rs gva size ≡ false → AllApart rs gva size
unfolding AllApart
overlaps_any-AllApart [] gva size h = tt
overlaps_any-AllApart (r ∷ rs) gva size h =
    let (here, there) = later r rs gva size h in
    (apart_lem r gva size here, overlaps_any-AllApart rs gva size there)

AllApart-snoc :
    (rs : List Region) (r : Region) (gva size : ℕ)
    → AllApart rs gva size
    → Apart r gva size
    → AllApart (rs ++ (r ∷ [])) gva size
unfolding AllApart
AllApart-snoc [] r gva size h a = (a, tt)
AllApart-snoc (q ∷ rs) r gva size (here, there) a = (here, AllApart-snoc rs r gva size there a)

IsTable-snoc :
    (rs : List Region) (r : Region)
    → IsTable rs
    → AllApart rs r.gva r.size
    → 0 < r.size
    → r.gva + r.size ≤ 2 ^ 64
    → IsTable (rs ++ (r ∷ []))
unfolding IsTable AllApart
IsTable-snoc [] r h a there fits = (there, fits, tt, tt)
IsTable-snoc (q ∷ rs) r (q_there, q_fits, q_apart, h) (here, a) there fits = (
  q_there,
  q_fits,
  AllApart-snoc rs r q.gva q.size q_apart (swap here),
  IsTable-snoc rs r h a there fits,
)
  where
    swap : Apart q r.gva r.size → Apart r q.gva q.size
    swap (inl x) = inr x
    swap (inr x) = inl x

-- What the tests of a map establish.
check_map-ok :
    (mem : Memory) (gva size perms : ℕ)
    → gva < 2 ^ 64
    → is_ok (check_map mem gva size perms) ≡ true
    → (0 < size)
      × (gva + size ≤ 2 ^ 64)
      × (length mem.regions < mem.region_capacity)
      × (overlaps_any mem.regions gva size ≡ false)
unfolding check_map check_map_args
check_map-ok mem gva size perms word h = ground (arith, h)

add_region-IsValid :
    (mem : Memory) (gva size perms host : ℕ) (owned : Bool)
    → gva < 2 ^ 64
    → is_ok (check_map mem gva size perms) ≡ true
    → IsValid mem
    → IsValid (
        add_region mem
          (record { gva = gva; size = size; perms = perms; host = host; owned = owned }))
unfolding add_region
add_region-IsValid mem gva size perms host owned word h valid =
    let (there, fits, room, clear) = check_map-ok mem gva size perms word h in
    record {
      table =
          IsTable-snoc mem.regions _ valid.table (overlaps_any-AllApart mem.regions gva size clear)
            there fits;
      room = omega (arith, room, length-append mem.regions (_ ∷ []));
    }

guarded-IsValid :
    (status : Status) (mem : Memory) (done : Mapped)
    → IsValid mem
    → (is_ok status ≡ true → IsValid done.memory)
    → IsValid (guarded status mem done).memory
unfolding guarded
guarded-IsValid status mem done valid h = elim (Bool-cases (is_ok status)) [
  | inl e ↦ rw e (h e)
  | inr e ↦ rw e valid
]

map_owned-IsValid :
    (mem : Memory) (gva size perms : ℕ) (contents : List ℕ) (block : Option ℕ)
    → gva < 2 ^ 64
    → IsValid mem
    → is_ok (check_map mem gva size perms) ≡ true
    → IsValid (map_owned mem gva size perms contents block).memory
unfolding map_owned
map_owned-IsValid mem gva size perms contents none word valid h =
    elim (Bool-cases (ltb size (length contents))) [ inl e ↦ rw e valid | inr e ↦ rw e valid ]
map_owned-IsValid mem gva size perms contents (some block) word valid h =
    elim (Bool-cases (ltb size (length contents))) [
      | inl e ↦ rw e valid
      | inr e ↦ rw e (
          let v = add_region-IsValid mem gva size perms block true word h valid in
          record { table = v.table; room = v.room })
    ]

-- What a mapping of each kind leaves.
pub record MapsKeep (mem : Memory) (gva size perms host : ℕ) (contents : List ℕ) (block : Option ℕ)
    : Type 0 where
  pub image : IsValid (map_image mem gva size perms contents block).memory
  pub alias : IsValid (map_alias mem gva host size perms).memory

-- In a valid table, every mapping of a range that starts at a 64-bit address, refused or not, owned
-- or an alias, keeps the table valid: its ranges are not empty, end by 2^64, meet each other
-- nowhere, and are no more than the capacity.
pub map-IsValid :
    (mem : Memory) (gva size perms host : ℕ) (contents : List ℕ) (block : Option ℕ)
    → gva < 2 ^ 64
    → IsValid mem
    → MapsKeep mem gva size perms host contents block
unfolding map_image map_alias
map-IsValid mem gva size perms host contents block word valid = record {
  image =
      guarded-IsValid _ mem _ valid
        (map_owned-IsValid mem gva size perms contents block word valid);
  alias =
      guarded-IsValid _ mem _ valid
        λ h. add_region-IsValid mem gva size perms host false word h valid;
}
