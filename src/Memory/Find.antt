-- ===== src/Memory/Find.antt =====
-- src/memory/memory.c: the search of the region table.
use oemu.Common.{
  ℕ, ◌+◌, ◌≤◌, ◌<◌, bit_and, ◌≡◌, refl, sym, ap, ◌∙◌, subst, ◌⊎◌, inl, inr, Bool, true, false,
  Option, none, some, List, [], ◌∷◌, arith, Bool-cases, ne→==,
}
use oemu.Memory.{Region, Memory, covers, find_in, find}
use oemu.Memory.Table.{Apart, AllApart, IsTable}

unfoldable pub In : Region → List Region → Type 0
In r [] = ⊥
In r (q ∷ rs) = (r ≡ q) ⊎ In r rs

-- The whole range lies in the region, which grants the permissions.
pub record Covers (r : Region) (gva size perms : ℕ) : Type 0 where
  pub above : r.gva ≤ gva
  pub below : gva + size ≤ r.gva + r.size
  pub grants : bit_and r.perms perms ≡ perms

pub covers-Covers :
    (r : Region) (gva size perms : ℕ)
    → 0 < size
    → covers r gva size perms ≡ true
    → Covers r gva size perms
unfolding covers
covers-Covers r gva size perms there h = record {
  above = ground (arith, h);
  below = ground (arith, h);
  grants = ground (arith, h);
}

Covers-covers :
    (r : Region) (gva size perms : ℕ)
    → 0 < size
    → Covers r gva size perms
    → covers r gva size perms ≡ true
unfolding covers
Covers-covers r gva size perms there c = ground (arith, c.above, c.below, c.grants)

clash : (b : Bool) → b ≡ true → b ≡ false → ⊥
clash b h e = ground (arith, h, e)

-- What a search of a table may answer: it finds a region that covers the range,
-- and finds none only where none does.
unfoldable pub FindsIn : List Region → ℕ → ℕ → ℕ → Option Region → Type 0
FindsIn rs gva size perms none = (r : Region) → In r rs → Covers r gva size perms → ⊥
FindsIn rs gva size perms (some r) = In r rs × Covers r gva size perms

find_in-FindsIn :
    (rs : List Region) (gva size perms : ℕ)
    → 0 < size
    → FindsIn rs gva size perms (find_in rs gva size perms)
unfolding find_in FindsIn In
find_in-FindsIn [] gva size perms there = λ r i c. i
find_in-FindsIn (q ∷ rs) gva size perms there = elim (Bool-cases (covers q gva size perms)) [
  | inl e ↦ rw e (inl refl, covers-Covers q gva size perms there e)
  | inr e ↦ rw e (weaken (find_in rs gva size perms) (find_in-FindsIn rs gva size perms there) e)
]
  where
    weaken :
        (o : Option Region)
        → FindsIn rs gva size perms o
        → covers q gva size perms ≡ false
        → FindsIn (q ∷ rs) gva size perms o
    weaken none h e = λ r i c. elim i [
      | inl same ↦
          clash (covers q gva size perms)
            (ap (λ t. covers t gva size perms) (sym same) ∙ Covers-covers r gva size perms there c)
            e
      | inr i ↦ h r i c
    ]
    weaken (some r) (i, c) e = (inr i, c)

unfoldable pub Finds : Memory → ℕ → ℕ → ℕ → Option Region → Type 0
unfolding FindsIn
Finds mem gva size perms found = FindsIn mem.regions gva size perms found

-- A search for a range that is not empty answers a region of the table that contains the whole
-- range and grants every permission asked for, and answers none only where no region of the table
-- does.
pub find-Finds :
    (mem : Memory) (gva size perms : ℕ)
    → 0 < size
    → Finds mem gva size perms (find mem gva size perms)
unfolding find Finds
find-Finds mem gva size perms there =
    rw (ne→== size 0 (omega arith)) (find_in-FindsIn mem.regions gva size perms there)

AllApart-In :
    (rs : List Region) (r : Region) (gva size : ℕ)
    → AllApart rs gva size
    → In r rs
    → Apart r gva size
unfolding AllApart In
AllApart-In [] r gva size _ i = elim i [ ]
AllApart-In (q ∷ rs) r gva size (here, there) (inl e) = rw e here
AllApart-In (q ∷ rs) r gva size (here, there) (inr i) = AllApart-In rs r gva size there i

two_places :
    (r q : Region) (gva size perms perms' : ℕ)
    → 0 < size
    → Apart r q.gva q.size
    → Covers r gva size perms
    → Covers q gva size perms'
    → ⊥
two_places r q gva size perms perms' there apart c d =
    ground (arith, c.above, c.below, d.above, d.below, apart)

-- In a table, only one region covers a range.
pub Covers-unique :
    (rs : List Region) (r q : Region) (gva size perms perms' : ℕ)
    → 0 < size
    → IsTable rs
    → In r rs
    → In q rs
    → Covers r gva size perms
    → Covers q gva size perms'
    → r ≡ q
unfolding IsTable In
Covers-unique [] r q gva size perms perms' there t i _ c d = elim i [ ]
Covers-unique (h ∷ rs) r q gva size perms perms' there t (inl e) (inl f) c d = e ∙ sym f
Covers-unique (h ∷ rs) r q gva size perms perms' there (_, _, apart, t) (inl e) (inr j) c d =
    absurd (
      two_places q h gva size perms' perms there (AllApart-In rs q h.gva h.size apart j) d
        (subst (λ t. Covers t gva size perms) e c))
Covers-unique (h ∷ rs) r q gva size perms perms' there (_, _, apart, t) (inr i) (inl f) c d =
    absurd (
      two_places r h gva size perms perms' there (AllApart-In rs r h.gva h.size apart i) c
        (subst (λ t. Covers t gva size perms') f d))
Covers-unique (h ∷ rs) r q gva size perms perms' there (_, _, apart, t) (inr i) (inr j) c d =
    Covers-unique rs r q gva size perms perms' there t i j c d
