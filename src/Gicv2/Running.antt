-- ===== src/Gicv2/Running.antt =====
-- src/dev/gicv2.c: the running priority, `gic_running_priority`.
use native.Mathlib.Decide.{ℕ_discrete}
use oemu.Common.{
  ℕ, zero, suc, ◌+◌, Bool-cases, ◌&&◌, ◌!=◌, ltb, if◌then◌else◌, ◌≤◌, ◌<◌, ◌≡◌, ◌≢◌, ◌⊎◌, inl, inr,
  refl, sym, Bank, update, subst, arith, ◌∙◌, ap,
}
use oemu.Gicv2.{Gicv2, max_lines, lowest_active, running_priority, mark_active}
use oemu.Gicv2.Scan.{IsCandidate}

module _ (active priority : Bank) where
  -- `best` is the least of `limit` and the priorities of the active lines below `n`.
  pub record IsLeast (limit n best : ℕ) : Type 0 where
    pub bound : best ≤ limit
    pub below : (i : ℕ) → i < n → active i ≢ 0 → best ≤ priority i
    pub attained : (best ≡ limit) ⊎ ((i : ℕ) × (i < n) × (active i ≢ 0) × (best ≡ priority i))

  IsLeast-suc :
      (limit n best : ℕ)
      → IsLeast limit n best
      → IsLeast limit (n + 1) (if active n != 0 && ltb (priority n) best then priority n else best)
  IsLeast-suc limit n best h = elim (Bool-cases (active n != 0 && ltb (priority n) best)) [
    | inl lower ↦ rw lower (record {
      bound = ground (arith, h.bound);
      below = λ i p a. ground (arith, h.below i);
      attained = inr (n, omega arith, ground arith, refl);
    })
    | inr kept ↦ rw kept (record {
      bound = h.bound;
      below = λ i p a. ground (arith, h.below i);
      attained = elim h.attained [ inl e ↦ inl e | inr (i, p, a, e) ↦ inr (i, omega arith, a, e) ];
    })
  ]

  lowest_active-IsLeast :
      (limit left n total best : ℕ)
      → n + left ≡ total
      → IsLeast limit n best
      → IsLeast limit total (lowest_active active priority left n best)
  unfolding lowest_active
  lowest_active-IsLeast limit zero n total best e h =
      subst (λ m. IsLeast limit m best) (omega arith) h
  lowest_active-IsLeast limit (suc left) n total best e h =
      lowest_active-IsLeast limit left (n + 1) total _ (omega arith) (IsLeast-suc limit n best h)

pub running_priority-IsLeast :
    (gic : Gicv2) → IsLeast gic.active gic.priority 256 max_lines (running_priority gic)
unfolding running_priority
running_priority-IsLeast gic =
    lowest_active-IsLeast gic.active gic.priority 256 max_lines 0 max_lines 256 refl
      (record { bound = omega arith; below = λ i p a. absurd (omega arith); attained = inl refl })

-- Acknowledging a candidate makes its priority the running priority.
pub running_priority-mark_active :
    (gic : Gicv2) (id : ℕ)
    → IsCandidate gic id
    → running_priority (mark_active gic id) ≡ gic.priority id
unfolding mark_active
running_priority-mark_active gic id c = elim after.attained [
  | inl e ↦
      absurd (omega (arith, c.1, before.bound, after.below id (omega (arith, c.0)) (ground arith)))
  | inr (i, p, a, e) ↦ elim (ℕ_discrete id i) [
    | yes same ↦ e ∙ ap gic.priority (sym same)
    | no other ↦ absurd (
        omega (
          arith,
          c.1,
          e,
          after.below id (omega (arith, c.0)) (ground arith),
          before.below i p (ground arith),
        ))
  ]
]
  where
    before : IsLeast gic.active gic.priority 256 max_lines (running_priority gic)
    before = running_priority-IsLeast gic

    after :
        IsLeast
          (update gic.active id 1)
          gic.priority
          256
          max_lines
          (running_priority (mark_active gic id))
    after = running_priority-IsLeast (mark_active gic id)
