-- ===== src/Gicv2/Scan.antt =====
-- src/dev/gicv2.c: the priority scan, `oemu_gicv2_internal_scan`.
use oemu.Common.{
  ℕ, zero, suc, ◌+◌, ◌≤◌, ◌<◌, min, bit_and, ◌≡◌, refl, subst, ◌≢◌, ◌⊎◌, inl, inr, Bank, arith,
}
use oemu.Gicv2.{
  Gicv2, max_lines, spurious, lines_of, running_priority, consider, scan_from, scan,
  highest_pending,
}

module _ (enable pending active priority target : Bank) (pmr floor : ℕ) where
  -- Enabled, pending, not active, targeted here, and below both the mask and the floor.
  abbrev pub Eligible : ℕ → Type 0
  Eligible i =
      (enable i ≢ 0)
      × (pending i ≢ 0)
      × (active i ≡ 0)
      × (bit_and (target i) 1 ≢ 0)
      × (priority i < pmr)
      × (priority i < floor)

  -- What the scan knows after the first `n` lines.
  pub record IsBest (n : ℕ) (s : ℕ × ℕ) : Type 0 where
    pub found :
        ((s.0 ≡ spurious) × (s.1 ≡ floor)) ⊎ ((s.0 < n) × Eligible s.0 × (s.1 ≡ priority s.0))
    pub lowest : (j : ℕ) → j < n → Eligible j → (s.1 ≤ priority j) × (s.1 ≡ priority j → s.0 ≤ j)

  -- Either the line is passed over, and then it is not eligible below the best priority so far,
  -- or it becomes the best.
  consider_cases :
      (n best best_pri : ℕ)
      → best_pri ≤ floor
      → (let s' = consider enable pending active priority target pmr n (best, best_pri) in
          (s'.0 ≡ best) × (s'.1 ≡ best_pri) × (Eligible n → best_pri ≤ priority n)
          ⊎ (s'.0 ≡ n) × (s'.1 ≡ priority n) × Eligible n × (priority n < best_pri))
  unfolding consider
  consider_cases n best best_pri h = ground arith

  consider-IsBest :
      (n best best_pri : ℕ)
      → IsBest n (best, best_pri)
      → IsBest (suc n) (consider enable pending active priority target pmr n (best, best_pri))
  consider-IsBest n best best_pri h = record {
    found = ground (arith, h.found, consider_cases n best best_pri at_most);
    lowest = λ j p e. ground (arith, h.found, consider_cases n best best_pri at_most, h.lowest j);
  }
    where
      at_most : best_pri ≤ floor
      at_most = ground (arith, h.found)

  scan_from-IsBest :
      (left n total best best_pri : ℕ)
      → n + left ≡ total
      → IsBest n (best, best_pri)
      → IsBest total (scan_from enable pending active priority target pmr left n (best, best_pri))
  unfolding scan_from
  scan_from-IsBest zero n total best best_pri e h =
      subst (λ m. IsBest m (best, best_pri)) (omega arith) h
  scan_from-IsBest (suc left) n total best best_pri e h =
      scan_from-IsBest left (n + 1) total next.0 next.1 (omega arith)
        (subst (λ m. IsBest m next) (omega arith) (consider-IsBest n best best_pri h))
    where
      next : ℕ × ℕ
      next = consider enable pending active priority target pmr n (best, best_pri)

  IsBest-cases :
      (n : ℕ) (s : ℕ × ℕ)
      → IsBest n s
      → ((s.0 ≡ spurious) × ((j : ℕ) → ¬ ((j < n) × Eligible j)))
        ⊎ (((s.0 < n) × Eligible s.0)
            × ((j : ℕ)
                → (j < n) × Eligible j
                → (priority s.0 ≤ priority j) × (priority s.0 ≡ priority j → s.0 ≤ j)))
  IsBest-cases n s h = elim h.found [
    | inl none_found ↦
        inl (none_found.0, λ j c. absurd (omega (arith, h.lowest j c.0 c.1, none_found.1)))
    | inr line ↦ inr ((line.0, line.1), λ j c. ground (arith, line.2, h.lowest j c.0 c.1))
  ]

-- A line that the CPU interface may acknowledge now.
abbrev pub IsCandidate : Gicv2 → ℕ → Type 0
IsCandidate gic i =
    (i < min (lines_of gic) max_lines)
    × Eligible gic.enable gic.pending gic.active gic.priority gic.target (bit_and gic.cpu_pmr 0xff)
        (running_priority gic) i

-- The scan answers `spurious` exactly where there is no candidate, and otherwise the candidate
-- of the lowest priority value, with the lowest id among those of equal value.
pub highest_pending_lem :
    (gic : Gicv2)
    → ((highest_pending gic ≡ spurious) × ((j : ℕ) → ¬ IsCandidate gic j))
      ⊎ (IsCandidate gic (highest_pending gic)
          × ((j : ℕ)
              → IsCandidate gic j
              → (gic.priority (highest_pending gic) ≤ gic.priority j)
                × (gic.priority (highest_pending gic) ≡ gic.priority j → highest_pending gic ≤ j)))
unfolding highest_pending scan
highest_pending_lem gic =
    IsBest-cases enable pending active priority target (bit_and cpu_pmr 0xff) floor rounds _ (
      scan_from-IsBest enable pending active priority target (bit_and cpu_pmr 0xff) floor rounds 0
        rounds spurious floor (omega arith)
        record { found = inl (refl, refl); lowest = λ j p e. absurd (omega arith) })
  where
    open gic use {enable, pending, active, priority, target, cpu_pmr}

    floor : ℕ
    floor = running_priority gic

    rounds : ℕ
    rounds = min (lines_of gic) max_lines
