-- ===== src/Mmu/Coherent.antt =====
-- src/mmu/mmu.c: the translation through the TLB against the translation without one.
use oemu.Common.{
  ℕ, ◌^◌, ◌<◌, ◌≡◌, refl, sym, subst, Bool, true, false, not, ◌&&◌, Option, none, some, ◌==◌,
  if_both, arith,
}
use oemu.Mmu.{Access}
use oemu.Mmu.Walk.{Control, WalkInfo, Walked, walked_to, walk_faults, walk_tables}
use oemu.Mmu.Tlb.{
  Entry, Mmu, free_entry, flush_all, init, serve, is_hit, count_hit, count_miss, entry_of, tlb_fill,
  tlb_index, same_control, refresh_epoch, cacheable, keep, after_walk,
}
use oemu.Mmu.Parity.{answer, Sound, entry_of-Sound}

-- The entries of a TLB with an epoch answer as walks of the present tables under the epoch's
-- registers would; a TLB without one holds no entries.
pub record Coherent (table_read : ℕ → Option ℕ) (mmu : Mmu) : Type 0 where
  pub empty : mmu.epoch_valid ≡ false → (i : ℕ) → (mmu.tlb i).level ≡ 0
  pub sound : mmu.epoch_valid ≡ true → (i : ℕ) → Sound table_read mmu.epoch (mmu.tlb i)

module _ (table_read : ℕ → Option ℕ) where
  unused-Sound : (c : Control) (e : Entry) → e.level ≡ 0 → Sound table_read c e
  unfolding Sound
  unused-Sound c e free va access small used hit = absurd (omega (arith, used, free))

  pub init-Coherent : Coherent table_read init
  unfolding init
  init-Coherent = record { empty = λ _ i. refl; sound = λ valid. absurd (ground (arith, valid)) }

  pub flush_all-Coherent : (mmu : Mmu) → Coherent table_read (flush_all mmu)
  unfolding flush_all
  flush_all-Coherent mmu = record {
    empty = λ _ i. refl;
    sound = λ _ i. unused-Sound mmu.epoch free_entry refl;
  }

  flushed : (c : Control) (mmu : Mmu) (i : ℕ) → Sound table_read c ((flush_all mmu).tlb i)
  unfolding flush_all
  flushed c mmu i = unused-Sound c free_entry refl

  -- The state that `translate` looks its address up in.
  pub record Current (c : Control) (mmu : Mmu) : Type 0 where
    pub valid : mmu.epoch_valid ≡ true
    pub control : mmu.epoch ≡ c
    pub entries : (i : ℕ) → Sound table_read c (mmu.tlb i)

  pub Current-Coherent : (c : Control) (mmu : Mmu) → Current c mmu → Coherent table_read mmu
  Current-Coherent c mmu h = record {
    empty = λ none_yet. absurd (ground (arith, none_yet, h.valid));
    sound = λ _ i. subst (λ t. Sound table_read t (mmu.tlb i)) (sym h.control) (h.entries i);
  }

  equal_control : (a b : Control) → same_control a b ≡ true → a ≡ b
  equal_control a b h =
      λ i. record { sctlr = sctlr i; tcr = tcr i; ttbr0 = ttbr0 i; ttbr1 = ttbr1 i; mair = mair i }
    where
      sctlr : a.sctlr ≡ b.sctlr
      sctlr = ground (arith, h)

      tcr : a.tcr ≡ b.tcr
      tcr = ground (arith, h)

      ttbr0 : a.ttbr0 ≡ b.ttbr0
      ttbr0 = ground (arith, h)

      ttbr1 : a.ttbr1 ≡ b.ttbr1
      ttbr1 = ground (arith, h)

      mair : a.mair ≡ b.mair
      mair = ground (arith, h)

  -- The epoch is renewed when no entry is left, or when the entries are of the same registers.
  renewed :
      (c : Control) (mmu : Mmu)
      → ((i : ℕ) → Sound table_read c (mmu.tlb i))
      → Current c (record mmu { epoch = c; epoch_valid = true })
  renewed c mmu h = record { valid = refl; control = refl; entries = h }

  kept_entry :
      (c : Control) (mmu : Mmu) (valid : Bool)
      → mmu.epoch_valid ≡ valid
      → Coherent table_read mmu
      → (valid && not (same_control mmu.epoch c)) ≡ false
      → (i : ℕ) → Sound table_read c (mmu.tlb i)
  kept_entry c mmu true e h same i =
      subst (λ t. Sound table_read t (mmu.tlb i)) (equal_control mmu.epoch c (ground (arith, same)))
        (h.sound e i)
  kept_entry c mmu false e h same i = unused-Sound c _ (h.empty e i)

  pub refreshed :
      (c : Control) (mmu : Mmu) → Coherent table_read mmu → Current c (refresh_epoch mmu c)
  unfolding refresh_epoch
  refreshed c mmu h =
      if_both (λ m. Current c (record m { epoch = c; epoch_valid = true }))
        (mmu.epoch_valid && not (same_control mmu.epoch c))
        (λ _. renewed c (flush_all mmu) (flushed c mmu))
        λ same. renewed c mmu (kept_entry c mmu mmu.epoch_valid refl h same)

  module _ (c : Control) (mmu : Mmu) (va : ℕ) (access : Access) where
    pub hit_answer :
        Current c mmu
        → va < 2 ^ 64
        → is_hit mmu va ≡ true
        → some (serve (mmu.tlb (tlb_index va)) va access)
          ≡ answer access (walk_tables table_read c va access)
    unfolding Sound is_hit
    hit_answer h small hit =
        h.entries (tlb_index va) va access small (ground (arith, hit)) (ground (arith, hit))

    pub count_hit-Current : Current c mmu → Current c (count_hit mmu)
    unfolding count_hit
    count_hit-Current h = record { valid = h.valid; control = h.control; entries = h.entries }

    pub count_miss-Current : Current c mmu → Current c (count_miss mmu)
    unfolding count_miss
    count_miss-Current h = record { valid = h.valid; control = h.control; entries = h.entries }

    tlb_fill-Current :
        (pa : ℕ) (info : WalkInfo)
        → Current c mmu
        → Sound table_read c (entry_of c va pa info)
        → Current c (tlb_fill mmu c va pa info)
    unfolding tlb_fill
    tlb_fill-Current pa info h new = record {
      valid = h.valid;
      control = h.control;
      entries = λ i. if_both (Sound table_read c) (tlb_index va == i) (λ _. new) λ _. h.entries i;
    }

    keep-Current :
        (w : Walked)
        → Current c mmu
        → va < 2 ^ 64
        → (cacheable c access ≡ true → walk_tables table_read c va access ≡ some w)
        → Current c (keep mmu c va access w)
    unfolding keep
    keep-Current (walked_to pa none) h small from = h
    keep-Current (walk_faults f) h small from = h
    keep-Current (walked_to pa (some info)) h small from =
        if_both (Current c) (cacheable c access)
          (λ in_use.
            tlb_fill-Current pa info h
              (entry_of-Sound table_read c va pa info access small (from in_use)))
          λ _. h

    pub after_walk-Current :
        (w : Option Walked)
        → Current c mmu
        → va < 2 ^ 64
        → (cacheable c access ≡ true → walk_tables table_read c va access ≡ w)
        → Current c (after_walk mmu c va access w).1
    unfolding after_walk
    after_walk-Current none h small from = h
    after_walk-Current (some w) h small from = keep-Current w h small from

    pub after_walk-answer : (w : Option Walked) → (after_walk mmu c va access w).0 ≡ answer access w
    unfolding after_walk answer
    after_walk-answer none = refl
    after_walk-answer (some w) = refl
