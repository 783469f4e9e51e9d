-- ===== src/Mmu/Transparent.antt =====
-- src/mmu/mmu.c: `translate` against the walk without a TLB, and sequences of translations.
use oemu.Common.{
  ℕ, ◌^◌, ◌<◌, bit_and, ◌≡◌, refl, sym, ap, ◌∙◌, true, false, ◌||◌, Option, leb, ◌==◌, if_both,
  arith,
}
use oemu.Common.Bits.Masks.{bit_and-le}
use oemu.Common.Word.{◌<<<◌, complement}
use oemu.Mmu.{sctlr_m, Access}
use oemu.Mmu.Walk.{Control, strip, walk, walk_tables}
use oemu.Mmu.Tlb.{Mmu, Outcome, is_hit, count_miss, refresh_epoch, cacheable, after_walk, translate}
use oemu.Mmu.Parity.{answer}
use oemu.Mmu.Coherent.{
  Coherent, Current, Current-Coherent, refreshed, hit_answer, count_hit-Current, count_miss-Current,
  after_walk-Current, after_walk-answer,
}

module _ (table_read : ℕ → Option ℕ) where
  -- Where the cache is used, the walk reads tables, at the address without its tag.
  walk-cacheable :
      (c : Control) (va : ℕ) (access : Access)
      → cacheable c access ≡ true
      → walk table_read c va access ≡ walk_tables table_read c (strip c.tcr va) access
  unfolding walk cacheable
  walk-cacheable c va access in_use = rw test refl
    where
      test : (leb 3 access.el || bit_and c.sctlr sctlr_m == 0) ≡ false
      test = ground (arith, in_use)

  strip_in : (tcr va : ℕ) → va < 2 ^ 64 → strip tcr va < 2 ^ 64
  unfolding strip
  strip_in tcr va small = ground (arith, bit_and-le va (complement 64 (0xff <<< 56)))

  -- An answer that is the walk's, in a state that is still current.
  pub record Transparent (c : Control) (va : ℕ) (access : Access) (r : Option Outcome × Mmu)
      : Type 0 where
    pub same_answer : r.0 ≡ answer access (walk table_read c va access)
    pub current : Current table_read c r.1

  module _ (mmu : Mmu) (c : Control) (va : ℕ) (access : Access) where
    walked :
        (m : Mmu)
        → Current table_read c m
        → va < 2 ^ 64
        → Transparent c va access
            (after_walk m c (strip c.tcr va) access (walk table_read c va access))
    walked m h small = record {
      same_answer = after_walk-answer table_read c m (strip c.tcr va) access _;
      current =
          after_walk-Current table_read c m (strip c.tcr va) access _ h (strip_in c.tcr va small)
            λ in_use. sym (walk-cacheable c va access in_use);
    }

    pub translate-Transparent :
        Coherent table_read mmu
        → va < 2 ^ 64
        → Transparent c va access (translate table_read mmu c va access)
    unfolding translate
    translate-Transparent h small =
        if_both (Transparent c va access) (cacheable c access)
          (λ in_use.
            if_both (Transparent c va access) (is_hit fresh tva)
              (λ hit. record {
                same_answer =
                    hit_answer table_read c fresh tva access current (strip_in c.tcr va small) hit
                    ∙ ap (answer access) (sym (walk-cacheable c va access in_use));
                current = count_hit-Current table_read c fresh va access current;
              })
              λ _.
                walked (count_miss fresh) (count_miss-Current table_read c fresh va access current)
                  small)
          λ _. walked fresh current small
      where
        fresh : Mmu
        fresh = refresh_epoch mmu c

        tva : ℕ
        tva = strip c.tcr va

        current : Current table_read c fresh
        current = refreshed table_read c mmu h

    -- A translation through a coherent TLB, of a 64-bit address, gives what a walk of the present
    -- tables under the present registers gives, on a hit, on a miss and with the TLB out of use.
    pub translate-walk :
        Coherent table_read mmu
        → va < 2 ^ 64
        → (translate table_read mmu c va access).0 ≡ answer access (walk table_read c va access)
    translate-walk h small = (translate-Transparent h small).same_answer

    -- A translation of a 64-bit address leaves a coherent TLB coherent, also when the registers
    -- have changed since the one before.
    pub translate-Coherent :
        Coherent table_read mmu
        → va < 2 ^ 64
        → Coherent table_read (translate table_read mmu c va access).1
    translate-Coherent h small =
        Current-Coherent table_read c _ (translate-Transparent h small).current
