-- ===== src/Mmu/Store.antt =====
-- src/mmu/mmu.c: a store of the bus layer is whole.
use oemu.Common.{
  ℕ, zero, suc, ◌+◌, ◌-◌, ◌*◌, ◌^◌, ◌<◌, bit_and, ◌≡◌, refl, sym, ap, ap₂, ◌∙◌, subst, Bool, true,
  false, not, ◌&&◌, Option, none, some, ◌==◌, ◌!=◌, if_both, arith,
}
use native.Mathlib.Nat.{mod-lt}
use oemu.Common.Status.{MemSize, byte}
use oemu.Common.Word.{◌>>>◌, u64}
use oemu.Memory.{nbytes, perm_write}
use oemu.Mmu.{translation_no_walk, alignment, alignment_required, FaultClass}
use oemu.Mmu.Walk.{Control}
use oemu.Mmu.Tlb.{Mmu, Outcome, translated, faulted}
use oemu.Mmu.Coherent.{Coherent, Current}
use oemu.Mmu.Run.{Reports}
use oemu.Mmu.Bus.{
  Bus, Layer, Reply, value_read, done, refused, unended, Checked, passes, blocked, endless, post,
  refuse, when_translated, when_checked, byte_address, tables, translate_at, split_check, stored,
  write_bytes, write_translated, mmu_write,
}
use oemu.Mmu.Precise.{
  IsSteady, store_access, place, commit, store_whole, At, translate_at-At, first-At, outcome_there,
  Allowed, AllAllowed, Gives, split_check-Gives,
}

-- All of a store, or nothing of it with a fault.
unfoldable pub IsWhole : {σ : Type 0} → σ → σ → Reply × Layer σ → Type 0
IsWhole before after (value_read v, l) = ⊥
IsWhole before after (done, l) = l.state ≡ after
IsWhole before after (refused, l) = (l.state ≡ before) × (l.mmu.fault_valid ≡ true)
IsWhole before after (unended, l) = ⊥

module _ {σ : Type 0} (bus : Bus σ) (c : Control) (table_read : ℕ → Option ℕ) (el : ℕ) where
  module _ (Inv : σ → Type 0) (steady : IsSteady bus c table_read Inv) where
    module _ (va stale : ℕ) where
      all_done : (before after : σ) (l : Layer σ) → l.state ≡ after → IsWhole before after (done, l)
      unfolding IsWhole
      all_done before after l e = e

      -- The answer of the bus to a byte whose place is allowed.
      stored-IsWhole :
          (before after : σ) (next : Layer σ → Reply × Layer σ) (mmu : Mmu) (r : Bool × σ)
          → r.0 ≡ true
          → IsWhole before after (next (record { mmu = mmu; state = r.1 }))
          → IsWhole before after (stored bus c next mmu (store_access el) va r)
      unfolding stored
      stored-IsWhole before after next mmu (true, s) ok h = h
      stored-IsWhole before after next mmu (false, s) ok h = absurd (ground (arith, ok))

      write_bytes-IsWhole :
          (before : σ) (left i value : ℕ) (l : Layer σ)
          → Inv l.state
          → Current table_read c l.mmu
          → AllAllowed bus c table_read el Inv steady va stale left i
          → IsWhole before
              (commit bus c table_read el left i va value l.state)
              (write_bytes bus c left i l va (store_access el) value)
      unfolding write_bytes commit AllAllowed Allowed
      write_bytes-IsWhole before zero i value l h now allowed = all_done before l.state l refl
      write_bytes-IsWhole before (suc left) i value l h now (first, rest) =
          stored-IsWhole before (commit bus c table_read el (suc left) i va value l.state)
            (λ l'. write_bytes bus c left (i + 1) l' va (store_access el) value) t.1.mmu
            (bus.write t.1.state (byte_address t.0) byte v) ok.0
            (subst
              (λ x. IsWhole before (commit bus c table_read el left (i + 1) va value x) (
                write_bytes bus c left (i + 1)
                  (record {
                    mmu = t.1.mmu;
                    state = (bus.write t.1.state (byte_address t.0) byte v).1;
                  })
                  va (store_access el) value))
              same_write (write_bytes-IsWhole before left (i + 1) value _ ok.1 at.current rest))
        where
          t : Option Outcome × Layer σ
          t = translate_at bus c l (u64 (va + i)) (store_access el)

          v : ℕ
          v = bit_and (value >>> (i * 8)) 0xff

          at : At bus c table_read el Inv steady l (u64 (va + i)) t
          at =
              translate_at-At bus c table_read el Inv steady l (u64 (va + i)) h now
                (mod-lt (va + i) (omega arith))

          same_place : byte_address t.0 ≡ place bus c table_read el (u64 (va + i))
          same_place = ap byte_address at.answer_walk

          ok :
              ((bus.write t.1.state (byte_address t.0) byte v).0 ≡ true)
              × Inv (bus.write t.1.state (byte_address t.0) byte v).1
          ok = steady.carried_out t.1.state (byte_address t.0) v (subst Inv (sym at.same_state) h) (
              ap (λ a. bus.validate t.1.state a 1 perm_write) same_place
              ∙ first t.1.state (subst Inv (sym at.same_state) h))

          same_write :
              (bus.write t.1.state (byte_address t.0) byte v).1
              ≡ (bus.write l.state (place bus c table_read el (u64 (va + i))) byte v).1
          same_write = ap₂ (λ x a. (bus.write x a byte v).1) at.same_state same_place

    module _ (va stale value : ℕ) (size : MemSize) (before : σ) where
      nothing_done :
          (after : σ) (l : Layer σ) (cls : FaultClass)
          → l.state ≡ before
          → IsWhole before after (refuse l (store_access el) cls va)
      unfolding IsWhole refuse post
      nothing_done after l cls e = (e, refl)

      -- The one access of an aligned store.
      stored_once :
          (after : σ) (mmu : Mmu) (r : Bool × σ)
          → r.1 ≡ after
          → (r.0 ≡ false → r.1 ≡ before)
          → IsWhole before after (stored bus c (λ l'. (done, l')) mmu (store_access el) va r)
      unfolding stored IsWhole refuse post
      stored_once after mmu (true, s) same unless = same
      stored_once after mmu (false, s) same unless = (unless refl, refl)

      when_checked-IsWhole :
          (r : Checked × Layer σ)
          → Inv before
          → Gives bus c table_read el Inv steady va stale (nbytes size) 0 before r
          → IsWhole before (commit bus c table_read el (nbytes size) 0 va value before) (
              when_checked
                (λ l'. write_bytes bus c (nbytes size) 0 l' va (store_access el) value)
                r)
      unfolding when_checked Gives IsWhole post
      when_checked-IsWhole (endless, l) h gives = gives
      when_checked-IsWhole (blocked f, l) h gives = (gives, refl)
      when_checked-IsWhole (passes, l) h (e, (now, allowed)) =
          subst
            (λ s.
              IsWhole before (commit bus c table_read el (nbytes size) 0 va value s)
                (write_bytes bus c (nbytes size) 0 l va (store_access el) value))
            e
            (write_bytes-IsWhole va stale before (nbytes size) 0 value l (subst Inv (sym e) h) now
              allowed)

      write_translated-IsWhole :
          (pa : ℕ) (l m : Layer σ)
          → l.state ≡ before
          → Inv before
          → At bus c table_read el Inv steady l va (some (translated pa), m)
          → IsWhole before
              (store_whole bus c table_read el va size value before)
              (write_translated bus c va size value (store_access el) stale pa m)
      unfolding write_translated store_whole
      write_translated-IsWhole pa l m e h at =
          if_both P (misaligned && alignment_required c.sctlr (el == 0))
            (λ _. nothing_done _ m alignment same)
            λ _.
              if_both P misaligned
                (λ split.
                  subst
                    (λ a. IsWhole before a (
                      when_checked
                        (λ l'. write_bytes bus c (nbytes size) 0 l' va (store_access el) value)
                        (split_check bus c (nbytes size) 0 m va (store_access el) stale)))
                    (sym (split_store split)) (when_checked-IsWhole _ h checked))
                λ whole.
                  if_both P (not (bus.validate m.state pa (nbytes size) perm_write))
                    (λ _. nothing_done _ m translation_no_walk same)
                    λ _. stored_once _ m.mmu _ (placed ∙ sym (aligned_store whole)) λ refuses.
                      steady.leaves m.state pa value size (subst Inv (sym same) h) refuses ∙ same
        where
          P : Reply × Layer σ → Type 0
          P = IsWhole before (store_whole bus c table_read el va size value before)

          misaligned : Bool
          misaligned = bit_and va (nbytes size - 1) != 0

          same : m.state ≡ before
          same = at.same_state ∙ e

          checked :
              Gives bus c table_read el Inv steady va stale
                (nbytes size)
                0
                before
                (split_check bus c (nbytes size) 0 m va (store_access el) stale)
          checked =
              subst
                (λ s.
                  Gives bus c table_read el Inv steady va stale (nbytes size) 0 s
                    (split_check bus c (nbytes size) 0 m va (store_access el) stale))
                same
                (split_check-Gives bus c table_read el Inv steady va stale (nbytes size) 0 m
                  (subst Inv (sym same) h) at.current)

          split_store :
              misaligned ≡ true
              → store_whole bus c table_read el va size value before
                ≡ commit bus c table_read el (nbytes size) 0 va value before
          split_store t = rw t refl

          aligned_store :
              misaligned ≡ false
              → store_whole bus c table_read el va size value before
                ≡ (bus.write before (place bus c table_read el va) size value).1
          aligned_store t = rw t refl

          placed :
              (bus.write m.state pa size value).1
              ≡ (bus.write before (place bus c table_read el va) size value).1
          placed = ap₂ (λ s a. (bus.write s a size value).1) same (ap byte_address at.answer_walk)

      when_translated-IsWhole :
          (l : Layer σ) (r : Option Outcome × Layer σ)
          → l.state ≡ before
          → Inv before
          → At bus c table_read el Inv steady l va r
          → IsWhole before (store_whole bus c table_read el va size value before) (
              when_translated
                (λ pa l'. write_translated bus c va size value (store_access el) stale pa l')
                r)
      unfolding when_translated IsWhole post Reports byte_address
      when_translated-IsWhole l (none, m) e h at =
          outcome_there bus c table_read el Inv steady l va (none, m) at
      when_translated-IsWhole l (some (faulted f), m) e h at = (at.same_state ∙ e, refl)
      when_translated-IsWhole l (some (translated pa), m) e h at =
          write_translated-IsWhole pa l m e h at

    -- A store of the core to a 64-bit address, through a coherent TLB and over a steady bus, is done
    -- whole or not at all: either the bus is left as its own stores at the addresses of the walk leave
    -- it, one store where the access is aligned and one of each byte where it is not, or the bus is as
    -- it was and a fault is posted.
    pub mmu_write-IsWhole :
        (l : Layer σ) (va stale value : ℕ) (size : MemSize)
        → Inv l.state
        → Coherent (tables bus c l.state) l.mmu
        → va < 2 ^ 64
        → IsWhole l.state
            (store_whole bus c table_read el va size value l.state)
            (mmu_write bus c el l va stale size value)
    unfolding mmu_write
    mmu_write-IsWhole l va stale value size h coherent small =
        when_translated-IsWhole va stale value size l.state l _ refl h
          (first-At bus c table_read el Inv steady l va h coherent small)
