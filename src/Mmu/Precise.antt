-- ===== src/Mmu/Precise.antt =====
-- src/mmu/mmu.c: the stores of the bus layer, against the walk and the bus below.
use oemu.Common.{
  ℕ, zero, suc, ◌+◌, ◌-◌, ◌*◌, ◌^◌, ◌<◌, bit_and, ◌≡◌, refl, sym, ap, ◌∙◌, subst, true, false, leb,
  ◌||◌, Option, none, some, ◌==◌, ◌!=◌, if◌then◌else◌, if_both, arith,
}
use native.Mathlib.Nat.{mod-lt}
use oemu.Common.Status.{MemSize, byte}
use oemu.Common.Word.{◌>>>◌, u64}
use oemu.Memory.{nbytes, perm_write}
use oemu.Mmu.{sctlr_m, translation_no_walk, Access, compose_esr}
use oemu.Mmu.Walk.{Control, walk, walk_tables, walked_to, strip}
use oemu.Mmu.Tlb.{Mmu, MmuFault, Outcome, translated, faulted, translate}
use oemu.Mmu.Total.{walk-Ends}
use oemu.Mmu.Parity.{answer, Sound}
use oemu.Mmu.Coherent.{Coherent, Current, Current-Coherent}
use oemu.Mmu.Transparent.{Transparent, translate-Transparent}
use oemu.Mmu.Run.{Reports, answer-Reports}
use oemu.Mmu.Bus.{
  Bus, Layer, Checked, passes, blocked, endless, byte_address, tables, translate_at, check_byte,
  split_check,
}

abbrev pub store_access : ℕ → Access
store_access el = record { el = el; is_write = true; is_fetch = false }

-- What a bus does whose states keep `Inv`: the walks under the present registers and the map stay,
-- a store to a byte that the map allows is carried out, and one that is refused leaves the state.
pub record IsSteady {σ : Type 0} (bus : Bus σ) (c : Control) (table_read : ℕ → Option ℕ)
    (Inv : σ → Type 0) : Type 0 where
  pub same_walks :
      (s : σ) (v : ℕ) (access : Access)
      → Inv s
      → walk_tables (tables bus c s) c v access ≡ walk_tables table_read c v access
  pub same_map :
      (s s' : σ) (pa : ℕ)
      → Inv s
      → Inv s'
      → bus.validate s pa 1 perm_write ≡ bus.validate s' pa 1 perm_write
  pub carried_out :
      (s : σ) (pa v : ℕ)
      → Inv s
      → bus.validate s pa 1 perm_write ≡ true
      → ((bus.write s pa byte v).0 ≡ true) × Inv (bus.write s pa byte v).1
  pub leaves :
      (s : σ) (pa v : ℕ) (size : MemSize)
      → Inv s
      → (bus.write s pa size v).0 ≡ false
      → (bus.write s pa size v).1 ≡ s

module _ {σ : Type 0} (bus : Bus σ) (c : Control) (table_read : ℕ → Option ℕ) (el : ℕ) where
  -- Where the walk of the tables puts an address.
  abbrev pub place : ℕ → ℕ
  place v = byte_address (answer (store_access el) (walk table_read c v (store_access el)))

  -- The bus after the bytes of a value, each at its place.
  unfoldable pub commit : ℕ → ℕ → ℕ → ℕ → σ → σ
  commit zero i va value s = s
  commit (suc left) i va value s =
      commit left (i + 1) va value
        (bus.write s (place (u64 (va + i))) byte (bit_and (value >>> (i * 8)) 0xff)).1

  -- The bus after a store: one access where it is aligned, one for each byte where it is not.
  unfoldable pub store_whole : ℕ → MemSize → ℕ → σ → σ
  unfolding commit
  store_whole va size value s =
      if bit_and va (nbytes size - 1) != 0
      then commit (nbytes size) 0 va value s
      else (bus.write s (place va) size value).1

  module _ (Inv : σ → Type 0) (steady : IsSteady bus c table_read Inv) where
    -- What `translate` answers over the bus, and what it leaves.
    pub record At (l : Layer σ) (v : ℕ) (r : Option Outcome × Layer σ) : Type 0 where
      pub answer_walk : r.0 ≡ answer (store_access el) (walk table_read c v (store_access el))
      pub current : Current table_read c r.1.mmu
      pub same_state : r.1.state ≡ l.state

    same_walk :
        (s : σ) (v : ℕ)
        → Inv s
        → walk (tables bus c s) c v (store_access el) ≡ walk table_read c v (store_access el)
    unfolding walk
    same_walk s v h =
        ap (λ t. if leb 3 el || bit_and c.sctlr sctlr_m == 0 then some (walked_to v none) else t)
          (steady.same_walks s (strip c.tcr v) (store_access el) h)

    -- A cache that is current for the one view of the tables is so for the other.
    to_table :
        (s : σ) (mmu : Mmu) → Inv s → Current (tables bus c s) c mmu → Current table_read c mmu
    unfolding Sound
    to_table s mmu h now = record {
      valid = now.valid;
      control = now.control;
      entries = λ i va access small used same.
          now.entries i va access small used same
          ∙ ap (answer access) (steady.same_walks s va access h);
    }

    to_state :
        (s : σ) (mmu : Mmu) → Inv s → Current table_read c mmu → Current (tables bus c s) c mmu
    unfolding Sound
    to_state s mmu h now = record {
      valid = now.valid;
      control = now.control;
      entries = λ i va access small used same.
          now.entries i va access small used same
          ∙ ap (answer access) (sym (steady.same_walks s va access h));
    }

    pub first-At :
        (l : Layer σ) (v : ℕ)
        → Inv l.state
        → Coherent (tables bus c l.state) l.mmu
        → v < 2 ^ 64
        → At l v (translate_at bus c l v (store_access el))
    unfolding translate_at
    first-At l v h coherent small = record {
      answer_walk = t.same_answer ∙ ap (answer (store_access el)) (same_walk l.state v h);
      current = to_table l.state _ h t.current;
      same_state = refl;
    }
      where
        t :
            Transparent
              (tables bus c l.state)
              c
              v
              (store_access el)
              (translate (tables bus c l.state) l.mmu c v (store_access el))
        t = translate-Transparent (tables bus c l.state) l.mmu c v (store_access el) coherent small

    pub translate_at-At :
        (l : Layer σ) (v : ℕ)
        → Inv l.state
        → Current table_read c l.mmu
        → v < 2 ^ 64
        → At l v (translate_at bus c l v (store_access el))
    translate_at-At l v h now small =
        first-At l v h
          (Current-Coherent (tables bus c l.state) c l.mmu (to_state l.state l.mmu h now)) small

    -- The walk never leaves a translation without an outcome.
    pub outcome_there :
        (l : Layer σ) (v : ℕ) (r : Option Outcome × Layer σ) → At l v r → Reports r.0
    outcome_there l v r at =
        subst Reports (sym at.answer_walk)
          (answer-Reports (store_access el) _ (walk-Ends table_read c v (store_access el)))

    module _ (va stale : ℕ) where
      -- A byte has a place, and the map allows its store.
      unfoldable pub Allowed : ℕ → Type 0
      Allowed v = (s : σ) → Inv s → bus.validate s (place v) 1 perm_write ≡ true

      unfoldable pub AllAllowed : ℕ → ℕ → Type 0
      unfolding Allowed
      AllAllowed zero i = Unit
      AllAllowed (suc left) i = Allowed (u64 (va + i)) × AllAllowed left (i + 1)

      unfoldable pub Gives : ℕ → ℕ → σ → Checked × Layer σ → Type 0
      unfolding AllAllowed
      Gives left i s (passes, l) = (l.state ≡ s) × (Current table_read c l.mmu × AllAllowed left i)
      Gives left i s (blocked f, l) = l.state ≡ s
      Gives left i s (endless, l) = ⊥

      one_more :
          (left i : ℕ) (s : σ) (r : Checked × Layer σ)
          → Allowed (u64 (va + i))
          → Gives left (i + 1) s r
          → Gives (suc left) i s r
      unfolding Gives AllAllowed
      one_more left i s (passes, l) first (e, (now, rest)) = (e, (now, (first, rest)))
      one_more left i s (blocked f, l) first h = h
      one_more left i s (endless, l) first h = h

      Gives-blocked :
          (left i : ℕ) (s : σ) (f : MmuFault) (l : Layer σ)
          → l.state ≡ s
          → Gives left i s (blocked f, l)
      unfolding Gives
      Gives-blocked left i s f l e = e

      check_byte-Gives :
          (left i : ℕ) (next : Layer σ → Checked × Layer σ) (l : Layer σ)
          (r : Option Outcome × Layer σ)
          → At l (u64 (va + i)) r
          → Inv l.state
          → ((l' : Layer σ)
              → l'.state ≡ l.state
              → Current table_read c l'.mmu
              → Gives left (i + 1) l.state (next l'))
          → Gives (suc left) i l.state (check_byte bus c next (store_access el) stale r)
      unfolding check_byte Gives Reports byte_address Allowed
      check_byte-Gives left i next l (none, m) at h rest = outcome_there l _ (none, m) at
      check_byte-Gives left i next l (some (faulted f), m) at h rest = at.same_state
      check_byte-Gives left i next l (some (translated pa), m) at h rest =
          if_both (Gives (suc left) i l.state) (bus.validate m.state pa 1 perm_write)
            (λ ok.
              one_more left i l.state _
                (λ s hs.
                  steady.same_map s m.state _ hs (subst Inv (sym at.same_state) h)
                  ∙ (ap (λ t. bus.validate m.state (byte_address t) 1 perm_write)
                        (sym at.answer_walk)
                      ∙ ok))
                (rest m at.same_state at.current))
            λ _.
              Gives-blocked (suc left) i l.state
                (record {
                  esr = compose_esr (store_access el) translation_no_walk none;
                  far = stale;
                })
                m at.same_state

      pub split_check-Gives :
          (left i : ℕ) (l : Layer σ)
          → Inv l.state
          → Current table_read c l.mmu
          → Gives left i l.state (split_check bus c left i l va (store_access el) stale)
      unfolding split_check Gives AllAllowed
      split_check-Gives zero i l h now = (refl, (now, tt))
      split_check-Gives (suc left) i l h now =
          check_byte-Gives left i _ l _
            (translate_at-At l (u64 (va + i)) h now (mod-lt (va + i) (omega arith))) h
            λ l' e now'.
              subst
                (λ s.
                  Gives left (i + 1) s
                    (split_check bus c left (i + 1) l' va (store_access el) stale))
                e (split_check-Gives left (i + 1) l' (subst Inv (sym e) h) now')
