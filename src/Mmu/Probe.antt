-- ===== src/Mmu/Probe.antt =====
-- src/mmu/mmu.c: the permission probe of the bus layer, and its end.
use oemu.Common.{
  ℕ, zero, suc, ◌+◌, ◌-◌, ◌^◌, ◌<◌, ◌≤◌, bit_and, ◌≡◌, refl, true, false, Option, none, some, leb,
  ◌==◌, if◌then◌else◌, if_both, arith,
}
use native.Mathlib.Nat.{mod-lt}
use oemu.Common.Bits.Masks.{bit_and_low}
use oemu.Common.Word.{u64, any_set}
use oemu.Memory.{perm_write, perm_exec}
use oemu.Mmu.{translation_no_walk, Access}
use oemu.Mmu.Walk.{Control}
use oemu.Mmu.Tlb.{Outcome, translated, faulted}
use oemu.Mmu.Coherent.{Coherent}
use oemu.Mmu.Transparent.{translate-Coherent}
use oemu.Mmu.Run.{Reports, translate-Reports}
use oemu.Mmu.Bus.{
  Bus, Layer, Reply, value_read, done, refused, unended, post, refuse, when_translated, tables,
  translate_at,
}

-- The bytes of a page that the range has from an offset on.
unfoldable pub chunk : ℕ → ℕ → ℕ → ℕ
chunk va size off =
    let span = 2 ^ 12 - bit_and (va + off) (2 ^ 12 - 1) in
    if leb span (size - off) then span else size - off

module _ {σ : Type 0} (bus : Bus σ) (c : Control) where
  -- What follows a page's translation.
  unfoldable pub probe_page :
      (Layer σ → Reply × Layer σ) → Access → ℕ → ℕ → ℕ → ℕ → Layer σ → Reply × Layer σ
  unfolding refuse
  probe_page next access perms far bytes pa l =
      if bus.validate l.state pa bytes perms
      then next l
      else refuse l access translation_no_walk far

  -- The loop of `mmu_validate`, from an offset on.
  unfoldable pub probe_from : ℕ → ℕ → Layer σ → ℕ → ℕ → ℕ → Access → Reply × Layer σ
  unfolding translate_at when_translated probe_page chunk
  probe_from zero off l va size perms access = (unended, l)
  probe_from (suc rounds) off l va size perms access =
      if leb size off
      then (done, l)
      else when_translated
          (λ pa l'.
            probe_page (λ l''. probe_from rounds (off + chunk va size off) l'' va size perms access)
              access perms (u64 (va + off)) (chunk va size off) pa l')
          (translate_at bus c l (u64 (va + off)) access)

  -- `mmu_validate`; a round adds at least one byte, so that one for each byte and one for the end
  -- are enough.
  unfoldable pub mmu_validate : ℕ → Layer σ → ℕ → ℕ → ℕ → Reply × Layer σ
  unfolding probe_from
  mmu_validate el l va size perms =
      let access : Access = record {
        el = el;
        is_write = any_set perms perm_write;
        is_fetch = any_set perms perm_exec;
      } in
      if size == 0 then (done, l) else probe_from (size + 1) 0 l va size perms access

-- The probe answers, with a fault where it refuses, and the bus keeps its state.
unfoldable pub IsProbed : {σ : Type 0} → σ → Reply × Layer σ → Type 0
IsProbed before (value_read v, l) = ⊥
IsProbed before (done, l) = l.state ≡ before
IsProbed before (refused, l) = (l.state ≡ before) × (l.mmu.fault_valid ≡ true)
IsProbed before (unended, l) = ⊥

chunk_bounds :
    (va size off : ℕ) → off < size → (1 ≤ chunk va size off) × (off + chunk va size off ≤ size)
unfolding chunk
chunk_bounds va size off h =
    (ground (arith, bit_and_low 12 (va + off)), ground (arith, bit_and_low 12 (va + off)))

module _ {σ : Type 0} (bus : Bus σ) (c : Control) (va size perms : ℕ) (access : Access) where
  done-IsProbed : (l : Layer σ) (s : σ) → l.state ≡ s → IsProbed s (done, l)
  unfolding IsProbed
  done-IsProbed l s e = e

  refuse-IsProbed :
      (l : Layer σ) (s : σ) (far : ℕ)
      → l.state ≡ s
      → IsProbed s (refuse l access translation_no_walk far)
  unfolding IsProbed refuse post
  refuse-IsProbed l s far e = (e, refl)

  when_translated-IsProbed :
      (next : ℕ → Layer σ → Reply × Layer σ) (s : σ) (r : Option Outcome × Layer σ)
      → Reports r.0
      → r.1.state ≡ s
      → ((pa : ℕ) → IsProbed s (next pa r.1))
      → IsProbed s (when_translated next r)
  unfolding when_translated IsProbed Reports post
  when_translated-IsProbed next s (none, l) there e h = there
  when_translated-IsProbed next s (some (faulted f), l) there e h = (e, refl)
  when_translated-IsProbed next s (some (translated pa), l) there e h = h pa

  probe_from-IsProbed :
      (rounds off : ℕ) (l : Layer σ)
      → size < rounds + off
      → off ≤ size
      → Coherent (tables bus c l.state) l.mmu
      → IsProbed l.state (probe_from bus c rounds off l va size perms access)
  unfolding probe_from translate_at probe_page
  probe_from-IsProbed zero off l enough within coherent = absurd (omega arith)
  probe_from-IsProbed (suc rounds) off l enough within coherent =
      if_both (IsProbed l.state) (leb size off) (λ _. done-IsProbed l l.state refl)
        λ left.
          when_translated-IsProbed _ l.state _
            (translate-Reports (tables bus c l.state) l.mmu c at access coherent small) refl
            λ pa.
              if_both (IsProbed l.state) (bus.validate l.state pa (chunk va size off) perms)
                (λ _.
                  probe_from-IsProbed rounds (off + chunk va size off) _
                    (omega (arith, bounds left)) (bounds left).1
                    (translate-Coherent (tables bus c l.state) l.mmu c at access coherent small))
                λ _. refuse-IsProbed (translate_at bus c l at access).1 l.state at refl
    where
      at : ℕ
      at = u64 (va + off)

      small : at < 2 ^ 64
      small = mod-lt (va + off) (omega arith)

      bounds : leb size off ≡ false → (1 ≤ chunk va size off) × (off + chunk va size off ≤ size)
      bounds left = chunk_bounds va size off (ground (arith, left))

-- A permission probe through a coherent TLB comes to an end, whatever its range: it passes, or it
-- refuses with a fault posted, and it leaves the bus as it was.
pub mmu_validate-IsProbed :
    {σ : Type 0} (bus : Bus σ) (c : Control) (el : ℕ) (l : Layer σ) (va size perms : ℕ)
    → Coherent (tables bus c l.state) l.mmu
    → IsProbed l.state (mmu_validate bus c el l va size perms)
unfolding mmu_validate
mmu_validate-IsProbed bus c el l va size perms coherent =
    if_both (IsProbed l.state) (size == 0)
      (λ _. done-IsProbed bus c va size perms access l l.state refl)
      λ _.
        probe_from-IsProbed bus c va size perms access (size + 1) 0 l (omega arith) (omega arith)
          coherent
  where
    access : Access
    access = record {
      el = el;
      is_write = any_set perms perm_write;
      is_fetch = any_set perms perm_exec;
    }
