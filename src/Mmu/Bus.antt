-- ===== src/Mmu/Bus.antt =====
-- src/mmu/mmu.c: the bus layer, which serves the core's accesses through the translation. The bus
-- below, a record of its operations over its own state, is a parameter.
use oemu.Common.{
  ℕ, zero, suc, ◌+◌, ◌-◌, ◌*◌, ◌^◌, bit_and, bit_or, Bool, true, false, not, ◌&&◌, Option, none,
  some, ltb, ◌==◌, ◌!=◌, if◌then◌else◌,
}
use oemu.Common.Status.{MemSize, byte, dword}
use oemu.Common.Word.{◌>>>◌, ◌<<<◌, u64, complement}
use oemu.Memory.{nbytes, perm_read, perm_write, perm_exec}
use oemu.Mmu.{FaultClass, translation_no_walk, alignment, alignment_required, Access, compose_esr}
use oemu.Mmu.Walk.{Control}
use oemu.Mmu.Tlb.{Mmu, MmuFault, Outcome, translated, faulted, translate}

-- `oemu_memops`: an answer is `none`, and a store's `false`, where the status is not OEMU_OK. Loads
-- are without sign extension, which the layer does itself.
pub record Bus (σ : Type 0) : Type 0 where
  pub fetch32 : σ → ℕ → Option ℕ
  pub read : σ → ℕ → MemSize → Option ℕ × σ
  pub write : σ → ℕ → MemSize → ℕ → Bool × σ
  pub validate : σ → ℕ → ℕ → ℕ → Bool

pub record Layer (σ : Type 0) : Type 0 where
  pub mmu : Mmu
  pub state : σ

-- What the core gets; `unended` is a walk that has no end.
pub data Reply : Type 0 where
  value_read : ℕ → Reply
  done : Reply
  refused : Reply
  unended : Reply

-- What the checks of a split access find.
pub data Checked : Type 0 where
  passes : Checked
  blocked : MmuFault → Checked
  endless : Checked

-- The address of a byte that was checked before: 0 where the translation fails after all.
unfoldable pub byte_address : Option Outcome → ℕ
byte_address none = 0
byte_address (some (faulted f)) = 0
byte_address (some (translated pa)) = pa

-- The sign extension of `mmu_read`.
unfoldable pub extend : ℕ → Bool → ℕ → ℕ
extend bytes sign_extend value =
    if sign_extend && ltb bytes 8 && bit_and (value >>> (bytes * 8 - 1)) 1 != 0
    then bit_or value (complement 64 (2 ^ (bytes * 8) - 1))
    else value

module _ {σ : Type 0} where
  -- `mmu->fault = f`
  unfoldable pub post : Layer σ → MmuFault → Layer σ
  post l f = record l { mmu = record l.mmu { fault = f; fault_valid = true } }

  -- `refuse`, of the classes that have no level
  unfoldable pub refuse : Layer σ → Access → FaultClass → ℕ → Reply × Layer σ
  unfolding post compose_esr
  refuse l access cls far =
      (refused, post l (record { esr = compose_esr access cls none; far = far }))

  -- The test of a translation that starts an access.
  unfoldable pub when_translated :
      (ℕ → Layer σ → Reply × Layer σ) → Option Outcome × Layer σ → Reply × Layer σ
  unfolding post
  when_translated next (none, l) = (unended, l)
  when_translated next (some (faulted f), l) = (refused, post l f)
  when_translated next (some (translated pa), l) = next pa l

  -- The test of a split access's checks.
  unfoldable pub when_checked : (Layer σ → Reply × Layer σ) → Checked × Layer σ → Reply × Layer σ
  unfolding post
  when_checked next (passes, l) = next l
  when_checked next (blocked f, l) = (refused, post l f)
  when_checked next (endless, l) = (unended, l)

  module _ (bus : Bus σ) (c : Control) where
    -- The bus's answers to a walk.
    abbrev pub tables : σ → ℕ → Option ℕ
    tables s a = (bus.read s a dword).0

    unfoldable pub translate_at : Layer σ → ℕ → Access → Option Outcome × Layer σ
    unfolding translate
    translate_at l va access =
        let r = translate (tables l.state) l.mmu c va access in (r.0, record l { mmu = r.1 })

    -- A round of `split_check`. `stale` is what the caller's fault, which is not initialised, holds.
    unfoldable pub check_byte :
        (Layer σ → Checked × Layer σ) → Access → ℕ → Option Outcome × Layer σ → Checked × Layer σ
    unfolding compose_esr
    check_byte next access stale (none, l) = (endless, l)
    check_byte next access stale (some (faulted f), l) = (blocked f, l)
    check_byte next access stale (some (translated pa), l) =
        if bus.validate l.state pa 1 (if access.is_write then perm_write else perm_read)
        then next l
        else (
          blocked (record { esr = compose_esr access translation_no_walk none; far = stale }),
          l,
        )

    -- `split_check`, with `left` bytes to go from the i-th
    unfoldable pub split_check : ℕ → ℕ → Layer σ → ℕ → Access → ℕ → Checked × Layer σ
    unfolding translate_at check_byte
    split_check zero i l va access stale = (passes, l)
    split_check (suc left) i l va access stale =
        check_byte (λ l'. split_check left (i + 1) l' va access stale) access stale
          (translate_at l (u64 (va + i)) access)

    -- A byte of a split store: the bus's answer to it.
    unfoldable pub stored :
        (Layer σ → Reply × Layer σ) → Mmu → Access → ℕ → Bool × σ → Reply × Layer σ
    unfolding refuse
    stored next mmu access va (true, s) = next (record { mmu = mmu; state = s })
    stored next mmu access va (false, s) =
        refuse (record { mmu = mmu; state = s }) access translation_no_walk va

    -- The loop of a split store.
    unfoldable pub write_bytes : ℕ → ℕ → Layer σ → ℕ → Access → ℕ → Reply × Layer σ
    unfolding translate_at byte_address stored
    write_bytes zero i l va access value = (done, l)
    write_bytes (suc left) i l va access value =
        let t = translate_at l (u64 (va + i)) access in
        stored (λ l'. write_bytes left (i + 1) l' va access value) t.1.mmu access va
          (bus.write t.1.state (byte_address t.0) byte (bit_and (value >>> (i * 8)) 0xff))

    unfoldable pub loaded :
        (ℕ → Layer σ → Reply × Layer σ) → Mmu → Access → ℕ → Option ℕ × σ → Reply × Layer σ
    unfolding refuse
    loaded next mmu access va (some b, s) = next b (record { mmu = mmu; state = s })
    loaded next mmu access va (none, s) =
        refuse (record { mmu = mmu; state = s }) access translation_no_walk va

    -- The loop of a split load.
    unfoldable pub read_bytes : ℕ → ℕ → Layer σ → ℕ → Access → ℕ → Reply × Layer σ
    unfolding translate_at byte_address loaded
    read_bytes zero i l va access value = (value_read value, l)
    read_bytes (suc left) i l va access value =
        let t = translate_at l (u64 (va + i)) access in
        loaded
          (λ b l'.
            read_bytes left (i + 1) l' va access (bit_or value (u64 (bit_and b 0xff <<< (i * 8)))))
          t.1.mmu access va (bus.read t.1.state (byte_address t.0) byte)

    -- `mmu_write`, once its first byte is translated
    unfoldable pub write_translated : ℕ → MemSize → ℕ → Access → ℕ → ℕ → Layer σ → Reply × Layer σ
    unfolding refuse when_checked split_check write_bytes stored
    write_translated va size value access stale pa l =
        let bytes = nbytes size in
        let misaligned = bit_and va (bytes - 1) != 0 in
        if misaligned && alignment_required c.sctlr (access.el == 0)
        then refuse l access alignment va
        else if misaligned
        then when_checked (λ l'. write_bytes bytes 0 l' va access value)
            (split_check bytes 0 l va access stale)
        else if not (bus.validate l.state pa bytes perm_write)
        then refuse l access translation_no_walk va
        else stored (λ l'. (done, l')) l.mmu access va (bus.write l.state pa size value)

    unfoldable pub mmu_write : ℕ → Layer σ → ℕ → ℕ → MemSize → ℕ → Reply × Layer σ
    unfolding when_translated write_translated translate_at
    mmu_write el l va stale size value =
        let access : Access = record { el = el; is_write = true; is_fetch = false } in
        when_translated (λ pa l'. write_translated va size value access stale pa l')
          (translate_at l va access)

    unfoldable pub extend_reply : ℕ → Bool → Reply × Layer σ → Reply × Layer σ
    unfolding extend
    extend_reply bytes sign_extend (value_read v, l) = (value_read (extend bytes sign_extend v), l)
    extend_reply bytes sign_extend (done, l) = (done, l)
    extend_reply bytes sign_extend (refused, l) = (refused, l)
    extend_reply bytes sign_extend (unended, l) = (unended, l)

    -- `mmu_read`, once its first byte is translated
    unfoldable pub read_translated : ℕ → MemSize → Access → ℕ → ℕ → Layer σ → Reply × Layer σ
    unfolding refuse when_checked split_check read_bytes loaded
    read_translated va size access stale pa l =
        let bytes = nbytes size in
        let misaligned = bit_and va (bytes - 1) != 0 in
        if misaligned && alignment_required c.sctlr (access.el == 0)
        then refuse l access alignment va
        else if misaligned
        then when_checked (λ l'. read_bytes bytes 0 l' va access 0)
            (split_check bytes 0 l va access stale)
        else if not (bus.validate l.state pa bytes perm_read)
        then refuse l access translation_no_walk va
        else loaded (λ v l'. (value_read v, l')) l.mmu access va (bus.read l.state pa size)

    unfoldable pub mmu_read : ℕ → Layer σ → ℕ → ℕ → MemSize → Bool → Reply × Layer σ
    unfolding when_translated read_translated translate_at extend_reply
    mmu_read el l va stale size sign_extend =
        let access : Access = record { el = el; is_write = false; is_fetch = false } in
        extend_reply (nbytes size) sign_extend (
          when_translated (λ pa l'. read_translated va size access stale pa l')
            (translate_at l va access))

    -- `mmu_fetch32`, once its address is translated
    unfoldable pub fetch_translated : ℕ → Access → ℕ → Layer σ → Reply × Layer σ
    unfolding refuse
    fetch_translated va access pa l =
        if not (bus.validate l.state pa 4 perm_exec)
        then refuse l access translation_no_walk va
        else elim (bus.fetch32 l.state pa) [
          | none ↦ refuse l access translation_no_walk va
          | some w ↦ (value_read w, l)
        ]

    unfoldable pub mmu_fetch32 : ℕ → Layer σ → ℕ → Reply × Layer σ
    unfolding when_translated fetch_translated translate_at
    mmu_fetch32 el l va =
        let access : Access = record { el = el; is_write = false; is_fetch = true } in
        when_translated (λ pa l'. fetch_translated va access pa l') (translate_at l va access)
