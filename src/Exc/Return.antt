-- ===== src/Exc/Return.antt =====
-- src/exc/exc.c: `oemu_exc_eret` after `oemu_exc_take`.
use oemu.Common.{
  ℕ, ◌≤◌, ◌<◌, bit_and, bit_or, ◌≡◌, refl, sym, ap, ap₂, ◌∙◌, ◌⊎◌, inl, inr, Bool, true, Option,
  none, some, arith,
}
use oemu.Common.Bits.Masks.{
  bit_and_low, bit_and-bit_or, bit_and_absorb, bit_and_disjoint, bit_or-zero, zero-bit_or,
}
use oemu.Common.Word.{complement}
use oemu.Regs.{nzcv_mask, set_nzcv}
use oemu.Sysreg.{Core, pstate_m_mask, pstate_il, pstate_mode, pstate_el, stack_bank, switch_sp}
use oemu.Sysreg.Stack.{
  stack_value, stack_value-switch_sp, switch_sp-pstate, switch_sp-sp, switch_sp-elr_el, switch_sp-x,
  stack_value_live, pstate_el_low, stack_bank_low,
}
use oemu.Exc.{Kind, mode_valid, entry_pstate, enter}
use oemu.Exc.Sources.{restore, eret}

-- The PSTATE without its condition flags.
abbrev no_flags : ℕ → ℕ
no_flags pstate = bit_and pstate (complement 64 nzcv_mask)

-- The two halves of a saved PSTATE.
saved_flags :
    (pstate nzcv : ℕ)
    → bit_and nzcv nzcv_mask ≡ nzcv
    → bit_and (bit_or (no_flags pstate) nzcv) nzcv_mask ≡ nzcv
saved_flags pstate nzcv canonical =
    bit_and-bit_or (no_flags pstate) nzcv nzcv_mask
    ∙ ap₂ bit_or (bit_and_disjoint pstate (complement 64 nzcv_mask) nzcv_mask refl) canonical
    ∙ zero-bit_or nzcv

saved_field :
    (pstate nzcv field : ℕ)
    → bit_and nzcv nzcv_mask ≡ nzcv
    → bit_and (complement 64 nzcv_mask) field ≡ field
    → bit_and nzcv_mask field ≡ 0
    → bit_and (bit_or (no_flags pstate) nzcv) field ≡ bit_and pstate field
saved_field pstate nzcv field canonical covered apart =
    bit_and-bit_or (no_flags pstate) nzcv field
    ∙ ap₂ bit_or (bit_and_absorb pstate (complement 64 nzcv_mask) field covered) no_flag
    ∙ bit_or-zero (bit_and pstate field)
  where
    no_flag : bit_and nzcv field ≡ 0
    no_flag =
        ap (λ t. bit_and t field) (sym canonical) ∙ bit_and_disjoint nzcv nzcv_mask field apart

-- A handler at level `target` that gives back what the entry recorded.
pub record GivesBack (entered handled : Core) (target bank : ℕ) : Type 0 where
  pub pstate : handled.sys.pstate ≡ entered.sys.pstate
  pub spsr : handled.sys.spsr_el target ≡ entered.sys.spsr_el target
  pub elr : handled.sys.elr_el target ≡ entered.sys.elr_el target
  pub stack : stack_value handled bank ≡ stack_value entered bank

-- The interrupted world is running again, with the general registers as the handler left them.
pub record Resumes (core handled resumed : Core) : Type 0 where
  pub pc : resumed.regs.pc ≡ core.regs.pc
  pub nzcv : resumed.regs.nzcv ≡ core.regs.nzcv
  pub sp : resumed.regs.sp ≡ core.regs.sp
  pub pstate : resumed.sys.pstate ≡ bit_and core.sys.pstate (complement 64 nzcv_mask)
  pub x : resumed.regs.x ≡ handled.regs.x

entry_level : (target : ℕ) → (target ≡ 1) ⊎ (target ≡ 3) → pstate_el (entry_pstate target) ≡ target
unfolding pstate_el entry_pstate pstate_mode
entry_level target (inl e) = rw e refl
entry_level target (inr e) = rw e refl

enter-pstate :
    (core : Core) (kind : Kind) (target syndrome far : ℕ) (far_valid : Bool)
    → (enter core kind target syndrome far far_valid).sys.pstate ≡ entry_pstate target
unfolding enter switch_sp
enter-pstate core kind target syndrome far far_valid = ground arith

enter-spsr :
    (core : Core) (kind : Kind) (target syndrome far : ℕ) (far_valid : Bool)
    → (enter core kind target syndrome far far_valid).sys.spsr_el target
      ≡ bit_or (no_flags core.sys.pstate) core.regs.nzcv
unfolding enter switch_sp
enter-spsr core kind target syndrome far far_valid = ground arith

enter-elr :
    (core : Core) (kind : Kind) (target syndrome far : ℕ) (far_valid : Bool)
    → (enter core kind target syndrome far far_valid).sys.elr_el target ≡ core.regs.pc
unfolding enter switch_sp
enter-elr core kind target syndrome far far_valid = ground arith

enter-stack :
    (core : Core) (kind : Kind) (target syndrome far : ℕ) (far_valid : Bool) (bank : ℕ)
    → stack_value (enter core kind target syndrome far far_valid) bank ≡ stack_value core bank
unfolding enter stack_value
enter-stack core kind target syndrome far far_valid bank =
    stack_value-switch_sp core (entry_pstate target) bank

-- The three tests of `oemu_exc_eret`, passed.
pub record CanReturn (cur saved : ℕ) : Type 0 where
  pub above : 0 < cur
  pub legal : bit_and saved pstate_il ≡ 0
  pub mode : mode_valid (bit_and saved pstate_m_mask) ≡ true
  pub level : pstate_el (bit_and saved pstate_m_mask) ≤ cur

eret-restore :
    (core : Core)
    → CanReturn (pstate_el core.sys.pstate) (core.sys.spsr_el (pstate_el core.sys.pstate))
    → eret core
      ≡ some
          (restore core (pstate_el core.sys.pstate) (core.sys.spsr_el (pstate_el core.sys.pstate)))
unfolding eret
eret-restore core can = ground (arith, can.above, can.legal, can.mode, can.level)

-- What can be Returned to after an entry from a legal state at or below the target.
can_return :
    (pstate nzcv target : ℕ)
    → bit_and nzcv nzcv_mask ≡ nzcv
    → bit_and pstate pstate_il ≡ 0
    → mode_valid (bit_and pstate pstate_m_mask) ≡ true
    → pstate_el pstate ≤ target
    → 0 < target
    → CanReturn target (bit_or (no_flags pstate) nzcv)
can_return pstate nzcv target canonical legal mode level above = record {
  above = above;
  legal = saved_field pstate nzcv pstate_il canonical refl refl ∙ legal;
  mode = ap mode_valid same_mode ∙ mode;
  level = rw same_level level;
}
  where
    same_mode : bit_and (bit_or (no_flags pstate) nzcv) pstate_m_mask ≡ bit_and pstate pstate_m_mask
    same_mode = saved_field pstate nzcv pstate_m_mask canonical refl refl

    same_level :
        pstate_el (bit_and (bit_or (no_flags pstate) nzcv) pstate_m_mask) ≡ pstate_el pstate
    same_level =
        ap pstate_el same_mode
        ∙ pstate_el_low (bit_and pstate pstate_m_mask) pstate (omega (arith, bit_and_low 5 pstate))

saved_no_flags :
    (pstate nzcv : ℕ)
    → bit_and nzcv nzcv_mask ≡ nzcv
    → no_flags (bit_or (no_flags pstate) nzcv) ≡ no_flags pstate
saved_no_flags pstate nzcv canonical =
    saved_field pstate nzcv (complement 64 nzcv_mask) canonical refl refl

no_flags-stack_bank : (pstate : ℕ) → stack_bank (no_flags pstate) ≡ stack_bank pstate
no_flags-stack_bank pstate = stack_bank_low (no_flags pstate) pstate (
    omega (
      arith,
      bit_and_low 5 (no_flags pstate),
      bit_and_low 5 pstate,
      bit_and_absorb pstate (complement 64 nzcv_mask) 31 refl,
    ))

-- What runs after the return, with what the handler gave back.
restore-Resumes :
    (core handled : Core) (cur saved : ℕ)
    → saved ≡ bit_or (no_flags core.sys.pstate) core.regs.nzcv
    → bit_and core.regs.nzcv nzcv_mask ≡ core.regs.nzcv
    → handled.sys.elr_el cur ≡ core.regs.pc
    → stack_value handled (stack_bank core.sys.pstate) ≡ core.regs.sp
    → Resumes core handled (restore handled cur saved)
unfolding restore set_nzcv
restore-Resumes core handled cur saved e canonical elr stack = record {
  pc = ap (λ t. t cur) (switch_sp-elr_el handled (no_flags saved)) ∙ elr;
  nzcv =
      ap (λ t. bit_and (bit_and t nzcv_mask) nzcv_mask) e
      ∙ ap (λ t. bit_and t nzcv_mask) (saved_flags core.sys.pstate core.regs.nzcv canonical)
      ∙ canonical;
  sp =
      switch_sp-sp handled (no_flags saved)
      ∙ ap (λ t. stack_value handled (stack_bank t)) resumed_pstate
      ∙ ap (stack_value handled) (no_flags-stack_bank core.sys.pstate)
      ∙ stack;
  pstate = switch_sp-pstate handled (no_flags saved) ∙ resumed_pstate;
  x = switch_sp-x handled (no_flags saved);
}
  where
    resumed_pstate : no_flags saved ≡ no_flags core.sys.pstate
    resumed_pstate = ap no_flags e ∙ saved_no_flags core.sys.pstate core.regs.nzcv canonical

-- A return that happened, into the interrupted world.
unfoldable pub Returned : (core handled : Core) → Option Core → Type 0
Returned core handled none = ⊥
Returned core handled (some resumed) = Resumes core handled resumed

-- An exception taken to EL1 or EL3 from a legal PSTATE at or below that level, with no other bits
-- in the flags register than the four flags, followed by a
-- handler that leaves PSTATE, the saved PSTATE and address of its level and the interrupted stack
-- pointer as the entry made them, and then by ERET: the return is made, and the interrupted world
-- has its address, condition flags, stack pointer and PSTATE again, whatever the handler did to
-- the flags and to the rest.
pub eret-enter :
    (core handled : Core) (kind : Kind) (target syndrome far : ℕ) (far_valid : Bool)
    → (target ≡ 1) ⊎ (target ≡ 3)
    → pstate_el core.sys.pstate ≤ target
    → bit_and core.sys.pstate pstate_il ≡ 0
    → mode_valid (bit_and core.sys.pstate pstate_m_mask) ≡ true
    → bit_and core.regs.nzcv nzcv_mask ≡ core.regs.nzcv
    → GivesBack
        (enter core kind target syndrome far far_valid)
        handled
        target
        (stack_bank core.sys.pstate)
    → Returned core handled (eret handled)
unfolding Returned
eret-enter core handled kind target syndrome far far_valid level below legal mode canonical gives =
    rw (eret-restore handled (rw (el, spsr) can)) (
      rw (el)
        (restore-Resumes core handled target (handled.sys.spsr_el target) spsr canonical elr stack))
  where
    el : pstate_el handled.sys.pstate ≡ target
    el =
        ap pstate_el (gives.pstate ∙ enter-pstate core kind target syndrome far far_valid)
        ∙ entry_level target level

    spsr : handled.sys.spsr_el target ≡ bit_or (no_flags core.sys.pstate) core.regs.nzcv
    spsr = gives.spsr ∙ enter-spsr core kind target syndrome far far_valid

    elr : handled.sys.elr_el target ≡ core.regs.pc
    elr = gives.elr ∙ enter-elr core kind target syndrome far far_valid

    stack : stack_value handled (stack_bank core.sys.pstate) ≡ core.regs.sp
    stack =
        gives.stack
        ∙ enter-stack core kind target syndrome far far_valid (stack_bank core.sys.pstate)
        ∙ stack_value_live core

    above : 0 < target
    above = elim level [ inl e ↦ omega arith | inr e ↦ omega arith ]

    can : CanReturn target (bit_or (no_flags core.sys.pstate) core.regs.nzcv)
    can = can_return core.sys.pstate core.regs.nzcv target canonical legal mode below above
