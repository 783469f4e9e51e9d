-- ===== src/Exc/Delivery.antt =====
-- src/exc/exc.c: what a handler finds after a synchronous entry.
use oemu.Common.{
  ℕ, ◌+◌, ◌/◌, ◌%◌, ◌^◌, ◌<◌, ◌≡◌, refl, sym, ap, ◌∙◌, ◌⊎◌, inl, inr, Bool, true, ◌&&◌, Option,
  none, some, ◌==◌, ◌!=◌, if◌then◌else◌, arith,
}
use oemu.Common.Word.{u64}
use oemu.Sysreg.{
  Core, pstate_mode, pstate_el, pstate_sp_sel, pstate_daif, is_user_stack, stack_bank, switch_sp,
}
use oemu.Sysreg.Stack.{stack_value, stack_value-switch_sp, switch_sp-sp}
use oemu.Exc.{sync, esr, route, vector_offset, entry_pstate, enter, take}
use oemu.Exc.Syndrome.{esr_lem}

-- What the handler at level `target` finds. The stack pointer is the target level's own one, and no
-- banked stack pointer, that of the interrupted code included, has changed as the guest sees it.
pub record Found (core : Core) (ec iss from fault target : ℕ) (after : Core) : Type 0 where
  pub class : after.sys.esr_el target / 2 ^ 26 ≡ ec
  pub is_word : after.sys.esr_el target / 2 ^ 25 % 2 ≡ 1
  pub syndrome : after.sys.esr_el target % 2 ^ 25 ≡ iss
  pub address : after.sys.elr_el target ≡ from
  pub far : after.sys.far_el target ≡ fault
  pub level : pstate_el after.sys.pstate ≡ target
  pub sp_sel : pstate_sp_sel after.sys.pstate ≡ 1
  pub own_stack : after.regs.sp ≡ stack_value core target
  pub stacks : (bank : ℕ) → stack_value after bank ≡ stack_value core bank
  pub masked : pstate_daif after.sys.pstate ≡ 0xf
  pub vector :
      after.regs.pc
      ≡ u64 (
          core.sys.vbar_el target
          + vector_offset
              (pstate_el core.sys.pstate == target)
              (pstate_sp_sel core.sys.pstate != 0)
              sync)
  pub x : after.regs.x ≡ core.regs.x

unfoldable pub Delivered : Core → ℕ → ℕ → ℕ → ℕ → ℕ → Option Core → Type 0
Delivered core ec iss from fault target none = ⊥
Delivered core ec iss from fault target (some after) = Found core ec iss from fault target after

route_level : (el : ℕ) → (route el ≡ 1) ⊎ (route el ≡ 3)
unfolding route
route_level el = ground arith

pub entry_fields : (target : ℕ) → (target ≡ 1) ⊎ (target ≡ 3) → (target != 0 && target != 2) ≡ true
entry_fields target level = ground arith

entry_level : (target : ℕ) → (target ≡ 1) ⊎ (target ≡ 3) → pstate_el (entry_pstate target) ≡ target
unfolding pstate_el entry_pstate pstate_mode
entry_level target (inl e) = rw e refl
entry_level target (inr e) = rw e refl

entry_sp_sel : (target : ℕ) → (target ≡ 1) ⊎ (target ≡ 3) → pstate_sp_sel (entry_pstate target) ≡ 1
unfolding pstate_sp_sel entry_pstate pstate_mode
entry_sp_sel target (inl e) = rw e refl
entry_sp_sel target (inr e) = rw e refl

entry_daif : (target : ℕ) → (target ≡ 1) ⊎ (target ≡ 3) → pstate_daif (entry_pstate target) ≡ 0xf
unfolding pstate_daif entry_pstate pstate_mode
entry_daif target (inl e) = rw e refl
entry_daif target (inr e) = rw e refl

entry_bank : (target : ℕ) → (target ≡ 1) ⊎ (target ≡ 3) → stack_bank (entry_pstate target) ≡ target
unfolding stack_bank is_user_stack pstate_sp_sel pstate_el entry_pstate pstate_mode
entry_bank target (inl e) = rw e refl
entry_bank target (inr e) = rw e refl

-- A synchronous entry, whatever the source.
pub enter-Found :
    (core : Core) (ec iss far : ℕ) (far_valid : Bool) (target : ℕ)
    → (target ≡ 1) ⊎ (target ≡ 3)
    → ec < 64
    → Found core ec
        (iss % 2 ^ 25)
        core.regs.pc
        (if far_valid then far else core.sys.far_el target)
        target
        (enter core sync target (esr ec iss) far far_valid)
unfolding enter switch_sp stack_value
enter-Found core ec iss far far_valid target level small = record {
  class = ground (arith, esr_lem ec iss small);
  is_word = ground (arith, esr_lem ec iss small);
  syndrome = ground (arith, esr_lem ec iss small);
  address = ground arith;
  far = ground arith;
  level = ground (arith, entry_level target level);
  sp_sel = ground (arith, entry_sp_sel target level);
  own_stack =
      switch_sp-sp core (entry_pstate target) ∙ ap (stack_value core) (entry_bank target level);
  stacks = λ bank. stack_value-switch_sp core (entry_pstate target) bank;
  masked = ground (arith, entry_daif target level);
  vector = ground arith;
  x = ground arith;
}

pub take-Delivered :
    (core : Core) (ec iss far : ℕ) (far_valid : Bool) (el : ℕ)
    → ec < 64
    → Delivered core ec
        (iss % 2 ^ 25)
        core.regs.pc
        (if far_valid then far else core.sys.far_el (route el))
        (route el)
        (take core sync (route el) (esr ec iss) far far_valid)
unfolding take Delivered
take-Delivered core ec iss far far_valid el small =
    rw (entry_fields (route el) (route_level el))
      (enter-Found core ec iss far far_valid (route el) (route_level el) small)

-- The same with the syndrome and the class in another form.
pub take-Delivered_as :
    (core : Core) (ec ec' iss iss' fault far : ℕ) (far_valid : Bool) (el : ℕ)
    → ec < 64
    → ec ≡ ec'
    → iss % 2 ^ 25 ≡ iss'
    → (if far_valid then far else core.sys.far_el (route el)) ≡ fault
    → Delivered core ec' iss' core.regs.pc fault
        (route el)
        (take core sync (route el) (esr ec iss) far far_valid)
take-Delivered_as core ec ec' iss iss' fault far far_valid el small e i f =
    rw (sym e, sym i, sym f) (take-Delivered core ec iss far far_valid el small)
