-- ===== src/Sysreg/Stack.antt =====
-- src/sysreg/sysreg.c: the banked stack pointers and the switch of PSTATE.
use oemu.Common.{ℕ, ◌/◌, ◌%◌, ◌≡◌, ◌==◌, if◌then◌else◌, arith}
use oemu.Common.Bits.Masks.{bit_and_low}
use oemu.Sysreg.{Core, pstate_el, pstate_sp_sel, is_user_stack, stack_bank, switch_sp}

-- What the guest finds in a stack-pointer bank: the live register for the bank that is selected.
unfoldable pub stack_value : Core → ℕ → ℕ
unfolding stack_bank
stack_value core bank =
    if stack_bank core.sys.pstate == bank then core.regs.sp else core.sys.sp_el bank

-- A switch of PSTATE leaves every banked stack pointer, the live one included, as the guest sees
-- it.
pub stack_value-switch_sp :
    (core : Core) (new_pstate bank : ℕ)
    → stack_value (switch_sp core new_pstate) bank ≡ stack_value core bank
unfolding stack_value switch_sp stack_bank is_user_stack
stack_value-switch_sp core new_pstate bank = ground arith

-- The level is a field of the low five bits.
pub pstate_el_low : (x y : ℕ) → x % 32 ≡ y % 32 → pstate_el x ≡ pstate_el y
unfolding pstate_el
pstate_el_low x y e = omega (arith, bit_and_low 2 (x / 4), bit_and_low 2 (y / 4))

pub stack_bank_low : (x y : ℕ) → x % 32 ≡ y % 32 → stack_bank x ≡ stack_bank y
unfolding stack_bank is_user_stack pstate_sp_sel
stack_bank_low x y e = ground (arith, pstate_el_low x y e, bit_and_low 1 x, bit_and_low 1 y)

pub switch_sp-pstate :
    (core : Core) (new_pstate : ℕ) → (switch_sp core new_pstate).sys.pstate ≡ new_pstate
unfolding switch_sp
switch_sp-pstate core new_pstate = ground arith

-- The live register afterwards is the bank that the new PSTATE selects.
pub switch_sp-sp :
    (core : Core) (new_pstate : ℕ)
    → (switch_sp core new_pstate).regs.sp ≡ stack_value core (stack_bank new_pstate)
unfolding switch_sp stack_value stack_bank is_user_stack
switch_sp-sp core new_pstate = ground arith

pub switch_sp-elr_el :
    (core : Core) (new_pstate : ℕ) → (switch_sp core new_pstate).sys.elr_el ≡ core.sys.elr_el
unfolding switch_sp
switch_sp-elr_el core new_pstate = ground arith

pub switch_sp-x : (core : Core) (new_pstate : ℕ) → (switch_sp core new_pstate).regs.x ≡ core.regs.x
unfolding switch_sp
switch_sp-x core new_pstate = ground arith

pub stack_value_live : (core : Core) → stack_value core (stack_bank core.sys.pstate) ≡ core.regs.sp
unfolding stack_value
stack_value_live core = ground arith
