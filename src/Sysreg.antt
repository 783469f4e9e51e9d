-- ===== src/Sysreg.antt =====
-- The state of include/oemu/sysreg.h paired with its register file, the fields of PSTATE, and the
-- stack-pointer switch of src/sysreg/sysreg.c. In the source the two halves point at one another
-- and are never re-paired, so here they are one record.
pub mod Stack
use oemu.Common.{
  ℕ, bit_and, Bool, true, false, not, ◌&&◌, ◌||◌, Bank, update, ◌==◌, ◌!=◌, if◌then◌else◌,
}
use oemu.Common.Word.{◌>>>◌}
use oemu.Regs.{Regs}

-- `oemu_sysregs`: the banks indexed by exception level, the registers that the guest can change,
-- and PSTATE. The constant identification block is left out.
pub record Sysregs : Type 0 where
  pub sp_el : Bank
  pub elr_el : Bank
  pub spsr_el : Bank
  pub vbar_el : Bank
  pub esr_el : Bank
  pub far_el : Bank
  pub sctlr_el1 : ℕ
  pub ttbr0_el1 : ℕ
  pub ttbr1_el1 : ℕ
  pub tcr_el1 : ℕ
  pub mair_el1 : ℕ
  pub par_el1 : ℕ
  pub cntvoff_el1 : ℕ
  pub cntv_ctl_el1 : ℕ
  pub cntv_cval_el1 : ℕ
  pub cntkctl_el1 : ℕ
  pub cntp_ctl_el1 : ℕ
  pub cntp_cval_el1 : ℕ
  pub cntfrq_el0 : ℕ
  pub cntvct : ℕ
  pub amair_el1 : ℕ
  pub contextidr_el1 : ℕ
  pub cpacr_el1 : ℕ
  pub fpcr : ℕ
  pub fpsr : ℕ
  pub tpidr_el1 : ℕ
  pub tpidr_el0 : ℕ
  pub tpidrro_el0 : ℕ
  pub pstate : ℕ

-- A register file and the system registers paired with it.
pub record Core : Type 0 where
  pub regs : Regs
  pub sys : Sysregs

-- OEMU_PSTATE_M_MASK, the masks' place, and OEMU_PSTATE_IL
abbrev pub pstate_m_mask : ℕ
pstate_m_mask = 0x1f

abbrev pub pstate_daif_mask : ℕ
pstate_daif_mask = 0xf

abbrev pub pstate_daif_shift : ℕ
pstate_daif_shift = 6

abbrev pub pstate_il : ℕ
pstate_il = 0x100000

-- `oemu_pstate_mode`
unfoldable pub pstate_mode : ℕ → ℕ
pstate_mode el =
    if el == 0
    then 0x00
    else if el == 1
    then 0x05
    else if el == 2
    then 0x09
    else if el == 3
    then 0x0d
    else 0x05

unfoldable pub pstate_el : ℕ → ℕ
pstate_el pstate = bit_and (pstate >>> 2) 3

unfoldable pub pstate_sp_sel : ℕ → ℕ
pstate_sp_sel pstate = bit_and pstate 1

unfoldable pub pstate_daif : ℕ → ℕ
pstate_daif pstate = bit_and (pstate >>> pstate_daif_shift) pstate_daif_mask

-- SPSel = 0 and EL0 both mean SP_EL0.
unfoldable pub is_user_stack : ℕ → Bool
is_user_stack pstate = pstate_sp_sel pstate == 0 || pstate_el pstate == 0

-- The bank that `regs->sp` holds under a PSTATE.
unfoldable pub stack_bank : ℕ → ℕ
stack_bank pstate = if is_user_stack pstate then 0 else pstate_el pstate

abbrev pub differ : Bool → Bool → Bool
differ true b = not b
differ false b = b

-- `oemu_sysregs_switch_sp`
unfoldable pub switch_sp : Core → ℕ → Core
switch_sp core new_pstate =
    let old_user = is_user_stack core.sys.pstate in
    let new_user = is_user_stack new_pstate in
    let crosses =
      differ old_user new_user
      || (not old_user && pstate_el core.sys.pstate != pstate_el new_pstate) in
    let banks = update core.sys.sp_el (stack_bank core.sys.pstate) core.regs.sp in
    if crosses
    then record {
      regs = record core.regs { sp = banks (stack_bank new_pstate) };
      sys = record core.sys { sp_el = banks; pstate = new_pstate };
    }
    else record core { sys = record core.sys { pstate = new_pstate } }
