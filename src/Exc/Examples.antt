-- ===== src/Exc/Examples.antt =====
-- A core at EL0 that is interrupted, and one at EL1 with a marked saved state.
use oemu.Common.{
  ℕ, ◌%◌, ◌^◌, ◌≤◌, bit_and, ◌≡◌, ◌≢◌, refl, inl, true, false, ◌==◌, ◌!=◌, if◌then◌else◌, arith,
}
use oemu.Sysreg.{Core, pstate_il, pstate_m_mask, pstate_el, stack_bank, switch_sp}
use oemu.Sysreg.Stack.{stack_value, stack_value-switch_sp}
use oemu.Exc.{irq, mode_valid, route, enter}
use oemu.Exc.Sources.{eret, eret_insn}
use oemu.Exc.Return.{GivesBack, Returned, eret-enter}
use oemu.Exc.Raise.{
  by_data_abort, raise, class_of, syndrome_of, return_address, fault_address, raise-Delivered,
}
use oemu.Exc.Delivery.{Delivered}
use oemu.Exc.Refused.{eret-Delivered}

abbrev at_pstate : ℕ → Core
at_pstate pstate = record {
  regs = record { x = λ i. i; sp = 0x7000; pc = 0x400100; nzcv = 0x60000000 };
  sys = record {
    sp_el = λ i. if i == 1 then 0xffff0000 else 0;
    elr_el = λ i. 0;
    spsr_el = λ i. 0x100005;
    vbar_el = λ i. 0x80000;
    esr_el = λ i. 0;
    far_el = λ i. 0;
    sctlr_el1 = 0;
    ttbr0_el1 = 0;
    ttbr1_el1 = 0;
    tcr_el1 = 0;
    mair_el1 = 0;
    par_el1 = 0;
    cntvoff_el1 = 0;
    cntv_ctl_el1 = 0;
    cntv_cval_el1 = 0;
    cntkctl_el1 = 0;
    cntp_ctl_el1 = 0;
    cntp_cval_el1 = 0;
    cntfrq_el0 = 0;
    cntvct = 0;
    amair_el1 = 0;
    contextidr_el1 = 0;
    cpacr_el1 = 0;
    fpcr = 0;
    fpsr = 0;
    tpidr_el1 = 0;
    tpidr_el0 = 0;
    tpidrro_el0 = 0;
    pstate = pstate;
  };
}

-- The handler has run over the general registers and the flags.
abbrev handled : Core
handled = record (enter (at_pstate 0) irq 1 0 0 false) {
  regs = record (enter (at_pstate 0) irq 1 0 0 false).regs { x = λ i. 7; nzcv = 0x80000000 };
}

handled-GivesBack :
    GivesBack (enter (at_pstate 0) irq 1 0 0 false) handled 1 (stack_bank (at_pstate 0).sys.pstate)
unfolding stack_value
handled-GivesBack = record { pstate = refl; spsr = refl; elr = refl; stack = refl }

user_mode : mode_valid (bit_and (at_pstate 0).sys.pstate pstate_m_mask) ≡ true
unfolding mode_valid
user_mode = refl

user_level : pstate_el (at_pstate 0).sys.pstate ≤ 1
unfolding pstate_el
user_level = omega arith

eret-enter_example : Returned (at_pstate 0) handled (eret handled)
eret-enter_example =
    eret-enter (at_pstate 0) handled irq 1 0 0 false (inl refl) user_level refl user_mode refl
      handled-GivesBack

raise-Delivered_example :
    Delivered
      (at_pstate 0)
      (class_of (pstate_el (at_pstate 0).sys.pstate) (by_data_abort 0x1234 3 true true 4))
      (syndrome_of (by_data_abort 0x1234 3 true true 4))
      (return_address (at_pstate 0).regs.pc (by_data_abort 0x1234 3 true true 4))
      (fault_address
        ((at_pstate 0).sys.far_el (route (pstate_el (at_pstate 0).sys.pstate)))
        (by_data_abort 0x1234 3 true true 4))
      (route (pstate_el (at_pstate 0).sys.pstate))
      (raise (at_pstate 0) (by_data_abort 0x1234 3 true true 4))
raise-Delivered_example = raise-Delivered (at_pstate 0) (by_data_abort 0x1234 3 true true 4)

kernel_level : pstate_el (at_pstate 5).sys.pstate ≡ 1
unfolding pstate_el
kernel_level = refl

marked_illegal : bit_and ((at_pstate 5).sys.spsr_el 1) pstate_il ≢ 0
marked_illegal = omega arith

eret-Delivered_example :
    Delivered
      (at_pstate 5)
      (if bit_and ((at_pstate 5).sys.spsr_el 1) pstate_il != 0 then 0x1a else 0)
      (if bit_and ((at_pstate 5).sys.spsr_el 1) pstate_il != 0 then 0 else eret_insn % 2 ^ 25)
      (at_pstate 5).regs.pc
      ((at_pstate 5).sys.far_el 1)
      1
      (eret (at_pstate 5))
eret-Delivered_example = eret-Delivered (at_pstate 5) 1 kernel_level (inl refl) (inl marked_illegal)

stack_value-switch_sp_example :
    stack_value (switch_sp (at_pstate 0) 0x3c5) 1 ≡ stack_value (at_pstate 0) 1
stack_value-switch_sp_example = stack_value-switch_sp (at_pstate 0) 0x3c5 1
