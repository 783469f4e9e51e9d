-- ===== src/Exc/Raise.antt =====
-- src/exc/exc.c: what each source of an exception records.
use oemu.Common.{
  ℕ, ◌+◌, ◌*◌, ◌/◌, ◌%◌, ◌^◌, ◌<◌, bit_and, bit_or, ◌≡◌, refl, ap, ◌∙◌, Bool, true, false, Option,
  none, some, ltb, ◌==◌, if◌then◌else◌, arith,
}
use oemu.Common.Bits.Masks.{bit_and_low}
use oemu.Sysreg.{Core, pstate_el}
use oemu.Sysreg.Stack.{stack_value}
use oemu.Exc.{
  sync, esr_data_abort, esr_imm16, esr_undefined, esr_instruction_abort, iss_data_abort, route,
  take,
}
use oemu.Exc.Sources.{
  undefined, svc, brk, smc, hvc, breakpoint, instruction_abort, data_abort, step_over,
}
use oemu.Exc.Syndrome.{iss_data_abort_lem}
use oemu.Exc.Delivery.{Delivered, take-Delivered, take-Delivered_as}

-- Everything that raises a synchronous exception.
pub data Source : Type 0 where
  by_undefined : ℕ → Source
  by_svc by_brk by_smc by_hvc : ℕ → Source
  by_breakpoint : Source
  by_instruction_abort : ℕ → Source
  by_data_abort : ℕ → ℕ → Bool → Bool → ℕ → Source

unfoldable pub raise : Core → Source → Option Core
raise core (by_undefined insn) = undefined core insn
raise core (by_svc imm16) = svc core imm16
raise core (by_brk imm16) = brk core imm16
raise core (by_smc imm16) = smc core imm16
raise core (by_hvc imm16) = hvc core imm16
raise core by_breakpoint = breakpoint core
raise core (by_instruction_abort far) = instruction_abort core far
raise core (by_data_abort far log2_size is_write isv dfsc) =
    data_abort core far log2_size is_write isv dfsc

-- The class of the syndrome; the aborts tell EL0 from the levels that share the handler's.
abbrev pub class_of : ℕ → Source → ℕ
class_of el (by_undefined insn) = 0x00
class_of el (by_svc imm16) = 0x15
class_of el (by_brk imm16) = 0x3c
class_of el (by_smc imm16) = 0x00
class_of el (by_hvc imm16) = 0x00
class_of el by_breakpoint = 0x30
class_of el (by_instruction_abort far) = if el == 0 then 0x20 else 0x21
class_of el (by_data_abort far log2_size is_write isv dfsc) = if el == 0 then 0x24 else 0x25

-- Bits 24 to 0 of the syndrome.
abbrev pub syndrome_of : Source → ℕ
syndrome_of (by_undefined insn) = insn % 2 ^ 25
syndrome_of (by_svc imm16) = imm16 % 2 ^ 16
syndrome_of (by_brk imm16) = imm16 % 2 ^ 16
syndrome_of (by_smc imm16) = bit_or 0xd4000003 (imm16 * 2 ^ 5) % 2 ^ 25
syndrome_of (by_hvc imm16) = bit_or 0xd4000002 (imm16 * 2 ^ 5) % 2 ^ 25
syndrome_of by_breakpoint = 2 ^ 24 + 4
syndrome_of (by_instruction_abort far) = 0x2c
syndrome_of (by_data_abort far log2_size is_write isv dfsc) =
    (if isv then 2 ^ 24 + log2_size % 4 * 2 ^ 21 + 2 ^ 11 else 0)
    + (if is_write then 2 ^ 6 else 0)
    + dfsc % 64

-- The address that the handler returns to: a call is not run again, all else is.
abbrev pub return_address : ℕ → Source → ℕ
return_address pc (by_svc imm16) = (pc + 4) % 2 ^ 64
return_address pc (by_hvc imm16) = (pc + 4) % 2 ^ 64
return_address pc _ = pc

-- The fault address that the handler finds.
abbrev pub fault_address : ℕ → Source → ℕ
fault_address before (by_instruction_abort far) = far
fault_address before (by_data_abort far log2_size is_write isv dfsc) = far
fault_address before _ = before

-- Stepping over the instruction changes nothing that the handler finds but the address.
from_step_over :
    (core : Core) (ec iss from fault target : ℕ) (after : Option Core)
    → Delivered (step_over core) ec iss from fault target after
    → Delivered core ec iss from fault target after
unfolding Delivered step_over stack_value
from_step_over core ec iss from fault target none d = d
from_step_over core ec iss from fault target (some after) d = record {
  class = d.class;
  is_word = d.is_word;
  syndrome = d.syndrome;
  address = d.address;
  far = d.far;
  level = d.level;
  sp_sel = d.sp_sel;
  own_stack = d.own_stack;
  stacks = d.stacks;
  masked = d.masked;
  vector = d.vector;
  x = d.x;
}

undefined-Delivered :
    (core : Core) (insn : ℕ)
    → Delivered core 0
        (insn % 2 ^ 25)
        core.regs.pc
        (core.sys.far_el (route (pstate_el core.sys.pstate)))
        (route (pstate_el core.sys.pstate))
        (undefined core insn)
unfolding undefined esr_undefined
undefined-Delivered core insn =
    take-Delivered_as core 0 0 (bit_and insn 0x1ffffff) (insn % 2 ^ 25) _ 0 false
      (pstate_el core.sys.pstate) (omega arith) refl (omega (arith, bit_and_low 25 insn)) refl

-- A call's immediate.
imm16-Delivered :
    (core : Core) (ec imm16 el : ℕ)
    → ec < 64
    → Delivered core ec
        (imm16 % 2 ^ 16)
        core.regs.pc
        (core.sys.far_el (route el))
        (route el)
        (take core sync (route el) (esr_imm16 ec imm16) 0 false)
unfolding esr_imm16
imm16-Delivered core ec imm16 el small =
    take-Delivered_as core ec ec (bit_and imm16 0xffff) (imm16 % 2 ^ 16) _ 0 false el small refl
      (omega (arith, bit_and_low 16 imm16)) refl

small_iss :
    (log2_size : ℕ) (is_write isv : Bool) (dfsc : ℕ)
    → ((if isv then 2 ^ 24 + log2_size % 4 * 2 ^ 21 + 2 ^ 11 else 0)
          + (if is_write then 2 ^ 6 else 0)
          + dfsc % 64)
        % 2 ^ 25
      ≡ (if isv then 2 ^ 24 + log2_size % 4 * 2 ^ 21 + 2 ^ 11 else 0)
        + (if is_write then 2 ^ 6 else 0)
        + dfsc % 64
small_iss log2_size is_write isv dfsc = ground arith

-- The class of an abort: `lower` from EL0, and from nowhere else.
lower_class :
    (core : Core) (lower same : ℕ)
    → (if ltb (pstate_el core.sys.pstate) (route (pstate_el core.sys.pstate)) then lower else same)
      ≡ (if pstate_el core.sys.pstate == 0 then lower else same)
unfolding route pstate_el
lower_class core lower same = ground (arith, bit_and_low 2 (core.sys.pstate / 4))

-- Every source of a synchronous exception, at every level: the exception is delivered to EL3 from
-- EL3 and to EL1 from below; the handler finds there the class and the syndrome of the source, the
-- return address (behind the instruction for SVC and HVC, the instruction itself otherwise, BRK
-- included), the fault address for the two aborts and an unchanged one otherwise, and runs at its
-- level with all interrupts masked, at the vector for where it came from. PSTATE.SP selects the
-- handler's own stack, the live stack pointer is the one that the guest had in that level's bank, no
-- bank, that of the interrupted code included, has changed as the guest sees it, and the general
-- registers are untouched.
pub raise-Delivered :
    (core : Core) (source : Source)
    → Delivered core
        (class_of (pstate_el core.sys.pstate) source)
        (syndrome_of source)
        (return_address core.regs.pc source)
        (fault_address (core.sys.far_el (route (pstate_el core.sys.pstate))) source)
        (route (pstate_el core.sys.pstate))
        (raise core source)
unfolding raise svc brk smc hvc breakpoint instruction_abort data_abort esr_instruction_abort
    esr_data_abort step_over
raise-Delivered core (by_undefined insn) = undefined-Delivered core insn
raise-Delivered core (by_svc imm16) =
    from_step_over core _ _ _ _ _ _
      (imm16-Delivered (step_over core) 0x15 imm16 (pstate_el core.sys.pstate) (omega arith))
raise-Delivered core (by_brk imm16) =
    imm16-Delivered core 0x3c imm16 (pstate_el core.sys.pstate) (omega arith)
raise-Delivered core (by_smc imm16) = undefined-Delivered core _
raise-Delivered core (by_hvc imm16) =
    from_step_over core _ _ _ _ _ _ (undefined-Delivered (step_over core) _)
raise-Delivered core by_breakpoint =
    take-Delivered core 0x30 (2 ^ 24 + 4) 0 false (pstate_el core.sys.pstate) (omega arith)
raise-Delivered core (by_instruction_abort far) =
    take-Delivered_as core _ _ (bit_and 0x2c 0x3f) 0x2c far far true (pstate_el core.sys.pstate)
      (ground arith) (lower_class core 0x20 0x21) refl refl
raise-Delivered core (by_data_abort far log2_size is_write isv dfsc) =
    take-Delivered_as core _ _ (iss_data_abort log2_size is_write isv dfsc) _ far far true
      (pstate_el core.sys.pstate) (ground arith) (lower_class core 0x24 0x25)
      (ap (λ t. t % 2 ^ 25) (iss_data_abort_lem log2_size is_write isv dfsc)
        ∙ small_iss log2_size is_write isv dfsc)
      refl
