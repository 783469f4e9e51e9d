-- ===== src/Exc/Sources.antt =====
-- src/exc/exc.c: exception return, and the instructions and faults that raise an exception.
use oemu.Common.{
  ℕ, ◌+◌, bit_and, bit_or, Bool, true, false, not, ◌||◌, Option, some, ltb, ◌==◌, ◌!=◌,
  if◌then◌else◌,
}
use oemu.Common.Word.{◌<<<◌, u64, complement}
use oemu.Regs.{insn_size, nzcv_mask, set_nzcv}
use oemu.Sysreg.{Core, pstate_m_mask, pstate_il, pstate_el, switch_sp}
use oemu.Exc.{
  sync, ec_svc64, ec_brk64, ec_breakpoint, ec_iabort_lower, ec_iabort_same, ec_dabort_lower,
  ec_dabort_same, esr, esr_undefined, esr_imm16, esr_data_abort, esr_instruction_abort,
  esr_illegal_eret, mode_valid, route, take,
}

-- `oemu_exc_undefined`
unfoldable pub undefined : Core → ℕ → Option Core
undefined core insn =
    take core sync (route (pstate_el core.sys.pstate)) (esr_undefined insn) 0 false

abbrev pub eret_insn : ℕ
eret_insn = 0xd69f03e0

-- The end of `oemu_exc_eret`, where the saved state can be returned to.
unfoldable pub restore : Core → ℕ → ℕ → Core
restore core cur saved =
    let switched = switch_sp core (bit_and saved (complement 64 nzcv_mask)) in
    record switched {
      regs = record (set_nzcv switched.regs (bit_and saved nzcv_mask)) {
        pc = switched.sys.elr_el cur;
      };
    }

-- `oemu_exc_eret`
unfoldable pub eret : Core → Option Core
unfolding undefined restore
eret core =
    let cur = pstate_el core.sys.pstate in
    let saved = core.sys.spsr_el cur in
    let mode = bit_and saved pstate_m_mask in
    if cur == 0
    then undefined core eret_insn
    else if bit_and saved pstate_il != 0
    then take core sync cur esr_illegal_eret 0 false
    else if not (mode_valid mode) || ltb cur (pstate_el mode)
    then take core sync cur (esr_undefined eret_insn) 0 false
    else some (restore core cur saved)

-- `regs->pc += OEMU_INSN_SIZE`
unfoldable pub step_over : Core → Core
step_over core = record core { regs = record core.regs { pc = u64 (core.regs.pc + insn_size) } }

unfoldable pub svc : Core → ℕ → Option Core
unfolding step_over
svc core imm16 =
    take (step_over core) sync (route (pstate_el core.sys.pstate)) (esr_imm16 ec_svc64 imm16) 0
      false

unfoldable pub brk : Core → ℕ → Option Core
brk core imm16 =
    take core sync (route (pstate_el core.sys.pstate)) (esr_imm16 ec_brk64 imm16) 0 false

unfoldable pub smc : Core → ℕ → Option Core
unfolding undefined
smc core imm16 = undefined core (bit_or 0xd4000003 (imm16 <<< 5))

unfoldable pub hvc : Core → ℕ → Option Core
unfolding undefined step_over
hvc core imm16 = undefined (step_over core) (bit_or 0xd4000002 (imm16 <<< 5))

unfoldable pub breakpoint : Core → Option Core
breakpoint core =
    take core sync (route (pstate_el core.sys.pstate)) (esr ec_breakpoint (bit_or (1 <<< 24) 0x04))
      0 false

-- `oemu_exc_instruction_abort`
unfoldable pub instruction_abort : Core → ℕ → Option Core
instruction_abort core far =
    let from = pstate_el core.sys.pstate in
    let target = route from in
    let ec : ℕ = if ltb from target then ec_iabort_lower else ec_iabort_same in
    take core sync target (esr_instruction_abort ec 0x2c) far true

-- `oemu_exc_data_abort`
unfoldable pub data_abort : Core → ℕ → ℕ → Bool → Bool → ℕ → Option Core
data_abort core far log2_size is_write isv dfsc =
    let from = pstate_el core.sys.pstate in
    let target = route from in
    let ec : ℕ = if ltb from target then ec_dabort_lower else ec_dabort_same in
    take core sync target (esr_data_abort ec log2_size is_write isv dfsc) far true
