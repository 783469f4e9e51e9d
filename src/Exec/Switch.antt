-- ===== src/Exec/Switch.antt =====
-- src/exec/exec.c: the switch over the operations.
use oemu.Common.{
  ℕ, ◌+◌, bit_and, Bool, true, false, not, Option, none, some, ◌==◌, ◌!=◌, if◌then◌else◌,
}
use oemu.Common.Status.{Status, ok, err_invalid_arg, err_unsupported, err_fault}
use oemu.Common.Word.{◌>>>◌, u32, u64, complement}
use oemu.Regs.{w64, insn_size, cond_holds, advance_pc, set_pc, set_sp}
use oemu.Exec.{umulh, smulh, clz, cls, rbit, rev, rev16, rev32}
use oemu.Exec.Cpu.{Cpu, read_g, write_g, set_flags, set_vector}
use oemu.Exec.Alu.{
  add_sub, add_sub_carry, logical, movk, extract, shift_variable, unary, divide, multiply_add,
  multiply_add_long, high_product, do_csel, do_ccmp,
}
use oemu.Exec.Bitfield.{do_bitfield, checksum}
use oemu.Decode.{Opcode, Insn}

-- SYSREG_MASK and the selectors of the user's registers
abbrev pub sysreg_mask : ℕ
sysreg_mask = 0x3fff

abbrev pub sysreg_current_el : ℕ
sysreg_current_el = 0x212

abbrev pub sysreg_sp_el0 : ℕ
sysreg_sp_el0 = 0x208

abbrev pub sysreg_nzcv : ℕ
sysreg_nzcv = 0x1a10

abbrev pub sysreg_tpidrro_el0 : ℕ
sysreg_tpidrro_el0 = 0x1e83

abbrev pub sysreg_tpidrur_el0 : ℕ
sysreg_tpidrur_el0 = 0x1e87

-- The value of a register of the user's, of `do_mrs` without a table.
unfoldable pub user_register : Cpu → ℕ → Option ℕ
user_register cpu sel =
    if sel == sysreg_current_el
    then some 0
    else if sel == sysreg_sp_el0
    then some cpu.regs.sp
    else if sel == sysreg_nzcv
    then some cpu.regs.nzcv
    else if sel == sysreg_tpidrur_el0
    then some cpu.tpidrur_el0
    else if sel == sysreg_tpidrro_el0
    then some 0
    else none

abbrev pub mrs_of : Cpu → Insn → Option ℕ → Status × Cpu
mrs_of cpu i none = (err_unsupported, cpu)
mrs_of cpu i (some value) = (ok, write_g cpu i.rd false w64 value)

unfoldable pub do_mrs : Cpu → Insn → Status × Cpu
unfolding user_register write_g
do_mrs cpu i = mrs_of cpu i (user_register cpu (bit_and i.sysreg sysreg_mask))

-- `do_msr` without a table
unfoldable pub do_msr : Cpu → Insn → Status × Cpu
unfolding read_g set_flags set_sp
do_msr cpu i =
    let sel = bit_and i.sysreg sysreg_mask in
    let value = read_g cpu i.rd false w64 in
    if sel == sysreg_sp_el0
    then (ok, record cpu { regs = set_sp cpu.regs value })
    else if sel == sysreg_nzcv
    then (ok, set_flags cpu (u32 value))
    else if sel == sysreg_tpidrur_el0
    then (ok, record cpu { tpidrur_el0 = value })
    else (err_unsupported, cpu)

-- The end of an instruction that does not branch.
unfoldable pub advance : Cpu → Cpu
unfolding advance_pc
advance cpu = record cpu { regs = advance_pc cpu.regs }

-- The end of an instruction that may branch, and may keep the address of the next one in x30.
unfoldable pub branch : Bool → Bool → ℕ → Cpu → Cpu
unfolding advance write_g set_pc
branch take link target cpu =
    let linked = if link then write_g cpu 30 false w64 (u64 (cpu.regs.pc + insn_size)) else cpu in
    if take then record linked { regs = set_pc linked.regs target } else advance cpu

-- The ways of an access.
pub data AccessKind : Type 0 where
  single pair exclusive single_vector pair_vector : AccessKind

-- The instructions that decide their own status.
pub data Decision : Type 0 where
  by_bitfield by_mrs by_msr : Decision

-- What an operation does: it changes registers and falls through, it ends with a branch, it decides
-- its own status, it accesses memory (the vector registers on a bit of the instruction), it calls
-- the environment, or it stops the step.
pub data Effect : Type 0 where
  retires jumps : (Insn → Cpu → Cpu) → Effect
  decides : Decision → Effect
  accesses : AccessKind → Effect
  accesses_either : AccessKind → AccessKind → Effect
  calls : Effect
  stops : Status → Effect

-- The switch, by the operation.
unfoldable pub effect_of : Opcode → Effect
unfolding add_sub add_sub_carry logical movk extract shift_variable unary divide multiply_add
    multiply_add_long high_product do_csel do_ccmp checksum branch cond_holds read_g write_g umulh
    smulh clz cls rbit rev rev16 rev32
effect_of Opcode.unknown = stops err_invalid_arg
effect_of Opcode.add = retires λ i cpu. add_sub false cpu i
effect_of Opcode.adds = retires λ i cpu. add_sub false cpu i
effect_of Opcode.sub = retires λ i cpu. add_sub true cpu i
effect_of Opcode.subs = retires λ i cpu. add_sub true cpu i
effect_of Opcode.adc = retires λ i cpu. add_sub_carry false false cpu i
effect_of Opcode.adcs = retires λ i cpu. add_sub_carry false true cpu i
effect_of Opcode.sbc = retires λ i cpu. add_sub_carry true false cpu i
effect_of Opcode.sbcs = retires λ i cpu. add_sub_carry true true cpu i
effect_of Opcode.and = retires λ i cpu. logical cpu i
effect_of Opcode.ands = retires λ i cpu. logical cpu i
effect_of Opcode.orr = retires λ i cpu. logical cpu i
effect_of Opcode.eor = retires λ i cpu. logical cpu i
effect_of Opcode.bic = retires λ i cpu. logical cpu i
effect_of Opcode.bics = retires λ i cpu. logical cpu i
effect_of Opcode.orn = retires λ i cpu. logical cpu i
effect_of Opcode.eon = retires λ i cpu. logical cpu i
effect_of Opcode.movz = retires λ i cpu. write_g cpu i.rd false i.width i.uimm
effect_of Opcode.movn = retires λ i cpu. write_g cpu i.rd false i.width (complement 64 i.uimm)
effect_of Opcode.movk = retires λ i cpu. movk cpu i
effect_of Opcode.adr = retires λ i cpu. write_g cpu i.rd false i.width i.imm
effect_of Opcode.adrp = retires λ i cpu. write_g cpu i.rd false i.width i.imm
effect_of Opcode.sbfm = decides by_bitfield
effect_of Opcode.bfm = decides by_bitfield
effect_of Opcode.ubfm = decides by_bitfield
effect_of Opcode.extr = retires λ i cpu. extract cpu i
effect_of Opcode.lslv = retires λ i cpu. shift_variable cpu i
effect_of Opcode.lsrv = retires λ i cpu. shift_variable cpu i
effect_of Opcode.asrv = retires λ i cpu. shift_variable cpu i
effect_of Opcode.rorv = retires λ i cpu. shift_variable cpu i
effect_of Opcode.crc32 = retires λ i cpu. checksum false cpu i
effect_of Opcode.crc32c = retires λ i cpu. checksum true cpu i
effect_of Opcode.rbit = retires λ i cpu. unary rbit cpu i
effect_of Opcode.rev16 = retires λ i cpu. unary rev16 cpu i
effect_of Opcode.rev32 = retires λ i cpu. unary (λ value _. rev32 value) cpu i
effect_of Opcode.rev = retires λ i cpu. unary rev cpu i
effect_of Opcode.clz = retires λ i cpu. unary clz cpu i
effect_of Opcode.cls = retires λ i cpu. unary cls cpu i
effect_of Opcode.udiv = retires λ i cpu. divide false cpu i
effect_of Opcode.sdiv = retires λ i cpu. divide true cpu i
effect_of Opcode.madd = retires λ i cpu. multiply_add false cpu i
effect_of Opcode.msub = retires λ i cpu. multiply_add true cpu i
effect_of Opcode.smaddl = retires λ i cpu. multiply_add_long true false cpu i
effect_of Opcode.smsubl = retires λ i cpu. multiply_add_long true true cpu i
effect_of Opcode.umaddl = retires λ i cpu. multiply_add_long false false cpu i
effect_of Opcode.umsubl = retires λ i cpu. multiply_add_long false true cpu i
effect_of Opcode.smulh = retires λ i cpu. high_product smulh cpu i
effect_of Opcode.umulh = retires λ i cpu. high_product umulh cpu i
effect_of Opcode.csel = retires λ i cpu. do_csel cpu i
effect_of Opcode.csinc = retires λ i cpu. do_csel cpu i
effect_of Opcode.csinv = retires λ i cpu. do_csel cpu i
effect_of Opcode.csneg = retires λ i cpu. do_csel cpu i
effect_of Opcode.ccmp = retires λ i cpu. do_ccmp cpu i
effect_of Opcode.ccmn = retires λ i cpu. do_ccmp cpu i
effect_of Opcode.b = jumps λ i cpu. branch true false i.imm cpu
effect_of Opcode.bl = jumps λ i cpu. branch true true i.imm cpu
effect_of Opcode.b_cond = jumps λ i cpu. branch (cond_holds cpu.regs.nzcv i.cond) false i.imm cpu
effect_of Opcode.br = jumps λ i cpu. branch true false (read_g cpu i.rn false w64) cpu
effect_of Opcode.blr = jumps λ i cpu. branch true true (read_g cpu i.rn false w64) cpu
effect_of Opcode.ret = jumps λ i cpu. branch true false (read_g cpu i.rn false w64) cpu
effect_of Opcode.cbz = jumps λ i cpu. branch (read_g cpu i.rd false i.width == 0) false i.imm cpu
effect_of Opcode.cbnz =
    jumps λ i cpu. branch (not (read_g cpu i.rd false i.width == 0)) false i.imm cpu
effect_of Opcode.tbz = jumps λ i cpu.
    branch (not (bit_and (read_g cpu i.rd false i.width >>> i.bit_pos) 1 != 0)) false i.imm cpu
effect_of Opcode.tbnz =
    jumps
      λ i cpu. branch (bit_and (read_g cpu i.rd false i.width >>> i.bit_pos) 1 != 0) false i.imm cpu
effect_of Opcode.ldr = accesses_either single_vector single
effect_of Opcode.str = accesses_either single_vector single
effect_of Opcode.ldrs = accesses single
effect_of Opcode.ldar = accesses single
effect_of Opcode.stlr = accesses single
effect_of Opcode.ldp = accesses_either pair_vector pair
effect_of Opcode.stp = accesses_either pair_vector pair
effect_of Opcode.ldpsw = accesses pair
effect_of Opcode.ldxr = accesses exclusive
effect_of Opcode.stxr = accesses exclusive
effect_of Opcode.svc = calls
effect_of Opcode.hvc = stops err_unsupported
effect_of Opcode.smc = stops err_unsupported
effect_of Opcode.eret = stops err_unsupported
effect_of Opcode.sys = stops err_unsupported
effect_of Opcode.brk = stops err_fault
effect_of Opcode.hlt = stops err_fault
effect_of Opcode.vec_dup = retires λ i cpu. set_vector cpu i.rd (read_g cpu i.rm false w64) 0
effect_of Opcode.nop = retires λ i cpu. cpu
effect_of Opcode.hint = retires λ i cpu. cpu
effect_of Opcode.wfi = retires λ i cpu. cpu
effect_of Opcode.wfe = retires λ i cpu. cpu
effect_of Opcode.barrier = retires λ i cpu. cpu
effect_of Opcode.mrs = decides by_mrs
effect_of Opcode.msr = decides by_msr
effect_of Opcode.msr_imm = decides by_msr

unfoldable pub decide : Decision → Cpu → Insn → Status × Cpu
unfolding do_bitfield do_mrs do_msr
decide by_bitfield cpu i = do_bitfield cpu i
decide by_mrs cpu i = do_mrs cpu i
decide by_msr cpu i = do_msr cpu i
