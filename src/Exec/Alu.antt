-- ===== src/Exec/Alu.antt =====
-- src/exec/exec.c: the instructions that change registers and flags only.
use oemu.Common.{
  ℕ, ◌+◌, ◌-◌, ◌*◌, ◌/◌, ◌%◌, ◌^◌, bit_and, bit_or, bit_xor, Bool, true, false, not, ◌&&◌, ◌||◌,
  leb, ◌==◌, ◌!=◌, if◌then◌else◌,
}
use oemu.Common.Status.{Status, ok, err_decode}
use oemu.Common.Word.{◌>>>◌, ◌<<<◌, u32, u64, complement, any_set}
use oemu.Regs.{Width, w32, w64, bits, nzcv_c, add_with_carry, cond_holds}
use oemu.Exec.{
  Shift, lsl, lsr, asr, ror, ShiftResult, width_mask, shift_operand, extend_operand, nz, sign_cast,
}
use oemu.Exec.Cpu.{Cpu, read_g, write_g, set_flags}
use oemu.Decode.{
  Opcode, OperandKind, no_operand, imm_operand, reg_operand, reg_shifted, reg_extended, mem_operand,
  Insn,
}

-- What `shifted` and `m` hold before the second operand is read.
abbrev pub unshifted : ShiftResult
unshifted = record { value = 0; carry_valid = false; carry = false }

-- `operand2`, by the kind: its status, the operand and the shifter's result.
unfoldable pub operand_by : OperandKind → Cpu → Insn → Status × ℕ × ShiftResult
unfolding read_g shift_operand extend_operand
operand_by imm_operand cpu i = (ok, i.uimm, unshifted)
operand_by reg_operand cpu i = (ok, read_g cpu i.rm false i.width, unshifted)
operand_by reg_shifted cpu i =
    let shifted =
      shift_operand (read_g cpu i.rm false i.width) i.shift_type i.shift_amount i.width in
    (ok, shifted.value, shifted)
operand_by reg_extended cpu i =
    (ok, extend_operand (read_g cpu i.rm false w64) i.extend_type i.shift_amount, unshifted)
operand_by no_operand cpu i = (err_decode, 0, unshifted)
operand_by mem_operand cpu i = (err_decode, 0, unshifted)

unfoldable pub operand2 : Cpu → Insn → Status × ℕ × ShiftResult
unfolding operand_by
operand2 cpu i = operand_by i.operand_kind cpu i

unfoldable pub add_sub : Bool → Cpu → Insn → Cpu
unfolding operand2 read_g write_g set_flags add_with_carry
add_sub minus cpu i =
    let m = (operand2 cpu i).1 in
    let n = read_g cpu i.rn i.rn_is_sp_form i.width in
    let r = add_with_carry n (if minus then complement 64 m else m) minus i.width in
    let written = write_g cpu i.rd i.rd_is_sp_form i.width r.value in
    if i.sets_flags then set_flags written r.nzcv else written

-- ADC, ADCS, SBC and SBCS
unfoldable pub add_sub_carry : Bool → Bool → Cpu → Insn → Cpu
unfolding read_g write_g set_flags add_with_carry
add_sub_carry minus flags cpu i =
    let m = read_g cpu i.rm false i.width in
    let n = read_g cpu i.rn false i.width in
    let c = any_set cpu.regs.nzcv nzcv_c in
    let r = add_with_carry n (if minus then complement 64 m else m) c i.width in
    let written = write_g cpu i.rd false i.width r.value in
    if flags then set_flags written r.nzcv else written

-- `logical_flags`: whether the carry is known, and the carry.
unfoldable pub logical_carry : OperandKind → Insn → ShiftResult → Bool × Bool
logical_carry reg_shifted i shifted = (shifted.carry_valid, shifted.carry)
logical_carry imm_operand i shifted = (true, i.uimm == width_mask i.width)
logical_carry _ i shifted = (false, false)

unfoldable pub logical_flags : ℕ → ℕ → Insn → ShiftResult → ℕ
unfolding nz logical_carry
logical_flags old_nzcv result i shifted =
    let known = logical_carry i.operand_kind i shifted in
    if known.0
    then bit_or (nz result i.width) (if known.1 then nzcv_c else 0)
    else bit_or (nz result i.width) (bit_and old_nzcv nzcv_c)

-- BIC, BICS, ORN and EON
abbrev pub negated : Opcode → Bool
negated Opcode.bic = true
negated Opcode.bics = true
negated Opcode.orn = true
negated Opcode.eon = true
negated _ = false

unfoldable pub logical_result : Opcode → ℕ → ℕ → ℕ
logical_result Opcode.and n m = bit_and n m
logical_result Opcode.ands n m = bit_and n m
logical_result Opcode.bic n m = bit_and n m
logical_result Opcode.bics n m = bit_and n m
logical_result Opcode.orr n m = bit_or n m
logical_result Opcode.orn n m = bit_or n m
logical_result _ n m = bit_xor n m

-- ANDS and BICS
abbrev pub sets_logical_flags : Opcode → Bool
sets_logical_flags Opcode.ands = true
sets_logical_flags Opcode.bics = true
sets_logical_flags _ = false

unfoldable pub logical : Cpu → Insn → Cpu
unfolding operand2 read_g write_g set_flags logical_flags logical_result
logical cpu i =
    let second = operand2 cpu i in
    let m = if negated i.op then complement 64 second.1 else second.1 in
    let result = logical_result i.op (read_g cpu i.rn false i.width) m in
    let written = write_g cpu i.rd false i.width result in
    if sets_logical_flags i.op
    then set_flags written (logical_flags written.regs.nzcv result i second.2)
    else written

unfoldable pub movk : Cpu → Insn → Cpu
unfolding read_g write_g
movk cpu i =
    let old = read_g cpu i.rd false i.width in
    let mask = u64 (0xffff <<< i.shift_amount) in
    write_g cpu i.rd false i.width (bit_or (bit_and old (complement 64 mask)) (bit_and i.uimm mask))

unfoldable pub extract : Cpu → Insn → Cpu
unfolding read_g write_g
extract cpu i =
    let low = read_g cpu i.rm false i.width in
    let high = read_g cpu i.rn false i.width in
    let concat_hi =
      if i.shift_amount == bits i.width
      then high
      else u64 (high <<< (bits i.width - i.shift_amount)) in
    write_g cpu i.rd false i.width
      (if i.shift_amount == 0 then low else bit_or (low >>> i.shift_amount) concat_hi)

abbrev pub variable_shift : Opcode → Shift
variable_shift Opcode.lslv = lsl
variable_shift Opcode.lsrv = lsr
variable_shift Opcode.asrv = asr
variable_shift _ = ror

-- LSLV, LSRV, ASRV and RORV
unfoldable pub shift_variable : Cpu → Insn → Cpu
unfolding read_g write_g shift_operand
shift_variable cpu i =
    let src = read_g cpu i.rn false i.width in
    let amount = bit_and (read_g cpu i.rm false i.width) (bits i.width - 1) in
    write_g cpu i.rd false i.width (
      if amount == 0
      then bit_and src (width_mask i.width)
      else (shift_operand src (variable_shift i.op) amount i.width).value)

-- The unary operations on a register.
unfoldable pub unary : (ℕ → Width → ℕ) → Cpu → Insn → Cpu
unfolding read_g write_g
unary f cpu i = write_g cpu i.rd false i.width (f (read_g cpu i.rn false i.width) i.width)

-- A signed quotient of w-bit words, towards zero.
unfoldable pub signed_quotient : ℕ → ℕ → ℕ → ℕ
signed_quotient w n d =
    let n_neg = leb (2 ^ (w - 1)) n in
    let d_neg = leb (2 ^ (w - 1)) d in
    let q = (if n_neg then 2 ^ w - n else n) / (if d_neg then 2 ^ w - d else d) in
    if n_neg && d_neg then q % 2 ^ w else if n_neg || d_neg then (2 ^ w - q) % 2 ^ w else q

-- The quotients of UDIV and SDIV.
unfoldable pub quotient : Bool → Width → ℕ → ℕ → ℕ
unfolding signed_quotient
quotient false w32 n d = u32 n / u32 d
quotient false w64 n d = n / d
quotient true w32 n d =
    if u32 n == 2 ^ 31 && u32 d == 2 ^ 32 - 1 then 2 ^ 31 else signed_quotient 32 (u32 n) (u32 d)
quotient true w64 n d = if n == 2 ^ 63 && d == 2 ^ 64 - 1 then 2 ^ 63 else signed_quotient 64 n d

unfoldable pub divide : Bool → Cpu → Insn → Cpu
unfolding read_g write_g quotient
divide signed cpu i =
    let d = read_g cpu i.rm false i.width in
    let n = read_g cpu i.rn false i.width in
    write_g cpu i.rd false i.width (if d != 0 then quotient signed i.width n d else 0)

-- A 64-bit sum or difference.
abbrev pub accumulate : Bool → ℕ → ℕ → ℕ
accumulate minus acc prod = if minus then u64 (acc + (2 ^ 64 - prod)) else u64 (acc + prod)

-- MADD and MSUB
unfoldable pub multiply_add : Bool → Cpu → Insn → Cpu
unfolding read_g write_g
multiply_add minus cpu i =
    let prod = u64 (read_g cpu i.rn false i.width * read_g cpu i.rm false i.width) in
    write_g cpu i.rd false i.width (accumulate minus (read_g cpu i.ra false i.width) prod)

-- SMADDL, SMSUBL, UMADDL and UMSUBL; a signed product is its two's complement word.
unfoldable pub multiply_add_long : Bool → Bool → Cpu → Insn → Cpu
unfolding read_g write_g
multiply_add_long signed minus cpu i =
    let n = read_g cpu i.rn false w32 in
    let m = read_g cpu i.rm false w32 in
    let prod =
      if signed
      then u64 (sign_cast 32 n * sign_cast 32 m)
      else u64 (bit_and n 0xffffffff * bit_and m 0xffffffff) in
    write_g cpu i.rd false w64 (accumulate minus (read_g cpu i.ra false w64) prod)

unfoldable pub high_product : (ℕ → ℕ → ℕ) → Cpu → Insn → Cpu
unfolding read_g write_g
high_product f cpu i =
    write_g cpu i.rd false w64 (f (read_g cpu i.rn false w64) (read_g cpu i.rm false w64))

-- What a conditional select gives where the condition fails.
unfoldable pub otherwise : Opcode → ℕ → ℕ
otherwise Opcode.csinc b = u64 (b + 1)
otherwise Opcode.csinv b = complement 64 b
otherwise Opcode.csneg b = u64 (2 ^ 64 - b)
otherwise _ b = b

unfoldable pub do_csel : Cpu → Insn → Cpu
unfolding read_g write_g otherwise cond_holds
do_csel cpu i =
    let a = read_g cpu i.rn false i.width in
    let b = read_g cpu i.rm false i.width in
    write_g cpu i.rd false i.width (if cond_holds cpu.regs.nzcv i.cond then a else otherwise i.op b)

abbrev pub is_imm : OperandKind → Bool
is_imm imm_operand = true
is_imm _ = false

abbrev pub is_ccmp : Opcode → Bool
is_ccmp Opcode.ccmp = true
is_ccmp _ = false

unfoldable pub do_ccmp : Cpu → Insn → Cpu
unfolding read_g set_flags add_with_carry cond_holds
do_ccmp cpu i =
    let n = read_g cpu i.rn false i.width in
    let m = if is_imm i.operand_kind then i.imm else read_g cpu i.rm false i.width in
    let r =
      if is_ccmp i.op
      then add_with_carry n (complement 64 m) true i.width
      else add_with_carry n m false i.width in
    if not (cond_holds cpu.regs.nzcv i.cond)
    then set_flags cpu (u32 (i.uimm <<< 28))
    else set_flags cpu r.nzcv
