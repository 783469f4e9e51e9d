-- ===== src/Decode/Branch.antt =====
-- src/decode/decode.c: branches, exceptions and the system space.
use oemu.Common.{ℕ, ◌+◌, bit_or, not, ◌&&◌, ◌||◌, ◌==◌, ◌!=◌, if◌then◌else◌}
use oemu.Common.Status.{err_decode, err_unsupported}
use oemu.Common.Word.{◌<<<◌, u64}
use oemu.Regs.{w32, w64}
use oemu.Decode.{
  Opcode, no_operand, imm_operand, reg_operand, Insn, Decoded, decoded, refused, bits, sign_extend,
  is_set, field_rd, field_rn, width_from_sf,
}

-- `pc + ((uint64_t)offset << 2)`
abbrev pub target : ℕ → ℕ → ℕ
target pc offset = u64 (pc + u64 (offset <<< 2))

unfoldable pub decode_uncond_branch_imm : ℕ → ℕ → Insn → Decoded
decode_uncond_branch_imm w pc i = decoded (record i {
  op = if is_set w 31 then Opcode.bl else Opcode.b;
  operand_kind = imm_operand;
  imm = target pc (sign_extend (bits w 0 26) 26);
})

unfoldable pub decode_cond_branch_imm : ℕ → ℕ → Insn → Decoded
decode_cond_branch_imm w pc i =
    if is_set w 24 || is_set w 4
    then refused err_decode
    else decoded (record i {
      op = Opcode.b_cond;
      operand_kind = imm_operand;
      cond = bits w 0 4;
      imm = target pc (sign_extend (bits w 5 19) 19);
    })

unfoldable pub decode_compare_branch : ℕ → ℕ → Insn → Decoded
decode_compare_branch w pc i = decoded (record i {
  width = width_from_sf w;
  rt2 = field_rd w;
  rd = field_rd w;
  operand_kind = imm_operand;
  imm = target pc (sign_extend (bits w 5 19) 19);
  op = if is_set w 24 then Opcode.cbnz else Opcode.cbz;
})

unfoldable pub decode_test_branch : ℕ → ℕ → Insn → Decoded
decode_test_branch w pc i = decoded (record i {
  width = if is_set w 31 then w64 else w32;
  rd = field_rd w;
  rt2 = field_rd w;
  bit_pos = bit_or (bits w 31 1 <<< 5) (bits w 19 5);
  operand_kind = imm_operand;
  imm = target pc (sign_extend (bits w 5 14) 14);
  op = if is_set w 24 then Opcode.tbnz else Opcode.tbz;
})

unfoldable pub decode_exception : ℕ → Insn → Decoded
decode_exception w i =
    let opc = bits w 21 3 in
    let ll = bits w 0 2 in
    let base = record i { operand_kind = imm_operand; uimm = bits w 5 16; imm = bits w 5 16 } in
    if bits w 2 3 != 0
    then refused err_decode
    else if opc == 0 && ll == 1
    then decoded (record base { op = Opcode.svc })
    else if opc == 1 && ll == 0
    then decoded (record base { op = Opcode.brk })
    else if opc == 2 && ll == 0
    then decoded (record base { op = Opcode.hlt })
    else if opc == 0 && ll == 2
    then decoded (record base { op = Opcode.hvc })
    else if opc == 0 && ll == 3
    then decoded (record base { op = Opcode.smc })
    else if opc == 5
    then refused err_unsupported
    else refused err_decode

unfoldable pub decode_hints_and_barriers : ℕ → Insn → Decoded
decode_hints_and_barriers w i =
    let crn = bits w 12 4 in
    let crm = bits w 8 4 in
    let op2 = bits w 5 3 in
    let number = bit_or (crm <<< 3) op2 in
    let hinted = record i { uimm = number; imm = number } in
    if crn == 2
    then (if crm == 0 && op2 == 2
        then decoded (record hinted { op = Opcode.wfe })
        else if crm == 0 && op2 == 3
        then decoded (record hinted { op = Opcode.wfi })
        else decoded (record hinted { op = if number == 0 then Opcode.nop else Opcode.hint }))
    else if crn == 3
    then decoded (record i { uimm = crm; imm = crm; op = Opcode.barrier })
    else if crn == 4
    then decoded
        (record i { operand_kind = imm_operand; uimm = op2; imm = crm; op = Opcode.msr_imm })
    else refused err_unsupported

unfoldable pub decode_system : ℕ → Insn → Decoded
unfolding decode_hints_and_barriers
decode_system w i =
    let op0 = bits w 19 2 in
    let rt = field_rd w in
    if op0 == 0
    then (if rt != 31
        then refused err_decode
        else if is_set w 21
        then refused err_decode
        else decode_hints_and_barriers w i)
    else if op0 == 1
    then decoded (record i {
      sysreg = bits w 5 14;
      rd = rt;
      rt2 = rt;
      operand_kind = no_operand;
      op = Opcode.sys;
    })
    else decoded (record i {
      sysreg = bits w 5 15;
      rd = rt;
      rt2 = rt;
      operand_kind = no_operand;
      op = if is_set w 21 then Opcode.mrs else Opcode.msr;
    })

unfoldable pub decode_uncond_branch_reg : ℕ → Insn → Decoded
decode_uncond_branch_reg w i =
    let opc = bits w 21 4 in
    let op3 = bits w 10 6 in
    let base = record i { rn = field_rn w; operand_kind = reg_operand } in
    if bits w 16 5 != 0x1f || op3 != 0 || bits w 0 5 != 0
    then (if op3 != 0 then refused err_unsupported else refused err_decode)
    else if opc == 0
    then decoded (record base { op = Opcode.br })
    else if opc == 1
    then decoded (record base { op = Opcode.blr })
    else if opc == 2
    then decoded (record base { op = Opcode.ret })
    else if opc == 4
    then decoded (record base { operand_kind = no_operand; op = Opcode.eret })
    else if opc == 5
    then refused err_unsupported
    else refused err_decode

unfoldable pub decode_branch_system : ℕ → ℕ → Insn → Decoded
unfolding decode_uncond_branch_imm decode_cond_branch_imm decode_compare_branch decode_test_branch
    decode_uncond_branch_reg decode_exception decode_system
decode_branch_system w pc i =
    let op0 = bits w 29 3 in
    if op0 == 0 || op0 == 4
    then decode_uncond_branch_imm w pc i
    else if op0 == 2
    then (if is_set w 25 then refused err_decode else decode_cond_branch_imm w pc i)
    else if op0 == 1 || op0 == 5
    then (if not (is_set w 25) then decode_compare_branch w pc i else decode_test_branch w pc i)
    else if op0 == 6
    then (if is_set w 25
        then decode_uncond_branch_reg w i
        else if not (is_set w 24)
        then decode_exception w i
        else decode_system w i)
    else refused err_decode
