-- ===== src/Decode/Register.antt =====
-- src/decode/decode.c: data processing with registers.
use oemu.Common.{ℕ, bit_and, Bool, true, false, not, ◌&&◌, ◌||◌, leb, ◌==◌, ◌!=◌, if◌then◌else◌}
use oemu.Common.Status.{err_decode}
use oemu.Common.Word.{◌<<<◌}
use oemu.Regs.{w32}
use oemu.Decode.{
  Opcode, OperandKind, no_operand, imm_operand, reg_operand, reg_shifted, reg_extended, Insn,
  Decoded, decoded, refused, bits, is_set, field_rd, field_rn, field_rm, field_ra, width_from_sf,
  to_shift_type, to_extend_type, addsub_opcode, addsub_carry_opcode, is_w32,
}

-- The operation of a logical instruction, and whether it sets the flags.
unfoldable pub logical_shifted_op : ℕ → Bool → Opcode × Bool
logical_shifted_op opc negate =
    if opc == 0
    then (if negate then Opcode.bic else Opcode.and, false)
    else if opc == 1
    then (if negate then Opcode.orn else Opcode.orr, false)
    else if opc == 2
    then (if negate then Opcode.eon else Opcode.eor, false)
    else (if negate then Opcode.bics else Opcode.ands, true)

-- `(amount != 0U) ? OEMU_OPERAND_REG_SHIFTED : OEMU_OPERAND_REG`
unfoldable pub shifted_kind : ℕ → OperandKind
shifted_kind amount = if amount != 0 then reg_shifted else reg_operand

unfoldable pub decode_logical_shifted : ℕ → Insn → Decoded
unfolding logical_shifted_op shifted_kind
decode_logical_shifted w i =
    let amount = bits w 10 6 in
    let op = logical_shifted_op (bits w 29 2) (is_set w 21) in
    if is_w32 (width_from_sf w) && leb 32 amount
    then refused err_decode
    else decoded (record i {
      width = width_from_sf w;
      rd = field_rd w;
      rn = field_rn w;
      rm = field_rm w;
      shift_type = to_shift_type (bits w 22 2);
      shift_amount = amount;
      operand_kind = shifted_kind amount;
      op = op.0;
      sets_flags = op.1;
    })

unfoldable pub decode_addsub_shifted : ℕ → Insn → Decoded
unfolding shifted_kind
decode_addsub_shifted w i =
    let shift = bits w 22 2 in
    let amount = bits w 10 6 in
    if shift == 3
    then refused err_decode
    else if is_w32 (width_from_sf w) && leb 32 amount
    then refused err_decode
    else decoded (record i {
      width = width_from_sf w;
      rd = field_rd w;
      rn = field_rn w;
      rm = field_rm w;
      shift_type = to_shift_type shift;
      shift_amount = amount;
      operand_kind = shifted_kind amount;
      sets_flags = is_set w 29;
      op = addsub_opcode (is_set w 30) (is_set w 29);
    })

-- `oemu_decode_internal_extend_amount_valid`
unfoldable pub extend_amount_valid : ℕ → Bool
extend_amount_valid amount = leb amount 4

unfoldable pub decode_addsub_extended : ℕ → Insn → Decoded
unfolding extend_amount_valid
decode_addsub_extended w i =
    let amount = bits w 10 3 in
    if bits w 22 2 != 0
    then refused err_decode
    else if not (extend_amount_valid amount)
    then refused err_decode
    else decoded (record i {
      width = width_from_sf w;
      rd = field_rd w;
      rn = field_rn w;
      rm = field_rm w;
      extend_type = to_extend_type (bits w 13 3);
      shift_amount = amount;
      operand_kind = reg_extended;
      sets_flags = is_set w 29;
      op = addsub_opcode (is_set w 30) (is_set w 29);
      rn_is_sp_form = true;
      rd_is_sp_form = not (is_set w 29);
    })

unfoldable pub decode_addsub_carry : ℕ → Insn → Decoded
decode_addsub_carry w i =
    if bits w 10 6 != 0
    then refused err_decode
    else decoded (record i {
      width = width_from_sf w;
      rd = field_rd w;
      rn = field_rn w;
      rm = field_rm w;
      operand_kind = reg_operand;
      sets_flags = is_set w 29;
      op = addsub_carry_opcode (is_set w 30) (is_set w 29);
    })

unfoldable pub decode_cond_compare : ℕ → Insn → Decoded
decode_cond_compare w i =
    let base = record i {
      width = width_from_sf w;
      rn = field_rn w;
      cond = bits w 12 4;
      uimm = bits w 0 4;
      sets_flags = true;
      op = if is_set w 30 then Opcode.ccmp else Opcode.ccmn;
    } in
    if not (is_set w 29) || is_set w 10 || is_set w 4
    then refused err_decode
    else if is_set w 11
    then decoded (record base { operand_kind = imm_operand; imm = bits w 16 5 })
    else decoded (record base { operand_kind = reg_operand; rm = field_rm w })

unfoldable pub cond_select_op : Bool → Bool → Opcode
cond_select_op false false = Opcode.csel
cond_select_op false true = Opcode.csinc
cond_select_op true false = Opcode.csinv
cond_select_op true true = Opcode.csneg

unfoldable pub decode_cond_select : ℕ → Insn → Decoded
unfolding cond_select_op
decode_cond_select w i =
    if is_set w 29 || is_set w 11
    then refused err_decode
    else decoded (record i {
      width = width_from_sf w;
      rd = field_rd w;
      rn = field_rn w;
      rm = field_rm w;
      cond = bits w 12 4;
      operand_kind = reg_operand;
      op = cond_select_op (is_set w 30) (is_set w 10);
    })

unfoldable pub decode_dp_1source : ℕ → Insn → Decoded
decode_dp_1source w i =
    let opcode = bits w 10 6 in
    let narrow = is_w32 (width_from_sf w) in
    let base = record i {
      width = width_from_sf w;
      rd = field_rd w;
      rn = field_rn w;
      operand_kind = no_operand;
    } in
    if is_set w 29 || bits w 16 5 != 0
    then refused err_decode
    else if opcode == 0
    then decoded (record base { op = Opcode.rbit })
    else if opcode == 1
    then decoded (record base { op = Opcode.rev16 })
    else if opcode == 2
    then decoded (record base { op = if narrow then Opcode.rev else Opcode.rev32 })
    else if opcode == 3
    then (if narrow then refused err_decode else decoded (record base { op = Opcode.rev }))
    else if opcode == 4
    then decoded (record base { op = Opcode.clz })
    else if opcode == 5
    then decoded (record base { op = Opcode.cls })
    else refused err_decode

unfoldable pub decode_dp_2source : ℕ → Insn → Decoded
decode_dp_2source w i =
    let opcode = bits w 10 6 in
    let base = record i {
      width = width_from_sf w;
      rd = field_rd w;
      rn = field_rn w;
      rm = field_rm w;
      operand_kind = reg_operand;
    } in
    if is_set w 29
    then refused err_decode
    else if opcode == 0x02
    then decoded (record base { op = Opcode.udiv })
    else if opcode == 0x03
    then decoded (record base { op = Opcode.sdiv })
    else if opcode == 0x08
    then decoded (record base { op = Opcode.lslv })
    else if opcode == 0x09
    then decoded (record base { op = Opcode.lsrv })
    else if opcode == 0x0a
    then decoded (record base { op = Opcode.asrv })
    else if opcode == 0x0b
    then decoded (record base { op = Opcode.rorv })
    else if leb 0x10 opcode && leb opcode 0x17
    then decoded (record base {
      op = if leb 0x14 opcode then Opcode.crc32c else Opcode.crc32;
      uimm = 1 <<< bit_and opcode 3;
      width = w32;
    })
    else refused err_decode

unfoldable pub decode_dp_3source : ℕ → Insn → Decoded
decode_dp_3source w i =
    let op31 = bits w 21 3 in
    let o0 = is_set w 15 in
    let base = record i {
      width = width_from_sf w;
      rd = field_rd w;
      rn = field_rn w;
      rm = field_rm w;
      ra = field_ra w;
      operand_kind = reg_operand;
    } in
    if bits w 29 2 != 0
    then refused err_decode
    else if op31 == 0
    then decoded (record base { op = if o0 then Opcode.msub else Opcode.madd })
    else if is_w32 (width_from_sf w)
    then refused err_decode
    else if op31 == 1
    then decoded (record base { op = if o0 then Opcode.smsubl else Opcode.smaddl })
    else if op31 == 2
    then (if o0 then refused err_decode else decoded (record base { op = Opcode.smulh }))
    else if op31 == 5
    then decoded (record base { op = if o0 then Opcode.umsubl else Opcode.umaddl })
    else if op31 == 6
    then (if o0 then refused err_decode else decoded (record base { op = Opcode.umulh }))
    else refused err_decode

unfoldable pub decode_dp_register : ℕ → Insn → Decoded
unfolding decode_logical_shifted decode_addsub_extended decode_addsub_shifted decode_addsub_carry
    decode_cond_compare decode_cond_select decode_dp_1source decode_dp_2source decode_dp_3source
decode_dp_register w i =
    let op2 = bits w 21 4 in
    if not (is_set w 28)
    then (if bit_and op2 8 == 0
        then decode_logical_shifted w i
        else if bit_and op2 1 != 0
        then decode_addsub_extended w i
        else decode_addsub_shifted w i)
    else if op2 == 0
    then decode_addsub_carry w i
    else if op2 == 2
    then decode_cond_compare w i
    else if op2 == 4
    then decode_cond_select w i
    else if op2 == 6
    then (if is_set w 30 then decode_dp_1source w i else decode_dp_2source w i)
    else if bit_and op2 8 != 0
    then decode_dp_3source w i
    else refused err_decode
