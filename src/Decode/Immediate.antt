-- ===== src/Decode/Immediate.antt =====
-- src/decode/decode.c: data processing with an immediate.
use oemu.Common.{
  ℕ, ◌+◌, ◌*◌, bit_and, bit_or, Bool, true, false, not, ◌&&◌, ◌||◌, Option, none, some, ltb, leb,
  ◌==◌, ◌!=◌, if◌then◌else◌,
}
use oemu.Common.Status.{err_decode}
use oemu.Common.Word.{◌<<<◌, u64, complement}
use oemu.Regs.{w64}
use oemu.Decode.{
  Opcode, imm_operand, reg_operand, Insn, Decoded, decoded, refused, bits, sign_extend, is_set,
  field_rd, field_rn, field_rm, width_from_sf, addsub_opcode, move_wide_opcode, bitfield_opcode,
  reg_bits, is_w32,
}
use oemu.Decode.Masks.{bit_masks}

unfoldable pub decode_pc_rel_addr : ℕ → ℕ → Insn → Decoded
decode_pc_rel_addr w pc i =
    let offset = sign_extend (bit_or (bits w 5 19 <<< 2) (bits w 29 2)) 21 in
    let base = record i { rd = field_rd w; operand_kind = imm_operand; width = w64 } in
    if is_set w 31
    then decoded (record base {
      op = Opcode.adrp;
      imm = u64 (bit_and pc (complement 64 0xfff) + u64 (offset <<< 12));
    })
    else decoded (record base { op = Opcode.adr; imm = u64 (pc + offset) })

unfoldable pub decode_addsub_imm : ℕ → Insn → Decoded
decode_addsub_imm w i =
    let shift = bits w 22 2 in
    let imm12 = bits w 10 12 in
    let value = if shift != 0 then imm12 <<< 12 else imm12 in
    if ltb 1 shift
    then refused err_decode
    else decoded (record i {
      width = width_from_sf w;
      rd = field_rd w;
      rn = field_rn w;
      operand_kind = imm_operand;
      uimm = value;
      imm = value;
      sets_flags = is_set w 29;
      op = addsub_opcode (is_set w 30) (is_set w 29);
      rn_is_sp_form = true;
      rd_is_sp_form = not (is_set w 29);
    })

-- The operation of a logical immediate, and whether it sets the flags.
unfoldable pub logical_imm_op : ℕ → Opcode × Bool
logical_imm_op opc =
    if opc == 0
    then (Opcode.and, false)
    else if opc == 1
    then (Opcode.orr, false)
    else if opc == 2
    then (Opcode.eor, false)
    else (Opcode.ands, true)

unfoldable pub logical_imm_of : ℕ → Insn → Option ℕ → Decoded
unfolding logical_imm_op
logical_imm_of w i none = refused err_decode
logical_imm_of w i (some wmask) = decoded (record i {
  width = width_from_sf w;
  rd = field_rd w;
  rn = field_rn w;
  operand_kind = imm_operand;
  uimm = wmask;
  imm = wmask;
  op = (logical_imm_op (bits w 29 2)).0;
  sets_flags = (logical_imm_op (bits w 29 2)).1;
  rd_is_sp_form = not (logical_imm_op (bits w 29 2)).1;
})

unfoldable pub decode_logical_imm : ℕ → Insn → Decoded
unfolding logical_imm_of
decode_logical_imm w i =
    logical_imm_of w i (bit_masks (is_set w 22) (bits w 10 6) (bits w 16 6) (width_from_sf w))

unfoldable pub decode_move_wide : ℕ → Insn → Decoded
decode_move_wide w i =
    let hw = bits w 21 2 in
    let opc = bits w 29 2 in
    let value = bits w 5 16 <<< (hw * 16) in
    if is_w32 (width_from_sf w) && ltb 1 hw
    then refused err_decode
    else if opc == 1
    then refused err_decode
    else decoded (record i {
      width = width_from_sf w;
      rd = field_rd w;
      operand_kind = imm_operand;
      shift_amount = hw * 16;
      uimm = value;
      imm = value;
      op = move_wide_opcode opc;
    })

-- N does not track sf.
abbrev pub n_differs : ℕ → Bool
n_differs w = if is_w32 (width_from_sf w) then is_set w 22 else not (is_set w 22)

unfoldable pub decode_bitfield : ℕ → Insn → Decoded
decode_bitfield w i =
    let opc = bits w 29 2 in
    let immr = bits w 16 6 in
    let imms = bits w 10 6 in
    let reg = reg_bits (width_from_sf w) in
    if opc == 3
    then refused err_decode
    else if n_differs w
    then refused err_decode
    else if leb reg immr || leb reg imms
    then refused err_decode
    else decoded (record i {
      width = width_from_sf w;
      rd = field_rd w;
      rn = field_rn w;
      operand_kind = imm_operand;
      uimm = bit_or (immr <<< 8) imms;
      imm = bit_or (immr <<< 8) imms;
      shift_amount = immr;
      bit_pos = imms;
      op = bitfield_opcode opc;
    })

unfoldable pub decode_extract : ℕ → Insn → Decoded
decode_extract w i =
    let imms = bits w 10 6 in
    if bits w 29 2 != 0 || is_set w 21
    then refused err_decode
    else if n_differs w
    then refused err_decode
    else if leb (reg_bits (width_from_sf w)) imms
    then refused err_decode
    else decoded (record i {
      width = width_from_sf w;
      rd = field_rd w;
      rn = field_rn w;
      rm = field_rm w;
      operand_kind = reg_operand;
      shift_amount = imms;
      uimm = imms;
      imm = imms;
      op = Opcode.extr;
    })

unfoldable pub decode_dp_immediate : ℕ → ℕ → Insn → Decoded
unfolding decode_pc_rel_addr decode_addsub_imm decode_logical_imm decode_move_wide decode_bitfield
    decode_extract
decode_dp_immediate w pc i =
    let group = bits w 23 3 in
    if leb group 1
    then decode_pc_rel_addr w pc i
    else if leb group 3
    then decode_addsub_imm w i
    else if group == 4
    then decode_logical_imm w i
    else if group == 5
    then decode_move_wide w i
    else if group == 6
    then decode_bitfield w i
    else decode_extract w i
