-- ===== src/Decode/LoadStore.antt =====
-- src/decode/decode.c: loads and stores.
use oemu.Common.{
  ℕ, ◌*◌, ◌^◌, bit_and, Bool, true, false, not, ◌&&◌, ◌||◌, ◌==◌, ◌!=◌, if◌then◌else◌,
}
use oemu.Common.Status.{MemSize, byte, half, dword, quad, err_decode, err_unsupported}
use oemu.Common.Word.{◌<<<◌, u64}
use oemu.Regs.{w32, w64}
use oemu.Decode.{
  Opcode, no_operand, imm_operand, reg_operand, mem_operand, IndexMode, index_none, index_post,
  index_pre, Insn, Decoded, decoded, refused, and_then, bits, sign_extend, is_set, field_rd,
  field_rn, field_rm, to_extend_type, to_mem_size,
}
use oemu.Decode.Branch.{target}

-- The number of a size: the logarithm of its bytes.
abbrev pub log_size : MemSize → ℕ
log_size byte = 0
log_size half = 1
log_size MemSize.word = 2
log_size dword = 3
log_size quad = 4

abbrev pub is_dword : MemSize → Bool
is_dword dword = true
is_dword _ = false

abbrev pub is_word : MemSize → Bool
is_word MemSize.word = true
is_word _ = false

unfoldable pub classify_load_store : ℕ → MemSize → Insn → Decoded
classify_load_store opc size i =
    if opc == 0
    then decoded (record i { op = Opcode.str })
    else if opc == 1
    then decoded (record i { op = Opcode.ldr })
    else if is_dword size
    then (if opc == 2 then decoded (record i { op = Opcode.hint }) else refused err_decode)
    else if is_word size && opc == 3
    then refused err_decode
    else decoded (record i {
      op = Opcode.ldrs;
      is_signed_load = true;
      width = if opc == 2 then w64 else w32;
    })

-- The size of the access and the width that it gives the register.
unfoldable pub sized : MemSize → Insn → Insn
sized size i = record i { mem_size = size; width = if is_dword size then w64 else w32 }

-- The operand of the unsigned immediates, after the classification.
unfoldable pub unsigned_operand : ℕ → MemSize → Insn → Decoded
unsigned_operand w size c =
    let offset = bits w 10 12 <<< log_size size in
    decoded (record c {
      rd = field_rd w;
      rn = field_rn w;
      rt2 = field_rd w;
      operand_kind = mem_operand;
      index_mode = index_none;
      uimm = offset;
      imm = offset;
      rn_is_sp_form = true;
    })

unfoldable pub decode_ldst_unsigned_imm : ℕ → Insn → Decoded
unfolding classify_load_store sized unsigned_operand
decode_ldst_unsigned_imm w i =
    let size = to_mem_size (bits w 30 2) in
    and_then (classify_load_store (bits w 22 2) size (sized size i)) (unsigned_operand w size)

-- The index mode of the unscaled forms.
unfoldable pub unscaled_mode : ℕ → IndexMode
unscaled_mode form = if form == 1 then index_post else if form == 3 then index_pre else index_none

-- The operand of the unscaled immediates, after the classification.
unfoldable pub unscaled_operand : ℕ → Insn → Decoded
unfolding unscaled_mode
unscaled_operand w c =
    let offset = sign_extend (bits w 12 9) 9 in
    decoded (record c {
      index_mode = unscaled_mode (bits w 10 2);
      rd = field_rd w;
      rn = field_rn w;
      rt2 = field_rd w;
      operand_kind = mem_operand;
      imm = offset;
      uimm = offset;
      rn_is_sp_form = true;
    })

unfoldable pub decode_ldst_imm_unscaled : ℕ → Insn → Decoded
unfolding classify_load_store sized unscaled_operand
decode_ldst_imm_unscaled w i =
    let size = to_mem_size (bits w 30 2) in
    and_then (classify_load_store (bits w 22 2) size (sized size i)) (unscaled_operand w)

-- The operand of the register offsets, after the classification.
unfoldable pub register_operand : ℕ → MemSize → Insn → Decoded
register_operand w size c =
    let option = bits w 13 3 in
    decoded (record c {
      rd = field_rd w;
      rn = field_rn w;
      rm = field_rm w;
      rt2 = field_rd w;
      operand_kind = mem_operand;
      index_mode = index_none;
      extend_type = to_extend_type option;
      shift_amount = if is_set w 12 then log_size size else 0;
      extend_is_lsl = option == 3;
      rn_is_sp_form = true;
    })

unfoldable pub decode_ldst_reg_offset : ℕ → Insn → Decoded
unfolding classify_load_store sized register_operand
decode_ldst_reg_offset w i =
    let size = to_mem_size (bits w 30 2) in
    let option = bits w 13 3 in
    if bit_and option 2 == 0
    then refused err_decode
    else and_then (classify_load_store (bits w 22 2) size (sized size i)) (register_operand w size)

unfoldable pub decode_vec_dup : ℕ → Insn → Decoded
decode_vec_dup w i = decoded (record i {
  op = Opcode.vec_dup;
  rd = field_rd w;
  rm = field_rn w;
  operand_kind = reg_operand;
  is_vector = true;
  mem_size = if is_set w 30 then quad else dword;
})

unfoldable pub decode_ldst_vector : ℕ → Insn → Decoded
decode_ldst_vector w i =
    let form = bits w 10 2 in
    let offset = sign_extend (bits w 12 9) 9 in
    let base = record i {
      op = if is_set w 22 then Opcode.ldr else Opcode.str;
      is_vector = true;
      mem_size = quad;
      rd = field_rd w;
      rn = field_rn w;
      operand_kind = mem_operand;
      rn_is_sp_form = true;
    } in
    if bits w 30 2 != 0 || not (is_set w 23)
    then refused err_unsupported
    else if is_set w 24
    then decoded (record base {
      index_mode = index_none;
      imm = bits w 12 10 <<< 4;
      uimm = bits w 12 10 <<< 4;
    })
    else if form == 0
    then decoded (record base { index_mode = index_none; imm = offset; uimm = offset })
    else if form == 1
    then decoded (record base { index_mode = index_post; imm = offset; uimm = offset })
    else if form == 3
    then decoded (record base { index_mode = index_pre; imm = offset; uimm = offset })
    else refused err_unsupported

-- The index mode of the pair forms.
unfoldable pub pair_mode : ℕ → IndexMode
pair_mode form = if form == 1 then index_post else if form == 3 then index_pre else index_none

-- The offset of a pair, scaled by the transfer size.
unfoldable pub pair_offset : ℕ → MemSize → ℕ
pair_offset w size = u64 (sign_extend (bits w 15 7) 7 * 2 ^ log_size size)

-- The address operand of a pair.
unfoldable pub paired : ℕ → MemSize → Insn → Decoded
unfolding pair_mode pair_offset
paired w size i = decoded (record i {
  mem_size = size;
  index_mode = pair_mode (bits w 23 2);
  rd = field_rd w;
  rn = field_rn w;
  rt2 = bits w 10 5;
  operand_kind = mem_operand;
  imm = pair_offset w size;
  uimm = pair_offset w size;
  rn_is_sp_form = true;
})

unfoldable pub decode_ldst_pair_vector : ℕ → Insn → Decoded
unfolding paired
decode_ldst_pair_vector w i =
    let opc = bits w 30 2 in
    let base = record i { is_vector = true; op = if is_set w 22 then Opcode.ldp else Opcode.stp } in
    if opc == 3
    then refused err_decode
    else paired w (if opc == 0 then MemSize.word else if opc == 1 then dword else quad) base

unfoldable pub decode_ldst_pair : ℕ → Insn → Decoded
unfolding paired
decode_ldst_pair w i =
    let opc = bits w 30 2 in
    let base = record i { op = if is_set w 22 then Opcode.ldp else Opcode.stp } in
    if opc == 3
    then refused err_decode
    else if opc == 1
    then (if not (is_set w 22)
        then refused err_decode
        else paired w MemSize.word
            (record i { op = Opcode.ldpsw; width = w64; is_signed_load = true }))
    else if opc == 2
    then paired w dword (record base { width = w64 })
    else paired w MemSize.word (record base { width = w32 })

unfoldable pub decode_ldst_literal : ℕ → ℕ → Insn → Decoded
decode_ldst_literal w pc i =
    let opc = bits w 30 2 in
    let base = record i {
      rd = field_rd w;
      rt2 = field_rd w;
      operand_kind = imm_operand;
      imm = target pc (sign_extend (bits w 5 19) 19);
    } in
    if opc == 3
    then decoded (record i { op = Opcode.hint; operand_kind = no_operand })
    else if opc == 2
    then decoded (record base {
      op = Opcode.ldrs;
      is_signed_load = true;
      mem_size = MemSize.word;
      width = w64;
    })
    else if opc == 1
    then decoded (record base { op = Opcode.ldr; mem_size = dword; width = w64 })
    else decoded (record base { op = Opcode.ldr; mem_size = MemSize.word; width = w32 })

unfoldable pub decode_ldst_exclusive : ℕ → Insn → Decoded
unfolding sized
decode_ldst_exclusive w i =
    let base = record (sized (to_mem_size (bits w 30 2)) i) {
      rd = field_rd w;
      rn = field_rn w;
      rm = bits w 16 5;
      rt2 = field_rd w;
      operand_kind = mem_operand;
      rn_is_sp_form = true;
    } in
    if is_set w 21
    then refused err_unsupported
    else if not (is_set w 23)
    then decoded (record base { op = if is_set w 22 then Opcode.ldxr else Opcode.stxr })
    else if not (is_set w 15)
    then refused err_decode
    else decoded (record base { op = if is_set w 22 then Opcode.ldar else Opcode.stlr })

unfoldable pub decode_load_store : ℕ → ℕ → Insn → Decoded
unfolding decode_ldst_vector decode_ldst_pair_vector decode_ldst_exclusive decode_ldst_literal
    decode_ldst_pair decode_ldst_unsigned_imm decode_ldst_reg_offset decode_ldst_imm_unscaled
decode_load_store w pc i =
    let op0 = bits w 28 2 in
    if is_set w 26
    then (if op0 == 3 && bits w 30 2 == 0 && bits w 25 1 == 0
        then decode_ldst_vector w i
        else if op0 == 2 && bits w 25 1 == 0
        then decode_ldst_pair_vector w i
        else refused err_unsupported)
    else if op0 == 0
    then (if bits w 24 2 != 0 then refused err_decode else decode_ldst_exclusive w i)
    else if op0 == 1
    then (if is_set w 24 then refused err_decode else decode_ldst_literal w pc i)
    else if op0 == 2
    then decode_ldst_pair w i
    else if is_set w 24
    then decode_ldst_unsigned_imm w i
    else if is_set w 21
    then decode_ldst_reg_offset w i
    else decode_ldst_imm_unscaled w i
