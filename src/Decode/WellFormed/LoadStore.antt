-- ===== src/Decode/WellFormed/LoadStore.antt =====
-- src/decode/decode.c: the shape of loads and stores.
use oemu.Common.{
  ℕ, ◌^◌, ◌≤◌, ◌<◌, bit_and, refl, Bool, true, false, ◌==◌, ◌!=◌, not, ◌&&◌, ◌||◌, if◌then◌else◌,
  arith, if_both,
}
use oemu.Common.Word.{◌<<<◌}
use oemu.Common.Status.{MemSize}
use oemu.Regs.{Width, w32, w64}
use oemu.Decode.{Opcode, Insn, Decoded, bits, is_set, insn_reset, to_mem_size, and_then}
use oemu.Decode.Fields.{bits-lt, field_rd-lt, field_rn-lt, field_rm-lt, sign_extend-lt}
use oemu.Decode.WellFormed.{Sound, returns, raises, OperandFits, OpFits, QuadFits}
use oemu.Decode.LoadStore.{
  log_size, is_dword, is_word, classify_load_store, sized, unsigned_operand, unscaled_operand,
  register_operand, decode_ldst_unsigned_imm, decode_ldst_imm_unscaled, decode_ldst_reg_offset,
  decode_vec_dup, decode_ldst_vector, pair_offset, paired, decode_ldst_pair_vector,
  decode_ldst_pair, decode_ldst_literal, decode_ldst_exclusive, decode_load_store,
}

-- A field's size is not a vector's, and its number is at most 3.
to_mem_size-fits : (v : ℕ) (vector : Bool) → QuadFits (to_mem_size v) vector
unfolding to_mem_size QuadFits
to_mem_size-fits v vector = ground arith

log_size-le : (v : ℕ) → log_size (to_mem_size v) ≤ 3
unfolding to_mem_size
log_size-le v = ground arith

-- The step that follows a classification is met with an operation, a signedness and a width.
classify-Sound :
    (w opc : ℕ) (size : MemSize) (i : Insn) (next : Insn → Decoded)
    → ((op : Opcode) (signed : Bool) (width : Width)
        → ((amount pos : ℕ) → OpFits op width amount pos)
        → Sound w (next (record i { op = op; is_signed_load = signed; width = width })))
    → Sound w (and_then (classify_load_store opc size i) next)
unfolding classify_load_store OpFits
classify-Sound w opc size i next met =
    if_both (λ d. Sound w (and_then d next)) (opc == 0)
      (λ _. met Opcode.str i.is_signed_load i.width λ _ _. omega arith)
      λ _.
        if_both (λ d. Sound w (and_then d next)) (opc == 1)
          (λ _. met Opcode.ldr i.is_signed_load i.width λ _ _. omega arith)
          λ _.
            if_both (λ d. Sound w (and_then d next)) (is_dword size)
              (λ _.
                if_both (λ d. Sound w (and_then d next)) (opc == 2)
                  (λ _. met Opcode.hint i.is_signed_load i.width λ _ _. omega arith)
                  λ _. raises refl)
              λ _.
                if_both (λ d. Sound w (and_then d next)) (is_word size && opc == 3)
                  (λ _. raises refl)
                  λ _. met Opcode.ldrs true (if opc == 2 then w64 else w32) λ _ _. omega arith

scaled-lt : (v size : ℕ) → v < 4096 → (v <<< log_size (to_mem_size size)) < 2 ^ 64
unfolding to_mem_size
scaled-lt v size h = ground arith

unsigned_imm-Sound : (w : ℕ) → Sound w (decode_ldst_unsigned_imm w (insn_reset w))
unfolding decode_ldst_unsigned_imm unsigned_operand sized insn_reset OperandFits
unsigned_imm-Sound w =
    classify-Sound w (bits w 22 2) (to_mem_size (bits w 30 2))
      (sized (to_mem_size (bits w 30 2)) (insn_reset w))
      (unsigned_operand w (to_mem_size (bits w 30 2)))
      λ op signed width fits. returns (
        ground (
          arith,
          field_rd-lt w,
          field_rn-lt w,
          fits 0 0,
          to_mem_size-fits (bits w 30 2) false,
          scaled-lt (bits w 10 12) (bits w 30 2) (bits-lt w 10 12),
        ))

imm_unscaled-Sound : (w : ℕ) → Sound w (decode_ldst_imm_unscaled w (insn_reset w))
unfolding decode_ldst_imm_unscaled unscaled_operand sized insn_reset OperandFits
imm_unscaled-Sound w =
    classify-Sound w (bits w 22 2) (to_mem_size (bits w 30 2))
      (sized (to_mem_size (bits w 30 2)) (insn_reset w)) (unscaled_operand w)
      λ op signed width fits. returns (
        ground (
          arith,
          field_rd-lt w,
          field_rn-lt w,
          fits 0 0,
          to_mem_size-fits (bits w 30 2) false,
          sign_extend-lt (bits w 12 9) 9,
        ))

reg_offset-Sound : (w : ℕ) → Sound w (decode_ldst_reg_offset w (insn_reset w))
unfolding decode_ldst_reg_offset register_operand sized insn_reset OperandFits
reg_offset-Sound w =
    if_both (Sound w) (bit_and (bits w 13 3) 2 == 0) (λ _. raises refl)
      λ _.
        classify-Sound w (bits w 22 2) (to_mem_size (bits w 30 2))
          (sized (to_mem_size (bits w 30 2)) (insn_reset w))
          (register_operand w (to_mem_size (bits w 30 2)))
          λ op signed width fits. returns (
            ground (
              arith,
              field_rd-lt w,
              field_rn-lt w,
              field_rm-lt w,
              fits (if is_set w 12 then log_size (to_mem_size (bits w 30 2)) else 0) 0,
              to_mem_size-fits (bits w 30 2) false,
              log_size-le (bits w 30 2),
            ))

pub vec_dup-Sound : (w : ℕ) → Sound w (decode_vec_dup w (insn_reset w))
unfolding decode_vec_dup insn_reset OperandFits OpFits QuadFits
vec_dup-Sound w = returns (ground (arith, field_rd-lt w, field_rn-lt w))

vector-Sound : (w : ℕ) → Sound w (decode_ldst_vector w (insn_reset w))
unfolding decode_ldst_vector insn_reset OperandFits OpFits QuadFits
vector-Sound w =
    if_both (Sound w) (bits w 30 2 != 0 || not (is_set w 23)) (λ _. raises refl)
      λ _.
        if_both (Sound w) (is_set w 24)
          (λ _. returns (ground (arith, field_rd-lt w, field_rn-lt w, bits-lt w 12 10)))
          λ _.
            if_both (Sound w) (bits w 10 2 == 0)
              (λ _.
                returns
                  (ground (arith, field_rd-lt w, field_rn-lt w, sign_extend-lt (bits w 12 9) 9)))
              λ _.
                if_both (Sound w) (bits w 10 2 == 1)
                  (λ _.
                    returns (
                      ground (arith, field_rd-lt w, field_rn-lt w, sign_extend-lt (bits w 12 9) 9)))
                  λ _.
                    if_both (Sound w) (bits w 10 2 == 3)
                      (λ _. returns (
                        ground
                          (arith, field_rd-lt w, field_rn-lt w, sign_extend-lt (bits w 12 9) 9)))
                      λ _. raises refl

pair_vector-Sound : (w : ℕ) → Sound w (decode_ldst_pair_vector w (insn_reset w))
unfolding decode_ldst_pair_vector paired pair_offset insn_reset OperandFits OpFits QuadFits
pair_vector-Sound w =
    if_both (Sound w) (bits w 30 2 == 3) (λ _. raises refl)
      λ _. returns (ground (arith, field_rd-lt w, field_rn-lt w, bits-lt w 10 5))

pair-Sound : (w : ℕ) → Sound w (decode_ldst_pair w (insn_reset w))
unfolding decode_ldst_pair paired pair_offset insn_reset OperandFits OpFits QuadFits
pair-Sound w =
    if_both (Sound w) (bits w 30 2 == 3) (λ _. raises refl)
      λ _.
        if_both (Sound w) (bits w 30 2 == 1)
          (λ _.
            if_both (Sound w) (not (is_set w 22)) (λ _. raises refl)
              λ _. returns (ground (arith, field_rd-lt w, field_rn-lt w, bits-lt w 10 5)))
          λ _.
            if_both (Sound w) (bits w 30 2 == 2)
              (λ _. returns (ground (arith, field_rd-lt w, field_rn-lt w, bits-lt w 10 5)))
              λ _. returns (ground (arith, field_rd-lt w, field_rn-lt w, bits-lt w 10 5))

literal-Sound : (w pc : ℕ) → Sound w (decode_ldst_literal w pc (insn_reset w))
unfolding decode_ldst_literal insn_reset OperandFits OpFits QuadFits
literal-Sound w pc =
    if_both (Sound w) (bits w 30 2 == 3) (λ _. returns (ground arith))
      λ _.
        if_both (Sound w) (bits w 30 2 == 2) (λ _. returns (ground (arith, field_rd-lt w)))
          λ _.
            if_both (Sound w) (bits w 30 2 == 1) (λ _. returns (ground (arith, field_rd-lt w)))
              λ _. returns (ground (arith, field_rd-lt w))

exclusive-Sound : (w : ℕ) → Sound w (decode_ldst_exclusive w (insn_reset w))
unfolding decode_ldst_exclusive sized insn_reset OperandFits OpFits
exclusive-Sound w =
    if_both (Sound w) (is_set w 21) (λ _. raises refl)
      λ _.
        if_both (Sound w) (not (is_set w 23))
          (λ _. returns (
            ground (
              arith,
              field_rd-lt w,
              field_rn-lt w,
              bits-lt w 16 5,
              to_mem_size-fits (bits w 30 2) false,
            )))
          λ _.
            if_both (Sound w) (not (is_set w 15)) (λ _. raises refl)
              λ _. returns (
                ground (
                  arith,
                  field_rd-lt w,
                  field_rn-lt w,
                  bits-lt w 16 5,
                  to_mem_size-fits (bits w 30 2) false,
                ))

pub load_store-Sound : (w pc : ℕ) → Sound w (decode_load_store w pc (insn_reset w))
unfolding decode_load_store
load_store-Sound w pc =
    if_both (Sound w) (is_set w 26)
      (λ _.
        if_both (Sound w) (bits w 28 2 == 3 && bits w 30 2 == 0 && bits w 25 1 == 0)
          (λ _. vector-Sound w)
          λ _.
            if_both (Sound w) (bits w 28 2 == 2 && bits w 25 1 == 0) (λ _. pair_vector-Sound w)
              λ _. raises refl)
      λ _.
        if_both (Sound w) (bits w 28 2 == 0)
          (λ _. if_both (Sound w) (bits w 24 2 != 0) (λ _. raises refl) λ _. exclusive-Sound w)
          λ _.
            if_both (Sound w) (bits w 28 2 == 1)
              (λ _. if_both (Sound w) (is_set w 24) (λ _. raises refl) λ _. literal-Sound w pc)
              λ _.
                if_both (Sound w) (bits w 28 2 == 2) (λ _. pair-Sound w)
                  λ _.
                    if_both (Sound w) (is_set w 24) (λ _. unsigned_imm-Sound w)
                      λ _.
                        if_both (Sound w) (is_set w 21) (λ _. reg_offset-Sound w)
                          λ _. imm_unscaled-Sound w
