-- ===== src/Decode/WellFormed/Immediate.antt =====
-- src/decode/decode.c: the shape of the instructions with an immediate.
use oemu.Common.{
  ℕ, zero, suc, ◌*◌, ◌^◌, ◌<◌, ◌≡◌, refl, Bool, true, false, leb, ltb, ◌==◌, ◌!=◌, ◌&&◌, ◌||◌,
  arith, if_both, Option, none, some,
}
use oemu.Common.Word.{◌<<<◌}
use oemu.Common.Bits.Bounds.{bit_or-lt}
use oemu.Regs.{Width, w32, w64}
use oemu.Decode.{
  reg_bits, bits, width_from_sf, is_set, addsub_opcode, insn_reset, move_wide_opcode,
  bitfield_opcode, is_w32,
}
use oemu.Decode.Fields.{bits-lt, field_rd-lt, field_rn-lt, field_rm-lt}
use oemu.Decode.Masks.Bounds.{bit_masks-lt}
use oemu.Decode.Immediate.{
  decode_addsub_imm, decode_bitfield, decode_pc_rel_addr, logical_imm_op, logical_imm_of,
  decode_logical_imm, decode_move_wide, decode_extract, n_differs, decode_dp_immediate,
}
use oemu.Decode.WellFormed.{Sound, returns, raises, OperandFits, OpFits, QuadFits}

pub addsub_opcode-fits :
    (minus flags : Bool) (width : Width) (amount pos : ℕ)
    → OpFits (addsub_opcode minus flags) width amount pos
unfolding addsub_opcode OpFits
addsub_opcode-fits false false width amount pos = omega arith
addsub_opcode-fits false true width amount pos = omega arith
addsub_opcode-fits true false width amount pos = omega arith
addsub_opcode-fits true true width amount pos = omega arith

addsub_imm-Sound : (w : ℕ) → Sound w (decode_addsub_imm w (insn_reset w))
unfolding decode_addsub_imm insn_reset OperandFits OpFits QuadFits
addsub_imm-Sound w =
    if_both (Sound w) (ltb 1 (bits w 22 2)) (λ _. raises refl)
      λ _. returns (
        ground (
          arith,
          field_rd-lt w,
          field_rn-lt w,
          bits-lt w 10 12,
          addsub_opcode-fits (is_set w 30) (is_set w 29) (width_from_sf w) 0 0,
        ))

pc_rel_addr-Sound : (w pc : ℕ) → Sound w (decode_pc_rel_addr w pc (insn_reset w))
unfolding decode_pc_rel_addr insn_reset OperandFits OpFits QuadFits
pc_rel_addr-Sound w pc =
    if_both (Sound w) (is_set w 31) (λ _. returns (ground (arith, field_rd-lt w)))
      λ _. returns (ground (arith, field_rd-lt w))

logical_imm_op-fits :
    (opc : ℕ) (width : Width) (amount pos : ℕ) → OpFits ((logical_imm_op opc).0) width amount pos
unfolding logical_imm_op OpFits
logical_imm_op-fits opc width amount pos = ground arith

logical_imm_of-Sound :
    (w : ℕ) (mask : Option ℕ)
    → ((wmask : ℕ) → mask ≡ some wmask → wmask < 2 ^ 64)
    → Sound w (logical_imm_of w (insn_reset w) mask)
unfolding logical_imm_of insn_reset OperandFits OpFits QuadFits
logical_imm_of-Sound w none bound = raises refl
logical_imm_of-Sound w (some wmask) bound = returns (
    ground (
      arith,
      field_rd-lt w,
      field_rn-lt w,
      bound wmask refl,
      logical_imm_op-fits (bits w 29 2) (width_from_sf w) 0 0,
    ))

halves :
    (width : Width) (hw : ℕ)
    → hw < 4
    → (is_w32 width && ltb 1 hw) ≡ false
    → hw * 16 < reg_bits width
halves w32 hw h wide = ground arith
halves w64 hw h wide = omega arith

logical_imm-Sound : (w : ℕ) → Sound w (decode_logical_imm w (insn_reset w))
unfolding decode_logical_imm
logical_imm-Sound w =
    logical_imm_of-Sound w _
      λ wmask e. bit_masks-lt (is_set w 22) (bits w 10 6) (bits w 16 6) (width_from_sf w) wmask e

move_wide_opcode-fits :
    (opc : ℕ) (width : Width) (amount pos : ℕ)
    → amount < reg_bits width
    → OpFits (move_wide_opcode opc) width amount pos
unfolding move_wide_opcode OpFits
move_wide_opcode-fits opc width amount pos h = ground arith

moved-lt : (hw value : ℕ) → hw < 4 → value < 2 ^ 16 → (value <<< (hw * 16)) < 2 ^ 64
moved-lt zero value h k = omega arith
moved-lt (suc zero) value h k = omega arith
moved-lt (suc (suc zero)) value h k = omega arith
moved-lt (suc (suc (suc zero))) value h k = omega arith
moved-lt (suc (suc (suc (suc n)))) value h k = omega arith

move_wide-Sound : (w : ℕ) → Sound w (decode_move_wide w (insn_reset w))
unfolding decode_move_wide insn_reset OperandFits OpFits QuadFits
move_wide-Sound w =
    if_both (Sound w) (is_w32 (width_from_sf w) && ltb 1 (bits w 21 2)) (λ _. raises refl)
      λ wide.
        if_both (Sound w) (bits w 29 2 == 1) (λ _. raises refl)
          λ _. returns (
            ground (
              arith,
              field_rd-lt w,
              moved-lt (bits w 21 2) (bits w 5 16) (bits-lt w 21 2) (bits-lt w 5 16),
              move_wide_opcode-fits (bits w 29 2) (width_from_sf w) (bits w 21 2 * 16) 0
                  (halves (width_from_sf w) (bits w 21 2) (bits-lt w 21 2) wide),
            ))

bitfield_opcode-fits :
    (opc : ℕ) (width : Width) (amount pos : ℕ)
    → amount < reg_bits width
    → pos < reg_bits width
    → OpFits (bitfield_opcode opc) width amount pos
unfolding bitfield_opcode OpFits
bitfield_opcode-fits opc width amount pos h k = ground arith

bitfield-Sound : (w : ℕ) → Sound w (decode_bitfield w (insn_reset w))
unfolding decode_bitfield insn_reset OperandFits OpFits QuadFits
bitfield-Sound w =
    if_both (Sound w) (bits w 29 2 == 3) (λ _. raises refl)
      λ _.
        if_both (Sound w) (n_differs w) (λ _. raises refl)
          λ _.
            if_both (Sound w)
              (leb (reg_bits (width_from_sf w)) (bits w 16 6)
                || leb (reg_bits (width_from_sf w)) (bits w 10 6))
              (λ _. raises refl)
              λ fits. returns (
                ground (
                  arith,
                  field_rd-lt w,
                  field_rn-lt w,
                  bits-lt w 16 6,
                  bits-lt w 10 6,
                  bit_or-lt 64 (bits w 16 6 <<< 8) (bits w 10 6) (omega (arith, bits-lt w 16 6))
                      (omega (arith, bits-lt w 10 6)),
                  bitfield_opcode-fits (bits w 29 2) (width_from_sf w) (bits w 16 6) (bits w 10 6),
                ))

extract-Sound : (w : ℕ) → Sound w (decode_extract w (insn_reset w))
unfolding decode_extract insn_reset OperandFits OpFits QuadFits
extract-Sound w =
    if_both (Sound w) (bits w 29 2 != 0 || is_set w 21) (λ _. raises refl)
      λ _.
        if_both (Sound w) (n_differs w) (λ _. raises refl)
          λ _.
            if_both (Sound w) (leb (reg_bits (width_from_sf w)) (bits w 10 6)) (λ _. raises refl)
              λ fits.
                returns
                  (ground (arith, field_rd-lt w, field_rn-lt w, field_rm-lt w, bits-lt w 10 6))

pub dp_immediate-Sound : (w pc : ℕ) → Sound w (decode_dp_immediate w pc (insn_reset w))
unfolding decode_dp_immediate
dp_immediate-Sound w pc =
    if_both (Sound w) (leb (bits w 23 3) 1) (λ _. pc_rel_addr-Sound w pc)
      λ _.
        if_both (Sound w) (leb (bits w 23 3) 3) (λ _. addsub_imm-Sound w)
          λ _.
            if_both (Sound w) (bits w 23 3 == 4) (λ _. logical_imm-Sound w)
              λ _.
                if_both (Sound w) (bits w 23 3 == 5) (λ _. move_wide-Sound w)
                  λ _.
                    if_both (Sound w) (bits w 23 3 == 6) (λ _. bitfield-Sound w)
                      λ _. extract-Sound w
