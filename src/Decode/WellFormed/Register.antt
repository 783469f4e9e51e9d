-- ===== src/Decode/WellFormed/Register.antt =====
-- src/decode/decode.c: the shape of data processing with registers.
use oemu.Common.{
  ℕ, zero, suc, ◌^◌, ◌<◌, bit_and, ◌≡◌, refl, Bool, false, leb, ◌==◌, ◌!=◌, not, ◌&&◌, ◌||◌, arith,
  if_both,
}
use oemu.Common.Word.{◌<<<◌}
use oemu.Common.Bits.Masks.{bit_and_low}
use oemu.Regs.{Width, w32, w64}
use oemu.Decode.{reg_bits, bits, width_from_sf, is_set, insn_reset, addsub_carry_opcode, is_w32}
use oemu.Decode.Fields.{bits-lt, field_rd-lt, field_rn-lt, field_rm-lt, field_ra-lt}
use oemu.Decode.WellFormed.{Sound, returns, raises, OperandFits, OpFits, QuadFits}
use oemu.Decode.Register.{
  logical_shifted_op, shifted_kind, decode_logical_shifted, decode_addsub_shifted,
  extend_amount_valid, decode_addsub_extended, decode_addsub_carry, decode_cond_compare,
  cond_select_op, decode_cond_select, decode_dp_1source, decode_dp_2source, decode_dp_3source,
  decode_dp_register,
}
use oemu.Decode.WellFormed.Immediate.{addsub_opcode-fits}

shifted_kind-fits :
    (width : Width) (amount : ℕ)
    → amount < reg_bits width
    → OperandFits (shifted_kind amount) width amount
unfolding shifted_kind OperandFits
shifted_kind-fits width amount h = ground arith

-- What the guard on the amount leaves.
amount-lt :
    (width : Width) (amount : ℕ)
    → amount < 64
    → (is_w32 width && leb 32 amount) ≡ false
    → amount < reg_bits width
amount-lt w32 amount h e = ground arith
amount-lt w64 amount h e = h

logical_shifted_op-fits :
    (opc : ℕ) (negate : Bool) (width : Width) (amount pos : ℕ)
    → OpFits (logical_shifted_op opc negate).0 width amount pos
unfolding logical_shifted_op OpFits
logical_shifted_op-fits opc negate width amount pos = ground arith

addsub_carry_opcode-fits :
    (minus flags : Bool) (width : Width) (amount pos : ℕ)
    → OpFits (addsub_carry_opcode minus flags) width amount pos
unfolding addsub_carry_opcode OpFits
addsub_carry_opcode-fits minus flags width amount pos = ground arith

cond_select_op-fits :
    (invert increment : Bool) (width : Width) (amount pos : ℕ)
    → OpFits (cond_select_op invert increment) width amount pos
unfolding cond_select_op OpFits
cond_select_op-fits invert increment width amount pos = ground arith

logical_shifted-Sound : (w : ℕ) → Sound w (decode_logical_shifted w (insn_reset w))
unfolding decode_logical_shifted insn_reset QuadFits
logical_shifted-Sound w =
    if_both (Sound w) (is_w32 (width_from_sf w) && leb 32 (bits w 10 6)) (λ _. raises refl)
      λ fits. returns (
        ground (
          arith,
          field_rd-lt w,
          field_rn-lt w,
          field_rm-lt w,
          shifted_kind-fits (width_from_sf w) (bits w 10 6)
              (amount-lt (width_from_sf w) (bits w 10 6) (bits-lt w 10 6) fits),
          logical_shifted_op-fits (bits w 29 2) (is_set w 21) (width_from_sf w) (bits w 10 6) 0,
        ))

addsub_shifted-Sound : (w : ℕ) → Sound w (decode_addsub_shifted w (insn_reset w))
unfolding decode_addsub_shifted insn_reset QuadFits
addsub_shifted-Sound w =
    if_both (Sound w) (bits w 22 2 == 3) (λ _. raises refl)
      λ _.
        if_both (Sound w) (is_w32 (width_from_sf w) && leb 32 (bits w 10 6)) (λ _. raises refl)
          λ fits. returns (
            ground (
              arith,
              field_rd-lt w,
              field_rn-lt w,
              field_rm-lt w,
              shifted_kind-fits (width_from_sf w) (bits w 10 6)
                  (amount-lt (width_from_sf w) (bits w 10 6) (bits-lt w 10 6) fits),
              addsub_opcode-fits (is_set w 30) (is_set w 29) (width_from_sf w) (bits w 10 6) 0,
            ))

addsub_extended-Sound : (w : ℕ) → Sound w (decode_addsub_extended w (insn_reset w))
unfolding decode_addsub_extended extend_amount_valid insn_reset OperandFits QuadFits
addsub_extended-Sound w =
    if_both (Sound w) (bits w 22 2 != 0) (λ _. raises refl)
      λ _.
        if_both (Sound w) (not (leb (bits w 10 3) 4)) (λ _. raises refl)
          λ fits. returns (
            ground (
              arith,
              field_rd-lt w,
              field_rn-lt w,
              field_rm-lt w,
              addsub_opcode-fits (is_set w 30) (is_set w 29) (width_from_sf w) (bits w 10 3) 0,
            ))

addsub_carry-Sound : (w : ℕ) → Sound w (decode_addsub_carry w (insn_reset w))
unfolding decode_addsub_carry insn_reset OperandFits QuadFits
addsub_carry-Sound w =
    if_both (Sound w) (bits w 10 6 != 0) (λ _. raises refl)
      λ _. returns (
        ground (
          arith,
          field_rd-lt w,
          field_rn-lt w,
          field_rm-lt w,
          addsub_carry_opcode-fits (is_set w 30) (is_set w 29) (width_from_sf w) 0 0,
        ))

cond_compare-Sound : (w : ℕ) → Sound w (decode_cond_compare w (insn_reset w))
unfolding decode_cond_compare insn_reset OperandFits OpFits QuadFits
cond_compare-Sound w =
    if_both (Sound w) (not (is_set w 29) || is_set w 10 || is_set w 4) (λ _. raises refl)
      λ _.
        if_both (Sound w) (is_set w 11)
          (λ _.
            returns (ground (arith, field_rn-lt w, bits-lt w 12 4, bits-lt w 0 4, bits-lt w 16 5)))
          λ _. returns (ground (arith, field_rn-lt w, field_rm-lt w, bits-lt w 12 4, bits-lt w 0 4))

cond_select-Sound : (w : ℕ) → Sound w (decode_cond_select w (insn_reset w))
unfolding decode_cond_select insn_reset OperandFits QuadFits
cond_select-Sound w =
    if_both (Sound w) (is_set w 29 || is_set w 11) (λ _. raises refl)
      λ _. returns (
        ground (
          arith,
          field_rd-lt w,
          field_rn-lt w,
          field_rm-lt w,
          bits-lt w 12 4,
          cond_select_op-fits (is_set w 30) (is_set w 10) (width_from_sf w) 0 0,
        ))

dp_1source-Sound : (w : ℕ) → Sound w (decode_dp_1source w (insn_reset w))
unfolding decode_dp_1source insn_reset OperandFits OpFits QuadFits
dp_1source-Sound w =
    if_both (Sound w) (is_set w 29 || bits w 16 5 != 0) (λ _. raises refl)
      λ _.
        if_both (Sound w) (bits w 10 6 == 0)
          (λ _. returns (ground (arith, field_rd-lt w, field_rn-lt w)))
          λ _.
            if_both (Sound w) (bits w 10 6 == 1)
              (λ _. returns (ground (arith, field_rd-lt w, field_rn-lt w)))
              λ _.
                if_both (Sound w) (bits w 10 6 == 2)
                  (λ _. returns (ground (arith, field_rd-lt w, field_rn-lt w)))
                  λ _.
                    if_both (Sound w) (bits w 10 6 == 3)
                      (λ _.
                        if_both (Sound w) (is_w32 (width_from_sf w)) (λ _. raises refl)
                          λ _. returns (ground (arith, field_rd-lt w, field_rn-lt w)))
                      λ _.
                        if_both (Sound w) (bits w 10 6 == 4)
                          (λ _. returns (ground (arith, field_rd-lt w, field_rn-lt w)))
                          λ _.
                            if_both (Sound w) (bits w 10 6 == 5)
                              (λ _. returns (ground (arith, field_rd-lt w, field_rn-lt w)))
                              λ _. raises refl

-- The size of a checksum's operand.
crc_size-lt : (k : ℕ) → k < 4 → (1 <<< k) < 2 ^ 64
crc_size-lt zero h = omega arith
crc_size-lt (suc zero) h = omega arith
crc_size-lt (suc (suc zero)) h = omega arith
crc_size-lt (suc (suc (suc zero))) h = omega arith
crc_size-lt (suc (suc (suc (suc k)))) h = omega arith

dp_2source-Sound : (w : ℕ) → Sound w (decode_dp_2source w (insn_reset w))
unfolding decode_dp_2source insn_reset OperandFits OpFits QuadFits
dp_2source-Sound w =
    if_both (Sound w) (is_set w 29) (λ _. raises refl)
      λ _.
        if_both (Sound w) (bits w 10 6 == 0x02)
          (λ _. returns (ground (arith, field_rd-lt w, field_rn-lt w, field_rm-lt w)))
          λ _.
            if_both (Sound w) (bits w 10 6 == 0x03)
              (λ _. returns (ground (arith, field_rd-lt w, field_rn-lt w, field_rm-lt w)))
              λ _.
                if_both (Sound w) (bits w 10 6 == 0x08)
                  (λ _. returns (ground (arith, field_rd-lt w, field_rn-lt w, field_rm-lt w)))
                  λ _.
                    if_both (Sound w) (bits w 10 6 == 0x09)
                      (λ _. returns (ground (arith, field_rd-lt w, field_rn-lt w, field_rm-lt w)))
                      λ _.
                        if_both (Sound w) (bits w 10 6 == 0x0a)
                          (λ _.
                            returns (ground (arith, field_rd-lt w, field_rn-lt w, field_rm-lt w)))
                          λ _.
                            if_both (Sound w) (bits w 10 6 == 0x0b)
                              (λ _.
                                returns
                                  (ground (arith, field_rd-lt w, field_rn-lt w, field_rm-lt w)))
                              λ _.
                                if_both (Sound w) (leb 0x10 (bits w 10 6) && leb (bits w 10 6) 0x17)
                                  (λ _. returns (
                                    ground (
                                      arith,
                                      field_rd-lt w,
                                      field_rn-lt w,
                                      field_rm-lt w,
                                      crc_size-lt (bit_and (bits w 10 6) 3)
                                          (omega (arith, bit_and_low 2 (bits w 10 6))),
                                    )))
                                  λ _. raises refl

dp_3source-Sound : (w : ℕ) → Sound w (decode_dp_3source w (insn_reset w))
unfolding decode_dp_3source insn_reset OperandFits OpFits QuadFits
dp_3source-Sound w =
    if_both (Sound w) (bits w 29 2 != 0) (λ _. raises refl)
      λ _.
        if_both (Sound w) (bits w 21 3 == 0)
          (λ _.
            returns (ground (arith, field_rd-lt w, field_rn-lt w, field_rm-lt w, field_ra-lt w)))
          λ _.
            if_both (Sound w) (is_w32 (width_from_sf w)) (λ _. raises refl)
              λ _.
                if_both (Sound w) (bits w 21 3 == 1)
                  (λ _.
                    returns
                      (ground (arith, field_rd-lt w, field_rn-lt w, field_rm-lt w, field_ra-lt w)))
                  λ _.
                    if_both (Sound w) (bits w 21 3 == 2)
                      (λ _.
                        if_both (Sound w) (is_set w 15) (λ _. raises refl)
                          λ _. returns (
                            ground
                              (arith, field_rd-lt w, field_rn-lt w, field_rm-lt w, field_ra-lt w)))
                      λ _.
                        if_both (Sound w) (bits w 21 3 == 5)
                          (λ _. returns (
                            ground
                              (arith, field_rd-lt w, field_rn-lt w, field_rm-lt w, field_ra-lt w)))
                          λ _.
                            if_both (Sound w) (bits w 21 3 == 6)
                              (λ _.
                                if_both (Sound w) (is_set w 15) (λ _. raises refl)
                                  λ _. returns (
                                    ground (
                                      arith,
                                      field_rd-lt w,
                                      field_rn-lt w,
                                      field_rm-lt w,
                                      field_ra-lt w,
                                    )))
                              λ _. raises refl

pub dp_register-Sound : (w : ℕ) → Sound w (decode_dp_register w (insn_reset w))
unfolding decode_dp_register
dp_register-Sound w =
    if_both (Sound w) (not (is_set w 28))
      (λ _.
        if_both (Sound w) (bit_and (bits w 21 4) 8 == 0) (λ _. logical_shifted-Sound w)
          λ _.
            if_both (Sound w) (bit_and (bits w 21 4) 1 != 0) (λ _. addsub_extended-Sound w)
              λ _. addsub_shifted-Sound w)
      λ _.
        if_both (Sound w) (bits w 21 4 == 0) (λ _. addsub_carry-Sound w)
          λ _.
            if_both (Sound w) (bits w 21 4 == 2) (λ _. cond_compare-Sound w)
              λ _.
                if_both (Sound w) (bits w 21 4 == 4) (λ _. cond_select-Sound w)
                  λ _.
                    if_both (Sound w) (bits w 21 4 == 6)
                      (λ _.
                        if_both (Sound w) (is_set w 30) (λ _. dp_1source-Sound w)
                          λ _. dp_2source-Sound w)
                      λ _.
                        if_both (Sound w) (bit_and (bits w 21 4) 8 != 0) (λ _. dp_3source-Sound w)
                          λ _. raises refl
