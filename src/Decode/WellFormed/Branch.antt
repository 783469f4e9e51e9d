-- ===== src/Decode/WellFormed/Branch.antt =====
-- src/decode/decode.c: the shape of branches, exceptions and the system space.
use oemu.Common.{ℕ, ◌<◌, bit_or, refl, ◌==◌, ◌!=◌, not, ◌&&◌, ◌||◌, if◌then◌else◌, arith, if_both}
use oemu.Common.Word.{◌<<<◌}
use oemu.Common.Bits.Bounds.{bit_or-lt}
use oemu.Regs.{w32, w64}
use oemu.Decode.{reg_bits, bits, field_rd, is_set, insn_reset}
use oemu.Decode.Fields.{bits-lt, field_rd-lt, field_rn-lt}
use oemu.Decode.WellFormed.{Sound, returns, raises, OperandFits, OpFits, QuadFits}
use oemu.Decode.Branch.{
  decode_uncond_branch_imm, decode_cond_branch_imm, decode_compare_branch, decode_test_branch,
  decode_exception, decode_hints_and_barriers, decode_system, decode_uncond_branch_reg,
  decode_branch_system,
}

uncond_branch_imm-Sound : (w pc : ℕ) → Sound w (decode_uncond_branch_imm w pc (insn_reset w))
unfolding decode_uncond_branch_imm insn_reset OperandFits OpFits QuadFits
uncond_branch_imm-Sound w pc = returns (ground arith)

cond_branch_imm-Sound : (w pc : ℕ) → Sound w (decode_cond_branch_imm w pc (insn_reset w))
unfolding decode_cond_branch_imm insn_reset OperandFits OpFits QuadFits
cond_branch_imm-Sound w pc =
    if_both (Sound w) (is_set w 24 || is_set w 4) (λ _. raises refl)
      λ _. returns (ground (arith, bits-lt w 0 4))

compare_branch-Sound : (w pc : ℕ) → Sound w (decode_compare_branch w pc (insn_reset w))
unfolding decode_compare_branch insn_reset OperandFits OpFits QuadFits
compare_branch-Sound w pc = returns (ground (arith, field_rd-lt w))

-- The bit that is tested is one of the register's.
tested-lt :
    (w : ℕ) → bit_or (bits w 31 1 <<< 5) (bits w 19 5) < reg_bits (if is_set w 31 then w64 else w32)
unfolding is_set
tested-lt w = ground (
  arith,
  bits-lt w 31 1,
  bits-lt w 19 5,
  bit_or-lt 6 (bits w 31 1 <<< 5) (bits w 19 5),
  bit_or-lt 5 (bits w 31 1 <<< 5) (bits w 19 5),
)

test_branch-Sound : (w pc : ℕ) → Sound w (decode_test_branch w pc (insn_reset w))
unfolding decode_test_branch insn_reset OperandFits OpFits QuadFits
test_branch-Sound w pc = returns (ground (arith, field_rd-lt w, tested-lt w))

exception-Sound : (w : ℕ) → Sound w (decode_exception w (insn_reset w))
unfolding decode_exception insn_reset OperandFits OpFits QuadFits
exception-Sound w =
    if_both (Sound w) (bits w 2 3 != 0) (λ _. raises refl)
      λ _.
        if_both (Sound w) (bits w 21 3 == 0 && bits w 0 2 == 1)
          (λ _. returns (ground (arith, bits-lt w 5 16)))
          λ _.
            if_both (Sound w) (bits w 21 3 == 1 && bits w 0 2 == 0)
              (λ _. returns (ground (arith, bits-lt w 5 16)))
              λ _.
                if_both (Sound w) (bits w 21 3 == 2 && bits w 0 2 == 0)
                  (λ _. returns (ground (arith, bits-lt w 5 16)))
                  λ _.
                    if_both (Sound w) (bits w 21 3 == 0 && bits w 0 2 == 2)
                      (λ _. returns (ground (arith, bits-lt w 5 16)))
                      λ _.
                        if_both (Sound w) (bits w 21 3 == 0 && bits w 0 2 == 3)
                          (λ _. returns (ground (arith, bits-lt w 5 16)))
                          λ _.
                            if_both (Sound w) (bits w 21 3 == 5) (λ _. raises refl) λ _. raises refl

hint_number-lt : (w : ℕ) → bit_or (bits w 8 4 <<< 3) (bits w 5 3) < 128
hint_number-lt w = bit_or-lt 7 _ _ (omega (arith, bits-lt w 8 4)) (omega (arith, bits-lt w 5 3))

hints_and_barriers-Sound : (w : ℕ) → Sound w (decode_hints_and_barriers w (insn_reset w))
unfolding decode_hints_and_barriers insn_reset OperandFits OpFits QuadFits
hints_and_barriers-Sound w =
    if_both (Sound w) (bits w 12 4 == 2)
      (λ _.
        if_both (Sound w) (bits w 8 4 == 0 && bits w 5 3 == 2)
          (λ _. returns (ground (arith, hint_number-lt w)))
          λ _.
            if_both (Sound w) (bits w 8 4 == 0 && bits w 5 3 == 3)
              (λ _. returns (ground (arith, hint_number-lt w)))
              λ _. returns (ground (arith, hint_number-lt w)))
      λ _.
        if_both (Sound w) (bits w 12 4 == 3) (λ _. returns (ground (arith, bits-lt w 8 4)))
          λ _.
            if_both (Sound w) (bits w 12 4 == 4)
              (λ _. returns (ground (arith, bits-lt w 8 4, bits-lt w 5 3))) λ _. raises refl

system-Sound : (w : ℕ) → Sound w (decode_system w (insn_reset w))
unfolding decode_system insn_reset OperandFits OpFits QuadFits
system-Sound w =
    if_both (Sound w) (bits w 19 2 == 0)
      (λ _.
        if_both (Sound w) (field_rd w != 31) (λ _. raises refl)
          λ _. if_both (Sound w) (is_set w 21) (λ _. raises refl) λ _. hints_and_barriers-Sound w)
      λ _.
        if_both (Sound w) (bits w 19 2 == 1) (λ _. returns (ground (arith, field_rd-lt w)))
          λ _. returns (ground (arith, field_rd-lt w))

uncond_branch_reg-Sound : (w : ℕ) → Sound w (decode_uncond_branch_reg w (insn_reset w))
unfolding decode_uncond_branch_reg insn_reset OperandFits OpFits QuadFits
uncond_branch_reg-Sound w =
    if_both (Sound w) (bits w 16 5 != 0x1f || bits w 10 6 != 0 || bits w 0 5 != 0)
      (λ _. if_both (Sound w) (bits w 10 6 != 0) (λ _. raises refl) λ _. raises refl)
      λ _.
        if_both (Sound w) (bits w 21 4 == 0) (λ _. returns (ground (arith, field_rn-lt w)))
          λ _.
            if_both (Sound w) (bits w 21 4 == 1) (λ _. returns (ground (arith, field_rn-lt w)))
              λ _.
                if_both (Sound w) (bits w 21 4 == 2) (λ _. returns (ground (arith, field_rn-lt w)))
                  λ _.
                    if_both (Sound w) (bits w 21 4 == 4)
                      (λ _. returns (ground (arith, field_rn-lt w)))
                      λ _. if_both (Sound w) (bits w 21 4 == 5) (λ _. raises refl) λ _. raises refl

pub branch_system-Sound : (w pc : ℕ) → Sound w (decode_branch_system w pc (insn_reset w))
unfolding decode_branch_system
branch_system-Sound w pc =
    if_both (Sound w) (bits w 29 3 == 0 || bits w 29 3 == 4) (λ _. uncond_branch_imm-Sound w pc)
      λ _.
        if_both (Sound w) (bits w 29 3 == 2)
          (λ _. if_both (Sound w) (is_set w 25) (λ _. raises refl) λ _. cond_branch_imm-Sound w pc)
          λ _.
            if_both (Sound w) (bits w 29 3 == 1 || bits w 29 3 == 5)
              (λ _.
                if_both (Sound w) (not (is_set w 25)) (λ _. compare_branch-Sound w pc)
                  λ _. test_branch-Sound w pc)
              λ _.
                if_both (Sound w) (bits w 29 3 == 6)
                  (λ _.
                    if_both (Sound w) (is_set w 25) (λ _. uncond_branch_reg-Sound w)
                      λ _.
                        if_both (Sound w) (not (is_set w 24)) (λ _. exception-Sound w)
                          λ _. system-Sound w)
                  λ _. raises refl
