-- ===== src/Decode/Examples.antt =====
-- src/decode/decode.c: words that the decoder answers.
use oemu.Common.{◌^◌}
use oemu.Common.{false, some}
use oemu.Regs.{w64}
use oemu.Decode.{reg_bits}
use oemu.Decode.Masks.{bit_masks, masks_of}
use oemu.Decode.Masks.Pattern.{IsMask, masks_of-IsMask}
use oemu.Common.{◌≡◌, refl}
use oemu.Common.Status.{ok, err_decode}
use oemu.Decode.{bits, sign_extend, is_set, width_from_sf, insn_reset}
use oemu.Decode.Word.{decode}
use oemu.Decode.WellFormed.Word.{IsAnswer, decode-IsAnswer}

-- `add x0, x1, #1`
add_word : (decode 0x91000420 0x80000).0 ≡ ok
unfolding decode bits
add_word = refl

-- `b` to itself
branch_word : (decode 0x14000000 0x80000).1.imm ≡ 0x80000
unfolding decode bits sign_extend
branch_word = refl

-- `b` one word back
branch_back : (decode 0x17ffffff 0x80000).1.imm ≡ 0x7fffc
unfolding decode bits sign_extend
branch_back = refl

-- A shift of a 32-bit operand by 32 is refused.
refused_word : decode 0x0b018000 0x80000 ≡ (err_decode, insn_reset 0x0b018000)
unfolding decode bits is_set width_from_sf
refused_word = refl

decode-IsAnswer_example : IsAnswer 0x91000420 (decode 0x91000420 0x80000)
decode-IsAnswer_example = decode-IsAnswer 0x91000420 0x80000

-- Three ones in each byte, turned by one place.
byte_pattern : bit_masks false 0x32 1 w64 ≡ some 0x8383838383838383
unfolding bit_masks
byte_pattern = refl

masks_of-IsMask_example :
    IsMask (2 ^ 3) 0x32 1 (reg_bits w64) (masks_of (2 ^ 3) 0x32 1 (reg_bits w64))
masks_of-IsMask_example = masks_of-IsMask 3 0x32 1 w64
