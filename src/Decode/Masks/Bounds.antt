-- ===== src/Decode/Masks/Bounds.antt =====
-- src/decode/decode.c: the size of the masks of the logical immediates.
use oemu.Common.{
  ℕ, ◌-◌, ◌^◌, ◌<◌, ◌≤◌, bit_and, bit_or, ◌≡◌, Bool, Option, none, some, ltb, ◌==◌, if◌then◌else◌,
  arith, subst, if_both,
}
use oemu.Common.Bits.Masks.{bit_and_low}
use oemu.Common.Word.{◌<<<◌, complement}
use oemu.Regs.{Width, w32, w64}
use oemu.Decode.{reg_bits}
use oemu.Decode.Masks.{highest_bit, masks_of, with_length, bit_masks}

-- Every mask that a search for it gives.
Below : ℕ → Option ℕ → Type 0
Below bound none = 0 ≤ 0
Below bound (some wmask) = wmask < bound

masked-lt : (width : Width) (mask : ℕ) → bit_and mask (2 ^ reg_bits width - 1) < 2 ^ 64
masked-lt w32 mask = omega (arith, bit_and_low 32 mask)
masked-lt w64 mask = omega (arith, bit_and_low 64 mask)

masks_of-Below :
    (esize imms immr : ℕ) (width : Width)
    → Below (2 ^ 64) (masks_of esize imms immr (reg_bits width))
unfolding masks_of Below
masks_of-Below esize imms immr width =
    if_both (Below (2 ^ 64)) (ltb (reg_bits width) esize) (λ _. omega arith)
      λ _.
        if_both (Below (2 ^ 64)) (bit_and imms (esize - 1) == esize - 1) (λ _. omega arith)
          λ _. masked-lt width _

with_length-Below :
    (len : Option ℕ) (imms immr : ℕ) (width : Width)
    → Below (2 ^ 64) (with_length len imms immr (reg_bits width))
unfolding with_length Below
with_length-Below none imms immr width = omega arith
with_length-Below (some len) imms immr width =
    if_both (Below (2 ^ 64)) (ltb len 1) (λ _. omega arith)
      λ _. masks_of-Below (2 ^ len) imms immr width

pub bit_masks-lt :
    (n : Bool) (imms immr : ℕ) (width : Width) (wmask : ℕ)
    → bit_masks n imms immr width ≡ some wmask
    → wmask < 2 ^ 64
unfolding bit_masks Below
bit_masks-lt n imms immr width wmask e = subst (Below (2 ^ 64)) e (
    with_length-Below
      (highest_bit 7 (bit_or ((if n then 1 else 0) <<< 6) (bit_and (complement 32 imms) 0x3f))) imms
      immr width)
