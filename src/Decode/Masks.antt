-- ===== src/Decode/Masks.antt =====
-- src/decode/decode.c: the masks of the logical immediates.
pub mod Bounds
pub mod Pattern
use oemu.Common.{
  ℕ, zero, suc, ◌+◌, ◌-◌, ◌*◌, ◌/◌, ◌%◌, ◌^◌, bit_and, bit_or, Bool, true, false, ◌||◌, Option,
  none, some, ltb, leb, ◌==◌, ◌!=◌, if◌then◌else◌,
}
use oemu.Common.Word.{◌>>>◌, ◌<<<◌, u64, complement, any_set}
use oemu.Regs.{Width}
use oemu.Decode.{reg_bits}

-- `oemu_decode_internal_ror`, of an element of at most 64 bits
unfoldable pub ror : ℕ → ℕ → ℕ → ℕ
ror value amount esize =
    let shift = amount % esize in
    let mask = 2 ^ esize - 1 in
    let masked = bit_and value mask in
    if shift == 0
    then masked
    else bit_and (bit_or (masked >>> shift) (u64 (masked <<< (esize - shift)))) mask

-- The position of the highest set bit below `left`: the loop, from the top down.
unfoldable pub highest_bit : ℕ → ℕ → Option ℕ
highest_bit zero combined = none
highest_bit (suc left) combined =
    let rest = highest_bit left combined in
    if any_set combined (1 <<< left) then some left else rest

-- The replication: `left` elements to go, from the bit `pos` on.
unfoldable pub replicate_from : ℕ → ℕ → ℕ → ℕ → ℕ → ℕ
replicate_from zero pos esize element mask = mask
replicate_from (suc left) pos esize element mask =
    replicate_from left (pos + esize) esize element (bit_or mask (u64 (element <<< pos)))

-- The end of `oemu_decode_internal_bit_masks`, for the element size that was found.
unfoldable pub masks_of : ℕ → ℕ → ℕ → ℕ → Option ℕ
unfolding ror replicate_from
masks_of esize imms immr bits =
    let levels = esize - 1 in
    let s = bit_and imms levels in
    let r = bit_and immr levels in
    if ltb bits esize
    then none
    else if s == levels
    then none
    else some (
        bit_and (replicate_from (bits / esize) 0 esize (ror (2 ^ (s + 1) - 1) r esize) 0)
          (2 ^ bits - 1))

unfoldable pub with_length : Option ℕ → ℕ → ℕ → ℕ → Option ℕ
unfolding masks_of
with_length none imms immr bits = none
with_length (some len) imms immr bits =
    if ltb len 1 then none else masks_of (2 ^ len) imms immr bits

-- `oemu_decode_internal_bit_masks`; `none` is OEMU_ERR_DECODE.
unfoldable pub bit_masks : Bool → ℕ → ℕ → Width → Option ℕ
unfolding highest_bit with_length
bit_masks n imms immr width =
    with_length
      (highest_bit 7 (bit_or ((if n then 1 else 0) <<< 6) (bit_and (complement 32 imms) 0x3f))) imms
      immr (reg_bits width)
