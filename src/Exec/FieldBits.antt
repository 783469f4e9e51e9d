-- ===== src/Exec/FieldBits.antt =====
-- src/exec/exec.c: the bits of the field that a bitfield move cuts out.
use oemu.Common.{
  ℕ, ◌+◌, ◌-◌, ◌^◌, ◌<◌, bit_and, bit_or, ◌≡◌, refl, ap, ◌∙◌, true, ◌&&◌, ltb, leb, ◌==◌,
  if◌then◌else◌, arith, if_both,
}
use oemu.Common.Bits.{bit, bit-bit_or}
use oemu.Common.Bits.Shifts.{bit_of_quotient, bit_of_product, bit_of_remainder, bit_of_low}
use oemu.Common.Word.{◌<<<◌, ◌>>>◌, u64}
use oemu.Regs.{Width, w32, w64, bits}
use oemu.Exec.{width_mask}
use oemu.Exec.Bitfield.{field_length, moved, ones, field}

-- A mask of ones cuts off.
bit_of_mask :
    (width : Width) (x k : ℕ)
    → bit (bit_and x (width_mask width)) k ≡ (if ltb k (bits width) then bit x k else 0)
bit_of_mask w32 x k = bit_of_low 32 x k
bit_of_mask w64 x k = bit_of_low 64 x k

pub ones_lem : (width : Width) (len : ℕ) → ones width len ≡ 2 ^ len - 1
unfolding ones
ones_lem width len =
    if_both (λ t. t ≡ 2 ^ len - 1) (len == bits width) (λ e. full width e) λ _. refl
  where
    full : (width' : Width) → (len == bits width') ≡ true → width_mask width' ≡ 2 ^ len - 1
    full w32 e = let same : len ≡ 32 = ground arith in rw same refl
    full w64 e = let same : len ≡ 64 = ground arith in rw same refl

-- The source to the left, inside the width.
bit_of_left :
    (width : Width) (src n k : ℕ)
    → bit (bit_and (u64 (src <<< n)) (width_mask width)) k
      ≡ (if ltb k (bits width) && leb n k then bit src (k - n) else 0)
bit_of_left width src n k =
    bit_of_mask width (u64 (src <<< n)) k
    ∙ ground (arith, bit_of_remainder 64 (src <<< n) k, bit_of_product n src k)

-- The rotated source, as far as its field needs it.
bit_of_right :
    (width : Width) (src lsb k : ℕ)
    → src < 2 ^ bits width
    → lsb < bits width
    → k < bits width - lsb
    → bit (bit_and (bit_or (src >>> lsb) (u64 (src <<< (bits width - lsb)))) (width_mask width)) k
      ≡ bit src (lsb + k)
bit_of_right width src lsb k fits inside low =
    bit_of_mask width _ k
    ∙ ground (
      arith,
      bit-bit_or (src >>> lsb) (u64 (src <<< (bits width - lsb))) k,
      bit_of_quotient lsb src k,
      bit_of_remainder 64 (src <<< (bits width - lsb)) k,
      bit_of_product (bits width - lsb) src k,
    )

-- The lowest place of a field.
abbrev pub bottom : ℕ → ℕ → ℕ → ℕ
bottom width lsb msb = if ltb msb lsb then width - lsb else 0

-- The place in the source of the bit k of a field.
abbrev pub place : ℕ → ℕ → ℕ → ℕ → ℕ
place width lsb msb k = if ltb msb lsb then k - (width - lsb) else lsb + k

moved-bit :
    (width : Width) (lsb msb src k : ℕ)
    → src < 2 ^ bits width
    → lsb < bits width
    → msb < bits width
    → k < field_length (bits width) lsb msb
    → bit (moved width lsb msb src) k
      ≡ (if leb (bottom (bits width) lsb msb) k then bit src (place (bits width) lsb msb k) else 0)
unfolding moved field_length
moved-bit width lsb msb src k fits low high short =
    if_both
      (λ t. bit t k ≡ (
        if leb (bottom (bits width) lsb msb) k then bit src (place (bits width) lsb msb k) else 0))
      (ltb msb lsb) (λ wraps. bit_of_left width src (bits width - lsb) k ∙ ground arith)
      λ straight.
        if_both
          (λ t. bit t k ≡ (
            if leb (bottom (bits width) lsb msb) k
            then bit src (place (bits width) lsb msb k)
            else 0))
          (lsb == 0)
          (λ whole. let same : k ≡ lsb + k = ground arith in ap (bit src) same ∙ ground arith)
          λ shifted. bit_of_right width src lsb k fits low (ground arith) ∙ ground arith

pub field-bit :
    (width : Width) (lsb msb src k : ℕ)
    → src < 2 ^ bits width
    → lsb < bits width
    → msb < bits width
    → bit (field width lsb msb src) k ≡ (
        if leb (bottom (bits width) lsb msb) k && ltb k (field_length (bits width) lsb msb)
        then bit src (place (bits width) lsb msb k)
        else 0)
unfolding field
field-bit width lsb msb src k fits low high =
    ap (λ t. bit (bit_and (moved width lsb msb src) t) k)
      (ones_lem width (field_length (bits width) lsb msb))
    ∙ bit_of_low (field_length (bits width) lsb msb) (moved width lsb msb src) k
    ∙ if_both
        (λ t. t ≡ (
          if leb (bottom (bits width) lsb msb) k && ltb k (field_length (bits width) lsb msb)
          then bit src (place (bits width) lsb msb k)
          else 0))
        (ltb k (field_length (bits width) lsb msb))
        (λ inside. moved-bit width lsb msb src k fits low high (ground arith) ∙ ground arith)
        λ outside. ground arith
