-- ===== src/Exec/Fields.antt =====
-- src/exec/exec.c: the bits of a bitfield move.
use oemu.Common.{
  ℕ, ◌-◌, ◌^◌, ◌≤◌, ◌<◌, max, min, bit_and, ◌≡◌, refl, ap, ap₂, ◌∙◌, true, false, ◌&&◌, ltb, leb,
  ◌==◌, ◌!=◌, if◌then◌else◌, arith, if_both, Bool-cases, inl, inr,
}
use oemu.Common.Bits.{bit, bit_lem, bit-lt, bit-bit_and, bit-bit_or}
use oemu.Common.Bits.Bounds.{bit_above}
use oemu.Common.Bits.Masks.{bit_and_low}
use oemu.Common.Bits.Shifts.{bit_of_product, bit_of_remainder, bit_of_complement, bit_of_ones}
use oemu.Decode.{Opcode}
use native.Mathlib.Nat.{one-le-pow, pow-le-pow_right}
use oemu.Common.Word.{complement, ◌<<<◌, ◌>>>◌}
use oemu.Regs.{Width, w32, w64, bits}
use oemu.Exec.{width_mask}
use oemu.Exec.Bitfield.{field_length, ones, field, inserted, bitfield_result}
use oemu.Exec.FieldBits.{ones_lem, bottom, place, field-bit}

-- The bit k of a bitfield move: of the field where the field lies; elsewhere of the old destination
-- for BFM, of the field's sign above it for SBFM, and 0 otherwise.
abbrev pub expected_bit : Opcode → ℕ → ℕ → ℕ → ℕ → ℕ → ℕ → ℕ
expected_bit Opcode.bfm width lsb msb src old k =
    if leb (bottom width lsb msb) k && ltb k (field_length width lsb msb)
    then bit src (place width lsb msb k)
    else bit old k
expected_bit Opcode.sbfm width lsb msb src old k =
    if leb (field_length width lsb msb) k
    then (if ltb k width then bit src msb else 0)
    else if leb (bottom width lsb msb) k
    then bit src (place width lsb msb k)
    else 0
expected_bit _ width lsb msb src old k =
    if leb (bottom width lsb msb) k && ltb k (field_length width lsb msb)
    then bit src (place width lsb msb k)
    else 0

bits_le : (width : Width) → bits width ≤ 64
bits_le w32 = omega arith
bits_le w64 = omega arith

mask_lem : (width : Width) → width_mask width ≡ 2 ^ bits width - 1
mask_lem w32 = refl
mask_lem w64 = refl

small : (len : ℕ) → len ≤ 64 → 2 ^ len - 1 < 2 ^ 64
small len h =
    omega (arith, pow-le-pow_right {n = 2} (omega arith) h, one-le-pow len 2 (omega arith))

bit_of_inserted :
    (width : Width) (lsb msb k : ℕ)
    → lsb < bits width
    → msb < bits width
    → bit (inserted width lsb msb) k ≡ (
        if leb (bottom (bits width) lsb msb) k && ltb k (field_length (bits width) lsb msb)
        then 1
        else 0)
unfolding inserted field_length
bit_of_inserted width lsb msb k low high =
    if_both (λ t. bit t k ≡ (if leb low_end k && ltb k len then 1 else 0))
      (len - low_end == bits width)
      (λ whole.
        ap (λ t. bit t k) (mask_lem width)
        ∙ bit_of_ones (bits width) k
        ∙ ground (arith, bits_le width))
      λ part.
        bit_of_remainder 64 ((2 ^ (len - low_end) - 1) <<< low_end) k
        ∙ ground (
          arith,
          bits_le width,
          bit_of_product low_end (2 ^ (len - low_end) - 1) k,
          bit_of_ones (len - low_end) (k - low_end),
        )
  where
    low_end : ℕ
    low_end = bottom (bits width) lsb msb

    len : ℕ
    len = field_length (bits width) lsb msb

sign_test :
    (width : Width) (lsb msb src : ℕ)
    → src < 2 ^ bits width
    → lsb < bits width
    → msb < bits width
    → (bit_and (field width lsb msb src >>> (field_length (bits width) lsb msb - 1)) 1 != 0)
      ≡ (bit src msb == 1)
unfolding field_length
sign_test width lsb msb src fits low high = ground (
  arith,
  bit_and_low 1 (field width lsb msb src >>> (field_length (bits width) lsb msb - 1)),
  bit_lem (field width lsb msb src) (field_length (bits width) lsb msb - 1),
  top,
  bit-lt src msb,
)
  where
    last : place (bits width) lsb msb (field_length (bits width) lsb msb - 1) ≡ msb
    last = ground arith

    top : bit (field width lsb msb src) (field_length (bits width) lsb msb - 1) ≡ bit src msb
    top =
        field-bit width lsb msb src (field_length (bits width) lsb msb - 1) fits low high
        ∙ ground (arith, ap (bit src) last)

filled :
    (width : Width) (len k : ℕ)
    → len ≤ bits width
    → bit (bit_and (width_mask width) (complement 64 (ones width len))) k
      ≡ (if leb len k && ltb k (bits width) then 1 else 0)
filled width len k h =
    bit-bit_and (width_mask width) (complement 64 (ones width len)) k
    ∙ ap₂ min (ap (λ t. bit t k) (mask_lem width) ∙ bit_of_ones (bits width) k)
        (ap (λ t. bit (complement 64 t) k) (ones_lem width len))
    ∙ if_both
        (λ t.
          min t (bit (complement 64 (2 ^ len - 1)) k)
          ≡ (if leb len k && ltb k (bits width) then 1 else 0))
        (ltb k (bits width))
        (λ inside. ground (
          arith,
          bits_le width,
          bit_of_ones len k,
          bit_of_complement 64 (2 ^ len - 1) k (small len (omega (arith, bits_le width, h)))
              (ground (arith, bits_le width)),
        ))
        λ outside. ground arith

length_le : (n lsb msb : ℕ) → lsb < n → msb < n → field_length n lsb msb ≤ n
unfolding field_length
length_le n lsb msb low high = ground arith

inserted-lt : (width : Width) (lsb msb : ℕ) → inserted width lsb msb < 2 ^ 64
unfolding inserted
inserted-lt w32 lsb msb = ground arith
inserted-lt w64 lsb msb = ground arith

-- What BFM keeps of the old destination.
kept-bit :
    (width : Width) (dm old k : ℕ)
    → dm < 2 ^ 64
    → old < 2 ^ bits width
    → bit (bit_and old (complement 64 dm)) k ≡ min (bit old k) (1 - bit dm k)
kept-bit width dm old k small_mask fits =
    bit-bit_and old (complement 64 dm) k ∙ elim (Bool-cases (ltb k 64)) [
      | inl inside ↦ omega (arith, bit_of_complement 64 dm k small_mask (ground arith))
      | inr outside ↦
          omega (arith, bit_above (bits width) old k fits (ground (arith, bits_le width)))
    ]

signed_bit :
    (n len low_end k x sign f g : ℕ)
    → len ≤ n
    → sign ≡ 1
    → f ≡ (if leb low_end k && ltb k len then x else 0)
    → g ≡ (if leb len k && ltb k n then 1 else 0)
    → x < 2
    → max f g
      ≡ (if leb len k then (if ltb k n then sign else 0) else if leb low_end k then x else 0)
signed_bit n len low_end k x sign f g fits is_one of_field of_fill small_bit = ground arith

plain_bit :
    (n len low_end k x sign f : ℕ)
    → sign ≡ 0
    → f ≡ (if leb low_end k && ltb k len then x else 0)
    → f ≡ (if leb len k then (if ltb k n then sign else 0) else if leb low_end k then x else 0)
plain_bit n len low_end k x sign f is_zero of_field = ground arith

-- For a source and an old destination of the width, and positions inside it: a bitfield move gives
-- the field of the source in its place, and elsewhere the old destination for BFM, the sign of the
-- field above it for SBFM, and zeros otherwise. A range whose end lies below its start wraps round:
-- its low bits move up by the width less the start.
pub bitfield_result-expected_bit :
    (op : Opcode) (width : Width) (lsb msb src old k : ℕ)
    → src < 2 ^ bits width
    → old < 2 ^ bits width
    → lsb < bits width
    → msb < bits width
    → bit (bitfield_result op width lsb msb src old) k
      ≡ expected_bit op (bits width) lsb msb src old k
unfolding bitfield_result
bitfield_result-expected_bit Opcode.bfm width lsb msb src old k fits was low high =
    bit-bit_or (bit_and old (complement 64 (inserted width lsb msb)))
      (bit_and (field width lsb msb src) (inserted width lsb msb)) k
    ∙ ap₂ max (kept-bit width (inserted width lsb msb) old k (inserted-lt width lsb msb) was)
        (bit-bit_and (field width lsb msb src) (inserted width lsb msb) k)
    ∙ ground (
      arith,
      bit_of_inserted width lsb msb k low high,
      field-bit width lsb msb src k fits low high,
      bit-lt old k,
      bit-lt src (place (bits width) lsb msb k),
    )
bitfield_result-expected_bit Opcode.sbfm width lsb msb src old k fits was low high =
    if_both (λ t. bit t k ≡ expected_bit Opcode.sbfm (bits width) lsb msb src old k)
      (bit_and (field width lsb msb src >>> (field_length (bits width) lsb msb - 1)) 1 != 0)
      (λ signed.
        bit-bit_or (field width lsb msb src)
          (bit_and (width_mask width)
            (complement 64 (ones width (field_length (bits width) lsb msb))))
          k
        ∙ signed_bit (bits width) (field_length (bits width) lsb msb) (bottom (bits width) lsb msb)
            k (bit src (place (bits width) lsb msb k)) (bit src msb) _ _
            (length_le (bits width) lsb msb low high) (sign_of signed)
            (field-bit width lsb msb src k fits low high)
            (filled width (field_length (bits width) lsb msb) k
              (length_le (bits width) lsb msb low high))
            (bit-lt src (place (bits width) lsb msb k)))
      λ plain.
        plain_bit (bits width) (field_length (bits width) lsb msb) (bottom (bits width) lsb msb) k
          (bit src (place (bits width) lsb msb k)) (bit src msb) _ (no_sign_of plain)
          (field-bit width lsb msb src k fits low high)
  where
    sign_of :
        (bit_and (field width lsb msb src >>> (field_length (bits width) lsb msb - 1)) 1 != 0)
          ≡ true
        → bit src msb ≡ 1
    sign_of signed = ground (arith, sign_test width lsb msb src fits low high)

    no_sign_of :
        (bit_and (field width lsb msb src >>> (field_length (bits width) lsb msb - 1)) 1 != 0)
          ≡ false
        → bit src msb ≡ 0
    no_sign_of plain = ground (arith, sign_test width lsb msb src fits low high, bit-lt src msb)
bitfield_result-expected_bit _ width lsb msb src old k fits was low high =
    field-bit width lsb msb src k fits low high
