-- ===== src/Decode/Masks/Pattern.antt =====
-- src/decode/decode.c: the pattern of the masks of the logical immediates.
use native.Mathlib.Nat.{mod-lt, mod-eq_of_lt, mod-eq-sub-mod, one-le-pow, pow-le-pow_right}
use oemu.Common.{
  ℕ, zero, suc, ◌+◌, ◌-◌, ◌*◌, ◌/◌, ◌%◌, ◌^◌, ◌≤◌, ◌<◌, max, bit_and, bit_or, ◌≡◌, refl, sym, ap,
  ap₂, ◌∙◌, true, false, ◌&&◌, ◌||◌, Option, none, some, ltb, leb, ◌==◌, if◌then◌else◌, arith,
  subst, if_both, Bool-cases, inl, inr,
}
use oemu.Common.Bits.{bit, bit-bit_or, bit_of_zero}
use oemu.Common.Bits.Masks.{bit_and_low}
use oemu.Common.Bits.Bounds.{bit_above}
use oemu.Common.Bits.Shifts.{
  bit_of_quotient, bit_of_product, bit_of_remainder, bit_of_low, bit_of_ones,
}
use oemu.Common.Word.{◌>>>◌, ◌<<<◌, u64}
use oemu.Regs.{Width, w32, w64}
use oemu.Decode.{reg_bits}
use oemu.Decode.Masks.{ror, replicate_from, masks_of}

-- The place that a rotation to the right by `amount` brings to the place k.
abbrev pub rotated : ℕ → ℕ → ℕ → ℕ
rotated n amount k = if ltb (k + amount) n then k + amount else k + amount - n

ror_pieces :
    (value amount n k : ℕ)
    → n ≤ 64
    → amount < n
    → k < n
    → bit
        (bit_and
          (bit_or
            (bit_and value (2 ^ n - 1) >>> amount)
            (u64 (bit_and value (2 ^ n - 1) <<< (n - amount))))
          (2 ^ n - 1))
        k
      ≡ bit value (rotated n amount k)
ror_pieces value amount n k fits low inside =
    let masked = bit_and value (2 ^ n - 1) in
    let right = bit_of_quotient amount masked k in
    let left = bit_of_product (n - amount) masked k in
    let cut = bit_of_remainder 64 (masked <<< (n - amount)) k in
    let both = bit-bit_or (masked >>> amount) (u64 (masked <<< (n - amount))) k in
    let above = bit_of_low n value (amount + k) in
    let below = bit_of_low n value (k - (n - amount)) in
    bit_of_low n _ k ∙ elim (Bool-cases (ltb (k + amount) n)) [
      | inl straight ↦
          let same : bit value (amount + k) ≡ bit value (k + amount) =
            ap (bit value) (omega arith) in
          ground (arith, straight, inside, right, left, cut, both, above, same)
      | inr wraps ↦
          let same : bit value (k - (n - amount)) ≡ bit value (k + amount - n) =
            ap (bit value) (ground (arith, wraps)) in
          ground (arith, wraps, inside, fits, right, left, cut, both, above, below, same)
    ]

ror-bit :
    (value amount n k : ℕ)
    → n ≤ 64
    → amount < n
    → k < n
    → bit (ror value amount n) k ≡ bit value (rotated n amount k)
unfolding ror
ror-bit value amount n k fits low inside =
    subst
      (λ s.
        bit
          (if s == 0
            then bit_and value (2 ^ n - 1)
            else bit_and
                (bit_or (bit_and value (2 ^ n - 1) >>> s)
                  (u64 (bit_and value (2 ^ n - 1) <<< (n - s))))
                (2 ^ n - 1))
          k
        ≡ bit value (rotated n amount k))
      (sym (mod-eq_of_lt low))
      (if_both (λ x. bit x k ≡ bit value (rotated n amount k)) (amount == 0)
        (λ still.
          let same : k ≡ rotated n amount k = ground (arith, still, inside) in
          bit_of_low n value k ∙ ground (arith, inside, ap (bit value) same))
        λ _. ror_pieces value amount n k fits low inside)

-- A round of the replication, at the place j.
round-bit :
    (left pos n element mask j : ℕ)
    → 0 < n
    → element < 2 ^ n
    → max (bit (bit_or mask (u64 (element <<< pos))) j) (
        if leb (pos + n) j && ltb j (pos + n + left * n) && ltb j 64
        then bit element ((j - (pos + n)) % n)
        else 0)
      ≡ max (bit mask j) (
          if leb pos j && ltb j (pos + suc left * n) && ltb j 64
          then bit element ((j - pos) % n)
          else 0)
round-bit left pos n element mask j some_bits fits =
    let both = bit-bit_or mask (u64 (element <<< pos)) j in
    let cut = bit_of_remainder 64 (element <<< pos) j in
    let shifted = bit_of_product pos element j in
    let more : suc left * n ≡ left * n + n = grind arith in
    elim (Bool-cases (ltb j pos)) [
      | inl before ↦ ground (arith, before, both, cut, shifted, more)
      | inr from ↦ elim (Bool-cases (ltb j (pos + n))) [
        | inl here ↦
            let same : bit element ((j - pos) % n) ≡ bit element (j - pos) =
              ap (bit element) (mod-eq_of_lt (ground (arith, here, from))) in
            ground (arith, from, here, both, cut, shifted, more, same)
        | inr after ↦
            let gone : bit element (j - pos) ≡ 0 =
              bit_above n element (j - pos) fits (ground (arith, after)) in
            let same : bit element ((j - pos) % n) ≡ bit element ((j - (pos + n)) % n) =
              ap (bit element) (
                mod-eq-sub-mod {n = j - pos} {m = n} (ground (arith, after))
                ∙ ap (λ x. x % n) (omega arith)) in
            ground (arith, from, after, both, cut, shifted, more, same, gone)
      ]
    ]

replicate_from-bit :
    (left pos n element mask j : ℕ)
    → 0 < n
    → element < 2 ^ n
    → bit (replicate_from left pos n element mask) j
      ≡ max (bit mask j) (
          if leb pos j && ltb j (pos + left * n) && ltb j 64
          then bit element ((j - pos) % n)
          else 0)
unfolding replicate_from
replicate_from-bit zero pos n element mask j some_bits fits = ground arith
replicate_from-bit (suc left) pos n element mask j some_bits fits =
    replicate_from-bit left (pos + n) n element (bit_or mask (u64 (element <<< pos))) j some_bits
      fits
    ∙ round-bit left pos n element mask j some_bits fits

-- What the search for a mask of an element size gives: a run of ones in each element, turned to the
-- right, or nothing; nothing for an element that is wider than the register or all ones, and for no
-- other.
pub data IsMask (n imms immr width : ℕ) : Option ℕ → Type 0 where
  repeats :
      {mask : ℕ}
      → (ltb width n || imms % n == n - 1) ≡ false
      → ((k : ℕ)
          → bit mask k
            ≡ (if ltb k width && leb (rotated n (immr % n) (k % n)) (imms % n) then 1 else 0))
      → IsMask n imms immr width (some mask)
  refuses : (ltb width n || imms % n == n - 1) ≡ true → IsMask n imms immr width none

masked-lt : (n x : ℕ) → bit_and x (2 ^ n - 1) < 2 ^ n
masked-lt n x = omega (arith, bit_and_low n x, mod-lt x (one-le-pow n 2 (omega arith)))

ror-lt : (value amount n : ℕ) → ror value amount n < 2 ^ n
unfolding ror
ror-lt value amount n =
    if_both (λ x. x < 2 ^ n) (amount % n == 0) (λ _. masked-lt n value) λ _. masked-lt n _

six_below : (len : ℕ) → 7 ≤ suc (suc (suc (suc (suc (suc (suc len))))))
six_below len = omega arith

-- A register is a whole number of elements.
whole_elements :
    (len : ℕ) (width : Width)
    → 2 ^ len ≤ reg_bits width
    → reg_bits width / 2 ^ len * 2 ^ len ≡ reg_bits width
whole_elements zero width h = omega arith
whole_elements (suc zero) w32 h = refl
whole_elements (suc zero) w64 h = refl
whole_elements (suc (suc zero)) w32 h = refl
whole_elements (suc (suc zero)) w64 h = refl
whole_elements (suc (suc (suc zero))) w32 h = refl
whole_elements (suc (suc (suc zero))) w64 h = refl
whole_elements (suc (suc (suc (suc zero)))) w32 h = refl
whole_elements (suc (suc (suc (suc zero)))) w64 h = refl
whole_elements (suc (suc (suc (suc (suc zero))))) w32 h = refl
whole_elements (suc (suc (suc (suc (suc zero))))) w64 h = refl
whole_elements (suc (suc (suc (suc (suc (suc zero)))))) w32 h = absurd (omega (arith, h))
whole_elements (suc (suc (suc (suc (suc (suc zero)))))) w64 h = refl
whole_elements (suc (suc (suc (suc (suc (suc (suc len))))))) w32 h =
    absurd (omega (arith, h, pow-le-pow_right {n = 2} (omega arith) (six_below len)))
whole_elements (suc (suc (suc (suc (suc (suc (suc len))))))) w64 h =
    absurd (omega (arith, h, pow-le-pow_right {n = 2} (omega arith) (six_below len)))

width_le : (width : Width) → reg_bits width ≤ 64
width_le w32 = omega arith
width_le w64 = omega arith

-- A bit of the replicated element, inside the register.
pattern-bit :
    (n s r width rounds k : ℕ)
    → 0 < n
    → n ≤ 64
    → width ≤ 64
    → rounds * n ≡ width
    → r < n
    → bit (bit_and (replicate_from rounds 0 n (ror (2 ^ (s + 1) - 1) r n) 0) (2 ^ width - 1)) k
      ≡ (if ltb k width && leb (rotated n r (k % n)) s then 1 else 0)
pattern-bit n s r width rounds k some_bits fits inside all low =
    let element = ror (2 ^ (s + 1) - 1) r n in
    let turned = ror-bit (2 ^ (s + 1) - 1) r n (k % n) fits low (mod-lt k some_bits) in
    let run = bit_of_ones (s + 1) (rotated n r (k % n)) in
    let same : bit element ((k - 0) % n) ≡ bit element (k % n) =
      ap (bit element) (ap (λ x. x % n) (omega arith)) in
    bit_of_low width (replicate_from rounds 0 n element 0) k
    ∙ ground (
      arith,
      replicate_from-bit rounds 0 n element 0 k some_bits (ror-lt (2 ^ (s + 1) - 1) r n),
      bit_of_zero k,
      turned,
      run,
      same,
      all,
      inside,
    )

-- For an element of 2^`len` bits and a register of either width: the mask repeats an element whose
-- bits from 0 to `imms` (modulo the element's size) are ones and the rest zeros, turned to the right
-- by `immr` (modulo that size); there is none exactly where the element is wider than the register or
-- would be all ones.
pub masks_of-IsMask :
    (len imms immr : ℕ) (width : Width)
    → IsMask (2 ^ len) imms immr (reg_bits width) (masks_of (2 ^ len) imms immr (reg_bits width))
unfolding masks_of
masks_of-IsMask len imms immr width =
    let n = 2 ^ len in
    let w = reg_bits width in
    let s = bit_and imms (n - 1) in
    let r = bit_and immr (n - 1) in
    let some_bits = one-le-pow len 2 (omega arith) in
    let cut_s = bit_and_low len imms in
    let cut_r = bit_and_low len immr in
    if_both (IsMask n imms immr w) (ltb w n) (λ wide. refuses (ground (arith, wide)))
      λ fits.
        if_both (IsMask n imms immr w) (s == n - 1) (λ full. refuses (ground (arith, full, cut_s)))
          λ partial. repeats (ground (arith, fits, partial, cut_s)) λ k.
            pattern-bit n s r w (w / n) k some_bits (ground (arith, fits, width_le width))
              (width_le width) (whole_elements len width (ground (arith, fits)))
              (omega (arith, cut_r, mod-lt immr some_bits))
            ∙ ap₂ (λ a b. if ltb k w && leb (rotated n a (k % n)) b then 1 else 0) cut_r cut_s
