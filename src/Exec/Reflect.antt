-- ===== src/Exec/Reflect.antt =====
-- src/exec/exec.c: the reversal of the bits of a register.
use native.Mathlib.Nat.{one-le-pow, mod-lt}
use oemu.Common.{
  ℕ, zero, suc, ◌+◌, ◌-◌, ◌*◌, ◌%◌, ◌^◌, ◌≤◌, ◌<◌, max, bit_and, bit_or, ◌≡◌, ap, ◌∙◌, ltb, ◌==◌,
  ◌!=◌, if◌then◌else◌, if_both, arith, inl, inr, Bool-cases, ==→eq,
}
use oemu.Common.Bits.{bit, bit-lt, bit_of_zero, bit-bit_and, bit-bit_or, bit_ext}
use oemu.Common.Bits.Bounds.{bit_above, ones_bit}
use oemu.Common.Bits.Masks.{bit_and_flag, bit_flag, bit-mod}
use oemu.Common.Word.{◌<<<◌}
use oemu.Regs.{Width, w32, w64, bits}
use oemu.Exec.{rbit_from, rbit, width_mask}

-- `(value & (1 << i)) != 0`
test_bit : (v i : ℕ) → (bit_and v (1 <<< i) != 0) ≡ (bit v i == 1)
test_bit v i =
    of_flag (bit v i) (2 ^ i) (bit_and v (1 <<< i)) (bit-lt v i) (one-le-pow i 2 (omega arith))
      (ap (bit_and v) (omega arith) ∙ bit_and_flag i v)
  where
    of_flag : (b p t : ℕ) → b < 2 → 1 ≤ p → t ≡ b * p → (t != 0) ≡ (b == 1)
    of_flag zero p t h q e = ground arith
    of_flag (suc zero) p t h q e = ground arith
    of_flag (suc (suc b)) p t h q e = absurd (omega arith)

-- What a round adds.
round_bit :
    (v i left out j : ℕ)
    → bit (if bit_and v (1 <<< i) != 0 then bit_or out (1 <<< left) else out) j
      ≡ max (bit out j) (if left == j then bit v i else 0)
round_bit v i left out j =
    if_both (λ t. bit t j ≡ max (bit out j) (if left == j then bit v i else 0))
      (bit_and v (1 <<< i) != 0)
      (λ yes_set.
        bit-bit_or out (1 <<< left) j
        ∙ ground (arith, bit_flag left j, test_bit v i, yes_set, bit-lt v i))
      λ no_set. ground (arith, test_bit v i, no_set, bit-lt v i)

rbit_from-bit :
    (left i v out j : ℕ)
    → bit (rbit_from left i v out) j
      ≡ max (bit out j) (if ltb j left then bit v (left + i - 1 - j) else 0)
unfolding rbit_from
rbit_from-bit zero i v out j = ground arith
rbit_from-bit (suc left) i v out j =
    rbit_from-bit left (i + 1) v _ j
    ∙ combine (bit v i) (bit v (left + (i + 1) - 1 - j)) (bit v (suc left + i - 1 - j)) (bit out j)
        _ (ap (bit v) (omega arith)) (λ e. ap (bit v) (omega (arith, e))) (round_bit v i left out j)
  where
    combine :
        (this rest all old new : ℕ)
        → rest ≡ all
        → (left ≡ j → all ≡ this)
        → new ≡ max old (if left == j then this else 0)
        → max new (if ltb j left then rest else 0) ≡ max old (if ltb j (suc left) then all else 0)
    combine this rest all old new e last h = elim (Bool-cases (left == j)) [
      | inl q ↦ ground (arith, last (==→eq left j q), e, h, q)
      | inr q ↦ ground (arith, e, h, q)
    ]

-- The mask of a width has the bits below it.
mask_bit : (w : Width) (j : ℕ) → j < bits w → bit (width_mask w) j ≡ 1
mask_bit w32 j h = ones_bit 32 j h
mask_bit w64 j h = ones_bit 64 j h

rbit-bit :
    (v : ℕ) (w : Width) (j : ℕ)
    → bit (rbit v w) j ≡ (if ltb j (bits w) then bit v (bits w - 1 - j) else 0)
unfolding rbit
rbit-bit v w j =
    bit-bit_and _ (width_mask w) j
    ∙ ground (
      arith,
      rbit_from-bit (bits w) 0 v 0 j,
      bit_of_zero j,
      mask_bit w j,
      bit-lt v (bits w - 1 - j),
    )

bit_of_word :
    (v : ℕ) (w : Width) (j : ℕ) → bit (v % 2 ^ bits w) j ≡ (if ltb j (bits w) then bit v j else 0)
bit_of_word v w j = elim (Bool-cases (ltb j (bits w))) [
  | inl h ↦ rw h (bit-mod (bits w) v j (ground (arith, h)))
  | inr h ↦
      rw h (
        bit_above (bits w) _ j (mod-lt v (one-le-pow (bits w) 2 (omega arith))) (ground (arith, h)))
]

twice : (v : ℕ) (w : Width) (j : ℕ) → bit (rbit (rbit v w) w) j ≡ bit (v % 2 ^ bits w) j
twice v w j =
    ground (arith, rbit-bit (rbit v w) w j, rbit-bit v w (bits w - 1 - j), bit_of_word v w j, back)
  where
    back : j < bits w → bit v (bits w - 1 - (bits w - 1 - j)) ≡ bit v j
    back h = ap (bit v) (omega (arith, h))

-- What a reversal is.
pub record Reverses (v : ℕ) (w : Width) : Type 0 where
  pub each_bit : (j : ℕ) → bit (rbit v w) j ≡ (if ltb j (bits w) then bit v (bits w - 1 - j) else 0)
  pub back_again : rbit (rbit v w) w ≡ v % 2 ^ bits w

-- At both widths, the reversal puts each bit of the operand in the place that is as far from the
-- other end, and a second one gives the operand back, cut to the width.
pub rbit-Reverses : (v : ℕ) (w : Width) → Reverses v w
rbit-Reverses v w = record { each_bit = rbit-bit v w; back_again = bit_ext _ _ (twice v w) }
