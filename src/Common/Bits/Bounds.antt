-- ===== src/Common/Bits/Bounds.antt =====
-- The size of a number and its bits.
use Prim.Native.Nat.{ℕ, zero, suc, ◌-◌, ◌/◌, ◌^◌, ◌≤◌, ◌<◌, bit_or}
use mathlib.Core.Path.{◌≡◌, ap, ◌∙◌}
use mathlib.Core.Logic.{inl, inr}
use native.Mathlib.Nat.{pow-suc, one-le-pow}
use native.Mathlib.Omega.{arith}
use oemu.Common.Tests.{Bool-cases, ltb}
use oemu.Common.Bits.{bit, bit-lt, bit_of_zero, bit-bit_or, le_of_bits}

-- A number has no bits above its size.
pub bit_above : (k x j : ℕ) → x < 2 ^ k → k ≤ j → bit x j ≡ 0
unfolding bit
bit_above zero x j small h = ap (λ t. bit t j) (omega arith) ∙ bit_of_zero j
bit_above (suc k) x zero small h = absurd (omega arith)
bit_above (suc k) x (suc j) small h =
    bit_above k (x / 2) j (omega (arith, pow-suc 2 k)) (omega arith)

-- A mask of low bits has them all.
pub ones_bit : (k j : ℕ) → j < k → bit (2 ^ k - 1) j ≡ 1
unfolding bit
ones_bit zero j h = absurd (omega arith)
ones_bit (suc k) zero h = omega (arith, pow-suc 2 k, one-le-pow k 2 (omega arith))
ones_bit (suc k) (suc j) h =
    ap (λ t. bit t j) (omega (arith, pow-suc 2 k, one-le-pow k 2 (omega arith)))
    ∙ ones_bit k j (omega arith)

-- Words of k bits are closed under `|`.
pub bit_or-lt : (k a b : ℕ) → a < 2 ^ k → b < 2 ^ k → bit_or a b < 2 ^ k
bit_or-lt k a b ha hb =
    omega (arith, le_of_bits (bit_or a b) (2 ^ k - 1) each, one-le-pow k 2 (omega arith))
  where
    each : (j : ℕ) → bit (bit_or a b) j ≤ bit (2 ^ k - 1) j
    each j = elim (Bool-cases (ltb j k)) [
      | inl h ↦ omega (arith, bit-lt (bit_or a b) j, ones_bit k j (ground (arith, h)))
      | inr h ↦ omega (
        arith,
        bit-bit_or a b j,
        bit_above k a j ha (ground (arith, h)),
        bit_above k b j hb (ground (arith, h)),
      )
    ]
