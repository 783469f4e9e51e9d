-- ===== src/Decode/Fields.antt =====
-- src/decode/decode.c: the bounds of the fields of a word.
use native.Mathlib.Nat.{mod-lt, one-le-pow, pow-le-pow_right}
use oemu.Common.{ℕ, ◌-◌, ◌^◌, ◌≤◌, ◌<◌, bit_and, sym, arith, subst, if_both}
use oemu.Common.Bits.Masks.{bit_and_low}
use oemu.Common.Bits.Bounds.{bit_or-lt}
use oemu.Common.Word.{◌>>>◌, any_set}
use oemu.Decode.{bits, sign_extend, field_rd, field_rn, field_rm, field_ra}

pub bits-lt : (w lsb width : ℕ) → bits w lsb width < 2 ^ width
unfolding bits
bits-lt w lsb width =
    subst (λ t. t < 2 ^ width) (sym (bit_and_low width (w >>> lsb)))
      (mod-lt _ (one-le-pow width 2 (omega arith)))

pub field_rd-lt : (w : ℕ) → field_rd w < 32
unfolding field_rd
field_rd-lt w = bits-lt w 0 5

pub field_rn-lt : (w : ℕ) → field_rn w < 32
unfolding field_rn
field_rn-lt w = bits-lt w 5 5

pub field_rm-lt : (w : ℕ) → field_rm w < 32
unfolding field_rm
field_rm-lt w = bits-lt w 16 5

pub field_ra-lt : (w : ℕ) → field_ra w < 32
unfolding field_ra
field_ra-lt w = bits-lt w 10 5

-- A signed field is a 64-bit word.
pub sign_extend-lt : (value width : ℕ) → width ≤ 64 → sign_extend value width < 2 ^ 64
unfolding sign_extend
sign_extend-lt value width h =
    if_both (λ t. t < 2 ^ 64) (any_set (bit_and value (2 ^ width - 1)) (2 ^ (width - 1)))
      (λ _. bit_or-lt 64 _ _ low (omega arith)) λ _. low
  where
    low : bit_and value (2 ^ width - 1) < 2 ^ 64
    low = omega (
      arith,
      bit_and_low width value,
      mod-lt value (one-le-pow width 2 (omega arith)),
      pow-le-pow_right {n = 2} (omega arith) h,
    )
