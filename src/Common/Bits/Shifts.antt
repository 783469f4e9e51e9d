-- ===== src/Common/Bits/Shifts.antt =====
-- The digits of a number that is shifted or cut off.
use native.Mathlib.Nat.{pow-suc, mod-lt, one-le-pow, div-div-eq-div-mul}
use oemu.Common.{
  ℕ, zero, suc, ◌+◌, ◌-◌, ◌*◌, ◌/◌, ◌%◌, ◌^◌, ◌<◌, bit_and, ◌≡◌, refl, ap, ap₂, sym, ◌∙◌, ltb, leb,
  if◌then◌else◌, arith, if_both,
}
use oemu.Common.Bits.{bit}
use oemu.Common.Bits.Bounds.{bit_above, ones_bit}
use oemu.Common.Bits.Masks.{bit_and_low, bit-mod}

same_bit : (x y k j : ℕ) → x ≡ y → k ≡ j → bit x k ≡ bit y j
same_bit x y k j e f = ap₂ bit e f

pub bit_of_quotient : (n x k : ℕ) → bit (x / 2 ^ n) k ≡ bit x (n + k)
unfolding bit
bit_of_quotient zero x k = same_bit (x / 2 ^ 0) x k (0 + k) (omega arith) (omega arith)
bit_of_quotient (suc n) x k =
    ap (λ t. bit t k)
      (ap (λ t. x / t) (omega (arith, pow-suc 2 n)) ∙ sym (div-div-eq-div-mul x 2 (2 ^ n)))
    ∙ bit_of_quotient n (x / 2) k
    ∙ same_bit x x (suc (n + k)) (suc n + k) refl (omega arith)

doubled : (n x : ℕ) → x * 2 ^ suc n ≡ x * 2 ^ n * 2
doubled n x = ap (λ t. x * t) (pow-suc 2 n) ∙ grind arith

pub bit_of_product : (n x k : ℕ) → bit (x * 2 ^ n) k ≡ (if leb n k then bit x (k - n) else 0)
unfolding bit
bit_of_product zero x k =
    if_both (λ t. bit (x * 2 ^ 0) k ≡ t) (leb 0 k)
      (λ _. same_bit (x * 2 ^ 0) x k (k - 0) (omega arith) (omega arith)) λ none_below. ground arith
bit_of_product (suc n) x zero = ground (arith, doubled n x)
bit_of_product (suc n) x (suc k) =
    ap (λ t. bit t k) (omega (arith, doubled n x)) ∙ bit_of_product n x k ∙ ground arith

pub bit_of_remainder : (n x k : ℕ) → bit (x % 2 ^ n) k ≡ (if ltb k n then bit x k else 0)
bit_of_remainder n x k =
    if_both (λ t. bit (x % 2 ^ n) k ≡ t) (ltb k n) (λ inside. bit-mod n x k (ground arith))
      λ outside. bit_above n (x % 2 ^ n) k (mod-lt x (one-le-pow n 2 (omega arith))) (ground arith)

pub bit_of_low : (n x k : ℕ) → bit (bit_and x (2 ^ n - 1)) k ≡ (if ltb k n then bit x k else 0)
bit_of_low n x k = ap (λ t. bit t k) (bit_and_low n x) ∙ bit_of_remainder n x k

pub bit_of_complement : (w x k : ℕ) → x < 2 ^ w → k < w → bit (2 ^ w - 1 - x) k ≡ 1 - bit x k
unfolding bit
bit_of_complement zero x k h low = absurd (omega arith)
bit_of_complement (suc w) x zero h low = omega (arith, pow-suc 2 w)
bit_of_complement (suc w) x (suc k) h low =
    ap (λ t. bit t k) (omega (arith, pow-suc 2 w))
    ∙ bit_of_complement w (x / 2) k (omega (arith, pow-suc 2 w)) (omega arith)

pub bit_of_ones : (n k : ℕ) → bit (2 ^ n - 1) k ≡ (if ltb k n then 1 else 0)
bit_of_ones n k =
    if_both (λ t. bit (2 ^ n - 1) k ≡ t) (ltb k n) (λ inside. ones_bit n k (ground arith))
      λ outside.
        bit_above n (2 ^ n - 1) k (omega (arith, one-le-pow n 2 (omega arith))) (ground arith)
