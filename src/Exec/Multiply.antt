-- ===== src/Exec/Multiply.antt =====
-- src/exec/exec.c: the high word of a product.
use oemu.Common.{ℕ, ◌+◌, ◌-◌, ◌*◌, ◌/◌, ◌%◌, ◌^◌, ◌≤◌, ◌<◌, ◌≡◌, ap₂, ◌∙◌, arith}
use native.Mathlib.Nat.{mul-le-mul}
use oemu.Common.Bits.Masks.{bit_and_low}
use oemu.Common.Word.{u64}
use oemu.Exec.{umulh}

product :
    (a_hi a_lo b_hi b_lo : ℕ)
    → (a_hi * 2 ^ 32 + a_lo) * (b_hi * 2 ^ 32 + b_lo)
      ≡ a_hi * b_hi * 2 ^ 64 + (a_lo * b_hi + a_hi * b_lo) * 2 ^ 32 + a_lo * b_lo
product a_hi a_lo b_hi b_lo = omega arith

-- The high product of two 64-bit words is the upper word of their 128-bit product.
pub umulh_lem : (a b : ℕ) → a < 2 ^ 64 → b < 2 ^ 64 → umulh a b ≡ a * b / 2 ^ 64
unfolding umulh
umulh_lem a b ha hb =
    rw
      (
        bit_and_low 32 a,
        bit_and_low 32 b,
        bit_and_low 32 (u64 (a_lo * b_hi)),
        bit_and_low 32 (u64 (a_hi * b_lo)),
      )
      (summed (a_lo * b_lo) (a_lo * b_hi) (a_hi * b_lo) (a_hi * b_hi)
        (bound a_lo b_lo (low a) (low b)) (bound a_lo b_hi (low a) (omega arith))
        (bound a_hi b_lo (omega arith) (low b)) (bound a_hi b_hi (omega arith) (omega arith)) whole)
  where
    a_lo : ℕ
    a_lo = a % 2 ^ 32

    b_lo : ℕ
    b_lo = b % 2 ^ 32

    a_hi : ℕ
    a_hi = a / 2 ^ 32

    b_hi : ℕ
    b_hi = b / 2 ^ 32

    bound : (x y : ℕ) → x ≤ 2 ^ 32 - 1 → y ≤ 2 ^ 32 - 1 → x * y ≤ (2 ^ 32 - 1) * (2 ^ 32 - 1)
    bound x y p q = mul-le-mul p q

    low : (x : ℕ) → x % 2 ^ 32 ≤ 2 ^ 32 - 1
    low x = omega arith

    whole : a * b ≡ a_hi * b_hi * 2 ^ 64 + (a_lo * b_hi + a_hi * b_lo) * 2 ^ 32 + a_lo * b_lo
    whole =
        ap₂ (λ x y. x * y) (let e : a ≡ a_hi * 2 ^ 32 + a_lo = omega arith in e)
          (let e : b ≡ b_hi * 2 ^ 32 + b_lo = omega arith in e)
        ∙ product a_hi a_lo b_hi b_lo

    summed :
        (p0 p1 p2 p3 : ℕ)
        → p0 ≤ (2 ^ 32 - 1) * (2 ^ 32 - 1)
        → p1 ≤ (2 ^ 32 - 1) * (2 ^ 32 - 1)
        → p2 ≤ (2 ^ 32 - 1) * (2 ^ 32 - 1)
        → p3 ≤ (2 ^ 32 - 1) * (2 ^ 32 - 1)
        → a * b ≡ p3 * 2 ^ 64 + (p1 + p2) * 2 ^ 32 + p0
        → u64 (
            u64 p3
            + u64 p1 / 2 ^ 32
            + u64 p2 / 2 ^ 32
            + u64 (u64 p0 / 2 ^ 32 + u64 p1 % 2 ^ 32 + u64 p2 % 2 ^ 32) / 2 ^ 32)
          ≡ a * b / 2 ^ 64
    summed p0 p1 p2 p3 h0 h1 h2 h3 e = omega arith
