-- ===== src/Common/Bits.antt =====
-- The binary digits of a number, and what `&`, `|`, shifts and masks do to them.
pub mod Masks
pub mod Bounds
pub mod Shifts
use Prim.Native.Nat.{
  ℕ, zero, suc, ◌+◌, ◌*◌, ◌/◌, ◌%◌, ◌^◌, ◌≤◌, ◌<◌, min, max, bit_and, bit_or, digits,
  bit_and-bitwise, bit_or-bitwise,
}
use mathlib.Core.Path.{◌≡◌, refl, sym, ap, ◌∙◌}
use mathlib.Core.Logic.{◌⊎◌, inl, inr}
use native.Mathlib.Nat.{pow-suc, div-div-eq-div-mul}
use native.Mathlib.Omega.{arith}

-- Bit `k` of `x`.
unfoldable pub bit : ℕ → ℕ → ℕ
bit x zero = x % 2
bit x (suc k) = bit (x / 2) k

pub bit-lt : (x k : ℕ) → bit x k < 2
unfolding bit
bit-lt x zero = omega arith
bit-lt x (suc k) = bit-lt (x / 2) k

pub bit_of_zero : (k : ℕ) → bit 0 k ≡ 0
unfolding bit
bit_of_zero zero = refl
bit_of_zero (suc k) = bit_of_zero k

-- `(x >> k) & 1`
pub bit_lem : (x k : ℕ) → bit x k ≡ x / 2 ^ k % 2
unfolding bit
bit_lem x zero = omega arith
bit_lem x (suc k) = bit_lem (x / 2) k ∙ ap (λ t. t % 2) shift
  where
    shift : x / 2 / 2 ^ k ≡ x / 2 ^ suc k
    shift = div-div-eq-div-mul x 2 (2 ^ k) ∙ ap (λ t. x / t) (omega (arith, pow-suc 2 k))

-- The digitwise operations act on each bit by itself.
module _ (z : ℕ → ℕ) (f : ℕ → ℕ → ℕ) (f_lt : (a b : ℕ) → a < 2 → b < 2 → f a b < 2)
    (z_bit : (b k : ℕ) → bit (z b) k ≡ f 0 (bit b k)) where
  bit-digits : (k n a b : ℕ) → a ≤ n → bit (digits z f n a b) k ≡ f (bit a k) (bit b k)
  unfolding bit
  bit-digits k zero zero b h = z_bit b k ∙ ap (λ t. f t (bit b k)) (sym (bit_of_zero k))
  bit-digits k zero (suc a) b h = absurd (omega arith)
  bit-digits k (suc n) zero b h = z_bit b k ∙ ap (λ t. f t (bit b k)) (sym (bit_of_zero k))
  bit-digits zero (suc n) (suc a) b h =
      omega (arith, f_lt (suc a % 2) (b % 2) (omega arith) (omega arith))
  bit-digits (suc k) (suc n) (suc a) b h =
      ap (λ t. bit t k) halved ∙ bit-digits k n (suc a / 2) (b / 2) (omega arith)
    where
      halved :
          (digits z f n (suc a / 2) (b / 2) * 2 + f (suc a % 2) (b % 2)) / 2
          ≡ digits z f n (suc a / 2) (b / 2)
      halved = omega (arith, f_lt (suc a % 2) (b % 2) (omega arith) (omega arith))

pub bit-bit_and : (a b k : ℕ) → bit (bit_and a b) k ≡ min (bit a k) (bit b k)
bit-bit_and a b k =
    ap (λ t. bit t k) (bit_and-bitwise a b)
    ∙ bit-digits (λ c. 0) min (λ c d p q. omega arith) (λ c j. omega (arith, bit_of_zero j)) k a a b
        (omega arith)

pub bit-bit_or : (a b k : ℕ) → bit (bit_or a b) k ≡ max (bit a k) (bit b k)
bit-bit_or a b k =
    ap (λ t. bit t k) (bit_or-bitwise a b)
    ∙ bit-digits (λ c. c) max (λ c d p q. omega arith) (λ c j. omega arith) k a a b (omega arith)

zero_or_pos : (n : ℕ) → (n ≡ 0) ⊎ (0 < n)
zero_or_pos zero = inl refl
zero_or_pos (suc n) = inr (omega arith)

-- A number is its bits.
bit_ext_below : (n a b : ℕ) → a ≤ n → b ≤ n → ((k : ℕ) → bit a k ≡ bit b k) → a ≡ b
unfolding bit
bit_ext_below zero a b p q h = omega arith
bit_ext_below (suc n) a b p q h =
    omega (arith, h 0, bit_ext_below n (a / 2) (b / 2) (omega arith) (omega arith) (λ k. h (suc k)))

pub bit_ext : (a b : ℕ) → ((k : ℕ) → bit a k ≡ bit b k) → a ≡ b
bit_ext a b = bit_ext_below (a + b) a b (omega arith) (omega arith)

le_of_bits_below : (n a b : ℕ) → a ≤ n → ((k : ℕ) → bit a k ≤ bit b k) → a ≤ b
unfolding bit
le_of_bits_below zero a b p h = omega arith
le_of_bits_below (suc n) a b p h = elim (zero_or_pos a) [
  | inl e ↦ omega arith
  | inr q ↦ omega (arith, h 0, le_of_bits_below n (a / 2) (b / 2) (omega arith) (λ k. h (suc k)))
]

-- A number whose bits are all below another's is at most that.
pub le_of_bits : (a b : ℕ) → ((k : ℕ) → bit a k ≤ bit b k) → a ≤ b
le_of_bits a b = le_of_bits_below a a b (omega arith)
