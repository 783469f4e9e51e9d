-- ===== src/Common/Bits/Masks.antt =====
-- `&` and `|` with the masks that the sources use: one flag, the low bits, disjoint fields.
use Prim.Native.Nat.{
  ℕ, zero, suc, ◌+◌, ◌-◌, ◌*◌, ◌/◌, ◌%◌, ◌^◌, ◌≤◌, ◌<◌, min, max, bit_and, bit_or,
}
use mathlib.Core.Path.{◌≡◌, refl, sym, ap, ap₂, ◌∙◌}
use mathlib.Core.Logic.{◌⊎◌, inl, inr}
use native.Mathlib.Nat.{pow-suc, one-le-pow, div-add-mod', div-div-eq-div-mul}
use oemu.Common.Tests.{◌==◌, if◌then◌else◌}
use native.Mathlib.Omega.{arith}
use oemu.Common.Bits.{bit, bit_of_zero, bit-bit_and, bit-bit_or, bit_ext}

-- One digit at a time.
pub bit_and_step : (a b : ℕ) → bit_and a b ≡ bit_and (a / 2) (b / 2) * 2 + min (a % 2) (b % 2)
unfolding bit
bit_and_step a b = bit_ext _ _ λ k. same k
  where
    same : (k : ℕ) → bit (bit_and a b) k ≡ bit (bit_and (a / 2) (b / 2) * 2 + min (a % 2) (b % 2)) k
    same zero = omega (arith, bit-bit_and a b 0)
    same (suc k) =
        bit-bit_and a b (suc k)
        ∙ sym (bit-bit_and (a / 2) (b / 2) k)
        ∙ ap (λ t. bit t k) (omega arith)

pub bit_or_step : (a b : ℕ) → bit_or a b ≡ bit_or (a / 2) (b / 2) * 2 + max (a % 2) (b % 2)
unfolding bit
bit_or_step a b = bit_ext _ _ λ k. same k
  where
    same : (k : ℕ) → bit (bit_or a b) k ≡ bit (bit_or (a / 2) (b / 2) * 2 + max (a % 2) (b % 2)) k
    same zero = omega (arith, bit-bit_or a b 0)
    same (suc k) =
        bit-bit_or a b (suc k)
        ∙ sym (bit-bit_or (a / 2) (b / 2) k)
        ∙ ap (λ t. bit t k) (omega arith)

pub bit_and-zero : (a : ℕ) → bit_and a 0 ≡ 0
bit_and-zero a = bit_ext _ _ λ k. bit-bit_and a 0 k ∙ omega (arith, bit_of_zero k)

pub bit_or-zero : (a : ℕ) → bit_or a 0 ≡ a
bit_or-zero a = bit_ext _ _ λ k. bit-bit_or a 0 k ∙ omega (arith, bit_of_zero k)

pub bit_and_comm : (a b : ℕ) → bit_and a b ≡ bit_and b a
bit_and_comm a b = bit_ext _ _ λ k. omega (arith, bit-bit_and a b k, bit-bit_and b a k)

pub bit_or_comm : (a b : ℕ) → bit_or a b ≡ bit_or b a
bit_or_comm a b = bit_ext _ _ λ k. omega (arith, bit-bit_or a b k, bit-bit_or b a k)

bit_and-le_below : (n a b : ℕ) → b ≤ n → bit_and a b ≤ b
bit_and-le_below zero a b h = rw (bit_and_step a b) (omega (arith, zero_case))
  where
    zero_case : bit_and (a / 2) (b / 2) ≡ 0
    zero_case = ap (λ t. bit_and (a / 2) t) (omega arith) ∙ bit_and-zero (a / 2)
bit_and-le_below (suc n) a b h = rw (bit_and_step a b) (elim (Nat_cases b) [
  | inl e ↦ omega (arith, ap (λ t. bit_and (a / 2) (t / 2)) e, bit_and-zero (a / 2))
  | inr p ↦ omega (arith, bit_and-le_below n (a / 2) (b / 2) (omega arith))
])
  where
    Nat_cases : (m : ℕ) → (m ≡ 0) ⊎ (0 < m)
    Nat_cases zero = inl refl
    Nat_cases (suc m) = inr (omega arith)

pub bit_and-le : (a b : ℕ) → bit_and a b ≤ b
bit_and-le a b = bit_and-le_below b a b (omega arith)

pub bit_and-le_left : (a b : ℕ) → bit_and a b ≤ a
bit_and-le_left a b = rw (bit_and_comm a b) (bit_and-le b a)

mod_suc : (k x : ℕ) → x % 2 ^ suc k ≡ x / 2 % 2 ^ k * 2 + x % 2
mod_suc k x = omega (
  arith,
  div-add-mod' x (2 ^ suc k),
  div-add-mod' (x / 2) (2 ^ k),
  ap (λ (t : ℕ). x / 2 ^ suc k * t) (pow-suc 2 k),
  ap (λ (t : ℕ). t * 2 ^ k) same_quotient,
)
  where
    same_quotient : x / 2 / 2 ^ k ≡ x / 2 ^ suc k
    same_quotient = div-div-eq-div-mul x 2 (2 ^ k) ∙ ap (λ t. x / t) (omega (arith, pow-suc 2 k))

-- `x & (2^k - 1)` is the remainder.
pub bit_and_low : (k x : ℕ) → bit_and x (2 ^ k - 1) ≡ x % 2 ^ k
bit_and_low zero x = omega (arith, bit_and-zero x)
bit_and_low (suc k) x =
    bit_and_step x (2 ^ suc k - 1)
    ∙ ap₂ (λ s t. s * 2 + t) (ap (bit_and (x / 2)) mask_half ∙ bit_and_low k (x / 2)) low_bit
    ∙ sym (mod_suc k x)
  where
    mask_half : (2 ^ suc k - 1) / 2 ≡ 2 ^ k - 1
    mask_half = omega (arith, pow-suc 2 k, one-le-pow k 2 (omega arith))

    low_bit : min (x % 2) ((2 ^ suc k - 1) % 2) ≡ x % 2
    low_bit = omega (arith, pow-suc 2 k, one-le-pow k 2 (omega arith))

-- `x & (1 << k)` is that flag in its place.
pub bit_and_flag : (k x : ℕ) → bit_and x (2 ^ k) ≡ bit x k * 2 ^ k
unfolding bit
bit_and_flag zero x = bit_and_step x 1 ∙ omega (arith, bit_and-zero (x / 2))
bit_and_flag (suc k) x =
    bit_and_step x (2 ^ suc k)
    ∙ omega (
      arith,
      pow-suc 2 k,
      ap (bit_and (x / 2)) half,
      bit_and_flag k (x / 2),
      ap (λ (t : ℕ). bit (x / 2) k * t) (pow-suc 2 k),
    )
  where
    half : 2 ^ suc k / 2 ≡ 2 ^ k
    half = omega (arith, pow-suc 2 k)

-- `(q << k) | r` is a sum where `r` fits below the shift.
pub bit_or_fields : (k q r : ℕ) → r < 2 ^ k → bit_or (q * 2 ^ k) r ≡ q * 2 ^ k + r
bit_or_fields zero q r h = ap (bit_or (q * 1)) (omega arith) ∙ bit_or-zero (q * 1) ∙ omega arith
bit_or_fields (suc k) q r h =
    bit_or_step (q * 2 ^ suc k) r
    ∙ omega (
      arith,
      double,
      ap (λ (t : ℕ). bit_or t (r / 2)) half,
      bit_or_fields k q (r / 2) (omega (arith, pow-suc 2 k)),
    )
  where
    double : q * 2 ^ suc k ≡ q * 2 ^ k * 2
    double = omega (arith, ap (λ (t : ℕ). q * t) (pow-suc 2 k))

    half : q * 2 ^ suc k / 2 ≡ q * 2 ^ k
    half = omega (arith, double)

-- One flag has one bit.
pub bit_flag : (k j : ℕ) → bit (1 * 2 ^ k) j ≡ (if k == j then 1 else 0)
unfolding bit
bit_flag zero zero = refl
bit_flag zero (suc j) = bit_of_zero j ∙ ground arith
bit_flag (suc k) zero = ground (arith, pow-suc 2 k)
bit_flag (suc k) (suc j) =
    ap (λ t. bit t j) (omega (arith, pow-suc 2 k)) ∙ bit_flag k j ∙ ground arith

-- A cast keeps the low bits.
pub bit-mod : (k x j : ℕ) → j < k → bit (x % 2 ^ k) j ≡ bit x j
unfolding bit
bit-mod zero x j h = absurd (omega arith)
bit-mod (suc k) x zero h = omega (arith, mod_suc k x)
bit-mod (suc k) x (suc j) h =
    ap (λ t. bit t j) (omega (arith, mod_suc k x)) ∙ bit-mod k (x / 2) j (omega arith)

pub bit_and_assoc : (a b c : ℕ) → bit_and (bit_and a b) c ≡ bit_and a (bit_and b c)
bit_and_assoc a b c = bit_ext _ _ λ k. omega (
  arith,
  bit-bit_and (bit_and a b) c k,
  bit-bit_and a b k,
  bit-bit_and a (bit_and b c) k,
  bit-bit_and b c k,
)

pub bit_and-bit_or : (a b c : ℕ) → bit_and (bit_or a b) c ≡ bit_or (bit_and a c) (bit_and b c)
bit_and-bit_or a b c = bit_ext _ _ λ k. omega (
  arith,
  bit-bit_and (bit_or a b) c k,
  bit-bit_or a b k,
  bit-bit_or (bit_and a c) (bit_and b c) k,
  bit-bit_and a c k,
  bit-bit_and b c k,
)

-- A field of a masked word, where the mask covers it.
pub bit_and_absorb : (a b c : ℕ) → bit_and b c ≡ c → bit_and (bit_and a b) c ≡ bit_and a c
bit_and_absorb a b c e = bit_and_assoc a b c ∙ ap (bit_and a) e

pub bit_and_disjoint : (a b c : ℕ) → bit_and b c ≡ 0 → bit_and (bit_and a b) c ≡ 0
bit_and_disjoint a b c e = bit_and_assoc a b c ∙ ap (bit_and a) e ∙ bit_and-zero a

pub zero-bit_or : (a : ℕ) → bit_or 0 a ≡ a
zero-bit_or a = bit_or_comm 0 a ∙ bit_or-zero a

-- `x & ~(2^k - 1)` in a w-bit word drops the low bits.
pub bit_and_high : (k n w a : ℕ) → n + k ≡ w → bit_and a (2 ^ w - 2 ^ k) ≡ a % 2 ^ w / 2 ^ k * 2 ^ k
bit_and_high zero n w a e = bit_and_low w a ∙ omega arith
bit_and_high (suc k) n zero a e = absurd (omega arith)
bit_and_high (suc k) n (suc w) a e =
    bit_and_step a (2 ^ suc w - 2 ^ suc k)
    ∙ ap₂ (λ s t. s * 2 + t) (ap (bit_and (a / 2)) half ∙ bit_and_high k n w (a / 2) (omega arith))
        low
    ∙ omega (
      arith,
      ap (λ (t : ℕ). a % 2 ^ suc w / 2 ^ suc k * t) (pow-suc 2 k),
      ap (λ (t : ℕ). t * 2 ^ k) quotient,
    )
  where
    half : (2 ^ suc w - 2 ^ suc k) / 2 ≡ 2 ^ w - 2 ^ k
    half = omega (arith, pow-suc 2 w, pow-suc 2 k)

    low : min (a % 2) ((2 ^ suc w - 2 ^ suc k) % 2) ≡ 0
    low = omega (arith, pow-suc 2 w, pow-suc 2 k)

    quotient : a % 2 ^ suc w / 2 ^ suc k ≡ a / 2 % 2 ^ w / 2 ^ k
    quotient =
        ap (λ t. a % 2 ^ suc w / t)
          (let t : 2 ^ suc k ≡ 2 * 2 ^ k = omega (arith, pow-suc 2 k) in t)
        ∙ sym (div-div-eq-div-mul (a % 2 ^ suc w) 2 (2 ^ k))
        ∙ ap (λ t. t / 2 ^ k) (omega (arith, mod_suc w a))
