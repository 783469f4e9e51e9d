-- ===== src/Exec/Count.antt =====
-- src/exec/exec.c: the count of leading zeros.
use native.Mathlib.Nat.{pow-suc, pow-le-pow_right, div-eq_of_lt, div-eq_of_lt-le}
use native.Mathlib.Numerals.{towards_suc}
use oemu.Common.{
  ℕ, zero, suc, ◌+◌, ◌-◌, ◌*◌, ◌/◌, ◌%◌, ◌^◌, ◌≤◌, ◌<◌, bit_and, ◌≡◌, refl, ap, ◌∙◌, true, false,
  ltb, ◌==◌, ◌!=◌, if_both, arith, ◌⊎◌, inl, inr, Bool-cases, subst,
}
use oemu.Common.Bits.Masks.{bit_and_low}
use oemu.Common.Word.{◌>>>◌, u64}
use oemu.Regs.{Width, w32, w64, bits}
use oemu.Exec.{clz_from, clz64_ref, clz}

-- `n` zeros lead a word of `w` bits.
pub record Leads (w x n : ℕ) : Type 0 where
  pub within : n < w
  pub above : x < 2 ^ (w - n)
  pub below : 2 ^ (w - 1 - n) ≤ x

-- The test of a round tells the halves of the range apart.
digit : (q : ℕ) → bit_and q 1 ≡ q % 2
digit q = bit_and_low 1 q

low : (left x : ℕ) → x < 2 ^ suc left → (bit_and (x >>> left) 1 != 0) ≡ false → x < 2 ^ left
low left x small clear = elim (Bool-cases (ltb x (2 ^ left))) [
  | inl h ↦ ground (arith, h)
  | inr h ↦ absurd (ground (arith, clear, digit (x / 2 ^ left), one (ground (arith, h))))
]
  where
    one : 2 ^ left ≤ x → x / 2 ^ left ≡ 1
    one h = div-eq_of_lt-le (2 ^ left) (omega (arith, h)) (omega (arith, small, pow-suc 2 left))

high : (left x : ℕ) → x < 2 ^ suc left → (bit_and (x >>> left) 1 != 0) ≡ true → 2 ^ left ≤ x
high left x small set = elim (Bool-cases (ltb x (2 ^ left))) [
  | inl h ↦ absurd (ground (arith, set, digit (x / 2 ^ left), none_above (ground (arith, h))))
  | inr h ↦ ground (arith, h)
]
  where
    none_above : x < 2 ^ left → x / 2 ^ left ≡ 0
    none_above h = div-eq_of_lt h

clz_from-Leads :
    (left x n w : ℕ) → x < 2 ^ left → 1 ≤ x → w ≡ left + n → Leads w x (clz_from left x n)
unfolding clz_from
clz_from-Leads zero x n w small there e = absurd (omega arith)
clz_from-Leads (suc left) x n w small there e =
    if_both (Leads w x) (bit_and (x >>> left) 1 != 0)
      (λ set. record {
        within = omega (arith, e);
        above = subst (λ t. x < 2 ^ t) (omega (arith, e)) small;
        below = subst (λ t. 2 ^ t ≤ x) (omega (arith, e)) (high left x small set);
      })
      λ clear. clz_from-Leads left x (n + 1) w (low left x small clear) there (omega (arith, e))

-- What a count is, of the low bits of a word.
abbrev pub Counts : ℕ → ℕ → ℕ → Type 0
Counts w x n = ((x ≡ 0) × (n ≡ w)) ⊎ Leads w x n

word_power : (k : ℕ) → 2 ^ (k + 32) ≡ 2 ^ k * 2 ^ 32
word_power k =
    ap (λ (t : ℕ). 2 ^ t) (let e : k + 32 ≡ k + 8 + 8 + 8 + 8 = omega arith in e)
    ∙ omega (arith, eight (k + 8 + 8 + 8), eight (k + 8 + 8), eight (k + 8), eight k)
  where
    eight : (m : ℕ) → 2 ^ (m + 8) ≡ 2 ^ m * 256
    eight m = simp towards_suc (omega arith)

word_power_at : (m k : ℕ) → m ≡ k + 32 → 2 ^ m ≡ 2 ^ k * 2 ^ 32
word_power_at m k e = ap (λ (t : ℕ). 2 ^ t) e ∙ word_power k

few_zeros : (x n : ℕ) → 1 ≤ x → Leads 64 (x * 2 ^ 32) n → n < 32
few_zeros x n there h = elim (Bool-cases (ltb n 32)) [
  | inl q ↦ ground (arith, q)
  | inr q ↦
      absurd
        (omega (arith, h.above, pow-le-pow_right {n = 2} (omega arith) (few (ground (arith, q)))))
]
  where
    few : 32 ≤ n → 64 - n ≤ 32
    few q = omega (arith, q)

-- The count of a word that was moved to the upper half.
narrowed : (x n : ℕ) → 1 ≤ x → Leads 64 (x * 2 ^ 32) n → Leads 32 x n
narrowed x n there h = record {
  within = few_zeros x n there h;
  above =
      omega
        (arith, h.above, word_power_at (64 - n) (32 - n) (omega (arith, few_zeros x n there h)));
  below = omega (
    arith,
    h.below,
    word_power_at (64 - 1 - n) (32 - 1 - n) (omega (arith, few_zeros x n there h)),
  );
}

clz64_ref-Counts : (x : ℕ) → x < 2 ^ 64 → Counts 64 x (clz64_ref x)
unfolding clz64_ref
clz64_ref-Counts x small =
    if_both (Counts 64 x) (x == 0) (λ z. inl (ground (arith, z), refl))
      λ z. inr (clz_from-Leads 64 x 0 64 small (ground (arith, z)) refl)

-- The count of leading zeros of a 64-bit operand, at either width: it is the width where the low
-- bits of that width are all zero, and else the number of zeros above their highest one.
pub clz-Counts : (v : ℕ) (w : Width) → v < 2 ^ 64 → Counts (bits w) (v % 2 ^ bits w) (clz v w)
unfolding clz
clz-Counts v w64 small =
    subst (λ t. Counts 64 t (clz64_ref v)) (omega arith) (clz64_ref-Counts v small)
clz-Counts v w32 small = rw (bit_and_low 32 v) (
    if_both (Counts 32 (v % 2 ^ 32)) (v % 2 ^ 32 == 0) (λ z. inl (ground (arith, z), refl))
      λ z. narrow (ground (arith, z)) (clz64_ref-Counts (u64 (v % 2 ^ 32 * 2 ^ 32)) (omega arith)))
  where
    narrow :
        1 ≤ v % 2 ^ 32
        → Counts 64 (u64 (v % 2 ^ 32 * 2 ^ 32)) (clz64_ref (u64 (v % 2 ^ 32 * 2 ^ 32)))
        → Counts 32 (v % 2 ^ 32) (clz64_ref (u64 (v % 2 ^ 32 * 2 ^ 32)))
    narrow there (inl (z, e)) = absurd (omega (arith, there, z))
    narrow there (inr h) = inr (
        narrowed (v % 2 ^ 32) _ there
          (subst (λ t. Leads 64 t (clz64_ref (u64 (v % 2 ^ 32 * 2 ^ 32)))) (omega arith) h))
