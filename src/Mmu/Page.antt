-- ===== src/Mmu/Page.antt =====
-- src/mmu/mmu.c: what of an address the walk depends on.
use oemu.Common.{
  ℕ, zero, suc, ◌+◌, ◌-◌, ◌*◌, ◌/◌, ◌%◌, ◌^◌, ◌≤◌, ◌<◌, bit_and, bit_or, ◌≡◌, refl, sym, ap, ap₂,
  ◌∙◌, Bool, ◌!=◌, arith,
}
use native.Mathlib.Nat.{mod-lt, one-le-pow, div-div-eq-div-mul}
use native.Mathlib.Numerals.{towards_suc}
use oemu.Common.Bits.Masks.{bit_and_low, bit_and_high, bit_or_fields}
use oemu.Mmu.{use_ttbr1, region_ok, Desc, index}
use oemu.Mmu.Walk.{page_base, leaf_address}

pub page_base_lem : (a : ℕ) → a < 2 ^ 64 → page_base a ≡ a / 4096 * 4096
unfolding page_base
page_base_lem a small = bit_and_high 12 52 64 a refl ∙ omega arith

-- Two addresses of one page.
abbrev pub SamePage : ℕ → ℕ → Type 0
SamePage va va' = va / 4096 ≡ va' / 4096

pub index_page : (va va' level : ℕ) → level ≤ 3 → SamePage va va' → index va level ≡ index va' level
unfolding index
index_page va va' zero h same = ap (λ t. bit_and t 0x1ff * 2 ^ 3) (omega arith)
index_page va va' (suc zero) h same = ap (λ t. bit_and t 0x1ff * 2 ^ 3) (omega arith)
index_page va va' (suc (suc zero)) h same = ap (λ t. bit_and t 0x1ff * 2 ^ 3) (omega arith)
index_page va va' (suc (suc (suc zero))) h same = ap (λ t. bit_and t 0x1ff * 2 ^ 3) (omega arith)
index_page va va' (suc (suc (suc (suc level)))) h same = absurd (omega arith)

pub use_ttbr1_page : (va va' : ℕ) → SamePage va va' → use_ttbr1 va ≡ use_ttbr1 va'
unfolding use_ttbr1
use_ttbr1_page va va' same = ap (λ t. bit_and t 1 != 0) (omega arith)

-- A leaf's address: the descriptor's part above the leaf's size, and the offset below.
leaf_address_sum :
    (d : Desc) (k n va : ℕ)
    → d.address < 2 ^ 64
    → n + k ≡ 64
    → bit_or (bit_and d.address (2 ^ 64 - 2 ^ k)) (bit_and va (2 ^ k - 1))
      ≡ d.address % 2 ^ 64 / 2 ^ k * 2 ^ k + va % 2 ^ k
leaf_address_sum d k n va small e =
    ap₂ bit_or (bit_and_high k n 64 d.address e) (bit_and_low k va)
    ∙ bit_or_fields k (d.address % 2 ^ 64 / 2 ^ k) (va % 2 ^ k)
        (mod-lt va (one-le-pow k 2 (omega arith)))

-- The parts of the leaf's address that the page and the offset decide.
pub record LeafAddress (d : Desc) (level va va' : ℕ) : Type 0 where
  pub same_page : leaf_address d level va / 4096 ≡ leaf_address d level va' / 4096
  pub offset : leaf_address d level va' % 4096 ≡ va' % 4096
  pub in_range : leaf_address d level va < 2 ^ 64

pub LeafAddress-page :
    (d : Desc) (level va va' : ℕ)
    → d.address < 2 ^ 64
    → 1 ≤ level
    → level ≤ 3
    → SamePage va va'
    → LeafAddress d level va va'
unfolding leaf_address
LeafAddress-page d zero va va' small above below same = absurd (omega arith)
LeafAddress-page d (suc zero) va va' small above below same = record {
  same_page =
      omega
        (arith, leaf_address_sum d 30 34 va small refl, leaf_address_sum d 30 34 va' small refl);
  offset = omega (arith, leaf_address_sum d 30 34 va' small refl);
  in_range = omega (arith, leaf_address_sum d 30 34 va small refl);
}
LeafAddress-page d (suc (suc zero)) va va' small above below same = record {
  same_page =
      omega
        (arith, leaf_address_sum d 21 43 va small refl, leaf_address_sum d 21 43 va' small refl);
  offset = omega (arith, leaf_address_sum d 21 43 va' small refl);
  in_range = omega (arith, leaf_address_sum d 21 43 va small refl);
}
LeafAddress-page d (suc (suc (suc zero))) va va' small above below same = record {
  same_page =
      omega
        (arith, leaf_address_sum d 12 52 va small refl, leaf_address_sum d 12 52 va' small refl);
  offset = omega (arith, leaf_address_sum d 12 52 va' small refl);
  in_range = omega (arith, leaf_address_sum d 12 52 va small refl);
}
LeafAddress-page d (suc (suc (suc (suc level)))) va va' small above below same =
    absurd (omega arith)

next_page_power : (n : ℕ) → 12 ≤ n → 2 ^ n ≡ 4096 * 2 ^ (n - 12)
next_page_power n big =
    ap (λ (t : ℕ). 2 ^ t) (let e : n ≡ n - 12 + 12 = omega arith in e) ∙ twelve (n - 12)
  where
    six : (k : ℕ) → 2 ^ (k + 6) ≡ 64 * 2 ^ k
    six k = simp towards_suc (omega arith)

    twelve : (k : ℕ) → 2 ^ (k + 12) ≡ 4096 * 2 ^ k
    twelve k =
        ap (λ (t : ℕ). 2 ^ t) (let e : k + 12 ≡ k + 6 + 6 = omega arith in e)
        ∙ omega (arith, six (k + 6), six k)

-- A shift by twelve or more does not see the offset in the page.
pub shift_page : (n a b : ℕ) → 12 ≤ n → SamePage a b → a / 2 ^ n ≡ b / 2 ^ n
shift_page n a b big same = within a ∙ ap (λ t. t / 2 ^ (n - 12)) same ∙ sym (within b)
  where
    within : (x : ℕ) → x / 2 ^ n ≡ x / 4096 / 2 ^ (n - 12)
    within x =
        ap (λ t. x / t) (next_page_power n big) ∙ sym (div-div-eq-div-mul x 4096 (2 ^ (n - 12)))

pub region_ok_page :
    (va va' inputsize addrsize : ℕ) (ttbr1 : Bool)
    → 12 ≤ inputsize
    → SamePage va va'
    → region_ok va inputsize addrsize ttbr1 ≡ region_ok va' inputsize addrsize ttbr1
unfolding region_ok
region_ok_page va va' inputsize addrsize ttbr1 big same =
    rw (shift_page inputsize va va' big same) refl
