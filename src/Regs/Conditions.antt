-- ===== src/Regs/Conditions.antt =====
-- src/regs/regs.c: the condition codes, `oemu_regs_internal_cond_holds`.
use oemu.Common.{
  ℕ, zero, suc, ◌+◌, ◌-◌, ◌*◌, ◌%◌, ◌^◌, ◌<◌, ◌≡◌, refl, true, not, ◌&&◌, ltb, leb, ◌==◌, arith,
}
use oemu.Common.Word.{complement}
use oemu.Regs.{Width, w32, w64, bits, beq, add_with_carry, cond_holds, base_test}
use oemu.Regs.Flags.{biased, add_with_carry_lem}

-- The odd member of each of the first seven pairs is the negation of the even one, whatever the
-- flags; AL and NV both hold always.
cond_holds-pair :
    (nzcv k : ℕ)
    → k < 7
    → (cond_holds nzcv (2 * k + 1) ≡ not (cond_holds nzcv (2 * k)))
      × (cond_holds nzcv 14 ≡ true)
      × (cond_holds nzcv 15 ≡ true)
unfolding cond_holds base_test
cond_holds-pair nzcv k h = (pairs k h, refl, refl)
  where
    pairs : (k : ℕ) → k < 7 → cond_holds nzcv (2 * k + 1) ≡ not (cond_holds nzcv (2 * k))
    pairs zero h = refl
    pairs (suc zero) h = refl
    pairs (suc (suc zero)) h = refl
    pairs (suc (suc (suc zero))) h = refl
    pairs (suc (suc (suc (suc zero)))) h = refl
    pairs (suc (suc (suc (suc (suc zero))))) h = refl
    pairs (suc (suc (suc (suc (suc (suc zero)))))) h = refl
    pairs (suc (suc (suc (suc (suc (suc (suc k))))))) h = absurd (omega arith)

-- The arithmetic behind it, on the sum `n + ~m + 1`.
order_lem :
    (n m : ℕ) (w : Width)
    → n < 2 ^ 64
    → m < 2 ^ 64
    → (let y = complement 64 m in
        let total = n % 2 ^ bits w + y % 2 ^ bits w + 1 in
        let s = total % 2 ^ bits w in
        let half = 2 ^ (bits w - 1) in
        let shifted = biased w n + biased w y + 1 in
        let fits = leb half shifted && ltb shifted (3 * half) in
        ((s == 0) ≡ (n % 2 ^ bits w == m % 2 ^ bits w))
        × (leb (2 ^ bits w) total ≡ leb (m % 2 ^ bits w) (n % 2 ^ bits w))
        × ((leb (2 ^ bits w) total && not (s == 0)) ≡ ltb (m % 2 ^ bits w) (n % 2 ^ bits w))
        × (beq (leb half s) (not fits) ≡ leb (biased w m) (biased w n))
        × ((beq (leb half s) (not fits) && not (s == 0)) ≡ ltb (biased w m) (biased w n)))
order_lem n m w32 p q = (ground arith, ground arith, ground arith, ground arith, ground arith)
order_lem n m w64 p q = (ground arith, ground arith, ground arith, ground arith, ground arith)

-- After the comparison `n - m` of 64-bit operands, done as `n + ~m + 1` in either width, the
-- conditions EQ, CS, HI, GE and GT tell equality, the unsigned and the signed order of the operands
-- in that width.
pub cond_holds-add_with_carry :
    (n m : ℕ) (w : Width)
    → n < 2 ^ 64
    → m < 2 ^ 64
    → (let nzcv = (add_with_carry n (complement 64 m) true w).nzcv in
        let a = n % 2 ^ bits w in
        let b = m % 2 ^ bits w in
        (cond_holds nzcv 0x0 ≡ (a == b))
        × (cond_holds nzcv 0x2 ≡ leb b a)
        × (cond_holds nzcv 0x8 ≡ ltb b a)
        × (cond_holds nzcv 0xa ≡ leb (biased w m) (biased w n))
        × (cond_holds nzcv 0xc ≡ ltb (biased w m) (biased w n)))
unfolding cond_holds base_test
cond_holds-add_with_carry n m w p q =
    let f = add_with_carry_lem n y true w p y_in in
    rw (f.1, f.2, f.3, f.4, f.0) (order_lem n m w p q)
  where
    y : ℕ
    y = complement 64 m

    y_in : y < 2 ^ 64
    y_in = omega arith
