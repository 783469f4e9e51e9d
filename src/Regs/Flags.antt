-- ===== src/Regs/Flags.antt =====
-- src/regs/regs.c: the flags of `oemu_regs_internal_add_with_carry`.
use native.Mathlib.Nat.{mod-lt, mod-mod, one-le-pow}
use oemu.Common.{
  ℕ, ◌+◌, ◌-◌, ◌*◌, ◌%◌, ◌^◌, ◌<◌, ◌≡◌, refl, Bool, not, ◌&&◌, ltb, leb, ◌==◌, if◌then◌else◌, arith,
  ◌∙◌,
}
use oemu.Common.Bits.{bit_lem}
use oemu.Common.Bits.Masks.{bit_and_low, bit_and_flag}
use oemu.Common.Word.{any_set, u64}
use oemu.Regs.{
  Width, w32, w64, bits, nzcv_n, nzcv_z, nzcv_c, nzcv_v, truncate, beq, flag_word, sign_bit,
  carry_out, add_with_carry,
}

flag_word_lem :
    (n z c v : Bool)
    → (any_set (flag_word n z c v) nzcv_n ≡ n)
      × (any_set (flag_word n z c v) nzcv_z ≡ z)
      × (any_set (flag_word n z c v) nzcv_c ≡ c)
      × (any_set (flag_word n z c v) nzcv_v ≡ v)
unfolding flag_word
flag_word_lem n z c v = ground arith

pub truncate_lem : (x : ℕ) (w : Width) → x < 2 ^ 64 → truncate x w ≡ x % 2 ^ bits w
unfolding truncate
truncate_lem x w32 h = bit_and_low 32 x
truncate_lem x w64 h = omega arith

-- The sign test of a truncated word.
sign_lem : (x : ℕ) (w : Width) → x < 2 ^ bits w → any_set x (sign_bit w) ≡ leb (2 ^ (bits w - 1)) x
sign_lem x w32 h = ground (arith, bit_and_flag 31 x, bit_lem x 31)
sign_lem x w64 h = ground (arith, bit_and_flag 63 x, bit_lem x 63)

carry_out_lem :
    (xa ya : ℕ) (c : Bool) (w : Width)
    → xa < 2 ^ bits w
    → ya < 2 ^ bits w
    → carry_out xa ya c w ≡ leb (2 ^ bits w) (xa + ya + (if c then 1 else 0))
unfolding carry_out
carry_out_lem xa ya c w32 p q = ground arith
carry_out_lem xa ya c w64 p q = ground arith

-- A word read as a signed number, moved up by half the range so that it is a natural number.
abbrev pub biased : Width → ℕ → ℕ
biased w x = (x % 2 ^ bits w + 2 ^ (bits w - 1)) % 2 ^ bits w

abbrev pub carry_of : Bool → ℕ
carry_of c = if c then 1 else 0

sum_lem :
    (xa ya : ℕ) (c : Bool) (w : Width)
    → xa < 2 ^ bits w
    → ya < 2 ^ bits w
    → truncate (u64 (xa + ya + carry_of c)) w ≡ (xa + ya + carry_of c) % 2 ^ bits w
unfolding truncate
sum_lem xa ya c w32 p q = bit_and_low 32 _ ∙ ground arith
sum_lem xa ya c w64 p q = refl

overflow_lem :
    (xa ya : ℕ) (c : Bool) (w : Width)
    → xa < 2 ^ bits w
    → ya < 2 ^ bits w
    → (let total = xa + ya + carry_of c in
        let shifted = biased w xa + biased w ya + carry_of c in
        let half = 2 ^ (bits w - 1) in
        (beq (leb half xa) (leb half ya) && not (beq (leb half (total % 2 ^ bits w)) (leb half xa)))
        ≡ not (leb half shifted && ltb shifted (3 * half)))
overflow_lem xa ya c w32 p q = ground arith
overflow_lem xa ya c w64 p q = ground arith

-- The flags of a sum `s` of truncated operands.
flags_lem :
    (xa ya s : ℕ) (c : Bool) (w : Width)
    → xa < 2 ^ bits w
    → ya < 2 ^ bits w
    → s ≡ (xa + ya + carry_of c) % 2 ^ bits w
    → (let nzcv = flag_word (any_set s (sign_bit w)) (s == 0) (carry_out xa ya c w) (
          beq (any_set xa (sign_bit w)) (any_set ya (sign_bit w))
          && not (beq (any_set s (sign_bit w)) (any_set xa (sign_bit w)))) in
        let total = xa + ya + carry_of c in
        let shifted = biased w xa + biased w ya + carry_of c in
        (any_set nzcv nzcv_n ≡ leb (2 ^ (bits w - 1)) s)
        × (any_set nzcv nzcv_z ≡ (s == 0))
        × (any_set nzcv nzcv_c ≡ leb (2 ^ bits w) total)
        × (any_set nzcv nzcv_v
            ≡ not (leb (2 ^ (bits w - 1)) shifted && ltb shifted (3 * 2 ^ (bits w - 1)))))
flags_lem xa ya s c w p q e =
    rw (sign_lem s w s_in, sign_lem xa w p, sign_lem ya w q)
      (
        (flag_word_lem _ _ _ _).0,
        (flag_word_lem _ _ _ _).1,
        (flag_word_lem _ _ _ _).2 ∙ carry_out_lem xa ya c w p q,
        (flag_word_lem _ _ _ _).3 ∙ rw e (overflow_lem xa ya c w p q),
      )
  where
    s_in : s < 2 ^ bits w
    s_in = rw e (mod-lt _ (one-le-pow (bits w) 2 (omega arith)))

-- For 64-bit operands, the result is the sum in `w` bits. N is its sign and Z tells whether it is
-- zero; C is raised exactly when the unsigned sum does not fit, and V exactly when the signed sum
-- does not fit.
pub add_with_carry_lem :
    (x y : ℕ) (c : Bool) (w : Width)
    → x < 2 ^ 64
    → y < 2 ^ 64
    → (let r = add_with_carry x y c w in
        let total = x % 2 ^ bits w + y % 2 ^ bits w + carry_of c in
        let shifted = biased w x + biased w y + carry_of c in
        (r.value ≡ total % 2 ^ bits w)
        × (any_set r.nzcv nzcv_n ≡ leb (2 ^ (bits w - 1)) r.value)
        × (any_set r.nzcv nzcv_z ≡ (r.value == 0))
        × (any_set r.nzcv nzcv_c ≡ leb (2 ^ bits w) total)
        × (any_set r.nzcv nzcv_v
            ≡ not (leb (2 ^ (bits w - 1)) shifted && ltb shifted (3 * 2 ^ (bits w - 1)))))
unfolding add_with_carry
add_with_carry_lem x y c w p q =
    rw (truncate_lem x w p, truncate_lem y w q)
      (let e = sum_lem (x % 2 ^ bits w) (y % 2 ^ bits w) c w (in_width x) (in_width y) in
        let f = flags_lem (x % 2 ^ bits w) (y % 2 ^ bits w) _ c w (in_width x) (in_width y) e in
        (e, f.0, f.1, f.2, rw (mod-mod x (2 ^ bits w), mod-mod y (2 ^ bits w)) at f.3))
  where
    in_width : (n : ℕ) → n % 2 ^ bits w < 2 ^ bits w
    in_width n = mod-lt n (one-le-pow (bits w) 2 (omega arith))
