-- ===== src/Common/Arrays.antt =====
-- A C array of fixed size, as the function from its indices; and lists of bytes.
use Prim.Native.Nat.{ℕ, suc, ◌+◌}
use mathlib.Core.Path.{◌≡◌, fun_ext}
use mathlib.Core.List.{List, [], ◌∷◌, ◌++◌}
use native.Mathlib.Omega.{arith}
use oemu.Common.Tests.{◌==◌, if◌then◌else◌}

abbrev pub Bank : Type 0
Bank = ℕ → ℕ

-- `a[i] = v`
abbrev pub update : Bank → ℕ → ℕ → Bank
update a i v j = if i == j then v else a j

module _ {ℓ} {A : Type ℓ} where
  abbrev pub length : List A → ℕ
  length [] = 0
  length (x ∷ xs) = suc (length xs)

  pub length-append : (xs ys : List A) → length (xs ++ ys) ≡ length xs + length ys
  length-append [] ys = omega arith
  length-append (x ∷ xs) ys = omega (arith, length-append xs ys)

-- Writing back what is there, after another write to the same place, changes nothing.
pub update_restore : (a : Bank) (i v : ℕ) → update (update a i v) i (a i) ≡ a
update_restore a i v = fun_ext λ j. ground (arith, eq_at j)
  where
    eq_at : (j : ℕ) → i ≡ j → a i ≡ a j
    eq_at j e = cc
