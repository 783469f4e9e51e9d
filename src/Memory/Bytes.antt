-- ===== src/Memory/Bytes.antt =====
-- src/memory/memory.c: bytes and words.
use oemu.Common.{
  ℕ, zero, suc, ◌+◌, ◌*◌, ◌/◌, ◌%◌, ◌^◌, ◌≤◌, ◌<◌, bit_and, bit_or, ◌≡◌, refl, sym, ap, ap₂, ◌∙◌,
  ◌⊎◌, List, [], ◌∷◌, length, Bank, update, arith,
}
use native.Mathlib.Numerals.{towards_suc}
use native.Mathlib.Nat.{mod-lt, one-le-pow, div-add-mod', div-div-eq-div-mul}
use oemu.Common.Bits.Masks.{bit_and_low, bit_or_comm, bit_or_fields}
use oemu.Common.Word.{◌>>>◌, u8}
use oemu.Memory.{disassemble_from, disassemble, assemble_from, assemble, load, store}

next_power : (i : ℕ) → 2 ^ (8 * (i + 1)) ≡ 2 ^ (8 * i) * 256
next_power i = ap (λ (t : ℕ). 2 ^ t) (omega arith) ∙ eight (8 * i)
  where
    eight : (k : ℕ) → 2 ^ (k + 8) ≡ 2 ^ k * 256
    eight k = simp towards_suc (omega arith)

-- One more byte of a value.
mod_byte : (i v : ℕ) → v / 2 ^ (8 * i) % 256 * 2 ^ (8 * i) + v % 2 ^ (8 * i) ≡ v % 2 ^ (8 * (i + 1))
mod_byte i v = omega (
  arith,
  div-add-mod' v (2 ^ (8 * (i + 1))),
  div-add-mod' v (2 ^ (8 * i)),
  ap (λ (t : ℕ). v / 2 ^ (8 * (i + 1)) * t) (next_power i),
  ap (λ (t : ℕ). t * 2 ^ (8 * i)) split_byte,
)
  where
    split_byte : v / 2 ^ (8 * i) ≡ v / 2 ^ (8 * (i + 1)) * 256 + v / 2 ^ (8 * i) % 256
    split_byte =
        omega (arith, div-div-eq-div-mul v (2 ^ (8 * i)) 256, ap (λ (t : ℕ). v / t) (next_power i))

low_byte : (x : ℕ) → u8 (bit_and x 0xff) ≡ x % 256
low_byte x = omega (arith, bit_and_low 8 x)

assemble_from-disassemble :
    (left i v : ℕ)
    → disassemble_from (assemble_from left i v) i (v % 2 ^ (8 * i)) ≡ v % 2 ^ (8 * (i + left))
unfolding disassemble_from assemble_from
assemble_from-disassemble zero i v = ap (λ (t : ℕ). v % 2 ^ (8 * t)) (omega arith)
assemble_from-disassemble (suc left) i v =
    ap (disassemble_from (assemble_from left (i + 1) v) (i + 1)) one_byte
    ∙ assemble_from-disassemble left (i + 1) v
    ∙ ap (λ (t : ℕ). v % 2 ^ (8 * t)) (omega arith)
  where
    the_byte : u8 (bit_and (v >>> (8 * i)) 0xff) ≡ v / 2 ^ (8 * i) % 256
    the_byte = low_byte (v / 2 ^ (8 * i))

    one_byte :
        bit_or (v % 2 ^ (8 * i)) (u8 (bit_and (v >>> (8 * i)) 0xff) * 2 ^ (8 * i))
        ≡ v % 2 ^ (8 * (i + 1))
    one_byte =
        bit_or_comm (v % 2 ^ (8 * i)) (u8 (bit_and (v >>> (8 * i)) 0xff) * 2 ^ (8 * i))
        ∙ bit_or_fields (8 * i) (u8 (bit_and (v >>> (8 * i)) 0xff)) (v % 2 ^ (8 * i))
            (mod-lt v (one-le-pow (8 * i) 2 (omega arith)))
        ∙ ap (λ (t : ℕ). t * 2 ^ (8 * i) + v % 2 ^ (8 * i)) the_byte
        ∙ mod_byte i v

pub disassemble-assemble : (n v : ℕ) → disassemble (assemble n v) ≡ v % 2 ^ (8 * n)
unfolding disassemble assemble
disassemble-assemble n v =
    ap (disassemble_from (assemble_from n 0 v) 0) (sym low)
    ∙ assemble_from-disassemble n 0 v
    ∙ ap (λ (t : ℕ). v % 2 ^ (8 * t)) (omega arith)
  where
    low : v % 2 ^ (8 * 0) ≡ 0
    low = omega arith

pub length-assemble : (n v : ℕ) → length (assemble n v) ≡ n
unfolding assemble
length-assemble n v = from n 0
  where
    from : (left i : ℕ) → length (assemble_from left i v) ≡ left
    from zero i = refl
    from (suc left) i = omega (arith, from left (i + 1))

-- memcpy in, then out.
store_before : (heap : Bank) (base i : ℕ) (bs : List ℕ) → i < base → store heap base bs i ≡ heap i
unfolding store
store_before heap base i [] h = refl
store_before heap base i (b ∷ bs) h =
    store_before (update heap base b) (base + 1) i bs (omega arith) ∙ ground arith

pub store_outside :
    (heap : Bank) (base i : ℕ) (bs : List ℕ)
    → (i < base) ⊎ (base + length bs ≤ i)
    → store heap base bs i ≡ heap i
unfolding store
store_outside heap base i [] h = refl
store_outside heap base i (b ∷ bs) h =
    store_outside (update heap base b) (base + 1) i bs (ground (arith, h)) ∙ ground (arith, h)

pub load-store :
    (heap : Bank) (base : ℕ) (bs : List ℕ) → load (store heap base bs) base (length bs) ≡ bs
unfolding load store
load-store heap base [] = refl
load-store heap base (b ∷ bs) =
    ap₂ (λ x xs. x ∷ xs)
      (store_before (update heap base b) (base + 1) base bs (omega arith) ∙ ground arith)
      (load-store (update heap base b) (base + 1) bs)

pub load_same :
    (heap heap' : Bank) (base n : ℕ)
    → ((i : ℕ) → base ≤ i → i < base + n → heap i ≡ heap' i)
    → load heap base n ≡ load heap' base n
unfolding load
load_same heap heap' base zero same = refl
load_same heap heap' base (suc n) same =
    ap₂ (λ x xs. x ∷ xs) (same base (omega arith) (omega arith))
      (load_same heap heap' (base + 1) n λ i l u. same i (omega arith) (omega arith))
