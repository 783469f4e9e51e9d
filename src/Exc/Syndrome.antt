-- ===== src/Exc/Syndrome.antt =====
-- src/exc/exc.c: the fields of the syndrome words.
use oemu.Common.{
  ℕ, ◌+◌, ◌*◌, ◌%◌, ◌^◌, ◌<◌, bit_and, bit_or, ◌≡◌, sym, ap, ap₂, ◌∙◌, Bool, true, false,
  if◌then◌else◌, arith,
}
use oemu.Common.Bits.{bit-bit_or, bit_ext}
use oemu.Common.Bits.Masks.{bit_and_low, bit_or_fields, bit_or_comm, bit_or-zero}
use oemu.Exc.{esr, iss_data_abort}

-- The class, a set IL and the syndrome, side by side.
pub esr_lem : (ec iss : ℕ) → ec < 64 → esr ec iss ≡ ec * 2 ^ 26 + 2 ^ 25 + iss % 2 ^ 25
unfolding esr
esr_lem ec iss small =
    ap₂ (λ s t. bit_or (bit_or s (2 ^ 25)) t) (omega arith) (bit_and_low 25 iss)
    ∙ ap (λ s. bit_or s (iss % 2 ^ 25)) (bit_or_fields 26 ec (2 ^ 25) (omega arith) ∙ omega arith)
    ∙ bit_or_fields 25 (ec * 2 + 1) (iss % 2 ^ 25) (omega arith)
    ∙ omega arith

bit_or_nest :
    (f a b c d : ℕ)
    → bit_or (bit_or (bit_or (bit_or f a) b) c) d ≡ bit_or a (bit_or b (bit_or c (bit_or d f)))
bit_or_nest f a b c d = bit_ext _ _ λ k. omega (
  arith,
  bit-bit_or (bit_or (bit_or (bit_or f a) b) c) d k,
  bit-bit_or (bit_or (bit_or f a) b) c k,
  bit-bit_or (bit_or f a) b k,
  bit-bit_or f a k,
  bit-bit_or a (bit_or b (bit_or c (bit_or d f))) k,
  bit-bit_or b (bit_or c (bit_or d f)) k,
  bit-bit_or c (bit_or d f) k,
  bit-bit_or d f k,
)

-- The four fields above a fault code, with or without the write flag.
nested_fields :
    (f s d : ℕ)
    → f < 64
    → s < 4
    → d < 2
    → bit_or (2 ^ 24) (bit_or (s * 2 ^ 21) (bit_or (2 ^ 11) (bit_or (d * 2 ^ 6) f)))
      ≡ 2 ^ 24 + s * 2 ^ 21 + 2 ^ 11 + d * 2 ^ 6 + f
nested_fields f s d small_f small_s small_d =
    ap (λ t. bit_or (2 ^ 24) (bit_or (s * 2 ^ 21) (bit_or (2 ^ 11) t)))
      (bit_or_fields 6 d f (omega arith))
    ∙ ap (λ t. bit_or (2 ^ 24) (bit_or (s * 2 ^ 21) t))
        (bit_or_fields 11 1 (d * 2 ^ 6 + f) (omega arith))
    ∙ ap (bit_or (2 ^ 24)) (bit_or_fields 21 s (1 * 2 ^ 11 + (d * 2 ^ 6 + f)) (omega arith))
    ∙ bit_or_fields 24 1 (s * 2 ^ 21 + (1 * 2 ^ 11 + (d * 2 ^ 6 + f))) (omega arith)
    ∙ omega arith

-- The data-abort syndrome as a sum of its fields.
pub iss_data_abort_lem :
    (log2_size : ℕ) (is_write isv : Bool) (dfsc : ℕ)
    → iss_data_abort log2_size is_write isv dfsc
      ≡ (if isv then 2 ^ 24 + log2_size % 4 * 2 ^ 21 + 2 ^ 11 else 0)
        + (if is_write then 2 ^ 6 else 0)
        + dfsc % 64
unfolding iss_data_abort
iss_data_abort_lem log2_size true true dfsc =
    bit_or_nest (bit_and dfsc 63) (2 ^ 24) (bit_and log2_size 3 * 2 ^ 21) (2 ^ 11) (2 ^ 6)
    ∙ nested_fields (bit_and dfsc 63) (bit_and log2_size 3) 1 (omega (arith, bit_and_low 6 dfsc))
        (omega (arith, bit_and_low 2 log2_size)) (omega arith)
    ∙ omega (arith, bit_and_low 6 dfsc, bit_and_low 2 log2_size)
iss_data_abort_lem log2_size false true dfsc =
    sym (bit_or-zero (iss_data_abort log2_size false true dfsc))
    ∙ bit_or_nest (bit_and dfsc 63) (2 ^ 24) (bit_and log2_size 3 * 2 ^ 21) (2 ^ 11) 0
    ∙ nested_fields (bit_and dfsc 63) (bit_and log2_size 3) 0 (omega (arith, bit_and_low 6 dfsc))
        (omega (arith, bit_and_low 2 log2_size)) (omega arith)
    ∙ omega (arith, bit_and_low 6 dfsc, bit_and_low 2 log2_size)
iss_data_abort_lem log2_size true false dfsc =
    bit_or_comm (bit_and dfsc 63) (2 ^ 6)
    ∙ bit_or_fields 6 1 (bit_and dfsc 63) (omega (arith, bit_and_low 6 dfsc))
    ∙ omega (arith, bit_and_low 6 dfsc)
iss_data_abort_lem log2_size false false dfsc = omega (arith, bit_and_low 6 dfsc)
