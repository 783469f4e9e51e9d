-- ===== src/Gicv2/Banks.antt =====
-- src/dev/gicv2.c: what the loops over a bank of lines leave in each line, and what a packed word
-- holds.
use native.Mathlib.Decide.{ℕ_discrete}
use oemu.Common.{
  ℕ, zero, suc, ◌+◌, ◌-◌, ◌*◌, ◌/◌, ◌^◌, bit_or, ◌≡◌, Bool, ◌&&◌, Bank, update, arith, ◌∙◌, ltb,
  leb, ◌==◌, ◌!=◌, if◌then◌else◌,
}
use oemu.Common.Bits.{bit, bit-lt, bit_of_zero, bit_lem, bit-bit_or}
use oemu.Common.Bits.Masks.{bit_and_low, bit_flag}
use oemu.Common.Word.{◌<<<◌}
use oemu.Gicv2.{max_lines}
use oemu.Gicv2.Bus.{poke_from, poke_bank, poke_fields, pack_from, pack_bank}

module _ (named : ℕ → Bool) (field : ℕ → ℕ) (base : ℕ) where
  -- One round of the loop, at line `n`.
  poke_round :
      (b n : ℕ) (state : Bank)
      → (if named b && ltb (base + b) max_lines then update state (base + b) (field b) else state) n
        ≡ (if base + b == n && named (n - base) && ltb n max_lines
            then field (n - base)
            else state n)
  poke_round b n state = elim (ℕ_discrete b (n - base)) [
    | yes e ↦ rw (← e) (ground arith)
    | no ne ↦ ground arith
  ]

  pub poke_from_lem :
      (left b n : ℕ) (state : Bank)
      → poke_from named field base left b state n ≡ (
          if leb (base + b) n && ltb n (base + b + left) && (named (n - base) && ltb n max_lines)
          then field (n - base)
          else state n)
  unfolding poke_from
  poke_from_lem zero b n state = ground arith
  poke_from_lem (suc left) b n state =
      poke_from_lem left (b + 1) n _ ∙ rw (poke_round b n state) (ground arith)

-- Line `n` after a write to an enable, pending or active register: the lines that the mask
-- names take the new state, all others keep theirs.
pub poke_bank_lem :
    (state : Bank) (base mask : ℕ) (set : Bool) (n : ℕ)
    → poke_bank state base mask set n ≡ (
        if leb base n && ltb n (base + 32) && (bit mask (n - base) == 1 && ltb n max_lines)
        then (if set then 1 else 0)
        else state n)
unfolding poke_bank
poke_bank_lem state base mask set n =
    poke_from_lem _ _ base 32 0 n state
    ∙ rw (bit_and_low 1 (mask / 2 ^ (n - base)), ← bit_lem mask (n - base))
        (ground (arith, bit-lt mask (n - base)))

-- Line `n` after a write to a register of `count` fields.
pub poke_fields_lem :
    (word count : ℕ) (field : ℕ → ℕ) (state : Bank) (n : ℕ)
    → poke_fields word count field state n ≡ (
        if leb (word * count) n && ltb n (word * count + count) && ltb n max_lines
        then field (n - word * count)
        else state n)
unfolding poke_fields
poke_fields_lem word count field state n =
    poke_from_lem _ _ (word * count) count 0 n state ∙ ground arith

-- Bit `j` of a packed word tells whether line `base + j` is set.
pack_from_lem :
    (state : Bank) (base left b v j : ℕ)
    → bit (pack_from state base left b v) j ≡ (
        if leb b j && ltb j (b + left) && (ltb (base + j) max_lines && state (base + j) != 0)
        then 1
        else bit v j)
unfolding pack_from
pack_from_lem state base zero b v j = ground arith
pack_from_lem state base (suc left) b v j =
    pack_from_lem state base left (b + 1) _ j ∙ rw with_flag (ground arith)
  where
    -- The round at bit `b` decides bit `b` alone.
    with_flag :
        bit (if ltb (base + b) max_lines && state (base + b) != 0 then bit_or v (1 <<< b) else v) j
        ≡ (if b == j && (ltb (base + j) max_lines && state (base + j) != 0) then 1 else bit v j)
    with_flag = elim (ℕ_discrete b j) [
      | yes e ↦ rw e (ground (arith, bit-bit_or v (1 <<< j) j, bit_flag j j, bit-lt v j))
      | no ne ↦ ground (arith, bit-bit_or v (1 <<< b) j, bit_flag b j)
    ]

pub pack_bank_lem :
    (state : Bank) (base j : ℕ)
    → bit (pack_bank state base) j
      ≡ (if ltb j 32 && (ltb (base + j) max_lines && state (base + j) != 0) then 1 else 0)
unfolding pack_bank
pack_bank_lem state base j = pack_from_lem state base 32 0 0 j ∙ ground (arith, bit_of_zero j)
