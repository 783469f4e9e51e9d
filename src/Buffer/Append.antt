-- ===== src/Buffer/Append.antt =====
-- src/buffer/buffer.c: the operations that add to a buffer.
use oemu.Common.{
  ne→==, ℕ, ◌+◌, ◌<◌, refl, sym, subst, inl, inr, Option, some, List, [], ◌∷◌, length, Bank, arith,
}
use mathlib.Core.List.{append-nil}
use oemu.Common.Status.{ok}
use oemu.Buffer.{
  Buffer, size_max, checked_add, grow, put, when_grown, append, appendf_to, appendf, cstr,
}
use oemu.Buffer.Contents.{
  contents, IsValid, KeepsBytes, Appends, grow-Grows, when_grown-Appends, checked_add-cases,
}

empty-Appends :
    (buf : Buffer) (needed : ℕ) (block : Option Bank)
    → IsValid buf
    → Appends buf [] needed block (record { status = ok; buffer = buf })
unfolding Appends
empty-Appends buf needed block valid = inl (refl, valid, sym (append-nil (contents buf)))

-- The three operations that add to a buffer, of bytes that are there, each with what it needs.
pub record AllAppend (buf : Buffer) (text : List ℕ) (block : Option Bank) : Type 0 where
  pub bytes : Appends buf text (length text) block (append buf text block)
  pub formatted : Appends buf text (length text + 1) block (appendf buf (some text) block)
  pub terminated : Appends buf [] 1 block (cstr buf block)

append-Appends :
    (buf : Buffer) (text : List ℕ) (block : Option Bank)
    → length text < size_max
    → IsValid buf
    → KeepsBytes buf block
    → Appends buf text (length text) block (append buf text block)
unfolding append
append-Appends buf [] block small valid keeps = empty-Appends buf 0 block valid
append-Appends buf (b ∷ bs) block small valid keeps = rw (ne→== (length (b ∷ bs)) 0 (omega arith)) (
    subst
      (λ t.
        Appends buf (b ∷ bs) (length (b ∷ bs)) block
          (when_grown (grow buf (length (b ∷ bs)) block) λ g. put g t (length (b ∷ bs))))
      (append-nil (b ∷ bs))
      (when_grown-Appends buf (b ∷ bs) [] (length (b ∷ bs)) block _ (omega arith)
        (grow-Grows buf (length (b ∷ bs)) block (omega arith) valid keeps)))

cstr-Appends :
    (buf : Buffer) (block : Option Bank)
    → IsValid buf
    → KeepsBytes buf block
    → Appends buf [] 1 block (cstr buf block)
unfolding cstr
cstr-Appends buf block valid keeps =
    when_grown-Appends buf [] (0 ∷ []) 1 block _ (omega arith)
      (grow-Grows buf 1 block (omega arith) valid keeps)

appendf_to-Appends :
    (buf : Buffer) (text : List ℕ) (block : Option Bank)
    → length text < size_max
    → IsValid buf
    → KeepsBytes buf block
    → Appends buf text
        (length text + 1)
        block
        (appendf_to buf text block (checked_add (length text) 1))
unfolding appendf_to
appendf_to-Appends buf text block small valid keeps =
    elim (checked_add-cases (length text) 1 (omega arith)) [
      | inl (_, over) ↦ absurd (omega (arith, over, small))
      | inr (e, _) ↦
          subst (λ t. Appends buf text (length text + 1) block (appendf_to buf text block t))
            (sym e)
            (when_grown-Appends buf text (0 ∷ []) (length text + 1) block _ (omega arith)
              (grow-Grows buf (length text + 1) block (omega arith) valid keeps))
    ]

appendf-Appends :
    (buf : Buffer) (text : List ℕ) (block : Option Bank)
    → length text < size_max
    → IsValid buf
    → KeepsBytes buf block
    → Appends buf text (length text + 1) block (appendf buf (some text) block)
unfolding appendf
appendf-Appends buf [] block small valid keeps = empty-Appends buf 1 block valid
appendf-Appends buf (b ∷ bs) block small valid keeps =
    rw (ne→== (length (b ∷ bs)) 0 (omega arith))
      (appendf_to-Appends buf (b ∷ bs) block small valid keeps)

-- For a valid buffer, a text of less than SIZE_MAX bytes and an allocator that keeps the bytes of
-- the block it moves: an append of bytes, a formatted append and a terminated view each either
-- succeed, with a valid buffer whose contents are the old ones followed by the text (nothing, for
-- the view), or leave the buffer as it was, where the new length and terminator would exceed a
-- machine word or where more capacity is needed and refused.
pub append-AllAppend :
    (buf : Buffer) (text : List ℕ) (block : Option Bank)
    → length text < size_max
    → IsValid buf
    → KeepsBytes buf block
    → AllAppend buf text block
append-AllAppend buf text block small valid keeps = record {
  bytes = append-Appends buf text block small valid keeps;
  formatted = appendf-Appends buf text block small valid keeps;
  terminated = cstr-Appends buf block valid keeps;
}
