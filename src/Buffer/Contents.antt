-- ===== src/Buffer/Contents.antt =====
-- src/buffer/buffer.c: the bytes that a buffer holds, through growth and appends.
use oemu.Common.{
  ℕ, zero, suc, ◌+◌, ◌-◌, ◌≤◌, ◌<◌, ◌≡◌, refl, sym, ap, ap₂, ◌∙◌, subst, ◌⊎◌, inl, inr, false, ltb,
  leb, Option, none, some, List, [], ◌∷◌, ◌++◌, length, Bank, update, arith, Bool-cases,
}
use oemu.Common.Status.{is_ok, ok, err_overflow, err_no_memory}
use oemu.Memory.{load, store}
use oemu.Memory.Bytes.{store_outside, load_same}
use oemu.Buffer.{Buffer, Outcome, size_max, checked_add, regrow, grow_to, grow, put, when_grown}
use oemu.Buffer.Growth.{grow_capacity-Fits}

unfoldable pub contents : Buffer → List ℕ
contents buf = load buf.bytes 0 buf.len

pub record IsValid (buf : Buffer) : Type 0 where
  pub within : buf.len ≤ buf.cap
  pub word : buf.cap ≤ size_max

-- realloc's contract: the bytes of the old block are at the front of the new one.
unfoldable pub KeepsBytes : Buffer → Option Bank → Type 0
KeepsBytes buf none = Unit
KeepsBytes buf (some moved) = (i : ℕ) → i < buf.cap → moved i ≡ buf.bytes i

-- A buffer with room for `additional` more bytes, and the old ones.
pub record Grown (buf grown : Buffer) (additional : ℕ) : Type 0 where
  pub len : grown.len ≡ buf.len
  pub same : (i : ℕ) → i < buf.len → grown.bytes i ≡ buf.bytes i
  pub room : buf.len + additional ≤ grown.cap
  pub word : grown.cap ≤ size_max

-- The two reasons to refuse, each with the buffer as it was.
pub record Refused (buf : Buffer) (additional : ℕ) (block : Option Bank) (outcome : Outcome)
    : Type 0 where
  pub unchanged : outcome.buffer ≡ buf
  pub reason :
      ((outcome.status ≡ err_overflow) × (size_max < buf.len + additional))
      ⊎ ((outcome.status ≡ err_no_memory) × (block ≡ none) × (buf.cap < buf.len + additional))

unfoldable pub Grows : Buffer → ℕ → Option Bank → Outcome → Type 0
Grows buf additional block outcome =
    ((outcome.status ≡ ok) × Grown buf outcome.buffer additional)
    ⊎ Refused buf additional block outcome

regrow-Grows :
    (buf : Buffer) (additional : ℕ) (block : Option Bank)
    → IsValid buf
    → KeepsBytes buf block
    → buf.len + additional ≤ size_max
    → buf.cap < buf.len + additional
    → Grows buf additional block (regrow buf (buf.len + additional) block)
unfolding regrow KeepsBytes Grows
regrow-Grows buf additional none valid keeps fits over =
    inr (record { unchanged = refl; reason = inr (refl, refl, over) })
regrow-Grows buf additional (some moved) valid keeps fits over =
    let cap = grow_capacity-Fits buf.cap (buf.len + additional) valid.word fits in
    inl (
      refl,
      record {
        len = refl;
        same = λ i h. keeps i (omega (arith, valid.within));
        room = cap.holds;
        word = cap.word;
      },
    )

grow_to-Grows :
    (buf : Buffer) (additional : ℕ) (block : Option Bank)
    → IsValid buf
    → KeepsBytes buf block
    → buf.len + additional ≤ size_max
    → Grows buf additional block (grow_to buf block (some (buf.len + additional)))
unfolding grow_to Grows
grow_to-Grows buf additional block valid keeps fits =
    elim (Bool-cases (leb (buf.len + additional) buf.cap)) [
      | inl f ↦ rw f (
          inl (
            refl,
            record { len = refl; same = λ i h. refl; room = ground (arith, f); word = valid.word },
          ))
      | inr f ↦ rw f (regrow-Grows buf additional block valid keeps fits (ground (arith, f)))
    ]

pub checked_add-cases :
    (a b : ℕ)
    → b ≤ size_max
    → ((checked_add a b ≡ none) × (size_max < a + b))
      ⊎ ((checked_add a b ≡ some (a + b)) × (a + b ≤ size_max))
unfolding checked_add
checked_add-cases a b word = elim (Bool-cases (ltb (size_max - b) a)) [
  | inl e ↦ inl (ground (arith, e), ground (arith, e))
  | inr e ↦ inr (ground (arith, e), ground (arith, e))
]

pub grow-Grows :
    (buf : Buffer) (additional : ℕ) (block : Option Bank)
    → additional ≤ size_max
    → IsValid buf
    → KeepsBytes buf block
    → Grows buf additional block (grow buf additional block)
unfolding grow Grows grow_to
grow-Grows buf additional block small valid keeps =
    elim (checked_add-cases buf.len additional small) [
      | inl (e, over) ↦ inr (record {
        unchanged = ap (λ t. (grow_to buf block t).buffer) e;
        reason = inl (ap (λ t. (grow_to buf block t).status) e, over);
      })
      | inr (e, fits) ↦
          subst (λ t. Grows buf additional block (grow_to buf block t)) (sym e)
            (grow_to-Grows buf additional block valid keeps fits)
    ]

-- What an append of `text`, which needs `needed` bytes, must do: either the buffer is valid and its
-- contents are the old ones followed by the text, or it is as it was, for one of the two reasons.
unfoldable pub Appends : Buffer → List ℕ → ℕ → Option Bank → Outcome → Type 0
Appends buf text needed block outcome =
    ((outcome.status ≡ ok)
      × IsValid outcome.buffer
      × (contents outcome.buffer ≡ contents buf ++ text))
    ⊎ Refused buf needed block outcome

load_split :
    (heap : Bank) (base m n : ℕ)
    → load heap base (m + n) ≡ load heap base m ++ load heap (base + m) n
unfolding load
load_split heap base zero n = ap₂ (load heap) (omega arith) (omega arith)
load_split heap base (suc m) n =
    ap (load heap base) (let e : suc m + n ≡ suc (m + n) = omega arith in e)
    ∙ ap (λ t. heap base ∷ t) (load_split heap (base + 1) m n)
    ∙ ap (λ t. heap base ∷ (load heap (base + 1) m ++ load heap t n))
        (let e : base + 1 + m ≡ base + suc m = omega arith in e)

load-store_prefix :
    (heap : Bank) (base : ℕ) (text extra : List ℕ)
    → load (store heap base (text ++ extra)) base (length text) ≡ text
unfolding load store
load-store_prefix heap base [] extra = refl
load-store_prefix heap base (b ∷ bs) extra =
    ap₂ (λ x xs. x ∷ xs)
      (store_outside (update heap base b) (base + 1) base (bs ++ extra) (inl (omega arith))
        ∙ ground arith)
      (load-store_prefix (update heap base b) (base + 1) bs extra)

put-contents :
    (buf grown : Buffer) (text extra : List ℕ) (needed : ℕ)
    → Grown buf grown needed
    → contents (put grown (text ++ extra) (length text)) ≡ contents buf ++ text
unfolding contents put
put-contents buf grown text extra needed g =
    load_split (store grown.bytes grown.len (text ++ extra)) 0 grown.len (length text)
    ∙ ap₂ (λ xs ys. xs ++ ys) (old ∙ ap (load buf.bytes 0) g.len)
        (ap (λ t. load (store grown.bytes grown.len (text ++ extra)) t (length text))
            (let e : 0 + grown.len ≡ grown.len = omega arith in e)
          ∙ load-store_prefix grown.bytes grown.len text extra)
  where
    old :
        load (store grown.bytes grown.len (text ++ extra)) 0 grown.len ≡ load buf.bytes 0 grown.len
    old = load_same _ _ 0 grown.len λ i low high.
        store_outside grown.bytes grown.len i (text ++ extra) (inl (omega arith))
        ∙ g.same i (omega (arith, g.len))

put-IsValid :
    (buf grown : Buffer) (written : List ℕ) (added needed : ℕ)
    → Grown buf grown needed
    → added ≤ needed
    → IsValid (put grown written added)
unfolding put
put-IsValid buf grown written added needed g small = record {
  within = omega (arith, g.len, g.room);
  word = g.word;
}

-- The write that follows a growth.
pub when_grown-Appends :
    (buf : Buffer) (text extra : List ℕ) (needed : ℕ) (block : Option Bank) (grown : Outcome)
    → length text ≤ needed
    → Grows buf needed block grown
    → Appends buf text needed block (when_grown grown λ g. put g (text ++ extra) (length text))
unfolding when_grown Grows Appends
when_grown-Appends buf text extra needed block grown small (inl (e, g)) = rw (ap is_ok e) (
    inl (
      refl,
      put-IsValid buf grown.buffer (text ++ extra) (length text) needed g small,
      put-contents buf grown.buffer text extra needed g,
    ))
when_grown-Appends buf text extra needed block grown small (inr refused) =
    rw (not_ok refused.reason) (inr refused)
  where
    not_ok :
        ((grown.status ≡ err_overflow) × (size_max < buf.len + needed))
          ⊎ ((grown.status ≡ err_no_memory) × (block ≡ none) × (buf.cap < buf.len + needed))
        → is_ok grown.status ≡ false
    not_ok (inl (e, _)) = ap is_ok e
    not_ok (inr (e, _, _)) = ap is_ok e
