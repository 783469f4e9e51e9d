-- ===== src/Common/Ring.antt =====
-- A byte ring on a fixed array, as the queue that it holds.
use native.Mathlib.Nat.{mod-eq_of_lt, mod-eq-sub-mod, mod-add-mod}
use oemu.Common.{
  ℕ, zero, suc, ◌+◌, ◌-◌, ◌%◌, ◌≤◌, ◌<◌, ◌≡◌, ◌≢◌, refl, ap, ap₂, sym, ◌∙◌, List, [], ◌∷◌, ◌++◌,
  Bank, update, arith, ltb, if◌then◌else◌, length, ne→==, eq→==,
}
use native.Mathlib.Decide.{dec_lt}

-- The `left` bytes from the `i`-th after `head` on, going round at `cap`.
abbrev pub queue_from : Bank → ℕ → ℕ → ℕ → ℕ → List ℕ
queue_from ring cap head i zero = []
queue_from ring cap head i (suc left) =
    ring ((head + i) % cap) ∷ queue_from ring cap head (i + 1) left

abbrev pub queue : Bank → ℕ → ℕ → ℕ → List ℕ
queue ring cap head count = queue_from ring cap head 0 count

pub length-queue_from :
    (ring : Bank) (cap head i left : ℕ) → length (queue_from ring cap head i left) ≡ left
length-queue_from ring cap head i zero = refl
length-queue_from ring cap head i (suc left) = ap suc (length-queue_from ring cap head (i + 1) left)

-- An index goes round at most once.
wrap :
    (cap head i : ℕ)
    → head < cap
    → i < cap
    → (head + i) % cap ≡ (if ltb (head + i) cap then head + i else head + i - cap)
wrap cap head i p q = elim (dec_lt (head + i) cap) [
  | yes h ↦ ground (arith, mod-eq_of_lt h)
  | no h ↦ ground (
    arith,
    mod-eq-sub-mod {n = head + i} {m = cap} (omega arith),
    mod-eq_of_lt {n = head + i - cap} {m = cap} (omega arith),
  )
]

index_ne : (cap head i c : ℕ) → head < cap → i < c → c < cap → (head + c) % cap ≢ (head + i) % cap
index_ne cap head i c p q r = ground (arith, wrap cap head i p (omega arith), wrap cap head c p r)

queue_from-update :
    (ring : Bank) (cap head i left c v : ℕ)
    → head < cap
    → c < cap
    → i + left ≤ c
    → queue_from (update ring ((head + c) % cap) v) cap head i left
      ≡ queue_from ring cap head i left
queue_from-update ring cap head i zero c v p q r = refl
queue_from-update ring cap head i (suc left) c v p q r =
    ap₂ ◌∷◌ (rw (ne→== _ _ (index_ne cap head i c p (omega arith) q)) refl)
      (queue_from-update ring cap head (i + 1) left c v p q (omega arith))

queue_from-snoc :
    (ring : Bank) (cap head i left : ℕ)
    → queue_from ring cap head i (suc left)
      ≡ queue_from ring cap head i left ++ (ring ((head + (i + left)) % cap) ∷ [])
queue_from-snoc ring cap head i zero = ap (λ k. ring ((head + k) % cap) ∷ []) (omega arith)
queue_from-snoc ring cap head i (suc left) =
    ap (λ q. ring ((head + i) % cap) ∷ q)
      (queue_from-snoc ring cap head (i + 1) left
        ∙ ap (λ k. queue_from ring cap head (i + 1) left ++ (ring ((head + k) % cap) ∷ []))
            (omega arith))

-- Writing behind the last byte of a ring with room appends it.
pub queue-append :
    (ring : Bank) (cap head count v : ℕ)
    → head < cap
    → count < cap
    → queue (update ring ((head + count) % cap) v) cap head (count + 1)
      ≡ queue ring cap head count ++ (v ∷ [])
queue-append ring cap head count v p q =
    ap (queue_from written cap head 0) (let e : count + 1 ≡ suc count = omega arith in e)
    ∙ queue_from-snoc written cap head 0 count
    ∙ ap₂ (λ old last. old ++ (last ∷ []))
        (queue_from-update ring cap head 0 count count v p q (omega arith)) newest
  where
    written : Bank
    written = update ring ((head + count) % cap) v

    newest : written ((head + (0 + count)) % cap) ≡ v
    newest =
        ap (λ k. written ((head + k) % cap)) (let e : 0 + count ≡ count = omega arith in e)
        ∙ rw (eq→== ((head + count) % cap) _ refl) refl

queue_from-shift :
    (ring : Bank) (cap head i left : ℕ)
    → queue_from ring cap ((head + 1) % cap) i left ≡ queue_from ring cap head (i + 1) left
queue_from-shift ring cap head i zero = refl
queue_from-shift ring cap head i (suc left) =
    ap₂ ◌∷◌ (ap ring (mod-add-mod (head + 1) cap i ∙ ap (λ k. k % cap) (omega arith)))
      (queue_from-shift ring cap head (i + 1) left)

-- A ring that holds something is its first byte and the ring from the next index on.
pub queue-pop :
    (ring : Bank) (cap head count : ℕ)
    → head < cap
    → count ≢ 0
    → queue ring cap head count ≡ ring head ∷ queue ring cap ((head + 1) % cap) (count - 1)
queue-pop ring cap head zero p ne = absurd (ne refl)
queue-pop ring cap head (suc count) p ne =
    ap₂ ◌∷◌
      (ap ring (ap (λ k. k % cap) (let e : head + 0 ≡ head = omega arith in e) ∙ mod-eq_of_lt p))
      (sym (queue_from-shift ring cap head 0 count)
        ∙ ap (queue_from ring cap ((head + 1) % cap) 0)
            (let e : count ≡ suc count - 1 = omega arith in e))
