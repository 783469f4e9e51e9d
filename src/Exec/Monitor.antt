-- ===== src/Exec/Monitor.antt =====
-- src/exec/exec.c: the exclusive monitor over a list of stores that `note_store` hears of.
use oemu.Common.{
  ℕ, ◌+◌, ◌<◌, Bool, true, false, not, ◌&&◌, ◌||◌, List, [], ◌∷◌, ◌++◌, sym, ltb, ◌≡◌, refl, ap,
  ◌∙◌, arith, if_both,
}
use oemu.Exec.Cpu.{Cpu, overlaps, note_store}
use oemu.Exec.Access.{holds}

-- The core after `note_store` for each range of a list, which has a first address and a length.
abbrev pub after_stores : Cpu → List (ℕ × ℕ) → Cpu
after_stores cpu [] = cpu
after_stores cpu ((addr, nbytes) ∷ stores) = after_stores (note_store cpu addr nbytes) stores

abbrev pub AllPositive : List (ℕ × ℕ) → Type 0
AllPositive [] = Unit
AllPositive ((addr, nbytes) ∷ stores) = (0 < nbytes) × AllPositive stores

-- Some address lies in both ranges: each starts before the other ends.
abbrev pub meets : ℕ → ℕ → ℕ → ℕ → Bool
meets a n b k = ltb a (b + k) && ltb b (a + n)

abbrev pub any_meets : ℕ → ℕ → List (ℕ × ℕ) → Bool
any_meets a n [] = false
any_meets a n ((addr, nbytes) ∷ stores) = meets a n addr nbytes || any_meets a n stores

overlaps-meets : (a n b k : ℕ) → 0 < n → 0 < k → overlaps a n b k ≡ meets a n b k
unfolding overlaps
overlaps-meets a n b k hn hk = ground arith

-- A reservation that is over stays over.
lost :
    (stores : List (ℕ × ℕ)) (cpu : Cpu) (a n : ℕ)
    → cpu.monitor_valid ≡ false
    → holds (after_stores cpu stores) a n ≡ false
unfolding holds note_store
lost [] cpu a n e = ground arith
lost ((addr, nbytes) ∷ stores) cpu a n e =
    lost stores (note_store cpu addr nbytes) a n (ground arith)

-- A store against a live reservation.
note_store-meets :
    (cpu : Cpu) (b k : ℕ)
    → cpu.monitor_valid ≡ true
    → overlaps cpu.monitor_addr cpu.monitor_size b k ≡ true
    → (note_store cpu b k).monitor_valid ≡ false
unfolding note_store
note_store-meets cpu b k live met = rw (live, met) refl

note_store-misses :
    (cpu : Cpu) (b k : ℕ)
    → overlaps cpu.monitor_addr cpu.monitor_size b k ≡ false
    → note_store cpu b k ≡ cpu
unfolding note_store
note_store-misses cpu b k missed =
    if_both (λ c. c ≡ cpu) (cpu.monitor_valid && overlaps cpu.monitor_addr cpu.monitor_size b k)
      (λ met. ground arith) λ _. refl

-- A live reservation outlasts a list of noted stores exactly where none of them meets it.
pub holds-after_stores :
    (stores : List (ℕ × ℕ)) (cpu : Cpu) (n : ℕ)
    → AllPositive stores
    → 0 < n
    → cpu.monitor_valid ≡ true
    → cpu.monitor_size ≡ n
    → holds (after_stores cpu stores) cpu.monitor_addr n ≡ not (any_meets cpu.monitor_addr n stores)
unfolding holds note_store
holds-after_stores [] cpu n some_bytes inside live sized = ground arith
holds-after_stores ((addr, k) ∷ stores) cpu n some_bytes inside live sized =
    elim (overlaps cpu.monitor_addr cpu.monitor_size addr k)
        as (λ met.
          overlaps cpu.monitor_addr cpu.monitor_size addr k ≡ met
          → holds (after_stores (note_store cpu addr k) stores) cpu.monitor_addr n
            ≡ not (met || any_meets cpu.monitor_addr n stores)) [
              | true ↦ λ met.
                  lost stores (note_store cpu addr k) cpu.monitor_addr n
                    (note_store-meets cpu addr k live met)
              | false ↦ λ missed.
                  ap (λ c. holds (after_stores c stores) cpu.monitor_addr n)
                    (note_store-misses cpu addr k missed)
                  ∙ holds-after_stores stores cpu n some_bytes.1 inside live sized
            ]
      refl
    ∙ ap (λ met. not (met || any_meets cpu.monitor_addr n stores)) same
  where
    same : overlaps cpu.monitor_addr cpu.monitor_size addr k ≡ meets cpu.monitor_addr n addr k
    same = rw sized (overlaps-meets cpu.monitor_addr n addr k inside some_bytes.0)

-- What the monitor holds: an address, a length, and whether it is live.
abbrev pub monitor : Cpu → ℕ × ℕ × Bool
monitor cpu = (cpu.monitor_addr, cpu.monitor_size, cpu.monitor_valid)

-- `note_store` on the monitor alone.
abbrev noted : ℕ → ℕ → ℕ × ℕ × Bool → ℕ × ℕ × Bool
noted addr nbytes (a, n, live) = (a, n, live && not (overlaps a n addr nbytes))

monitor-note_store :
    (cpu : Cpu) (addr nbytes : ℕ)
    → monitor (note_store cpu addr nbytes) ≡ noted addr nbytes (monitor cpu)
unfolding note_store
monitor-note_store cpu addr nbytes = ground arith

pub monitor-after_stores :
    (stores : List (ℕ × ℕ)) (a b : Cpu)
    → monitor a ≡ monitor b
    → monitor (after_stores a stores) ≡ monitor (after_stores b stores)
monitor-after_stores [] a b e = e
monitor-after_stores ((addr, nbytes) ∷ stores) a b e =
    monitor-after_stores stores (note_store a addr nbytes) (note_store b addr nbytes) (
      monitor-note_store a addr nbytes
      ∙ ap (noted addr nbytes) e
      ∙ sym (monitor-note_store b addr nbytes))

pub after_stores-append :
    (xs ys : List (ℕ × ℕ)) (cpu : Cpu)
    → after_stores cpu (xs ++ ys) ≡ after_stores (after_stores cpu xs) ys
after_stores-append [] ys cpu = refl
after_stores-append ((addr, nbytes) ∷ xs) ys cpu =
    after_stores-append xs ys (note_store cpu addr nbytes)

pub append-AllPositive :
    (xs ys : List (ℕ × ℕ)) → AllPositive xs → AllPositive ys → AllPositive (xs ++ ys)
append-AllPositive [] ys p q = q
append-AllPositive (x ∷ xs) ys p q = (p.0, append-AllPositive xs ys p.1 q)
