-- ===== src/Mmu/Run.antt =====
-- src/mmu/mmu.c: sequences of translations, register changes and table changes.
use oemu.Common.{ℕ, ◌^◌, ◌<◌, ◌≡◌, refl, ap, ap₂, subst, sym, Option, none, some, List, [], ◌∷◌}
use oemu.Mmu.{dfsc, Access, compose_esr, esr, to_lower_from}
use oemu.Mmu.Walk.{Control, WalkFault, Walked, walked_to, walk_faults, walk}
use oemu.Mmu.Tlb.{Mmu, Outcome, translated, faulted, flush_all, init, translate, outcome}
use oemu.Mmu.Total.{IsEncodable, Ends, walk-Ends}
use oemu.Mmu.Parity.{answer}
use oemu.Mmu.Coherent.{Coherent, init-Coherent, flush_all-Coherent}
use oemu.Mmu.Transparent.{translate-walk, translate-Coherent}

-- What a guest does to its translation: an access under the registers of the moment, or other
-- tables with the invalidation that follows them.
pub data Event : Type 0 where
  access_at : Control → ℕ → Access → Event
  tables_change : (ℕ → Option ℕ) → Event

-- The answers of the accesses, with the TLB.
unfoldable pub run : (ℕ → Option ℕ) → Mmu → List Event → List (Option Outcome)
unfolding translate flush_all
run table_read mmu [] = []
run table_read mmu (access_at c va access ∷ events) =
    let r = translate table_read mmu c va access in r.0 ∷ run table_read r.1 events
run table_read mmu (tables_change tables ∷ events) = run tables (flush_all mmu) events

-- The answers of the walks alone.
unfoldable pub run_walks : (ℕ → Option ℕ) → List Event → List (Option Outcome)
unfolding walk answer
run_walks table_read [] = []
run_walks table_read (access_at c va access ∷ events) =
    answer access (walk table_read c va access) ∷ run_walks table_read events
run_walks table_read (tables_change tables ∷ events) = run_walks tables events

-- The addresses have 64 bits.
unfoldable pub InRange : List Event → Type 0
InRange [] = Unit
InRange (access_at c va access ∷ events) = (va < 2 ^ 64) × InRange events
InRange (tables_change tables ∷ events) = InRange events

Coherent-run :
    (table_read : ℕ → Option ℕ) (mmu : Mmu) (events : List Event)
    → Coherent table_read mmu
    → InRange events
    → run table_read mmu events ≡ run_walks table_read events
unfolding run run_walks InRange
Coherent-run table_read mmu [] h in_range = refl
Coherent-run table_read mmu (access_at c va access ∷ events) h (small, rest) =
    ap₂ (λ x xs. x ∷ xs) (translate-walk table_read mmu c va access h small)
      (Coherent-run table_read (translate table_read mmu c va access).1 events
        (translate-Coherent table_read mmu c va access h small) rest)
Coherent-run table_read mmu (tables_change tables ∷ events) h in_range =
    Coherent-run tables (flush_all mmu) events (flush_all-Coherent tables mmu) in_range

-- From the initial state, over every sequence of accesses at 64-bit addresses, of register changes
-- and of table changes each followed by an invalidation, the TLB is not to be seen: the answers
-- are those of a walk at each access.
pub run_transparent :
    (table_read : ℕ → Option ℕ) (events : List Event)
    → InRange events
    → run table_read init events ≡ run_walks table_read events
run_transparent table_read events in_range =
    Coherent-run table_read init events (init-Coherent table_read) in_range

-- A fault with a syndrome.
unfoldable pub IsReported : Outcome → Type 0
IsReported (translated pa) = Unit
IsReported (faulted f) = (e : ℕ) × (f.esr ≡ some e)

unfoldable pub Reports : Option Outcome → Type 0
Reports none = ⊥
Reports (some o) = IsReported o

encoded :
    (access : Access) (f : WalkFault) (code : ℕ)
    → dfsc f.cls f.level ≡ some code
    → (e : ℕ) × (compose_esr access f.cls f.level ≡ some e)
unfolding compose_esr
encoded access f code h = (
  esr (to_lower_from access.el) access.is_fetch access.is_write code,
  ap
      (λ c. elim c [
        | none ↦ none
        | some x ↦ some (esr (to_lower_from access.el) access.is_fetch access.is_write x)
      ])
      h,
)

pub answer-Reports : (access : Access) (w : Option Walked) → Ends w → Reports (answer access w)
unfolding answer Reports IsReported Ends IsEncodable outcome
answer-Reports access none h = h
answer-Reports access (some (walked_to pa info)) h = tt
answer-Reports access (some (walk_faults f)) (code, h) = encoded access f code h

-- A translation through a coherent TLB, of a 64-bit address, has an outcome, and a fault has a
-- syndrome.
pub translate-Reports :
    (table_read : ℕ → Option ℕ) (mmu : Mmu) (c : Control) (va : ℕ) (access : Access)
    → Coherent table_read mmu
    → va < 2 ^ 64
    → Reports (translate table_read mmu c va access).0
translate-Reports table_read mmu c va access h small =
    subst Reports (sym (translate-walk table_read mmu c va access h small))
      (answer-Reports access _ (walk-Ends table_read c va access))
