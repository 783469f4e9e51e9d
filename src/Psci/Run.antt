-- ===== src/Psci/Run.antt =====
-- src/fw/psci.c: the firmware calls of a whole run.
use oemu.Common.{
  ℕ, ◌+◌, ◌/◌, ◌%◌, ◌^◌, ◌≡◌, ◌∙◌, Bool, true, false, ◌||◌, Option, none, some, ◌==◌, if◌then◌else◌,
  arith, List, [], ◌∷◌,
}
use oemu.Common.Bits.Masks.{bit_and_low}
use oemu.Common.Word.{u64}
use oemu.Psci.{
  Psci, Answer, is_psci_class, is_fast_class, is_ours, dispatch, is_stopped, fn_system_off,
  fn_system_reset,
}

-- The state after a call, consumed or not.
unfoldable pub after_call : Psci → ℕ → Psci
after_call psci fnid = elim (dispatch psci fnid) [ none ↦ psci | some given ↦ given.psci ]

unfoldable pub after_calls : Psci → List ℕ → Psci
unfolding after_call
after_calls psci [] = psci
after_calls psci (fnid ∷ fnids) = after_calls (after_call psci fnid) fnids

abbrev pub contains : ℕ → List ℕ → Bool
contains fnid [] = false
contains fnid (other ∷ fnids) = other == fnid || contains fnid fnids

abbrev pub how_many_ours : List ℕ → ℕ
how_many_ours [] = 0
how_many_ours (fnid ∷ fnids) = (if is_ours fnid then 1 else 0) + how_many_ours fnids

-- What a state should record of the calls that led to it.
pub record Counted (fnids : List ℕ) (psci : Psci) : Type 0 where
  pub stopped : is_stopped psci ≡ (contains fn_system_off fnids || contains fn_system_reset fnids)
  pub halted : psci.halted ≡ contains fn_system_off fnids
  pub calls : u64 psci.calls ≡ u64 (how_many_ours fnids)

-- The top half of a call's 32-bit identifier decides whether it is consumed.
abbrev pub is_answered : ℕ → Bool
is_answered fnid =
    let space = fnid / 2 ^ 16 % 2 ^ 16 in
    space == 0x8400
    || space == 0xc400
    || space == 0x8000
    || space == 0xc000
    || space == 0x8447
    || space == 0xc447

is_ours_lem : (fnid : ℕ) → is_ours fnid ≡ is_answered fnid
unfolding is_ours is_psci_class is_fast_class
is_ours_lem fnid = ground (arith, bit_and_low 8 (fnid / 2 ^ 24), bit_and_low 8 (fnid / 2 ^ 16))

unfoldable pub was_consumed : Option Answer → Bool
was_consumed none = false
was_consumed (some given) = true

-- A call is consumed exactly where bits 31 to 16 of its identifier are one of the six spaces:
-- PSCI and fast calls of owner 0 and standard services, 32 and 64 bits wide.
dispatch-is_answered :
    (psci : Psci) (fnid : ℕ) → was_consumed (dispatch psci fnid) ≡ is_answered fnid
unfolding dispatch was_consumed
dispatch-is_answered psci fnid = ground arith ∙ is_ours_lem fnid
