-- ===== src/Mmu/Parity.antt =====
-- src/mmu/mmu.c: the entries of the TLB against the walks that they stand for.
use oemu.Common.{
  ℕ, zero, suc, ◌+◌, ◌-◌, ◌*◌, ◌/◌, ◌%◌, ◌^◌, ◌≤◌, ◌<◌, bit_and, bit_or, ◌≡◌, refl, sym, ap, ap₂,
  ◌∙◌, subst, Bool, true, false, Option, none, some, if◌then◌else◌, arith,
}
use oemu.Common.Bits.Masks.{bit_and_low, bit_or_fields}
use oemu.Common.Word.{◌>>>◌, any_set, u8}
use oemu.Mmu.{permission, Access, compose_esr}
use oemu.Mmu.Walk.{Control, WalkInfo, Walked, walked_to, fault, page_base, verdict, walk_tables}
use oemu.Mmu.Tlb.{Entry, Outcome, translated, faulted, tlb_flags, outcome, serve, entry_of}
use oemu.Mmu.Page.{SamePage, page_base_lem}
use oemu.Mmu.Follow.{Reached, Follows}
use oemu.Mmu.Descent.{walk_tables-Follows}

-- What a walk is to its caller.
unfoldable pub answer : Access → Option Walked → Option Outcome
unfolding outcome
answer access none = none
answer access (some w) = some (outcome access w)

module _ (table_read : ℕ → Option ℕ) where
  -- The entry answers each access to its page as the walk of the present tables would.
  unfoldable pub Sound : Control → Entry → Type 0
  Sound c e =
      (va : ℕ) (access : Access)
      → va < 2 ^ 64
      → 0 < e.level
      → e.va ≡ page_base va
      → some (serve e va access) ≡ answer access (walk_tables table_read c va access)

-- The fields of the flags.
record Unpacked (info : WalkInfo) : Type 0 where
  pub ap : bit_and (tlb_flags info) 0x06 >>> 1 ≡ info.ap
  pub xn : any_set (tlb_flags info) 0x08 ≡ info.xn
  pub pxn : any_set (tlb_flags info) 0x10 ≡ info.pxn

unpacked :
    (level ap : ℕ) (xn pxn ng : Bool)
    → ap < 4
    → Unpacked (record { level = level; ap = ap; xn = xn; pxn = pxn; ng = ng })
unfolding tlb_flags
unpacked level zero xn pxn ng h = record {
  ap = ground arith;
  xn = ground arith;
  pxn = ground arith;
}
unpacked level (suc zero) xn pxn ng h = record {
  ap = ground arith;
  xn = ground arith;
  pxn = ground arith;
}
unpacked level (suc (suc zero)) xn pxn ng h = record {
  ap = ground arith;
  xn = ground arith;
  pxn = ground arith;
}
unpacked level (suc (suc (suc zero))) xn pxn ng h = record {
  ap = ground arith;
  xn = ground arith;
  pxn = ground arith;
}
unpacked level (suc (suc (suc (suc ap)))) xn pxn ng h = absurd (omega arith)

-- The verdict of a walk on the entry's attributes is the entry's answer.
decided :
    (p : Bool) (access : Access) (info : WalkInfo) (addr va : ℕ)
    → outcome access
        (if p then walked_to addr (some info) else fault permission (some info.level) va)
      ≡ (if p
          then translated addr
          else faulted (record { esr = compose_esr access permission (some info.level); far = va }))
unfolding outcome
decided true access info addr va = refl
decided false access info addr va = refl

page_offset :
    (pa va : ℕ)
    → pa < 2 ^ 64
    → bit_or (page_base pa) (bit_and va (2 ^ 12 - 1)) ≡ pa / 4096 * 4096 + va % 4096
page_offset pa va small =
    ap₂ bit_or (page_base_lem pa small) (bit_and_low 12 va)
    ∙ bit_or_fields 12 (pa / 4096) (va % 2 ^ 12) (omega arith)

serve_entry :
    (c : Control) (tva pa : ℕ) (info : WalkInfo) (va : ℕ) (access : Access)
    → info.ap < 4
    → info.level ≤ 3
    → pa < 2 ^ 64
    → serve (entry_of c tva pa info) va access
      ≡ outcome access (verdict info (pa / 4096 * 4096 + va % 4096) va access)
unfolding serve entry_of verdict
serve_entry c tva pa info va access ap_in below small =
    rw (flags.ap, flags.xn, flags.pxn, page_offset pa va small, level)
      (sym (decided _ access info _ va))
  where
    flags : Unpacked info
    flags = unpacked info.level info.ap info.xn info.pxn info.ng ap_in

    level : u8 info.level ≡ info.level
    level = ground arith

same_page : (a b : ℕ) → a < 2 ^ 64 → b < 2 ^ 64 → page_base a ≡ page_base b → SamePage a b
same_page a b ha hb e = omega (arith, page_base_lem a ha, page_base_lem b hb, e)

-- The walk that filled an entry speaks for the whole page.
pub entry_of-Sound :
    (table_read : ℕ → Option ℕ) (c : Control) (tva pa : ℕ) (info : WalkInfo) (access : Access)
    → tva < 2 ^ 64
    → walk_tables table_read c tva access ≡ some (walked_to pa (some info))
    → Sound table_read c (entry_of c tva pa info)
unfolding Sound Follows answer entry_of
entry_of-Sound table_read c tva pa info access small e va access' va_small used hit =
    ap some (serve_entry c tva pa info va access' r.ap_in r.level_below r.pa_in)
    ∙ sym (ap (answer access') r.address)
  where
    r : Reached va access' pa info (walk_tables table_read c va access')
    r =
        subst (λ w. Follows va access' w (walk_tables table_read c va access')) e
          (walk_tables-Follows table_read c tva va access access'
            (same_page tva va small va_small hit))
