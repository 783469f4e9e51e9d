-- ===== src/Mmu/Tlb.antt =====
-- src/mmu/mmu.c: the TLB and the translation through it. The registers are `Control`, read anew at
-- each access; the cache, its epoch, the counters and the fault slot are `Mmu`.
use oemu.Common.{
  ℕ, ◌+◌, ◌-◌, ◌^◌, bit_and, bit_or, Bool, true, false, not, ◌&&◌, ◌||◌, Option, none, some, ltb,
  leb, ◌==◌, ◌!=◌, if◌then◌else◌,
}
use oemu.Common.Word.{◌>>>◌, ◌<<<◌, u8, u32, u64, any_set}
use oemu.Mmu.{permission, use_ttbr1, sctlr_m, permits, Access, compose_esr}
use oemu.Mmu.Walk.{Control, WalkInfo, Walked, walked_to, walk_faults, page_base, strip, walk}
use oemu.Sysreg.{Sysregs}

-- `oemu_tlb_entry`; level 0 is a free entry.
pub record Entry : Type 0 where
  pub va : ℕ
  pub pa : ℕ
  pub asid : ℕ
  pub level : ℕ
  pub flags : ℕ
  pub vmid : ℕ

-- `oemu_mmu_fault`; `none` is the abort of a syndrome that cannot be encoded.
pub record MmuFault : Type 0 where
  pub esr : Option ℕ
  pub far : ℕ

-- `oemu_mmu`, without the pointers to the registers and to the bus.
pub record Mmu : Type 0 where
  pub fault : MmuFault
  pub fault_valid : Bool
  pub tlb : ℕ → Entry
  pub epoch : Control
  pub epoch_valid : Bool
  pub tlb_hits : ℕ
  pub tlb_misses : ℕ
  pub tlb_flushes : ℕ

-- A status with what it comes with: the physical address, or the fault.
pub data Outcome : Type 0 where
  translated : ℕ → Outcome
  faulted : MmuFault → Outcome

abbrev pub free_entry : Entry
free_entry = record { va = 0; pa = 0; asid = 0; level = 0; flags = 0; vmid = 0 }

abbrev pub no_control : Control
no_control = record { sctlr = 0; tcr = 0; ttbr0 = 0; ttbr1 = 0; mair = 0 }

-- `oemu_mmu_init`
unfoldable pub init : Mmu
init = record {
  fault = record { esr = some 0; far = 0 };
  fault_valid = false;
  tlb = λ i. free_entry;
  epoch = no_control;
  epoch_valid = false;
  tlb_hits = 0;
  tlb_misses = 0;
  tlb_flushes = 0;
}

-- `tlb_epoch_read`
unfoldable pub epoch_read : Sysregs → Control
epoch_read sys = record {
  sctlr = sys.sctlr_el1;
  tcr = sys.tcr_el1;
  ttbr0 = sys.ttbr0_el1;
  ttbr1 = sys.ttbr1_el1;
  mair = sys.mair_el1;
}

unfoldable pub tlb_index : ℕ → ℕ
tlb_index va = bit_and (va >>> 12) (4096 - 1)

unfoldable pub tlb_flags : WalkInfo → ℕ
tlb_flags info =
    let f_ng : ℕ = if info.ng then bit_or 0 0x01 else 0 in
    let f_ap = bit_or f_ng (bit_and (info.ap <<< 1) 0x06) in
    let f_xn = if info.xn then bit_or f_ap 0x08 else f_ap in
    if info.pxn then bit_or f_xn 0x10 else f_xn

-- `oemu_mmu_flush_all`
unfoldable pub flush_all : Mmu → Mmu
flush_all mmu = record mmu { tlb = λ i. free_entry; tlb_flushes = u64 (mmu.tlb_flushes + 1) }

-- What a walk's end is to its caller: the fault with its syndrome.
unfoldable pub outcome : Access → Walked → Outcome
unfolding compose_esr
outcome access (walked_to pa info) = translated pa
outcome access (walk_faults f) =
    faulted (record { esr = compose_esr access f.cls f.level; far = f.far })

-- The answer of an entry that matches: the permission table on its inputs.
unfoldable pub serve : Entry → ℕ → Access → Outcome
unfolding compose_esr
serve e va access =
    if permits (bit_and e.flags 0x06 >>> 1) (any_set e.flags 0x08) (any_set e.flags 0x10)
      (access.el == 0) access.is_write access.is_fetch
    then translated (bit_or e.pa (bit_and va (2 ^ 12 - 1)))
    else faulted (record { esr = compose_esr access permission (some e.level); far = va })

-- `tlb_lookup`: the entry of the set holds this page.
unfoldable pub is_hit : Mmu → ℕ → Bool
unfolding tlb_index
is_hit mmu va = let e = mmu.tlb (tlb_index va) in not (e.level == 0 || e.va != page_base va)

unfoldable pub count_hit : Mmu → Mmu
count_hit mmu = record mmu { tlb_hits = u64 (mmu.tlb_hits + 1) }

unfoldable pub count_miss : Mmu → Mmu
count_miss mmu = record mmu { tlb_misses = u64 (mmu.tlb_misses + 1) }

-- `tlb_fill`: the new entry, and the set that it is put in.
unfoldable pub entry_of : Control → ℕ → ℕ → WalkInfo → Entry
unfolding tlb_flags
entry_of c va pa info = record {
  va = page_base va;
  pa = page_base pa;
  asid = u32 ((if use_ttbr1 va then c.ttbr1 else c.ttbr0) >>> 48);
  level = u8 info.level;
  flags = tlb_flags info;
  vmid = 0;
}

unfoldable pub tlb_fill : Mmu → Control → ℕ → ℕ → WalkInfo → Mmu
unfolding entry_of tlb_index
tlb_fill mmu c va pa info = record mmu {
  tlb = λ i. if tlb_index va == i then entry_of c va pa info else mmu.tlb i;
}

abbrev pub same_control : Control → Control → Bool
same_control a b =
    a.sctlr == b.sctlr
    && a.tcr == b.tcr
    && a.ttbr0 == b.ttbr0
    && a.ttbr1 == b.ttbr1
    && a.mair == b.mair

-- The start of `translate`: a changed register flushes, and the epoch is the present one.
unfoldable pub refresh_epoch : Mmu → Control → Mmu
unfolding flush_all
refresh_epoch mmu c =
    let flushed =
      if mmu.epoch_valid && not (same_control mmu.epoch c) then flush_all mmu else mmu in
    record flushed { epoch = c; epoch_valid = true }

-- `cacheable`
unfoldable pub cacheable : Control → Access → Bool
cacheable c access = bit_and c.sctlr sctlr_m != 0 && ltb access.el 3

-- What the end of a walk leaves in the cache.
unfoldable pub keep : Mmu → Control → ℕ → Access → Walked → Mmu
unfolding tlb_fill cacheable
keep mmu c va access (walked_to pa (some info)) =
    if cacheable c access then tlb_fill mmu c va pa info else mmu
keep mmu c va access (walked_to pa none) = mmu
keep mmu c va access (walk_faults f) = mmu

-- The end of `translate`; `none` is a walk that has no end.
unfoldable pub after_walk : Mmu → Control → ℕ → Access → Option Walked → Option Outcome × Mmu
unfolding outcome keep
after_walk mmu c va access none = (none, mmu)
after_walk mmu c va access (some w) = (some (outcome access w), keep mmu c va access w)

-- `translate`; `va` as the guest presents it
unfoldable pub translate : (ℕ → Option ℕ) → Mmu → Control → ℕ → Access → Option Outcome × Mmu
unfolding refresh_epoch cacheable is_hit serve count_hit count_miss after_walk
translate table_read mmu c va access =
    let fresh = refresh_epoch mmu c in
    let tva = strip c.tcr va in
    let w = walk table_read c va access in
    if cacheable c access
    then (if is_hit fresh tva
        then (some (serve (fresh.tlb (tlb_index tva)) tva access), count_hit fresh)
        else after_walk (count_miss fresh) c tva access w)
    else after_walk fresh c tva access w

-- `oemu_mmu_take_fault`
unfoldable pub take_fault : Mmu → Option MmuFault × Mmu
take_fault mmu =
    if mmu.fault_valid then (some mmu.fault, record mmu { fault_valid = false }) else (none, mmu)

-- `oemu_mmu_internal_tlb_peek`
unfoldable pub tlb_peek : Mmu → ℕ → Option Entry
tlb_peek mmu i =
    if leb 4096 i then none else if (mmu.tlb i).level == 0 then none else some (mmu.tlb i)
