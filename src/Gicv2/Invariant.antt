-- ===== src/Gicv2/Invariant.antt =====
-- src/dev/gicv2.c: the well-formedness of the controller's state.
use oemu.Common.{
  ℕ, zero, suc, ◌+◌, ◌-◌, ◌*◌, ◌/◌, ◌%◌, ◌^◌, ◌≤◌, ◌<◌, bit_and, ◌≡◌, Bool, Bool-cases, inl, inr,
  true, false, ◌&&◌, Bank, update, arith, ltb, leb, ◌==◌, ◌!=◌, if◌then◌else◌,
}
use oemu.Common.Word.{u8}
use oemu.Common.Bits.Masks.{bit_and-le}
use oemu.Gicv2.{
  Gicv2, max_lines, lines_of, set_pending, mark_active, acknowledge, highest_pending, spurious,
  lowest_active, running_priority,
}
use oemu.Gicv2.Bus.{
  dist_write, dist_write_other, write_target, cpu_read, cpu_write, end_of_interrupt, poke_bank,
  poke_fields, in_window, aligned,
}
use oemu.Gicv2.Banks.{poke_bank_lem, poke_fields_lem}

abbrev pub IsBelow : ℕ → Bank → Type 0
IsBelow limit a = (i : ℕ) → a i < limit

-- Every register and every line's state is in the range of its bits (the running priority at most
-- 256, its value without an active line, and the last software trigger a 32-bit word although its
-- field has 64), the two registers that nothing writes are 0, the line count is that given to `init`,
-- and the targets of the first 32 lines are fixed to this CPU.
pub record IsValid (lines : ℕ) (gic : Gicv2) : Type 0 where
  pub ctl_in : gic.ctl < 64
  pub typer_fixed : gic.typer ≡ 16 * 2 ^ 16 + (lines / 32 - 1)
  pub iidr_fixed : gic.iidr ≡ 0
  pub cpu_ctl_in : gic.cpu_ctl < 2
  pub cpu_pmr_in : gic.cpu_pmr < 256
  pub cpu_bpr_in : gic.cpu_bpr < 8
  pub running_pri_in : gic.running_pri ≤ 256
  pub ccpner_fixed : gic.ccpner ≡ 0
  pub sgir_in : gic.sgir < 2 ^ 32
  pub enable_in : IsBelow 2 gic.enable
  pub pending_in : IsBelow 2 gic.pending
  pub active_in : IsBelow 2 gic.active
  pub config_in : IsBelow 4 gic.config
  pub group_in : IsBelow 2 gic.group
  pub priority_in : IsBelow 256 gic.priority
  pub target_in : IsBelow 256 gic.target
  pub target_fixed : (i : ℕ) → i < 32 → gic.target i ≡ 1

IsBelow-update :
    (limit i v : ℕ) (a : Bank) → v < limit → IsBelow limit a → IsBelow limit (update a i v)
IsBelow-update limit i v a p h j = ground (arith, h j)

IsBelow-poke_bank :
    (a : Bank) (base v : ℕ) (set : Bool) → IsBelow 2 a → IsBelow 2 (poke_bank a base v set)
IsBelow-poke_bank a base v set h n = rw (poke_bank_lem a base v set n) (ground (arith, h n))

IsBelow-poke_fields :
    (limit word count : ℕ) (field : ℕ → ℕ) (a : Bank)
    → ((b : ℕ) → field b < limit)
    → IsBelow limit a
    → IsBelow limit (poke_fields word count field a)
IsBelow-poke_fields limit word count field a p h n =
    rw (poke_fields_lem word count field a n) (ground (arith, h n, p (n - word * count)))

u8-bit_and-lt : (v m : ℕ) → u8 (bit_and v m) < suc m
u8-bit_and-lt v m = omega (arith, bit_and-le v m)

lowest_active_le :
    (active priority : Bank) (left i best : ℕ) → lowest_active active priority left i best ≤ best
unfolding lowest_active
lowest_active_le active priority zero i best = omega arith
lowest_active_le active priority (suc left) i best =
    let rest =
      lowest_active_le active priority left (i + 1)
        (if active i != 0 && ltb (priority i) best then priority i else best) in
    ground (arith, rest)

running_priority_le : (gic : Gicv2) → running_priority gic ≤ 256
unfolding running_priority
running_priority_le gic = lowest_active_le gic.active gic.priority max_lines 0 256

module _ (lines : ℕ) where
  if-IsValid :
      (c : Bool) (a b : Gicv2)
      → IsValid lines a
      → IsValid lines b
      → IsValid lines (if c then a else b)
  if-IsValid true a b p q = p
  if-IsValid false a b p q = q

  if-IsValid_reply :
      (c : Bool) (a b : ℕ × Gicv2)
      → IsValid lines a.1
      → IsValid lines b.1
      → IsValid lines (if c then a else b).1
  if-IsValid_reply true a b p q = p
  if-IsValid_reply false a b p q = q

  module _ {gic : Gicv2} (v : IsValid lines gic) where
    with_enable : (a : Bank) → IsBelow 2 a → IsValid lines (record gic { enable = a })
    with_enable a h = assumption

    with_pending : (a : Bank) → IsBelow 2 a → IsValid lines (record gic { pending = a })
    with_pending a h = assumption

    with_active :
        (a : Bank) (r : ℕ)
        → IsBelow 2 a
        → r ≤ 256
        → IsValid lines (record gic { active = a; running_pri = r })
    with_active a r h q = assumption

    with_group : (a : Bank) → IsBelow 2 a → IsValid lines (record gic { group = a })
    with_group a h = assumption

    with_priority : (a : Bank) → IsBelow 256 a → IsValid lines (record gic { priority = a })
    with_priority a h = assumption

    with_config : (a : Bank) → IsBelow 4 a → IsValid lines (record gic { config = a })
    with_config a h = assumption

    pub set_pending-IsValid :
        (intid : ℕ) (level : Bool) → IsValid lines (set_pending gic intid level)
    unfolding set_pending
    set_pending-IsValid intid level =
        if-IsValid (leb max_lines intid) _ _ v
          (with_pending _ (IsBelow-update 2 intid _ gic.pending (ground arith) v.pending_in))

    write_target-IsValid : (line w : ℕ) → IsValid lines (write_target gic line w)
    unfolding write_target
    write_target-IsValid line w = elim (Bool-cases (ltb line (lines_of gic) && leb 32 line)) [
      | inl spi ↦ rw spi (
          targets (update gic.target line (u8 (bit_and w 0xff)))
            (IsBelow-update 256 line _ gic.target (u8-bit_and-lt w 0xff) v.target_in)
            (λ i p. ground (arith, v.target_fixed i)))
      | inr other ↦ rw other v
    ]
      where
        targets :
            (a : Bank)
            → IsBelow 256 a
            → ((i : ℕ) → i < 32 → a i ≡ 1)
            → IsValid lines (record gic { target = a })
        targets a h k = assumption

    dist_write_other-IsValid : (a w : ℕ) → w < 2 ^ 32 → IsValid lines (dist_write_other gic a w)
    unfolding dist_write_other
    dist_write_other-IsValid a w word =
        if-IsValid (a == 0) _ _ (control (bit_and w 0x3f) (omega (arith, bit_and-le w 0x3f)))
          (if-IsValid (a == 0xf00) _ _ (trigger w word) v)
      where
        trigger : (c : ℕ) → c < 2 ^ 32 → IsValid lines (record gic { sgir = c })
        trigger c h = assumption

        control : (c : ℕ) → c < 64 → IsValid lines (record gic { ctl = c })
        control c h = assumption

    pub dist_write-IsValid : (offset value : ℕ) → IsValid lines (dist_write gic offset value)
    unfolding dist_write
    dist_write-IsValid offset value =
        if-IsValid (in_window offset 0x080 0x20) _ _
          (with_group _
            (IsBelow-poke_fields 2 _ 32 _ gic.group (λ b. u8-bit_and-lt _ 1) v.group_in))
          (if-IsValid (in_window offset 0x100 0x80) _ _
            (with_enable _ (IsBelow-poke_bank gic.enable _ _ true v.enable_in))
            (if-IsValid (in_window offset 0x180 0x80) _ _
              (with_enable _ (IsBelow-poke_bank gic.enable _ _ false v.enable_in))
              (if-IsValid (in_window offset 0x200 0x80) _ _
                (with_pending _ (IsBelow-poke_bank gic.pending _ _ true v.pending_in))
                (if-IsValid (in_window offset 0x280 0x80) _ _
                  (with_pending _ (IsBelow-poke_bank gic.pending _ _ false v.pending_in))
                  (if-IsValid (in_window offset 0x300 0x80) _ _
                    (with_active _ _ (IsBelow-poke_bank gic.active _ _ true v.active_in)
                      v.running_pri_in)
                    (if-IsValid (in_window offset 0x380 0x80) _ _
                      (with_active _ _ (IsBelow-poke_bank gic.active _ _ false v.active_in)
                        v.running_pri_in)
                      (if-IsValid (in_window offset 0x400 0x100) _ _
                        (with_priority _ (
                          IsBelow-poke_fields 256 _ 4 _ gic.priority (λ b. u8-bit_and-lt _ 0xff)
                            v.priority_in))
                        (if-IsValid (in_window offset 0x800 (4 * lines_of gic)) _ _
                          (write_target-IsValid _ _)
                          (if-IsValid (in_window offset 0xc00 0x40) _ _
                            (with_config _ (
                              IsBelow-poke_fields 4 _ 16 _ gic.config (λ b. u8-bit_and-lt _ 3)
                                v.config_in))
                            (dist_write_other-IsValid _ _ (omega arith)))))))))))

    mark_active-IsValid : (id : ℕ) → IsValid lines (mark_active gic id)
    unfolding mark_active
    mark_active-IsValid id =
        marked _ _ _ (IsBelow-update 2 id 0 gic.pending (omega arith) v.pending_in)
          (IsBelow-update 2 id 1 gic.active (omega arith) v.active_in) (running_priority_le _)
      where
        marked :
            (p a : Bank) (r : ℕ)
            → IsBelow 2 p
            → IsBelow 2 a
            → r ≤ 256
            → IsValid lines (record gic { pending = p; active = a; running_pri = r })
        marked p a r h k q = assumption

    pub cpu_read-IsValid : (offset : ℕ) → IsValid lines (cpu_read gic offset).1
    unfolding cpu_read acknowledge
    cpu_read-IsValid offset = if-IsValid_reply (aligned offset == 0) _ _ v (
        if-IsValid_reply (aligned offset == 4) _ _ v (
          if-IsValid_reply (aligned offset == 8) _ _ v (
            if-IsValid_reply (aligned offset == 0xc) _ _
              (if-IsValid_reply (highest_pending gic == spurious) _ _ v
                (mark_active-IsValid (highest_pending gic)))
              v)))

    pub cpu_write-IsValid : (offset value : ℕ) → IsValid lines (cpu_write gic offset value)
    unfolding cpu_write end_of_interrupt
    cpu_write-IsValid offset value =
        if-IsValid (aligned offset == 0) _ _
          (control (bit_and _ 1) (omega (arith, bit_and-le (value % 2 ^ 32) 1)))
          (if-IsValid (aligned offset == 4) _ _
            (mask (bit_and _ 0xff) (omega (arith, bit_and-le (value % 2 ^ 32) 0xff)))
            (if-IsValid (aligned offset == 8) _ _
              (point (bit_and _ 7) (omega (arith, bit_and-le (value % 2 ^ 32) 7)))
              (if-IsValid (aligned offset == 0x10) _ _
                (with_active _ _ ended (running_priority_le _)) v)))
      where
        control : (c : ℕ) → c < 2 → IsValid lines (record gic { cpu_ctl = c })
        control c h = assumption

        mask : (c : ℕ) → c < 256 → IsValid lines (record gic { cpu_pmr = c })
        mask c h = assumption

        point : (c : ℕ) → c < 8 → IsValid lines (record gic { cpu_bpr = c })
        point c h = assumption

        id : ℕ
        id = bit_and (value % 2 ^ 32) 0x3ff

        ended : IsBelow 2 (if ltb id max_lines then update gic.active id 0 else gic.active)
        ended = elim (Bool-cases (ltb id max_lines)) [
          | inl p ↦ rw p (IsBelow-update 2 id 0 gic.active (omega arith) v.active_in)
          | inr p ↦ rw p v.active_in
        ]
