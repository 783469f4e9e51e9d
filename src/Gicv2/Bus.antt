-- ===== src/Gicv2/Bus.antt =====
-- The two register windows of src/dev/gicv2.c: `pack_bank`, `poke_bank`, and the read and write
-- callbacks of the distributor and of the CPU interface. They always return OEMU_OK, so a read is
-- its value (with the new state where it has an effect) and a write is the new state. The
-- access size is ignored by the source.
use oemu.Common.{
  ℕ, zero, suc, ◌+◌, ◌-◌, ◌*◌, ◌/◌, bit_and, bit_or, Bool, true, false, ◌&&◌, Bank, update, ltb,
  leb, ◌==◌, ◌!=◌, if◌then◌else◌,
}
use oemu.Common.Word.{◌<<<◌, ◌>>>◌, u8, u32, complement}
use oemu.Gicv2.{Gicv2, max_lines, lines_of, running_priority, acknowledge}

-- The loop of `pack_bank` at bit `b`.
unfoldable pub pack_from : Bank → ℕ → ℕ → ℕ → ℕ → ℕ
pack_from state base_line zero b v = v
pack_from state base_line (suc left) b v =
    pack_from state base_line left (b + 1) (
      if ltb (base_line + b) max_lines && state (base_line + b) != 0 then bit_or v (1 <<< b) else v)

unfoldable pub pack_bank : Bank → ℕ → ℕ
pack_bank state base_line = pack_from state base_line 32 0 0

-- The loops that write fields of `width` bits from `b` on into the lines from `base` on; a line
-- beyond the bank is skipped. `field b` is what the word holds for it.
unfoldable pub poke_from : (ℕ → Bool) → (ℕ → ℕ) → ℕ → ℕ → ℕ → Bank → Bank
poke_from named field base zero b state = state
poke_from named field base (suc left) b state =
    poke_from named field base left (b + 1)
      (if named b && ltb (base + b) max_lines then update state (base + b) (field b) else state)

unfoldable pub poke_bank : Bank → ℕ → ℕ → Bool → Bank
poke_bank state base_line mask set =
    poke_from (λ b. bit_and (mask >>> b) 1 != 0) (λ b. if set then 1 else 0) base_line 32 0 state

-- The loops over the lines of one word for group, priority and configuration.
unfoldable pub poke_fields : ℕ → ℕ → (ℕ → ℕ) → Bank → Bank
poke_fields word count field state = poke_from (λ b. true) field (word * count) count 0 state

-- `v |= (uint32_t)state[word * count + b] << (b * width)`
unfoldable pub gather_from : Bank → ℕ → ℕ → ℕ → ℕ → ℕ → ℕ
gather_from state base width zero b v = v
gather_from state base width (suc left) b v =
    gather_from state base width left (b + 1)
      (if ltb (base + b) max_lines then bit_or v (u32 (state (base + b) <<< (b * width))) else v)

abbrev pub in_window : ℕ → ℕ → ℕ → Bool
in_window offset base size = leb base offset && ltb offset (base + size)

-- `(unsigned)((offset - base) / 4U)`; the windows keep it far below 2 ^ 32.
abbrev pub word_of : ℕ → ℕ → ℕ
word_of offset base = (offset - base) / 4

-- `(unsigned)(offset & ~UINT64_C(3))`
abbrev pub aligned : ℕ → ℕ
aligned offset = u32 (bit_and offset (complement 64 3))

-- The `switch` at the end of `dist_read`.
unfoldable pub dist_read_other : Gicv2 → ℕ → ℕ
dist_read_other gic a =
    if a == 0x000
    then gic.ctl
    else if a == 0x004
    then gic.typer
    else if a == 0x008
    then gic.iidr
    else if a == 0xf88
    then 0x0d
    else if a == 0xf8c
    then 0xf0
    else if a == 0xf90
    then 0x05
    else if a == 0xf94
    then 0xb1
    else if a == 0xfe0
    then 0x00
    else if a == 0xfe4
    then 0x00
    else if a == 0xfe8
    then 0x2b
    else if a == 0xfec
    then 0x02
    else 0

unfoldable pub dist_read : Gicv2 → ℕ → ℕ
unfolding dist_read_other
dist_read gic offset =
    if in_window offset 0x080 0x20
    then pack_bank gic.group (word_of offset 0x080 * 32)
    else if in_window offset 0x100 0x80
    then pack_bank gic.enable (word_of offset 0x100 * 32)
    else if in_window offset 0x180 0x80
    then pack_bank gic.enable (word_of offset 0x180 * 32)
    else if in_window offset 0x200 0x80
    then pack_bank gic.pending (word_of offset 0x200 * 32)
    else if in_window offset 0x280 0x80
    then pack_bank gic.pending (word_of offset 0x280 * 32)
    else if in_window offset 0x300 0x80
    then pack_bank gic.active (word_of offset 0x300 * 32)
    else if in_window offset 0x380 0x80
    then pack_bank gic.active (word_of offset 0x380 * 32)
    else if in_window offset 0x400 0x100
    then gather_from gic.priority (word_of offset 0x400 * 4) 8 4 0 0
    else if in_window offset 0x800 (4 * lines_of gic)
    then (let line = word_of offset 0x800 in if ltb line (lines_of gic) then gic.target line else 0)
    else if in_window offset 0xc00 0x40
    then gather_from gic.config (word_of offset 0xc00 * 16) 2 16 0 0
    else dist_read_other gic (aligned offset)

unfoldable pub dist_write_other : Gicv2 → ℕ → ℕ → Gicv2
dist_write_other gic a v =
    if a == 0x000
    then record gic { ctl = bit_and v 0x3f }
    else if a == 0xf00
    then record gic { sgir = v }
    else gic

unfoldable pub write_target : Gicv2 → ℕ → ℕ → Gicv2
write_target gic line v =
    if ltb line (lines_of gic) && leb 32 line
    then record gic { target = update gic.target line (u8 (bit_and v 0xff)) }
    else gic

unfoldable pub dist_write : Gicv2 → ℕ → ℕ → Gicv2
dist_write gic offset value =
    let v = u32 value in
    if in_window offset 0x080 0x20
    then record gic {
      group = poke_fields (word_of offset 0x080) 32 (λ b. u8 (bit_and (v >>> b) 1)) gic.group;
    }
    else if in_window offset 0x100 0x80
    then record gic { enable = poke_bank gic.enable (word_of offset 0x100 * 32) v true }
    else if in_window offset 0x180 0x80
    then record gic { enable = poke_bank gic.enable (word_of offset 0x180 * 32) v false }
    else if in_window offset 0x200 0x80
    then record gic { pending = poke_bank gic.pending (word_of offset 0x200 * 32) v true }
    else if in_window offset 0x280 0x80
    then record gic { pending = poke_bank gic.pending (word_of offset 0x280 * 32) v false }
    else if in_window offset 0x300 0x80
    then record gic { active = poke_bank gic.active (word_of offset 0x300 * 32) v true }
    else if in_window offset 0x380 0x80
    then record gic { active = poke_bank gic.active (word_of offset 0x380 * 32) v false }
    else if in_window offset 0x400 0x100
    then record gic {
      priority =
          poke_fields (word_of offset 0x400) 4 (λ b. u8 (bit_and (v >>> (b * 8)) 0xff))
            gic.priority;
    }
    else if in_window offset 0x800 (4 * lines_of gic)
    then write_target gic (word_of offset 0x800) v
    else if in_window offset 0xc00 0x40
    then record gic {
      config =
          poke_fields (word_of offset 0xc00) 16 (λ b. u8 (bit_and (v >>> (b * 2)) 0x3)) gic.config;
    }
    else dist_write_other gic (aligned offset) v

unfoldable pub cpu_read : Gicv2 → ℕ → ℕ × Gicv2
cpu_read gic offset =
    let a = aligned offset in
    if a == 0x000
    then (gic.cpu_ctl, gic)
    else if a == 0x004
    then (gic.cpu_pmr, gic)
    else if a == 0x008
    then (gic.cpu_bpr, gic)
    else if a == 0x00c
    then acknowledge gic
    else (0, gic)

-- The write to the end-of-interrupt register.
unfoldable pub end_of_interrupt : Gicv2 → ℕ → Gicv2
end_of_interrupt gic value =
    let id = bit_and (u32 value) 0x3ff in
    let ended : Gicv2 = record gic {
      active = if ltb id max_lines then update gic.active id 0 else gic.active;
    } in
    record ended { running_pri = running_priority ended }

unfoldable pub cpu_write : Gicv2 → ℕ → ℕ → Gicv2
cpu_write gic offset value =
    let a = aligned offset in
    if a == 0x000
    then record gic { cpu_ctl = bit_and (u32 value) 1 }
    else if a == 0x004
    then record gic { cpu_pmr = bit_and (u32 value) 0xff }
    else if a == 0x008
    then record gic { cpu_bpr = bit_and (u32 value) 0x7 }
    else if a == 0x010
    then end_of_interrupt gic value
    else gic
