-- ===== src/Gtimer.antt =====
-- src/dev/gtimer.c: the expiry test of the generic timer.
mod Examples
use oemu.Common.{
  ℕ, ◌+◌, ◌-◌, ◌*◌, ◌/◌, ◌%◌, ◌^◌, ◌≤◌, ◌<◌, bit_and, ◌≡◌, Bool, true, false, not, ◌&&◌, ltb, leb,
  ◌==◌, ◌!=◌, if◌then◌else◌, arith,
}
use oemu.Common.Word.{u64}

abbrev pub ctl_enable : ℕ
ctl_enable = 0x1

abbrev pub ctl_imask : ℕ
ctl_imask = 0x2

-- `oemu_gtimer_pending`; the cast to int64_t asks for the sign bit.
unfoldable pub pending : ℕ → ℕ → ℕ → ℕ
pending counter ctl cval =
    if bit_and ctl ctl_enable == 0
    then 0
    else if bit_and ctl ctl_imask != 0
    then 0
    else if ltb (u64 (counter + 2 ^ 64 - cval)) (2 ^ 63)
    then 1
    else 0

-- A comparator set `ahead` ticks ahead, at most 2^63, of a counter of any value, read `passed`
-- ticks later, with both words wrapped to 64 bits: for 2^63 ticks from its expiry it fires exactly
-- where it is enabled and not masked, and before its expiry never.
pending-ahead :
    (start ahead passed ctl : ℕ)
    → ahead ≤ 2 ^ 63
    → passed < ahead + 2 ^ 63
    → pending (u64 (start + passed)) ctl (u64 (start + ahead)) ≡ (
        if leb ahead passed && bit_and ctl ctl_enable != 0 && bit_and ctl ctl_imask == 0
        then 1
        else 0)
unfolding pending
pending-ahead start ahead passed ctl near recent = ground arith
