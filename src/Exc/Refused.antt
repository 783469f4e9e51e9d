-- ===== src/Exc/Refused.antt =====
-- src/exc/exc.c: the returns that `oemu_exc_eret` refuses.
use oemu.Common.{
  ℕ, ◌%◌, ◌^◌, ◌<◌, bit_and, ◌≡◌, ◌≢◌, ◌⊎◌, inl, inr, true, false, ◌!=◌, if◌then◌else◌, arith,
  Bool-cases,
}
use oemu.Sysreg.{Core, pstate_m_mask, pstate_il, pstate_el}
use oemu.Exc.{sync, esr, esr_undefined, esr_illegal_eret, mode_valid, take}
use oemu.Exc.Sources.{eret, eret_insn}
use oemu.Exc.Delivery.{Delivered, enter-Found, entry_fields}

-- The saved PSTATE cannot be returned to: it is marked illegal, its mode is not implemented, or it
-- lies above the level.
abbrev pub CannotReturn : ℕ → ℕ → Type 0
CannotReturn cur saved =
    (bit_and saved pstate_il ≢ 0)
    ⊎ (mode_valid (bit_and saved pstate_m_mask) ≡ false)
    ⊎ (cur < pstate_el (bit_and saved pstate_m_mask))

at_level :
    (core : Core) (target ec iss : ℕ)
    → (target ≡ 1) ⊎ (target ≡ 3)
    → ec < 64
    → Delivered core ec
        (iss % 2 ^ 25)
        core.regs.pc
        (core.sys.far_el target)
        target
        (take core sync target (esr ec iss) 0 false)
unfolding take Delivered
at_level core target ec iss level small =
    rw (entry_fields target level) (enter-Found core ec iss 0 false target level small)

illegal-Delivered :
    (core : Core) (target : ℕ)
    → (target ≡ 1) ⊎ (target ≡ 3)
    → Delivered core 0x1a 0 core.regs.pc
        (core.sys.far_el target)
        target
        (take core sync target esr_illegal_eret 0 false)
unfolding esr_illegal_eret
illegal-Delivered core target level = at_level core target 0x1a 0 level (omega arith)

refused-Delivered :
    (core : Core) (target : ℕ)
    → (target ≡ 1) ⊎ (target ≡ 3)
    → Delivered core 0
        (eret_insn % 2 ^ 25)
        core.regs.pc
        (core.sys.far_el target)
        target
        (take core sync target (esr_undefined eret_insn) 0 false)
unfolding esr_undefined
refused-Delivered core target level =
    at_level core target 0 (bit_and eret_insn 0x1ffffff) level (omega arith)

eret-illegal :
    (core : Core) (cur : ℕ)
    → pstate_el core.sys.pstate ≡ cur
    → (cur ≡ 1) ⊎ (cur ≡ 3)
    → (bit_and (core.sys.spsr_el cur) pstate_il != 0) ≡ true
    → eret core ≡ take core sync cur esr_illegal_eret 0 false
unfolding eret
eret-illegal core cur at level marked = rw at (ground (arith, level, marked))

eret-undefined :
    (core : Core) (cur : ℕ)
    → pstate_el core.sys.pstate ≡ cur
    → (cur ≡ 1) ⊎ (cur ≡ 3)
    → (bit_and (core.sys.spsr_el cur) pstate_il != 0) ≡ false
    → CannotReturn cur (core.sys.spsr_el cur)
    → eret core ≡ take core sync cur (esr_undefined eret_insn) 0 false
unfolding eret
eret-undefined core cur at level clear cannot = rw at (ground (arith, level, clear, cannot))

-- ERET at EL1 or EL3 with a saved PSTATE that cannot be returned to: no return is made; an
-- exception is delivered to the level that tried, of the class Illegal Execution State where the
-- saved PSTATE is marked illegal and of the class Unknown, with the encoding of ERET, otherwise,
-- and its return address is the ERET itself.
pub eret-Delivered :
    (core : Core) (cur : ℕ)
    → pstate_el core.sys.pstate ≡ cur
    → (cur ≡ 1) ⊎ (cur ≡ 3)
    → CannotReturn cur (core.sys.spsr_el cur)
    → Delivered core
        (if bit_and (core.sys.spsr_el cur) pstate_il != 0 then 0x1a else 0)
        (if bit_and (core.sys.spsr_el cur) pstate_il != 0 then 0 else eret_insn % 2 ^ 25)
        core.regs.pc
        (core.sys.far_el cur)
        cur
        (eret core)
eret-Delivered core cur at level cannot =
    elim (Bool-cases (bit_and (core.sys.spsr_el cur) pstate_il != 0)) [
      | inl marked ↦
          rw (marked, eret-illegal core cur at level marked) (illegal-Delivered core cur level)
      | inr clear ↦
          rw (clear, eret-undefined core cur at level clear cannot)
            (refused-Delivered core cur level)
    ]
