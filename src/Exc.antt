-- ===== src/Exc.antt =====
-- src/exc/exc.c: the syndrome words, routing, exception entry and return, and the sources that
-- raise exceptions. A failed OEMU_REQUIRE aborts the process: it is the result `none`.
pub mod Sources
pub mod Return
pub mod Syndrome
pub mod Delivery
pub mod Raise
pub mod Refused
mod Examples
use oemu.Common.{
  ℕ, ◌+◌, bit_and, bit_or, Bool, true, false, not, ◌&&◌, Option, none, some, update, ◌==◌, ◌!=◌,
  if◌then◌else◌,
}
use oemu.Common.Word.{◌>>>◌, ◌<<<◌, u32, u64, complement}
use oemu.Regs.{nzcv_mask}
use oemu.Sysreg.{
  Core, pstate_daif_mask, pstate_daif_shift, pstate_mode, pstate_el, pstate_sp_sel, switch_sp,
}

-- `oemu_exc_kind`, with its number
pub data Kind : Type 0 where
  sync irq fiq serror : Kind

abbrev pub kind_number : Kind → ℕ
kind_number sync = 0
kind_number irq = 1
kind_number fiq = 2
kind_number serror = 3

-- The exception classes of `oemu_exc_ec` that are raised here.
abbrev pub ec_unknown : ℕ
ec_unknown = 0x00

abbrev pub ec_svc64 : ℕ
ec_svc64 = 0x15

abbrev pub ec_illegal_eret : ℕ
ec_illegal_eret = 0x1a

abbrev pub ec_iabort_lower : ℕ
ec_iabort_lower = 0x20

abbrev pub ec_iabort_same : ℕ
ec_iabort_same = 0x21

abbrev pub ec_dabort_lower : ℕ
ec_dabort_lower = 0x24

abbrev pub ec_dabort_same : ℕ
ec_dabort_same = 0x25

abbrev pub ec_breakpoint : ℕ
ec_breakpoint = 0x30

abbrev pub ec_brk64 : ℕ
ec_brk64 = 0x3c

-- `oemu_exc_internal_esr`: class, IL and the 25 bits of the syndrome.
unfoldable pub esr : ℕ → ℕ → ℕ
esr ec iss = bit_or (bit_or (u32 (ec <<< 26)) (1 <<< 25)) (bit_and iss 0x01ffffff)

unfoldable pub esr_undefined : ℕ → ℕ
unfolding esr
esr_undefined insn = esr ec_unknown (bit_and insn 0x01ffffff)

unfoldable pub esr_imm16 : ℕ → ℕ → ℕ
unfolding esr
esr_imm16 ec imm16 = esr ec (bit_and imm16 0xffff)

-- `oemu_exc_internal_esr_data_abort`: its syndrome, built up as in the source.
unfoldable pub iss_data_abort : ℕ → Bool → Bool → ℕ → ℕ
iss_data_abort log2_size is_write isv dfsc =
    let fault = bit_and dfsc 0x3f in
    let detailed : ℕ =
      if isv
      then bit_or (bit_or (bit_or fault (1 <<< 24)) (bit_and log2_size 3 <<< 21)) (1 <<< 11)
      else fault in
    if is_write then bit_or detailed (1 <<< 6) else detailed

unfoldable pub esr_data_abort : ℕ → ℕ → Bool → Bool → ℕ → ℕ
unfolding esr iss_data_abort
esr_data_abort ec log2_size is_write isv dfsc = esr ec (iss_data_abort log2_size is_write isv dfsc)

unfoldable pub esr_instruction_abort : ℕ → ℕ → ℕ
unfolding esr
esr_instruction_abort ec dfsc = esr ec (bit_and dfsc 0x3f)

unfoldable pub esr_illegal_eret : ℕ
unfolding esr
esr_illegal_eret = esr ec_illegal_eret 0

unfoldable pub mode_valid : ℕ → Bool
mode_valid mode =
    let el = bit_and (mode >>> 2) 3 in
    bit_and mode 0x12 == 0 && not (el == 0 && bit_and mode 1 != 0)

unfoldable pub route : ℕ → ℕ
route from = if from == 3 then 3 else 1

unfoldable pub vector_offset : Bool → Bool → Kind → ℕ
vector_offset same_el sp_sel kind =
    let group : ℕ = if same_el then (if sp_sel then 0x200 else 0x000) else 0x400 in
    group + (kind_number kind <<< 7)

-- The PSTATE of every entry: h-mode of the target, all four masks set, IL clear.
unfoldable pub entry_pstate : ℕ → ℕ
entry_pstate target = bit_or (pstate_mode target) (pstate_daif_mask <<< pstate_daif_shift)

abbrev pub writes_esr : Kind → Bool
writes_esr sync = true
writes_esr irq = false
writes_esr fiq = false
writes_esr serror = true

-- The body of `oemu_exc_take`, once the target is accepted.
unfoldable pub enter : Core → Kind → ℕ → ℕ → ℕ → Bool → Core
enter core kind target syndrome far far_valid =
    let old_pstate = core.sys.pstate in
    let from = pstate_el old_pstate in
    let vector = u64 (
      core.sys.vbar_el target
      + vector_offset (from == target) (pstate_sp_sel old_pstate != 0) kind) in
    let switched = switch_sp core (entry_pstate target) in
    let sys = switched.sys in
    record {
      regs = record switched.regs { pc = vector };
      sys = record sys {
        spsr_el =
            update sys.spsr_el target
              (bit_or (bit_and old_pstate (complement 64 nzcv_mask)) switched.regs.nzcv);
        elr_el = update sys.elr_el target switched.regs.pc;
        esr_el = if writes_esr kind then update sys.esr_el target syndrome else sys.esr_el;
        far_el = if far_valid then update sys.far_el target far else sys.far_el;
      };
    }

-- `oemu_exc_take`
unfoldable pub take : Core → Kind → ℕ → ℕ → ℕ → Bool → Option Core
unfolding enter
take core kind target syndrome far far_valid =
    if target != 0 && target != 2
    then some (enter core kind target syndrome far far_valid)
    else none
