-- ===== src/Decode.antt =====
-- src/decode/decode.c: the instruction decoder. A word has 32 bits and an address 64; a signed value
-- is its two's complement word.
pub mod Masks
pub mod Immediate
pub mod Branch
pub mod Register
pub mod LoadStore
pub mod Word
pub mod Fields
pub mod WellFormed
mod Examples
use oemu.Common.{
  ℕ, ◌+◌, ◌-◌, ◌*◌, ◌/◌, ◌^◌, bit_and, bit_or, Bool, true, false, leb, ◌==◌, ◌!=◌, if◌then◌else◌,
}
use oemu.Common.Status.{Status, MemSize, byte, half, word, dword}
use oemu.Common.Word.{◌>>>◌, ◌<<<◌, complement, any_set}
use oemu.Regs.{Width, w32, w64}
use oemu.Exec.{Shift, lsl, lsr, asr, ror, Extend, uxtb, uxth, uxtw, uxtx, sxtb, sxth, sxtw, sxtx}

-- `oemu_opcode`
pub data Opcode : Type 0 where
  unknown : Opcode
  add adds sub subs adc adcs sbc sbcs : Opcode
  and ands orr eor bic bics orn eon : Opcode
  movz movn movk : Opcode
  adr adrp : Opcode
  sbfm bfm ubfm extr : Opcode
  lslv lsrv asrv rorv crc32 crc32c : Opcode
  rbit rev16 rev32 rev clz cls : Opcode
  udiv sdiv madd msub smaddl smsubl umaddl umsubl smulh umulh : Opcode
  csel csinc csinv csneg ccmp ccmn : Opcode
  b bl b_cond br blr ret cbz cbnz tbz tbnz : Opcode
  ldr str ldrs ldp stp ldpsw ldxr stxr ldar stlr : Opcode
  svc brk hlt hvc smc eret nop hint wfi wfe barrier mrs msr msr_imm sys vec_dup : Opcode

-- `oemu_operand_kind`
pub data OperandKind : Type 0 where
  no_operand imm_operand reg_operand reg_shifted reg_extended mem_operand : OperandKind

-- `oemu_index_mode`
pub data IndexMode : Type 0 where
  index_none index_post index_pre : IndexMode

-- `oemu_insn`
pub record Insn : Type 0 where
  pub word : ℕ
  pub op : Opcode
  pub operand_kind : OperandKind
  pub width : Width
  pub rd : ℕ
  pub rn : ℕ
  pub rm : ℕ
  pub ra : ℕ
  pub rt2 : ℕ
  pub imm : ℕ
  pub uimm : ℕ
  pub shift_type : Shift
  pub extend_type : Extend
  pub shift_amount : ℕ
  pub cond : ℕ
  pub mem_size : MemSize
  pub index_mode : IndexMode
  pub is_signed_load : Bool
  pub is_vector : Bool
  pub extend_is_lsl : Bool
  pub sets_flags : Bool
  pub rn_is_sp_form : Bool
  pub rd_is_sp_form : Bool
  pub bit_pos : ℕ
  pub sysreg : ℕ

-- The answer of a group's decoder: the instruction on OEMU_OK, or the status.
pub data Decoded : Type 0 where
  decoded : Insn → Decoded
  refused : Status → Decoded

-- What follows a step that may refuse.
abbrev pub and_then : Decoded → (Insn → Decoded) → Decoded
and_then (decoded insn) next = next insn
and_then (refused status) next = refused status

-- `oemu_decode_internal_bits`, of a field in the word
unfoldable pub bits : ℕ → ℕ → ℕ → ℕ
bits w lsb width = bit_and (w >>> lsb) (2 ^ width - 1)

-- `oemu_decode_internal_sign_extend`, to less than 64 bits
unfoldable pub sign_extend : ℕ → ℕ → ℕ
sign_extend value width =
    let mask = 2 ^ width - 1 in
    let masked = bit_and value mask in
    if any_set masked (2 ^ (width - 1)) then bit_or masked (complement 64 mask) else masked

-- `BIT(w, pos) != 0`
unfoldable pub is_set : ℕ → ℕ → Bool
unfolding bits
is_set w pos = bits w pos 1 != 0

unfoldable pub field_rd : ℕ → ℕ
unfolding bits
field_rd w = bits w 0 5

unfoldable pub field_rn : ℕ → ℕ
unfolding bits
field_rn w = bits w 5 5

unfoldable pub field_rm : ℕ → ℕ
unfolding bits
field_rm w = bits w 16 5

unfoldable pub field_ra : ℕ → ℕ
unfolding bits
field_ra w = bits w 10 5

unfoldable pub width_from_sf : ℕ → Width
unfolding is_set
width_from_sf w = if is_set w 31 then w64 else w32

-- The conversions of a field to its enumeration; the last value stands for the rest of the field.
unfoldable pub to_shift_type : ℕ → Shift
to_shift_type v = if v == 0 then lsl else if v == 1 then lsr else if v == 2 then asr else ror

unfoldable pub to_extend_type : ℕ → Extend
to_extend_type v =
    if v == 0
    then uxtb
    else if v == 1
    then uxth
    else if v == 2
    then uxtw
    else if v == 3
    then uxtx
    else if v == 4
    then sxtb
    else if v == 5
    then sxth
    else if v == 6
    then sxtw
    else sxtx

unfoldable pub to_mem_size : ℕ → MemSize
to_mem_size v =
    if v == 0 then byte else if v == 1 then half else if v == 2 then MemSize.word else dword

unfoldable pub addsub_opcode : Bool → Bool → Opcode
addsub_opcode false false = Opcode.add
addsub_opcode false true = Opcode.adds
addsub_opcode true false = Opcode.sub
addsub_opcode true true = Opcode.subs

unfoldable pub addsub_carry_opcode : Bool → Bool → Opcode
addsub_carry_opcode false false = Opcode.adc
addsub_carry_opcode false true = Opcode.adcs
addsub_carry_opcode true false = Opcode.sbc
addsub_carry_opcode true true = Opcode.sbcs

unfoldable pub move_wide_opcode : ℕ → Opcode
move_wide_opcode opc =
    if opc == 0 then Opcode.movn else if opc == 2 then Opcode.movz else Opcode.movk

unfoldable pub bitfield_opcode : ℕ → Opcode
bitfield_opcode opc = if opc == 0 then Opcode.sbfm else if opc == 1 then Opcode.bfm else Opcode.ubfm

-- `insn_reset`
unfoldable pub insn_reset : ℕ → Insn
insn_reset w = record {
  word = w;
  op = Opcode.unknown;
  operand_kind = no_operand;
  width = w64;
  rd = 0;
  rn = 0;
  rm = 0;
  ra = 0;
  rt2 = 0;
  imm = 0;
  uimm = 0;
  shift_type = lsl;
  extend_type = uxtb;
  shift_amount = 0;
  cond = 0;
  mem_size = byte;
  index_mode = index_none;
  is_signed_load = false;
  is_vector = false;
  extend_is_lsl = false;
  sets_flags = false;
  rn_is_sp_form = false;
  rd_is_sp_form = false;
  bit_pos = 0;
  sysreg = 0;
}

-- The bits of a register.
abbrev pub reg_bits : Width → ℕ
reg_bits w32 = 32
reg_bits w64 = 64

abbrev pub is_w32 : Width → Bool
is_w32 w32 = true
is_w32 w64 = false
