-- ===== src/Decode/WellFormed.antt =====
-- src/decode/decode.c: the shape of a decoded instruction.
pub mod Immediate
pub mod Branch
pub mod Register
pub mod LoadStore
pub mod Word
use native.Mathlib.Nat.{pow-le-pow_right}
use oemu.Common.{
  ℕ, ◌+◌, ◌-◌, ◌*◌, ◌/◌, ◌%◌, ◌^◌, ◌≤◌, ◌<◌, bit_and, bit_or, ◌≡◌, refl, sym, ap, ◌∙◌, Bool, true,
  false, leb, ltb, ◌==◌, ◌!=◌, if◌then◌else◌, arith, subst, if_both,
}
use oemu.Common.Status.{Status, is_ok, MemSize, byte, half, dword, quad}
use oemu.Regs.{Width, w32, w64}
use oemu.Decode.{
  Opcode, OperandKind, no_operand, imm_operand, reg_operand, reg_shifted, reg_extended, mem_operand,
  Insn, Decoded, decoded, refused, reg_bits,
}

-- The amount that an operand of a kind carries.
unfoldable pub OperandFits : OperandKind → Width → ℕ → Type 0
OperandFits reg_shifted width amount = (1 ≤ amount) × (amount < reg_bits width)
OperandFits reg_extended width amount = amount ≤ 4
OperandFits mem_operand width amount = amount ≤ 3
OperandFits _ width amount = 0 ≤ amount

-- The positions of bits that an operation carries; `OEMU_OP_UNKNOWN` is no decoded operation.
unfoldable pub OpFits : Opcode → Width → ℕ → ℕ → Type 0
OpFits Opcode.unknown width amount pos = ⊥
OpFits Opcode.sbfm width amount pos = (amount < reg_bits width) × (pos < reg_bits width)
OpFits Opcode.bfm width amount pos = (amount < reg_bits width) × (pos < reg_bits width)
OpFits Opcode.ubfm width amount pos = (amount < reg_bits width) × (pos < reg_bits width)
OpFits Opcode.extr width amount pos = amount < reg_bits width
OpFits Opcode.movz width amount pos = amount < reg_bits width
OpFits Opcode.movn width amount pos = amount < reg_bits width
OpFits Opcode.movk width amount pos = amount < reg_bits width
OpFits Opcode.tbz width amount pos = pos < reg_bits width
OpFits Opcode.tbnz width amount pos = pos < reg_bits width
OpFits _ width amount pos = 0 ≤ amount

-- An access of 16 bytes is of the vector registers.
unfoldable pub QuadFits : MemSize → Bool → Type 0
QuadFits quad vector = vector ≡ true
QuadFits _ vector = 0 ≤ 0

-- A decoded instruction of the word: what the executor's tables and shifts rely on.
pub record IsWellFormed (w : ℕ) (i : Insn) : Type 0 where
  pub of_word : i.word ≡ w
  pub rd_fits : i.rd < 32
  pub rn_fits : i.rn < 32
  pub rm_fits : i.rm < 32
  pub ra_fits : i.ra < 32
  pub rt2_fits : i.rt2 < 32
  pub cond_fits : i.cond < 16
  pub imm_fits : i.imm < 2 ^ 64
  pub uimm_fits : i.uimm < 2 ^ 64
  pub operand_fits : OperandFits i.operand_kind i.width i.shift_amount
  pub op_fits : OpFits i.op i.width i.shift_amount i.bit_pos
  pub quad_fits : QuadFits i.mem_size i.is_vector

-- An answer of a decoder: a well-formed instruction, or an error.
pub data Sound (w : ℕ) : Decoded → Type 0 where
  returns : {insn : Insn} → IsWellFormed w insn → Sound w (decoded insn)
  raises : {status : Status} → is_ok status ≡ false → Sound w (refused status)
