-- ===== src/Regs/File.antt =====
-- src/regs/regs.c: the two readings of register 31, and what a write leaves.
use oemu.Common.{ℕ, ◌%◌, ◌^◌, ◌<◌, ◌≡◌, ◌&&◌, ◌==◌, ◌!=◌, if◌then◌else◌, arith}
use oemu.Common.Bits.Masks.{bit_and_low}
use oemu.Regs.{
  Width, w32, w64, bits, Regs, reg_zr, truncate, read, write, read_sp_form, write_sp_form,
}

-- What a store of `value` to register n leaves in register m, through either reading of number 31:
-- the low bits of the value, zero-extended; number 31 is a zero register to one pair of
-- operations and the stack pointer to the other, which see each other's other registers.
pub record Stores (regs : Regs) (n : ℕ) (width : Width) (value : ℕ) : Type 0 where
  pub read_write :
      (m : ℕ)
      → read (write regs n width value) m w64
        ≡ (if m == reg_zr then 0 else if n == m then value % 2 ^ bits width else read regs m w64)
  pub read_sp-write_sp :
      (m : ℕ)
      → read_sp_form (write_sp_form regs n width value) m w64
        ≡ (if n == m then value % 2 ^ bits width else read_sp_form regs m w64)
  pub read_sp-write :
      (m : ℕ)
      → read_sp_form (write regs n width value) m w64
        ≡ (if n == m && n != reg_zr then value % 2 ^ bits width else read_sp_form regs m w64)
  pub read_write_sp :
      (m : ℕ)
      → read (write_sp_form regs n width value) m w64
        ≡ (if m == reg_zr then 0 else if n == m then value % 2 ^ bits width else read regs m w64)

-- For a 64-bit value, every register pair and both widths: a read after a write gives the value's
-- low bits zero-extended at the written register and the old content elsewhere; register 31
-- reads as zero and ignores writes in the plain form, and is the stack pointer in the other.
pub write-Stores :
    (regs : Regs) (n : ℕ) (width : Width) (value : ℕ) → value < 2 ^ 64 → Stores regs n width value
unfolding read write read_sp_form write_sp_form truncate
write-Stores regs n w32 value small = record {
  read_write = λ m. ground (arith, bit_and_low 32 value);
  read_sp-write_sp = λ m. ground (arith, bit_and_low 32 value);
  read_sp-write = λ m. ground (arith, bit_and_low 32 value);
  read_write_sp = λ m. ground (arith, bit_and_low 32 value);
}
write-Stores regs n w64 value small = record {
  read_write = λ m. ground arith;
  read_sp-write_sp = λ m. ground arith;
  read_sp-write = λ m. ground arith;
  read_write_sp = λ m. ground arith;
}
