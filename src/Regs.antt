-- ===== src/Regs.antt =====
-- src/regs/regs.c: the register file, the condition codes and the arithmetic that sets the flags.
-- A register number comes from a 5-bit field and a width from one bit, so that the OEMU_REQUIREs on
-- them pass.
pub mod Flags
pub mod Conditions
pub mod File
mod Examples
use oemu.Common.{
  ℕ, ◌+◌, ◌-◌, ◌*◌, ◌/◌, ◌%◌, ◌^◌, bit_and, bit_or, Bool, true, false, not, ◌&&◌, ◌||◌, Bank,
  update, ltb, ◌==◌, ◌!=◌, if◌then◌else◌,
}
use oemu.Common.Word.{◌>>>◌, u32, u64, any_set}

-- `oemu_reg_width`
pub data Width : Type 0 where
  w32 w64 : Width

abbrev pub bits : Width → ℕ
bits w32 = 32
bits w64 = 64

-- `oemu_regs`; `x` has 31 entries.
pub record Regs : Type 0 where
  pub x : Bank
  pub sp : ℕ
  pub pc : ℕ
  pub nzcv : ℕ

-- `oemu_alu_result`
pub record AluResult : Type 0 where
  pub value : ℕ
  pub nzcv : ℕ

-- OEMU_REG_ZR, OEMU_INSN_SIZE and the flags
abbrev pub reg_zr : ℕ
reg_zr = 31

abbrev pub insn_size : ℕ
insn_size = 4

abbrev pub nzcv_n : ℕ
nzcv_n = 0x80000000

abbrev pub nzcv_z : ℕ
nzcv_z = 0x40000000

abbrev pub nzcv_c : ℕ
nzcv_c = 0x20000000

abbrev pub nzcv_v : ℕ
nzcv_v = 0x10000000

abbrev pub nzcv_mask : ℕ
nzcv_mask = bit_or (bit_or (bit_or nzcv_n nzcv_z) nzcv_c) nzcv_v

unfoldable pub truncate : ℕ → Width → ℕ
truncate value w32 = bit_and value 0xffffffff
truncate value w64 = value

abbrev beq : Bool → Bool → Bool
beq true b = b
beq false b = not b

-- The base test of a condition pair, by the top three bits of the encoding.
unfoldable pub base_test : Bool → Bool → Bool → Bool → ℕ → Bool
base_test n z c v pair =
    if pair == 0
    then z
    else if pair == 1
    then c
    else if pair == 2
    then n
    else if pair == 3
    then v
    else if pair == 4
    then c && not z
    else if pair == 5
    then beq n v
    else if pair == 6
    then beq n v && not z
    else true

-- `oemu_regs_internal_cond_holds`
unfoldable pub cond_holds : ℕ → ℕ → Bool
unfolding base_test
cond_holds nzcv cond =
    let encoding = bit_and cond 0xf in
    let result =
      base_test (any_set nzcv nzcv_n) (any_set nzcv nzcv_z) (any_set nzcv nzcv_c)
        (any_set nzcv nzcv_v) (bit_and (encoding >>> 1) 7) in
    if bit_and encoding 1 != 0 && encoding != 0xf then not result else result

-- The flag word of four conditions, raised one after the other.
unfoldable pub flag_word : Bool → Bool → Bool → Bool → ℕ
flag_word n z c v =
    let flags_n : ℕ = if n then bit_or 0 nzcv_n else 0 in
    let flags_z : ℕ = if z then bit_or flags_n nzcv_z else flags_n in
    let flags_c : ℕ = if c then bit_or flags_z nzcv_c else flags_z in
    if v then bit_or flags_c nzcv_v else flags_c

abbrev pub sign_bit : Width → ℕ
sign_bit w32 = 0x80000000
sign_bit w64 = 0x8000000000000000

-- The carry, from the truncated operands.
unfoldable pub carry_out : ℕ → ℕ → Bool → Width → Bool
carry_out xa ya carry_in w32 = u64 (xa + ya + (if carry_in then 1 else 0)) >>> 32 != 0
carry_out xa ya carry_in w64 =
    let partial = u64 (xa + ya) in ltb partial xa || (carry_in && partial == 0xffffffffffffffff)

-- `oemu_regs_internal_add_with_carry`
unfoldable pub add_with_carry : ℕ → ℕ → Bool → Width → AluResult
unfolding truncate carry_out flag_word
add_with_carry x y carry_in width =
    let carry : ℕ = if carry_in then 1 else 0 in
    let xa = truncate x width in
    let ya = truncate y width in
    let sum = truncate (u64 (xa + ya + carry)) width in
    let x_neg = any_set xa (sign_bit width) in
    let y_neg = any_set ya (sign_bit width) in
    let sum_neg = any_set sum (sign_bit width) in
    record {
      value = sum;
      nzcv =
          flag_word sum_neg (sum == 0) (carry_out xa ya carry_in width)
            (beq x_neg y_neg && not (beq sum_neg x_neg));
    }

-- `oemu_regs_init`, on a register file that is there
unfoldable pub init : ℕ → ℕ → Regs
init entry_pc initial_sp = record { x = λ i. 0; sp = initial_sp; pc = entry_pc; nzcv = 0 }

unfoldable pub read : Regs → ℕ → Width → ℕ
unfolding truncate
read regs n width = if n == reg_zr then 0 else truncate (regs.x n) width

unfoldable pub write : Regs → ℕ → Width → ℕ → Regs
unfolding truncate
write regs n width value =
    if n == reg_zr then regs else record regs { x = update regs.x n (truncate value width) }

unfoldable pub read_sp_form : Regs → ℕ → Width → ℕ
unfolding truncate
read_sp_form regs n width = truncate (if n == reg_zr then regs.sp else regs.x n) width

unfoldable pub write_sp_form : Regs → ℕ → Width → ℕ → Regs
unfolding truncate
write_sp_form regs n width value =
    let narrowed = truncate value width in
    if n == reg_zr
    then record regs { sp = narrowed }
    else record regs { x = update regs.x n narrowed }

unfoldable pub advance_pc : Regs → Regs
advance_pc regs = record regs { pc = u64 (regs.pc + insn_size) }

-- `byte_offset` is the two's complement word of the signed offset.
unfoldable pub branch_rel : Regs → ℕ → Regs
branch_rel regs byte_offset = record regs { pc = u64 (regs.pc + byte_offset) }

unfoldable pub set_nzcv : Regs → ℕ → Regs
set_nzcv regs nzcv = record regs { nzcv = bit_and nzcv nzcv_mask }

unfoldable pub set_sp : Regs → ℕ → Regs
set_sp regs value = record regs { sp = value }

unfoldable pub set_pc : Regs → ℕ → Regs
set_pc regs value = record regs { pc = value }
