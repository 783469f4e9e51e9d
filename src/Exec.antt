-- ===== src/Exec.antt =====
-- src/exec/exec.c: the pure functions of the executor (src/exec/exec_internal.h).
pub mod Count
pub mod Reflect
pub mod Multiply
pub mod Cpu
pub mod Alu
pub mod Bitfield
pub mod Access
pub mod Switch
pub mod Dispatch
pub mod Run
pub mod Precise
pub mod Concrete
pub mod Loop
pub mod Monitor
pub mod Ends
pub mod Hears
pub mod HearsVector
pub mod Exclusive
pub mod FieldBits
pub mod Fields
mod Examples
use oemu.Common.{
  ℕ, zero, suc, ◌+◌, ◌-◌, ◌*◌, ◌/◌, ◌%◌, ◌^◌, bit_and, bit_or, bit_xor, Bool, true, false, ◌==◌,
  ◌!=◌, if◌then◌else◌,
}
use oemu.Common.Word.{◌>>>◌, ◌<<<◌, u32, u64, complement, any_set}
use oemu.Regs.{Width, w32, w64, bits, nzcv_n, nzcv_z}

-- `oemu_shift_type`
pub data Shift : Type 0 where
  lsl lsr asr ror : Shift

-- `oemu_extend_type`
pub data Extend : Type 0 where
  uxtb uxth uxtw uxtx sxtb sxth sxtw sxtx : Extend

-- `oemu_exec_shift_result`
pub record ShiftResult : Type 0 where
  pub value : ℕ
  pub carry_valid : Bool
  pub carry : Bool

-- The mask of a width.
abbrev pub width_mask : Width → ℕ
width_mask w32 = 2 ^ 32 - 1
width_mask w64 = 2 ^ 64 - 1

unfoldable pub rotr : ℕ → ℕ → Width → ℕ
rotr value amount width =
    bit_and (bit_or (value >>> amount) (u64 (value <<< (bits width - amount)))) (width_mask width)

-- The modifiers by no places.
unfoldable pub shift_none : Shift → ℕ → Bool → Width → ShiftResult
shift_none lsl masked sign width = record { value = masked; carry_valid = false; carry = false }
shift_none lsr masked sign width = record {
  value = 0;
  carry_valid = true;
  carry = masked >>> (bits width - 1) != 0;
}
shift_none asr masked sign width = record {
  value = if sign then width_mask width else 0;
  carry_valid = true;
  carry = sign;
}
shift_none ror masked sign width = record {
  value = if sign then width_mask width else 0;
  carry_valid = true;
  carry = sign;
}

-- The value of a modifier by one place or more.
unfoldable pub shift_value : Shift → ℕ → Bool → ℕ → Width → ℕ
unfolding rotr
shift_value lsl masked sign amount width = bit_and (u64 (masked <<< amount)) (width_mask width)
shift_value lsr masked sign amount width = masked >>> amount
shift_value asr masked sign amount width =
    let mask = width_mask width in
    let fill = if sign then bit_and (u64 (mask <<< (bits width - amount))) mask else 0 in
    bit_and (bit_or (bit_and masked mask >>> amount) fill) mask
shift_value ror masked sign amount width = rotr masked amount width

-- The last bit that is shifted out.
unfoldable pub carry_bit : Shift → ℕ → Width → ℕ
carry_bit lsl amount width = bits width - amount
carry_bit lsr amount width = amount - 1
carry_bit asr amount width = amount - 1
carry_bit ror amount width = amount - 1

-- `oemu_exec_internal_shift_operand`
unfoldable pub shift_operand : ℕ → Shift → ℕ → Width → ShiftResult
unfolding shift_none shift_value carry_bit
shift_operand value type amount width =
    let masked = bit_and value (width_mask width) in
    let sign = bit_and masked (1 <<< (bits width - 1)) != 0 in
    if amount == 0 then shift_none type masked sign width else record {
      value = shift_value type masked sign amount width;
      carry_valid = true;
      carry = bit_and (masked >>> carry_bit type amount width) 1 != 0;
    }

-- A signed cast from w bits to 64.
abbrev pub sign_cast : ℕ → ℕ → ℕ
sign_cast w v =
    let low = v % 2 ^ w in if low / 2 ^ (w - 1) == 0 then low else low + (2 ^ 64 - 2 ^ w)

-- `oemu_exec_internal_extend_operand`: the extension.
unfoldable pub extended : ℕ → Extend → ℕ
extended v uxtb = bit_and v 0xff
extended v uxth = bit_and v 0xffff
extended v uxtw = bit_and v 0xffffffff
extended v uxtx = v
extended v sxtb = sign_cast 8 v
extended v sxth = sign_cast 16 v
extended v sxtw = sign_cast 32 v
extended v sxtx = v

unfoldable pub extend_operand : ℕ → Extend → ℕ → ℕ
unfolding extended
extend_operand v type shift = u64 (extended v type <<< shift)

-- `oemu_exec_internal_nz`
unfoldable pub nz : ℕ → Width → ℕ
nz result width =
    let value = bit_and result (width_mask width) in
    let z : ℕ = if value == 0 then nzcv_z else 0 in
    if any_set value (1 <<< (bits width - 1)) then bit_or z nzcv_n else z

-- `oemu_exec_internal_umulh`
unfoldable pub umulh : ℕ → ℕ → ℕ
umulh a b =
    let a_lo = bit_and a (2 ^ 32 - 1) in
    let a_hi = a >>> 32 in
    let b_lo = bit_and b (2 ^ 32 - 1) in
    let b_hi = b >>> 32 in
    let p0 = u64 (a_lo * b_lo) in
    let p1 = u64 (a_lo * b_hi) in
    let p2 = u64 (a_hi * b_lo) in
    let p3 = u64 (a_hi * b_hi) in
    let mid = u64 ((p0 >>> 32) + bit_and p1 (2 ^ 32 - 1) + bit_and p2 (2 ^ 32 - 1)) in
    u64 (p3 + (p1 >>> 32) + (p2 >>> 32) + (mid >>> 32))

-- `oemu_exec_internal_smulh`
unfoldable pub smulh : ℕ → ℕ → ℕ
unfolding umulh
smulh a b =
    let hi = umulh a b in
    let less_b = if any_set a (1 <<< 63) then u64 (hi + (2 ^ 64 - b)) else hi in
    if any_set b (1 <<< 63) then u64 (less_b + (2 ^ 64 - a)) else less_b

-- `clz64_ref`: the loop, with the bits below `left` to go.
unfoldable pub clz_from : ℕ → ℕ → ℕ → ℕ
clz_from zero value n = n
clz_from (suc left) value n =
    let rest = clz_from left value (n + 1) in if bit_and (value >>> left) 1 != 0 then n else rest

unfoldable pub clz64_ref : ℕ → ℕ
unfolding clz_from
clz64_ref value = if value == 0 then 64 else clz_from 64 value 0

-- `oemu_exec_internal_clz`
unfoldable pub clz : ℕ → Width → ℕ
unfolding clz64_ref
clz value w32 =
    let low = bit_and value (2 ^ 32 - 1) in if low == 0 then 32 else clz64_ref (u64 (low <<< 32))
clz value w64 = clz64_ref value

-- `oemu_exec_internal_cls`
unfoldable pub cls : ℕ → Width → ℕ
unfolding clz
cls value width =
    let mask = width_mask width in
    let v = bit_and value mask in
    let sign = if v >>> (bits width - 1) != 0 then mask else 0 in
    if v == 0 then 0 else if v == mask then 0 else clz (bit_xor v sign) width - 1

-- `oemu_exec_internal_rbit`: the loop, with `left` bits to go from the i-th.
unfoldable pub rbit_from : ℕ → ℕ → ℕ → ℕ → ℕ
rbit_from zero i value out = out
rbit_from (suc left) i value out =
    rbit_from left (i + 1) value
      (if bit_and value (1 <<< i) != 0 then bit_or out (1 <<< left) else out)

unfoldable pub rbit : ℕ → Width → ℕ
unfolding rbit_from
rbit value width = bit_and (rbit_from (bits width) 0 value 0) (width_mask width)

-- `oemu_exec_internal_rev`: the loop, with `left` bytes to go from the i-th.
unfoldable pub rev_from : ℕ → ℕ → ℕ → ℕ → ℕ
rev_from zero i value out = out
rev_from (suc left) i value out =
    rev_from left (i + 1) value (bit_or out (bit_and (value >>> (8 * i)) 0xff <<< (8 * left)))

unfoldable pub rev : ℕ → Width → ℕ
unfolding rev_from
rev value width = rev_from (bits width / 8) 0 value 0

-- `oemu_exec_internal_rev16`
unfoldable pub rev16_from : ℕ → ℕ → ℕ → ℕ → ℕ
rev16_from zero i value out = out
rev16_from (suc left) i value out =
    let h = bit_and (value >>> (16 * i)) 0xffff in
    let swapped = bit_or (bit_and h 0xff <<< 8) (h >>> 8) in
    rev16_from left (i + 1) value (bit_or out (swapped <<< (16 * i)))

unfoldable pub rev16 : ℕ → Width → ℕ
unfolding rev16_from
rev16 value width = rev16_from (bits width / 16) 0 value 0

-- `oemu_exec_internal_rev32`
unfoldable pub rev32 : ℕ → ℕ
rev32 value = bit_or (bit_and value (2 ^ 32 - 1) <<< 32) (value >>> 32)
