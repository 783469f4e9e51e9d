-- ===== src/Regs/Examples.antt =====
-- Subtractions, conditions and a register file at concrete values.
use oemu.Common.{◌+◌, ◌-◌, ◌*◌, ◌%◌, ◌^◌, ◌≡◌, true, not, ◌&&◌, ltb, leb, ◌==◌, arith}
use oemu.Common.Word.{complement, any_set}
use oemu.Regs.{w32, w64, bits, nzcv_n, nzcv_z, nzcv_c, nzcv_v, cond_holds, add_with_carry}
use oemu.Regs.Flags.{biased, carry_of, add_with_carry_lem}
use oemu.Regs.Conditions.{cond_holds-add_with_carry}

add_with_carry_lem_example :
    let r = add_with_carry 5 0xfffffffffffffff8 true w64 in
    let total = 5 % 2 ^ bits w64 + 0xfffffffffffffff8 % 2 ^ bits w64 + carry_of true in
    let shifted = biased w64 5 + biased w64 0xfffffffffffffff8 + carry_of true in
    (r.value ≡ total % 2 ^ bits w64)
    × (any_set r.nzcv nzcv_n ≡ leb (2 ^ (bits w64 - 1)) r.value)
    × (any_set r.nzcv nzcv_z ≡ (r.value == 0))
    × (any_set r.nzcv nzcv_c ≡ leb (2 ^ bits w64) total)
    × (any_set r.nzcv nzcv_v
        ≡ not (leb (2 ^ (bits w64 - 1)) shifted && ltb shifted (3 * 2 ^ (bits w64 - 1))))
add_with_carry_lem_example =
    add_with_carry_lem 5 0xfffffffffffffff8 true w64 (omega arith) (omega arith)

cond_holds-add_with_carry_example :
    let nzcv = (add_with_carry 5 (complement 64 7) true w32).nzcv in
    let a = 5 % 2 ^ bits w32 in
    let b = 7 % 2 ^ bits w32 in
    (cond_holds nzcv 0x0 ≡ (a == b))
    × (cond_holds nzcv 0x2 ≡ leb b a)
    × (cond_holds nzcv 0x8 ≡ ltb b a)
    × (cond_holds nzcv 0xa ≡ leb (biased w32 7) (biased w32 5))
    × (cond_holds nzcv 0xc ≡ ltb (biased w32 7) (biased w32 5))
cond_holds-add_with_carry_example = cond_holds-add_with_carry 5 7 w32 (omega arith) (omega arith)
