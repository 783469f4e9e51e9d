-- ===== src/Exec/Bitfield.antt =====
-- src/exec/exec.c: the bitfield moves and the checksums.
use oemu.Common.{
  ℕ, zero, suc, ◌+◌, ◌-◌, ◌*◌, ◌^◌, bit_and, bit_or, bit_xor, Bool, false, ◌||◌, leb, ltb, ◌==◌,
  ◌!=◌, if◌then◌else◌,
}
use oemu.Common.Status.{Status, ok, err_decode}
use oemu.Common.Word.{◌>>>◌, ◌<<<◌, u64, complement}
use oemu.Regs.{Width, w32, w64, bits}
use oemu.Exec.{width_mask}
use oemu.Exec.Cpu.{Cpu, read_g, write_g}
use oemu.Decode.{Opcode, Insn}

-- The length of a field: a range that wraps round has two pieces.
unfoldable pub field_length : ℕ → ℕ → ℕ → ℕ
field_length width lsb msb = if ltb msb lsb then width - lsb + msb + 1 else msb - lsb + 1

-- The source with its field moved into place.
unfoldable pub moved : Width → ℕ → ℕ → ℕ → ℕ
moved width lsb msb src =
    if ltb msb lsb
    then bit_and (u64 (src <<< (bits width - lsb))) (width_mask width)
    else if lsb == 0
    then src
    else bit_and (bit_or (src >>> lsb) (u64 (src <<< (bits width - lsb)))) (width_mask width)

-- `len` ones from bit 0
unfoldable pub ones : Width → ℕ → ℕ
ones width len = if len == bits width then width_mask width else 2 ^ len - 1

unfoldable pub field : Width → ℕ → ℕ → ℕ → ℕ
unfolding moved ones field_length
field width lsb msb src =
    bit_and (moved width lsb msb src) (ones width (field_length (bits width) lsb msb))

-- The bits of the destination that BFM replaces.
unfoldable pub inserted : Width → ℕ → ℕ → ℕ
unfolding field_length
inserted width lsb msb =
    let bottom = if ltb msb lsb then bits width - lsb else 0 in
    let fbits = field_length (bits width) lsb msb - bottom in
    if fbits == bits width then width_mask width else u64 ((2 ^ fbits - 1) <<< bottom)

-- The result of a bitfield move: of BFM over the old destination, of SBFM with the sign.
unfoldable pub bitfield_result : Opcode → Width → ℕ → ℕ → ℕ → ℕ → ℕ
unfolding field inserted ones field_length
bitfield_result Opcode.bfm width lsb msb src old =
    let dm = inserted width lsb msb in
    bit_or (bit_and old (complement 64 dm)) (bit_and (field width lsb msb src) dm)
bitfield_result Opcode.sbfm width lsb msb src old =
    let len = field_length (bits width) lsb msb in
    let plain = field width lsb msb src in
    if bit_and (plain >>> (len - 1)) 1 != 0
    then bit_or plain (bit_and (width_mask width) (complement 64 (ones width len)))
    else plain
bitfield_result _ width lsb msb src old = field width lsb msb src

unfoldable pub do_bitfield : Cpu → Insn → Status × Cpu
unfolding read_g write_g bitfield_result
do_bitfield cpu i =
    let lsb = i.shift_amount in
    let msb = i.bit_pos in
    let src = read_g cpu i.rn false i.width in
    let old = read_g cpu i.rd false i.width in
    if leb (bits i.width) lsb || leb (bits i.width) msb
    then (err_decode, cpu)
    else (ok, write_g cpu i.rd false i.width (bitfield_result i.op i.width lsb msb src old))

-- A bit of a checksum's round.
unfoldable pub crc_bit : ℕ → ℕ → ℕ
crc_bit poly crc = if bit_and crc 1 != 0 then bit_xor (crc >>> 1) poly else crc >>> 1

unfoldable pub crc_bits : ℕ → ℕ → ℕ → ℕ
unfolding crc_bit
crc_bits zero poly crc = crc
crc_bits (suc left) poly crc = crc_bits left poly (crc_bit poly crc)

-- The loop over the bytes, with `left` to go from the i-th.
unfoldable pub crc_from : ℕ → ℕ → ℕ → ℕ → ℕ → ℕ
unfolding crc_bits
crc_from zero i poly bytes crc = crc
crc_from (suc left) i poly bytes crc =
    crc_from left (i + 1) poly bytes
      (crc_bits 8 poly (bit_xor crc (bit_and (bytes >>> (8 * i)) 0xff)))

-- `oemu_exec_internal_crc32`
unfoldable pub crc32 : ℕ → ℕ → ℕ → Bool → ℕ
unfolding crc_from
crc32 crc_in bytes nbytes castagnoli =
    crc_from nbytes 0 (if castagnoli then 0x82f63b78 else 0xedb88320) bytes crc_in

-- CRC32 and CRC32C
unfoldable pub checksum : Bool → Cpu → Insn → Cpu
unfolding read_g write_g crc32
checksum castagnoli cpu i =
    write_g cpu i.rd false w32
      (crc32 (read_g cpu i.rn false w32) (read_g cpu i.rm false w64) i.uimm castagnoli)
