-- ===== src/Decode/Word.antt =====
-- src/decode/decode.c: the decoder of a word.
use oemu.Common.{ℕ, bit_and, ◌||◌, ◌==◌, if◌then◌else◌}
use oemu.Common.Status.{Status, ok, err_decode, err_unsupported}
use oemu.Decode.{Insn, Decoded, decoded, refused, bits, insn_reset}
use oemu.Decode.Immediate.{decode_dp_immediate}
use oemu.Decode.Branch.{decode_branch_system}
use oemu.Decode.Register.{decode_dp_register}
use oemu.Decode.LoadStore.{decode_load_store, decode_vec_dup}

-- The group of a word.
unfoldable pub decode_group : ℕ → ℕ → Insn → Decoded
unfolding decode_dp_immediate decode_branch_system decode_dp_register decode_load_store
    decode_vec_dup
decode_group w pc out =
    let op0 = bits w 25 4 in
    if op0 == 0x8 || op0 == 0x9
    then decode_dp_immediate w pc out
    else if op0 == 0xa || op0 == 0xb
    then decode_branch_system w pc out
    else if op0 == 0x4 || op0 == 0x6 || op0 == 0xc || op0 == 0xe
    then decode_load_store w pc out
    else if op0 == 0x5 || op0 == 0xd
    then decode_dp_register w out
    else if op0 == 0x7 || op0 == 0xf
    then (if bit_and w 0xbffffc00 == 0x0e010c00
        then decode_vec_dup w out
        else refused err_unsupported)
    else if op0 == 2 || op0 == 3
    then refused err_unsupported
    else refused err_decode

-- The status with what `out` holds: on an error, what the reset left.
unfoldable pub answer : ℕ → Decoded → Status × Insn
unfolding insn_reset
answer w (decoded insn) = (ok, insn)
answer w (refused status) = (status, insn_reset w)

-- `oemu_decode`
unfoldable pub decode : ℕ → ℕ → Status × Insn
unfolding answer decode_group insn_reset
decode w pc = answer w (decode_group w pc (insn_reset w))
