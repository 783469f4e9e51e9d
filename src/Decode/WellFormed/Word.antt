-- ===== src/Decode/WellFormed/Word.antt =====
-- src/decode/decode.c: the shape of the decoder's answer.
use oemu.Common.{ℕ, bit_and, ◌≡◌, refl, false, ◌==◌, ◌||◌, if_both}
use oemu.Common.Status.{ok, Status, is_ok}
use oemu.Decode.{Insn, Decoded, decoded, refused, bits, insn_reset}
use oemu.Decode.WellFormed.{Sound, returns, raises, IsWellFormed}
use oemu.Decode.Word.{decode_group, answer, decode}
use oemu.Decode.WellFormed.Immediate.{dp_immediate-Sound}
use oemu.Decode.WellFormed.Branch.{branch_system-Sound}
use oemu.Decode.WellFormed.Register.{dp_register-Sound}
use oemu.Decode.WellFormed.LoadStore.{load_store-Sound, vec_dup-Sound}

decode_group-Sound : (w pc : ℕ) → Sound w (decode_group w pc (insn_reset w))
unfolding decode_group
decode_group-Sound w pc =
    if_both (Sound w) (bits w 25 4 == 0x8 || bits w 25 4 == 0x9) (λ _. dp_immediate-Sound w pc)
      λ _.
        if_both (Sound w) (bits w 25 4 == 0xa || bits w 25 4 == 0xb) (λ _. branch_system-Sound w pc)
          λ _.
            if_both (Sound w)
              (bits w 25 4 == 0x4 || bits w 25 4 == 0x6 || bits w 25 4 == 0xc || bits w 25 4 == 0xe)
              (λ _. load_store-Sound w pc)
              λ _.
                if_both (Sound w) (bits w 25 4 == 0x5 || bits w 25 4 == 0xd)
                  (λ _. dp_register-Sound w)
                  λ _.
                    if_both (Sound w) (bits w 25 4 == 0x7 || bits w 25 4 == 0xf)
                      (λ _.
                        if_both (Sound w) (bit_and w 0xbffffc00 == 0x0e010c00)
                          (λ _. vec_dup-Sound w) λ _. raises refl)
                      λ _.
                        if_both (Sound w) (bits w 25 4 == 2 || bits w 25 4 == 3) (λ _. raises refl)
                          λ _. raises refl

-- What the caller may rely on after an answer.
pub data IsAnswer (w : ℕ) : Status × Insn → Type 0 where
  answers : {insn : Insn} → IsWellFormed w insn → IsAnswer w (ok, insn)
  rejects : {status : Status} → is_ok status ≡ false → IsAnswer w (status, insn_reset w)

answer-IsAnswer : (w : ℕ) (d : Decoded) → Sound w d → IsAnswer w (answer w d)
unfolding answer
answer-IsAnswer w (decoded insn) (returns h) = answers h
answer-IsAnswer w (refused status) (raises e) = rejects e

-- For every word and every address: when `oemu_decode` answers OEMU_OK, the instruction carries the
-- word, a known operation, registers below 32, a condition below 16 and immediates of 64 bits, and
-- its shift amount and its bit positions lie inside the operand's width; when it answers an error,
-- `out` is as the reset left it.
pub decode-IsAnswer : (w pc : ℕ) → IsAnswer w (decode w pc)
unfolding decode
decode-IsAnswer w pc = answer-IsAnswer w _ (decode_group-Sound w pc)
