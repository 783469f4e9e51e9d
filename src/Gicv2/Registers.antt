-- ===== src/Gicv2/Registers.antt =====
-- src/dev/gicv2.c: the set and clear registers of the distributor, seen through the bus.
use oemu.Common.{
  ℕ, zero, suc, ◌+◌, ◌*◌, ◌-◌, ◌%◌, ◌^◌, ◌≤◌, ◌<◌, ◌≡◌, refl, Bool, true, false, Bank, arith, ◌∙◌,
  ◌==◌, if◌then◌else◌,
}
use oemu.Common.Bits.{bit}
use oemu.Common.Bits.Masks.{bit-mod}
use oemu.Gicv2.{Gicv2, max_lines}
use oemu.Gicv2.Bus.{dist_read, dist_write, pack_bank, poke_bank}
use oemu.Gicv2.Banks.{pack_bank_lem, poke_bank_lem}

pack-poke :
    (state : Bank) (base v j : ℕ) (set : Bool)
    → base + 32 ≤ max_lines
    → j < 32
    → bit (pack_bank (poke_bank state base (v % 2 ^ 32) set) base) j
      ≡ (if bit v j == 1 then (if set then 1 else 0) else bit (pack_bank state base) j)
pack-poke state base v j set p q =
    pack_bank_lem (poke_bank state base (v % 2 ^ 32) set) base j
    ∙ rw (pack_bank_lem state base j, poke_bank_lem state base (v % 2 ^ 32) set (base + j))
        (rw (let e : base + j - base ≡ j = omega arith in e) (rw (bit-mod 32 v j q) (ground arith)))

-- At word `w`: writing the set register raises exactly the named bits of what the set register
-- reads, writing the clear register drops exactly these, and both registers read alike.
abbrev pub IsSetClear : Gicv2 → ℕ → ℕ → ℕ → ℕ → ℕ → Type 0
IsSetClear gic set_base clear_base w v j =
    (bit (dist_read (dist_write gic (set_base + 4 * w) v) (set_base + 4 * w)) j
      ≡ (if bit v j == 1 then 1 else bit (dist_read gic (set_base + 4 * w)) j))
    × (bit (dist_read (dist_write gic (clear_base + 4 * w) v) (set_base + 4 * w)) j
        ≡ (if bit v j == 1 then 0 else bit (dist_read gic (set_base + 4 * w)) j))
    × (dist_read gic (clear_base + 4 * w) ≡ dist_read gic (set_base + 4 * w))

-- For the enable, the pending and the active bank and each of its 64 lines: writing the set
-- register raises exactly the named bits, writing the clear register drops exactly these, and both
-- registers read alike.
pub IsSetClear-registers :
    (gic : Gicv2) (w v j : ℕ)
    → w < 2
    → j < 32
    → IsSetClear gic 0x100 0x180 w v j
      × IsSetClear gic 0x200 0x280 w v j
      × IsSetClear gic 0x300 0x380 w v j
unfolding dist_read dist_write
IsSetClear-registers gic zero v j p q = (
  (
    pack-poke gic.enable 0 v j true (omega arith) q,
    pack-poke gic.enable 0 v j false (omega arith) q,
    refl,
  ),
  (
    pack-poke gic.pending 0 v j true (omega arith) q,
    pack-poke gic.pending 0 v j false (omega arith) q,
    refl,
  ),
  (
    pack-poke gic.active 0 v j true (omega arith) q,
    pack-poke gic.active 0 v j false (omega arith) q,
    refl,
  ),
)
IsSetClear-registers gic (suc zero) v j p q = (
  (
    pack-poke gic.enable 32 v j true (omega arith) q,
    pack-poke gic.enable 32 v j false (omega arith) q,
    refl,
  ),
  (
    pack-poke gic.pending 32 v j true (omega arith) q,
    pack-poke gic.pending 32 v j false (omega arith) q,
    refl,
  ),
  (
    pack-poke gic.active 32 v j true (omega arith) q,
    pack-poke gic.active 32 v j false (omega arith) q,
    refl,
  ),
)
IsSetClear-registers gic (suc (suc w)) v j p q = absurd (omega arith)
