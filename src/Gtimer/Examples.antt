-- ===== src/Gtimer/Examples.antt =====
-- An enabled timer across the wrap of its counter.
use oemu.Common.{◌-◌, ◌^◌, ◌≡◌, refl}
use oemu.Gtimer.{pending}

expired_across_wrap : pending 5 1 (2 ^ 64 - 5) ≡ 1
unfolding pending
expired_across_wrap = refl
