-- ===== src/Buffer/Growth.antt =====
-- src/buffer/buffer.c: the capacities of the growth policy.
use oemu.Common.{ℕ, zero, suc, ◌+◌, ◌-◌, ◌/◌, ◌≤◌, ltb, max, if◌then◌else◌, arith}
use native.Mathlib.Decide.{dec_lt}
use oemu.Buffer.{size_max, min_cap, grow_loop, grow_capacity}

-- A capacity that holds what is required, in a machine word, at most one and a half times over.
pub record Fits (current_cap required cap : ℕ) : Type 0 where
  pub holds : required ≤ cap
  pub keeps : current_cap ≤ cap
  pub word : cap ≤ size_max
  pub bounded : cap ≤ max (max min_cap current_cap) (required + required / 2)

grow_loop-Fits :
    (fuel cap required : ℕ)
    → required ≤ cap + fuel
    → min_cap ≤ cap
    → cap ≤ size_max
    → required ≤ size_max
    → Fits cap required (grow_loop fuel cap required)
unfolding grow_loop
grow_loop-Fits zero cap required enough big word fits = record {
  holds = omega arith;
  keeps = omega arith;
  word = omega arith;
  bounded = omega arith;
}
grow_loop-Fits (suc fuel) cap required enough big word fits = elim (dec_lt cap required) [
  | yes under ↦ elim (dec_lt (size_max - cap / 2) cap) [
    | yes wraps ↦ record {
      holds = ground (arith, under, wraps);
      keeps = ground (arith, under, wraps);
      word = ground (arith, under, wraps);
      bounded = ground (arith, under, wraps);
    }
    | no room ↦
        let rest =
          grow_loop-Fits fuel (cap + cap / 2) required (omega arith) (omega arith) (omega arith)
            fits in
        record {
          holds = ground (arith, rest.holds);
          keeps = ground (arith, rest.keeps);
          word = ground (arith, rest.word);
          bounded = ground (arith, rest.bounded, under);
        }
  ]
  | no over ↦ record {
    holds = ground (arith, over);
    keeps = ground (arith, over);
    word = ground (arith, over);
    bounded = ground (arith, over);
  }
]

-- For word-sized arguments the growth policy ends with a capacity that holds the required bytes,
-- is no smaller than the current one, is a machine word, and is at most the largest of the minimum,
-- the current capacity and one and a half times what is required.
pub grow_capacity-Fits :
    (current_cap required : ℕ)
    → current_cap ≤ size_max
    → required ≤ size_max
    → Fits current_cap required (grow_capacity current_cap required)
unfolding grow_capacity
grow_capacity-Fits current_cap required word fits =
    let loop =
      grow_loop-Fits required (if ltb current_cap min_cap then min_cap else current_cap) required
        (omega arith) (ground arith) (ground arith) fits in
    record {
      holds = ground (arith, loop.holds);
      keeps = ground (arith, loop.keeps);
      word = ground (arith, loop.word);
      bounded = ground (arith, loop.bounded);
    }
