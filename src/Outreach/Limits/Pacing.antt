-- ===== src/Outreach/Limits/Pacing.antt =====
-- `nextGapMs` of src/outreach/limits.ts stays between the least and the greatest gap.
use native.Mathlib.Nat.{le-div_iff_mul-le, mul-le-mul_right, le_of_lt}
use native.Mathlib.Decide.{dec_le}
use job_hunters_api.Common.{ℕ, ◌+◌, ◌-◌, ◌*◌, ◌≤◌, ◌<◌, ◌≡◌, arith, suc, ap, leb, true}
use job_hunters_api.Outreach.Limits.{OutreachLimits, round_div, next_gap_ms}

round_div_lower : (a d lo : ℕ) → 0 < d → lo * d ≤ a → lo ≤ round_div a d
round_div_lower a d lo pos h =
    (le-div_iff_mul-le {k = 2 * d} {x = lo} {y = 2 * a + d} (omega arith)).1 (omega arith)

round_div_upper : (a d hi : ℕ) → 0 < d → a ≤ hi * d → round_div a d ≤ hi
round_div_upper a d hi pos h = elim (dec_le (round_div a d) hi) [
  | yes within ↦ within
  | no above ↦
      let beyond : suc hi * (2 * d) ≤ 2 * a + d =
        (le-div_iff_mul-le {k = 2 * d} {x = suc hi} {y = 2 * a + d} (omega arith)).0
          (omega arith) in
      absurd (omega arith)
]

-- The gap lies between the two bounds, for every value of `Math.random()`.
next_gap_ms_bounds :
    (limits : OutreachLimits) (r d : ℕ)
    → r < d
    → limits.min_gap_ms ≤ limits.max_gap_ms
    → (limits.min_gap_ms ≤ next_gap_ms limits r d) × (next_gap_ms limits r d ≤ limits.max_gap_ms)
unfolding next_gap_ms
next_gap_ms_bounds limits r d h o =
    let low = limits.min_gap_ms in
    let span = limits.max_gap_ms - low in
    let reached = mul-le-mul_right span (le_of_lt h) in
    let whole : low + span ≡ limits.max_gap_ms = omega arith in
    let ordered : leb low limits.max_gap_ms ≡ true = ground arith in
    rw ordered (
      round_div_lower (low * d + r * span) d low (omega arith) (omega arith),
      round_div_upper (low * d + r * span) d limits.max_gap_ms (omega arith)
          (omega (arith, reached, ap (λ (t : ℕ). t * d) whole)),
    )
