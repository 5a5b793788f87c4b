-- ===== src/Queue/Policy/Budget.antt =====
-- The daily budget and the lanes of src/hunt/application-policy.ts.
use job_hunters_api.Common.{ℕ, ◌+◌, ◌≤◌, ◌<◌, ◌≡◌, max, Bool, true, arith}
use job_hunters_api.Queue.Policy.{daily_budget, effective_concurrency}

-- The allowance lies between 1 and 100 whatever is configured, what remains tops up what was used
-- to exactly the allowance unless more was used already, and the day holds the present instant.
pub daily_budget_bounds :
    (used configured now : ℕ)
    → let b = daily_budget used configured now in
      (1 ≤ b.limit)
      × (b.limit ≤ 100)
      × (used + b.remaining ≡ max used b.limit)
      × (b.start ≤ now)
      × (now < b.resets_at)
unfolding daily_budget
daily_budget_bounds used configured now = omega arith

-- A user has between one and four lanes, and exactly one with a browser profile on the host.
effective_concurrency_bounds :
    (configured : ℕ) (vm : Bool)
    → (1 ≤ effective_concurrency configured vm)
      × (effective_concurrency configured vm ≤ 4)
      × (vm ≡ true → effective_concurrency configured vm ≡ 1)
unfolding effective_concurrency
effective_concurrency_bounds configured vm = ground arith
