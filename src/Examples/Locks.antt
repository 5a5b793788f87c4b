-- ===== src/Examples/Locks.antt =====
-- src/lib/locks.ts over a store in memory, where another client holds the lock for two tries.
use Prim.Native.String.{String}
use job_hunters_api.Common.{ℕ, zero, suc, ◌+◌, ◌*◌, Option, none, some, arith}
use job_hunters_api.Locks.{wait_for_lock, lock_key}
use job_hunters_api.Locks.Waiting.{IsFair, wait_for_lock-IsFair}
use job_hunters_api.Examples.Lanes.{memory, memory-IsRedis}

abbrev clock : ℕ → ℕ
clock n = 1000 + n * 5000

abbrev seen : ℕ → String → Option String
seen zero key = some "another token"
seen (suc zero) key = some "another token"
seen (suc (suc n)) key = none

wait_for_lock-IsFair_example :
    IsFair memory memory-IsRedis
      (lock_key "u" "outreach")
      "token"
      (1000 + 20000)
      clock
      seen
      0
      (wait_for_lock memory "u" "outreach" "token" 20000 clock seen)
wait_for_lock-IsFair_example =
    wait_for_lock-IsFair memory memory-IsRedis "u" "outreach" "token" 20000 clock seen
      (λ n. omega arith)
