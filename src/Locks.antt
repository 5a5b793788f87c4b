-- ===== src/Locks.antt =====
-- src/lib/locks.ts, `withUserResourceLock`: the wait for a user's resource, and the lock that only
-- its owner gives back.
--
-- The n-th try reads the clock as `clock n` and finds the server as `seen n`: other clients write
-- while the caller sleeps. A try reads the clock once; the source reads it again for the error's
-- text. The heartbeat renews a lock without changing its token and is left out.
pub mod Waiting
use Prim.Native.String.{String, ◌++◌}
use job_hunters_api.Common.{ℕ, zero, suc, ◌+◌, Option, none, some, if◌then◌else◌, leb}
use job_hunters_api.Redis.{Redis}
use job_hunters_api.Queue.Lanes.{Lane, release_lane}

abbrev pub lock_key : String → String → String
lock_key user_id resource = "huntly:lock:" ++ (user_id ++ (":" ++ resource))

module _ (redis : Redis) where
  -- How the wait ends: with the lock, at the n-th try, in the store after it; with the
  -- `LockBusyError` of the n-th try; or, of the model alone, with no fuel left.
  pub data Wait : Type 0 where
    locked : ℕ → redis.Store → Wait
    busy : ℕ → Wait
    out_of_fuel : Wait

  module _ (key token : String) (deadline : ℕ) (clock : ℕ → ℕ) (seen : ℕ → redis.Store) where
    abbrev pub after_try : Option redis.Store → ℕ → Wait → Wait
    after_try (some t) n rest = locked n t
    after_try none n rest = if leb deadline (clock n) then busy n else rest

    pub wait_from : (fuel n : ℕ) → Wait
    wait_from zero n = out_of_fuel
    wait_from (suc fuel) n = after_try (redis.set_nx key token (seen n)) n (wait_from fuel (suc n))

  -- The options are `waitMs` and `startedAt`; a sleep takes a millisecond at least, so the tries
  -- before the deadline are no more than the milliseconds of the wait.
  unfoldable pub wait_for_lock :
      (user_id resource token : String) (wait_ms : ℕ) → (ℕ → ℕ) → (ℕ → redis.Store) → Wait
  unfolding wait_from
  wait_for_lock user_id resource token wait_ms clock seen =
      wait_from (lock_key user_id resource) token (clock 0 + wait_ms) clock seen (suc wait_ms) 0

  -- The whole call: the operation runs with the lock, and the script of `finally` runs after it,
  -- whether it returned or threw. `none` is the `LockBusyError`.
  unfoldable with_user_resource_lock :
      {R : Type 0} (user_id resource token : String) (wait_ms : ℕ)
      → (ℕ → ℕ)
      → (ℕ → redis.Store)
      → (operation : redis.Store → R × redis.Store) → Option (R × redis.Store)
  unfolding wait_for_lock
  with_user_resource_lock user_id resource token wait_ms clock seen operation =
      elim (wait_for_lock user_id resource token wait_ms clock seen) [
        | locked n t ↦
            let (result, u) = operation t in
            some (
              result,
              release_lane redis (record { key = lock_key user_id resource; token = token }) u,
            )
        | busy n ↦ none
        | out_of_fuel ↦ none
      ]
