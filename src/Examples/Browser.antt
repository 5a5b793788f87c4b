-- ===== src/Examples/Browser.antt =====
-- src/browser/limit.ts on concrete runs.
use job_hunters_api.Common.{
  ◌<◌, ◌≡◌, refl, false, some, List, [], ◌∷◌, ◌++◌, length, get_elem?, All,
}
use job_hunters_api.Browser.Limit.{
  Semaphore, create_semaphore, release, acquire, timeout, Event, acquired, released, timed_out, run,
}
use job_hunters_api.Browser.Limit.Invariant.{Inv, run-create_semaphore-Inv}
use job_hunters_api.Browser.Limit.Fairness.{release_longest_wait}

-- Three calls of a semaphore for one browser: the second and the third wait.
abbrev three_calls : List Event
three_calls = acquired ∷ acquired ∷ acquired ∷ []

abbrev busy : Semaphore
busy = run three_calls (create_semaphore 1)

busy_queue : busy.queue ≡ 1 ∷ 2 ∷ []
unfolding run create_semaphore acquire
busy_queue = refl

timed_out_waiter : (run (timed_out 1 ∷ released 0 ∷ []) busy).resolved ≡ (0, 0) ∷ (2, 1) ∷ []
unfolding run create_semaphore acquire release timeout
timed_out_waiter = refl

run-create_semaphore-Inv_example : Inv (run three_calls (create_semaphore 1))
run-create_semaphore-Inv_example = run-create_semaphore-Inv 1 three_calls

busy_first_slot : get_elem? busy.slots 0 ≡ some false
unfolding run create_semaphore acquire
busy_first_slot = refl

release_longest_wait_example :
    All (λ v. 1 < v) (2 ∷ [])
    × ((release 0 busy).resolved ≡ busy.resolved ++ (1, length busy.slots) ∷ [])
    × ((release 0 busy).queue ≡ 2 ∷ [])
    × ((release 0 busy).active ≡ busy.active)
release_longest_wait_example =
    release_longest_wait 1 three_calls 0 1 (2 ∷ []) busy_queue busy_first_slot
