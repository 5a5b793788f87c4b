-- ===== src/Browser/Limit.antt =====
-- src/browser/limit.ts, `createSemaphore`: the ceiling on how many browsers exist at once.
--
-- The closure's variables are the fields of `Semaphore`. A slot is the object that `makeSlot`
-- returns, known by its place in `slots`, which keeps its `released` flag. The n-th call of
-- `acquire` is known by the number n, and so is its waiter; `resolved` and `rejected` list how
-- the calls' promises were settled. A waiter's timer is pending exactly while it waits: handing it
-- a slot clears the timer, so `timeout` of a call that does not wait is no event and changes nothing.
pub mod Invariant
pub mod Fairness
use job_hunters_api.Common.{
  ℕ, ◌+◌, ◌-◌, ◌==◌, Bool, true, false, not, Option, none, some, List, [], ◌∷◌, ◌++◌, ltb,
  if◌then◌else◌, length, get_elem?, set, filter, any,
}

pub record Semaphore : Type 0 where
  pub limit : ℕ
  pub active : ℕ
  pub queue : List ℕ
  pub slots : List Bool
  pub calls : ℕ
  pub resolved : List (ℕ × ℕ)
  pub rejected : List ℕ

unfoldable pub create_semaphore : ℕ → Semaphore
create_semaphore limit = record {
  limit = limit;
  active = 0;
  queue = [];
  slots = [];
  calls = 0;
  resolved = [];
  rejected = [];
}

-- `resolve(makeSlot())` for one call: the new slot stands at the end of `slots`.
abbrev pub make_slot : ℕ → Semaphore → Semaphore
make_slot call s = record s {
  slots = s.slots ++ false ∷ [];
  resolved = s.resolved ++ (call, length s.slots) ∷ [];
}

unfoldable pub acquire : Semaphore → Semaphore
acquire s =
    let t = record s { calls = s.calls + 1 } in
    if ltb s.active s.limit
    then make_slot s.calls (record t { active = s.active + 1 })
    else record t { queue = s.queue ++ s.calls ∷ [] }

-- What a release does once the slot is known to be held: `queue.shift()` and the hand-over.
abbrev pub hand_over : List ℕ → Semaphore → Semaphore
hand_over [] s = record s { active = s.active - 1 }
hand_over (next ∷ rest) s = make_slot next (record s { queue = rest })

abbrev pub release_if : Option Bool → ℕ → Semaphore → Semaphore
release_if (some false) slot s = hand_over s.queue (record s { slots = set s.slots slot true })
release_if _ slot s = s

unfoldable pub release : ℕ → Semaphore → Semaphore
release slot s = release_if (get_elem? s.slots slot) slot s

-- The callback of the waiter's timer.
unfoldable pub timeout : ℕ → Semaphore → Semaphore
timeout call s =
    if any (λ w. w == call) s.queue
    then record s {
      queue = filter (λ w. not (w == call)) s.queue;
      rejected = s.rejected ++ call ∷ [];
    }
    else s

-- What can happen to a semaphore, in any order.
pub data Event : Type 0 where
  acquired : Event
  released timed_out : ℕ → Event

abbrev pub step : Event → Semaphore → Semaphore
step acquired s = acquire s
step (released slot) s = release slot s
step (timed_out call) s = timeout call s

unfoldable pub run : List Event → Semaphore → Semaphore
run [] s = s
run (e ∷ es) s = run es (step e s)
