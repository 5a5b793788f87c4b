-- ===== src/Examples/Lanes.antt =====
-- The leases of src/hunt/application-queue.ts over a store in memory.
use Prim.Native.String.{String}
use text.Mathlib.Text.{◌==◌}
use job_hunters_api.Common.{ℕ, ◌≡◌, ◌≢◌, refl, true, Option, none, some, if◌then◌else◌}
use job_hunters_api.Redis.{Redis, IsRedis}
use job_hunters_api.Queue.Policy.{effective_concurrency}
use job_hunters_api.Queue.Lanes.{
  ApplyJobData, BrowserSession, Tokens, acquire_lane, acquire_application_lanes,
}
use job_hunters_api.Queue.Lanes.Laws.{IsAllOrNothing, acquire_application_lanes-IsAllOrNothing}

abbrev put_free :
    String → String → (String → Option String) → Option String → Option (String → Option String)
put_free key token s none = some (λ other. if key == other then some token else s other)
put_free key token s (some held) = none

abbrev pub memory : Redis
memory = record {
  Store = String → Option String;
  get = λ key s. s key;
  set_nx = λ key token s. put_free key token s (s key);
  del = λ key s. λ other. if key == other then none else s other;
}

put_free-none :
    (key token : String) (s : String → Option String) (held : Option String)
    → put_free key token s held ≡ none
    → held ≢ none
put_free-none key token s none e = cc
put_free-none key token s (some held) e = λ k. cc

put_free-free :
    (key token : String) (s t : String → Option String) (held : Option String)
    → put_free key token s held ≡ some t
    → held ≡ none
put_free-free key token s t none e = refl
put_free-free key token s t (some held) e = cc

some_inj : (s t : String → Option String) → some s ≡ some t → s ≡ t
some_inj s t e = cc

put_free-written :
    (key token : String) (s t : String → Option String) (held : Option String) (other : String)
    → put_free key token s held ≡ some t
    → t other ≡ (if key == other then some token else s other)
put_free-written key token s t none other e = rw (← (some_inj _ t e))
put_free-written key token s t (some held) other e = cc

pub memory-IsRedis : IsRedis memory
memory-IsRedis = record {
  refused = λ key token s e. put_free-none key token s (s key) e;
  was_free = λ key token s t e. put_free-free key token s t (s key) e;
  written = λ key token s t other e. put_free-written key token s t (s key) other e;
  deleted = λ key s other. refl;
}

abbrev tokens : Tokens
tokens = record { user = λ slot. "user token"; profile = "profile token"; portal = "portal token" }

abbrev decimal : ℕ → String
decimal n = "0"

abbrev job : ApplyJobData
job = record { user_id = "u"; portal = "lever" }

abbrev session : BrowserSession
session = record { vm_id = "vm"; tenant_index = 0 }

abbrev empty_store : String → Option String
empty_store key = none

abbrev held_store : String → Option String
held_store key = if key == "huntly:apply-lock:u:lever" then some "another token" else none

all_taken :
    (acquire_application_lanes memory decimal tokens job 2 (some session) empty_store).1
      "huntly:apply-lock:u:lever"
    ≡ some "portal token"
unfolding acquire_application_lanes acquire_lane effective_concurrency
all_taken = refl

acquire_application_lanes-IsAllOrNothing_example :
    IsAllOrNothing memory memory-IsRedis decimal tokens job
      (effective_concurrency 2 true)
      (some session)
      empty_store
      (acquire_application_lanes memory decimal tokens job 2 (some session) empty_store)
acquire_application_lanes-IsAllOrNothing_example =
    acquire_application_lanes-IsAllOrNothing memory memory-IsRedis decimal tokens job 2
      (some session) empty_store
