-- ===== src/Redis.antt =====
-- What src/hunt/application-queue.ts and src/lib/locks.ts rely on of the Redis server: texts under
-- keys, `SET key token PX ttl NX`, `GET` and `DEL`. A script that `EVAL` runs is one step. A key
-- that expires is a key that is deleted.
use Prim.Native.String.{String}
use text.Mathlib.Text.{◌==◌}
use job_hunters_api.Common.{◌≡◌, ◌≢◌, Option, none, some, if◌then◌else◌}

pub record Redis : Type 1 where
  pub Store : Type 0
  pub get : String → Store → Option String
  pub set_nx : String → String → Store → Option Store
  pub del : String → Store → Store

-- `NX` writes exactly where the key is free, and a command touches its own key alone.
pub record IsRedis (redis : Redis) : Type 0 where
  pub refused :
      (key token : String) (s : redis.Store)
      → redis.set_nx key token s ≡ none
      → redis.get key s ≢ none
  pub was_free :
      (key token : String) (s t : redis.Store)
      → redis.set_nx key token s ≡ some t
      → redis.get key s ≡ none
  pub written :
      (key token : String) (s t : redis.Store) (other : String)
      → redis.set_nx key token s ≡ some t
      → redis.get other t ≡ (if key == other then some token else redis.get other s)
  pub deleted :
      (key : String) (s : redis.Store) (other : String)
      → redis.get other (redis.del key s) ≡ (if key == other then none else redis.get other s)
