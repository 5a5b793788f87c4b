-- ===== src/Queue/Lanes.antt =====
-- src/hunt/application-queue.ts, `acquireLane` and `acquireApplicationLanes`: the leases that an
-- application takes before it opens a browser, one of the user's lanes, the browser profile where
-- the user has one, and the portal.
--
-- A lease is its key with its owner's token; the tokens of `crypto.randomUUID()` are arguments.
-- The renewals of the timer leave every token as it is and are left out; a lease that expires is a
-- key that is deleted. `decimal` prints a number.
pub mod Laws
pub mod Exclusion
use Prim.Native.String.{String, ◌++◌}
use text.Mathlib.Text.{◌==◌}
use job_hunters_api.Common.{
  ℕ, zero, suc, ◌+◌, Bool, true, false, Option, none, some, List, [], ◌∷◌, if◌then◌else◌,
}
use job_hunters_api.Redis.{Redis}
use job_hunters_api.Queue.Policy.{effective_concurrency}

pub record Lane : Type 0 where
  pub key : String
  pub token : String

pub record ApplyJobData : Type 0 where
  pub user_id : String
  pub portal : String

pub record BrowserSession : Type 0 where
  pub vm_id : String
  pub tenant_index : ℕ

abbrev pub is_session : Option BrowserSession → Bool
is_session none = false
is_session (some session) = true

-- What the closure that `acquireApplicationLanes` returns holds on to.
pub record ApplicationLanes : Type 0 where
  pub user : Lane
  pub profile : Option Lane
  pub portal : Lane

pub record Tokens : Type 0 where
  pub user : ℕ → String
  pub profile : String
  pub portal : String

-- What follows a lease that was taken, and what follows one that was not.
abbrev if_got :
    {S A B : Type 0} → Option A × S → (A → S → Option B × S) → (S → Option B × S) → Option B × S
if_got (some a, s) taken missed = taken a s
if_got (none, s) taken missed = missed s

module _ (redis : Redis) where
  abbrev locked_by : String → String → redis.Store → Option redis.Store → Option Lane × redis.Store
  locked_by key token s none = (none, s)
  locked_by key token s (some t) = (some (record { key = key; token = token }), t)

  unfoldable pub acquire_lane : String → String → redis.Store → Option Lane × redis.Store
  acquire_lane key token s = locked_by key token s (redis.set_nx key token s)

  abbrev pub is_mine : String → Option String → Bool
  is_mine token none = false
  is_mine token (some t) = t == token

  -- The script of the release: the key goes only while the token is the owner's.
  unfoldable pub release_lane : Lane → redis.Store → redis.Store
  release_lane lane s =
      if is_mine lane.token (redis.get lane.key s) then redis.del lane.key s else s

  abbrev pub release_profile : Option Lane → redis.Store → redis.Store
  release_profile none s = s
  release_profile (some lane) s = release_lane lane s

  -- The closure that `acquireApplicationLanes` returns.
  unfoldable pub release_lanes : ApplicationLanes → redis.Store → redis.Store
  release_lanes lanes s =
      release_lane lanes.user (release_profile lanes.profile (release_lane lanes.portal s))

  module _ (decimal : ℕ → String) (tokens : Tokens) (job : ApplyJobData) where
    abbrev pub user_key : ℕ → String
    user_key slot = "huntly:apply-user:" ++ (job.user_id ++ (":" ++ decimal slot))

    abbrev pub profile_key : BrowserSession → String
    profile_key session =
        "huntly:apply-profile:" ++ (session.vm_id ++ (":" ++ decimal session.tenant_index))

    abbrev pub portal_key : String
    portal_key = "huntly:apply-lock:" ++ (job.user_id ++ (":" ++ job.portal))

    -- The loop over the slots from `slot` on, `left` of them.
    pub user_lane : (left slot : ℕ) → redis.Store → Option Lane × redis.Store
    user_lane zero slot s = (none, s)
    user_lane (suc left) slot s =
        if_got (acquire_lane (user_key slot) (tokens.user slot) s) (λ lane t. (some lane, t))
          (λ t. user_lane left (slot + 1) t)

    pub with_portal : Lane → Option Lane → redis.Store → Option ApplicationLanes × redis.Store
    with_portal user profile s =
        if_got (acquire_lane portal_key tokens.portal s)
          (λ portal t. (some (record { user = user; profile = profile; portal = portal }), t))
          (λ t. (none, release_lane user (release_profile profile t)))

    pub with_profile :
        Option BrowserSession → Lane → redis.Store → Option ApplicationLanes × redis.Store
    with_profile none user s = with_portal user none s
    with_profile (some session) user s =
        if_got (acquire_lane (profile_key session) tokens.profile s)
          (λ profile t. with_portal user (some profile) t) (λ t. (none, release_lane user t))

    -- `configured` is `schedule?.applyConcurrency ?? 1`.
    unfoldable pub acquire_application_lanes :
        (configured : ℕ)
        → Option BrowserSession
        → redis.Store
        → Option ApplicationLanes × redis.Store
    unfolding user_lane with_profile with_portal
    acquire_application_lanes configured session s =
        if_got (user_lane (effective_concurrency configured (is_session session)) 0 s)
          (λ user t. with_profile session user t) (λ t. (none, t))
