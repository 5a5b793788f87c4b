-- ===== src/Queue/Lanes/Laws.antt =====
-- The leases of src/hunt/application-queue.ts are taken together or not at all.
use Prim.Native.String.{String}
use text.Mathlib.Text.{◌==◌}
use text.Mathlib.TextEquality.{eq_iff}
use job_hunters_api.Common.{
  ℕ, zero, suc, ◌+◌, ◌≤◌, ◌<◌, ◌≡◌, refl, ◌∙◌, Option, none, some, Option-cases, ◌⊎◌, inl, inr,
  arith, if◌then◌else◌,
}
use job_hunters_api.Redis.{Redis, IsRedis}
use job_hunters_api.Queue.Policy.{effective_concurrency}
use job_hunters_api.Queue.Lanes.{
  Lane, ApplyJobData, BrowserSession, is_session, ApplicationLanes, Tokens, acquire_lane,
  release_lane, release_profile, release_lanes, user_key, profile_key, portal_key, user_lane,
  with_portal, with_profile, acquire_application_lanes,
}

module _ (redis : Redis) (laws : IsRedis redis) where
  -- Nobody can tell the two stores apart.
  abbrev IsSame : redis.Store → redis.Store → Type 0
  IsSame s t = (key : String) → redis.get key t ≡ redis.get key s

  pub record Takes (lane : Lane) (s t : redis.Store) : Type 0 where
    pub free : redis.get lane.key s ≡ none
    pub written :
        (key : String)
        → redis.get key t ≡ (if lane.key == key then some lane.token else redis.get key s)

  Takes-own :
      (lane : Lane) (s t : redis.Store) → Takes lane s t → redis.get lane.key t ≡ some lane.token
  Takes-own lane s t h = h.written lane.key ∙ rw ((eq_iff lane.key lane.key).1 refl)

  pub Takes-keeps :
      (lane : Lane) (s t : redis.Store) (key token : String)
      → Takes lane s t
      → redis.get key s ≡ some token
      → redis.get key t ≡ some token
  Takes-keeps lane s t key token h e = ground (arith, eq_iff lane.key key, h.free, h.written key)

  Takes-free :
      (lane : Lane) (s t : redis.Store) (key : String)
      → Takes lane s t
      → redis.get key t ≡ none
      → redis.get key s ≡ none
  Takes-free lane s t key h e = ground (arith, eq_iff lane.key key, h.free, h.written key)

  pub acquire_lane-cases :
      (key token : String) (s : redis.Store)
      → (acquire_lane redis key token s ≡ (none, s))
        ⊎ ((t : redis.Store) × (acquire_lane redis key token s
              ≡ (some (record { key = key; token = token }), t))
            × Takes (record { key = key; token = token }) s t)
  unfolding acquire_lane
  acquire_lane-cases key token s = elim (Option-cases (redis.set_nx key token s)) [
    | inl busy ↦ inl (rw busy)
    | inr (t, done) ↦ inr (
      t,
      rw done,
      record {
        free = laws.was_free key token s t done;
        written = λ other. laws.written key token s t other done;
      },
    )
  ]

  -- Giving a lease back, in a store like the one that has it, restores the store before it.
  release_lane-Takes :
      (lane : Lane) (s t u : redis.Store)
      → Takes lane s t
      → IsSame t u
      → IsSame s (release_lane redis lane u)
  unfolding release_lane
  release_lane-Takes lane s t u h same key =
      let own : redis.get lane.key u ≡ some lane.token = same lane.key ∙ Takes-own lane s t h in
      let equal = (eq_iff lane.token lane.token).1 refl in
      rw (own, equal)
        (ground (
          arith,
          eq_iff lane.key key,
          laws.deleted lane.key u key,
          same key,
          h.written key,
          h.free,
        ))

  abbrev IsNewLane : redis.Store → redis.Store → Lane → Type 0
  IsNewLane s t lane = (redis.get lane.key s ≡ none) × (redis.get lane.key t ≡ some lane.token)

  abbrev IsNewProfile : redis.Store → redis.Store → Option Lane → Type 0
  IsNewProfile s t none = Unit
  IsNewProfile s t (some lane) = IsNewLane s t lane

  -- `t` is `s` with the leases, each free before, and giving them back restores `s`.
  pub record IsLeased (s t : redis.Store) (lanes : ApplicationLanes) : Type 0 where
    pub user : IsNewLane s t lanes.user
    pub profile : IsNewProfile s t lanes.profile
    pub portal : IsNewLane s t lanes.portal
    pub restored : IsSame s (release_lanes redis lanes t)

  abbrev TakesProfile : Option Lane → redis.Store → redis.Store → Type 0
  TakesProfile none s t = s ≡ t
  TakesProfile (some lane) s t = Takes lane s t

  TakesProfile-keeps :
      (profile : Option Lane) (s t : redis.Store) (key token : String)
      → TakesProfile profile s t
      → redis.get key s ≡ some token
      → redis.get key t ≡ some token
  TakesProfile-keeps none s t key token h e = rw (← h) e
  TakesProfile-keeps (some lane) s t key token h e = Takes-keeps lane s t key token h e

  TakesProfile-free :
      (profile : Option Lane) (s t : redis.Store) (key : String)
      → TakesProfile profile s t
      → redis.get key t ≡ none
      → redis.get key s ≡ none
  TakesProfile-free none s t key h e = rw h e
  TakesProfile-free (some lane) s t key h e = Takes-free lane s t key h e

  release_profile-Takes :
      (profile : Option Lane) (s t u : redis.Store)
      → TakesProfile profile s t
      → IsSame t u
      → IsSame s (release_profile redis profile u)
  release_profile-Takes none s t u h same = rw h same
  release_profile-Takes (some lane) s t u h same = release_lane-Takes lane s t u h same

  new_profile :
      (profile : Option Lane) (user portal : Lane) (s0 s1 s2 s3 : redis.Store)
      → Takes user s0 s1
      → TakesProfile profile s1 s2
      → Takes portal s2 s3
      → IsNewProfile s0 s3 profile
  new_profile none user portal s0 s1 s2 s3 h k l = tt
  new_profile (some lane) user portal s0 s1 s2 s3 h k l = (
    Takes-free user s0 s1 lane.key h k.free,
    Takes-keeps portal s2 s3 lane.key lane.token l (Takes-own lane s1 s2 k),
  )

  IsLeased-Takes :
      (profile : Option Lane) (user portal : Lane) (s0 s1 s2 s3 : redis.Store)
      → Takes user s0 s1
      → TakesProfile profile s1 s2
      → Takes portal s2 s3
      → IsLeased s0 s3 (record { user = user; profile = profile; portal = portal })
  unfolding release_lanes
  IsLeased-Takes profile user portal s0 s1 s2 s3 h k l = record {
    user = (
      h.free,
      Takes-keeps portal s2 s3 user.key user.token l
          (TakesProfile-keeps profile s1 s2 user.key user.token k (Takes-own user s0 s1 h)),
    );
    profile = new_profile profile user portal s0 s1 s2 s3 h k l;
    portal = (
      Takes-free user s0 s1 portal.key h (TakesProfile-free profile s1 s2 portal.key k l.free),
      Takes-own portal s2 s3 l,
    );
    restored = release_lane-Takes user s0 s1 _ h (
        release_profile-Takes profile s1 s2 _ k
          (release_lane-Takes portal s2 s3 s3 l (λ key. refl)));
  }

  module _ (decimal : ℕ → String) (tokens : Tokens) (job : ApplyJobData) where
    abbrev pub profile_lane : Option BrowserSession → Option Lane
    profile_lane none = none
    profile_lane (some session) =
        some (record { key = profile_key redis decimal tokens job session; token = tokens.profile })

    abbrev pub portal_lane : Lane
    portal_lane = record { key = portal_key redis decimal tokens job; token = tokens.portal }

    -- The lane of a slot from `first` on, `left` of them.
    pub record IsSlot (first left : ℕ) (lane : Lane) : Type 0 where
      pub slot : ℕ
      pub from : first ≤ slot
      pub below : slot < first + left
      pub is :
          lane ≡ record { key = user_key redis decimal tokens job slot; token = tokens.user slot }

    -- The leases that a job needs: a slot of the user, the profile of the session, and the portal.
    pub record IsFor (limit : ℕ) (session : Option BrowserSession) (lanes : ApplicationLanes)
        : Type 0 where
      pub user : IsSlot 0 limit lanes.user
      pub profile : lanes.profile ≡ profile_lane session
      pub portal : lanes.portal ≡ portal_lane

    abbrev pub IsAllOrNothing :
        ℕ → Option BrowserSession → redis.Store → Option ApplicationLanes × redis.Store → Type 0
    IsAllOrNothing limit session s (none, t) = IsSame s t
    IsAllOrNothing limit session s (some lanes, t) = IsLeased s t lanes × IsFor limit session lanes

    with_portal-IsAllOrNothing :
        (limit : ℕ) (session : Option BrowserSession) (user : Lane) (s0 s1 s2 : redis.Store)
        → IsSlot 0 limit user
        → Takes user s0 s1
        → TakesProfile (profile_lane session) s1 s2
        → IsAllOrNothing limit session s0
            (with_portal redis decimal tokens job user (profile_lane session) s2)
    unfolding with_portal
    with_portal-IsAllOrNothing limit session user s0 s1 s2 own h k =
        elim (acquire_lane-cases (portal_key redis decimal tokens job) tokens.portal s2) [
          | inl busy ↦ rw busy (
              release_lane-Takes user s0 s1 _ h
                (release_profile-Takes (profile_lane session) s1 s2 s2 k (λ key. refl)))
          | inr (t, done, l) ↦ rw done (
            IsLeased-Takes (profile_lane session) user _ s0 s1 s2 t h k l,
            record { user = own; profile = refl; portal = refl },
          )
        ]

    with_profile-IsAllOrNothing :
        (limit : ℕ) (session : Option BrowserSession) (user : Lane) (s0 s1 : redis.Store)
        → IsSlot 0 limit user
        → Takes user s0 s1
        → IsAllOrNothing limit session s0 (with_profile redis decimal tokens job session user s1)
    unfolding with_profile
    with_profile-IsAllOrNothing limit none user s0 s1 own h =
        with_portal-IsAllOrNothing limit none user s0 s1 s1 own h refl
    with_profile-IsAllOrNothing limit (some session) user s0 s1 own h =
        elim (acquire_lane-cases (profile_key redis decimal tokens job session) tokens.profile s1) [
          | inl busy ↦ rw busy (release_lane-Takes user s0 s1 s1 h (λ key. refl))
          | inr (t, done, k) ↦
              rw done (with_portal-IsAllOrNothing limit (some session) user s0 s1 t own h k)
        ]

    -- A user's lane is the first free one of the slots, or there is none.
    pub user_lane-cases :
        (left slot : ℕ) (s : redis.Store)
        → (user_lane redis decimal tokens job left slot s ≡ (none, s))
          ⊎ ((lane : Lane) × (t : redis.Store) × (user_lane redis decimal tokens job left slot s
                ≡ (some lane, t))
              × Takes lane s t
              × IsSlot slot left lane)
    unfolding user_lane
    user_lane-cases zero slot s = inl refl
    user_lane-cases (suc left) slot s =
        elim (acquire_lane-cases (user_key redis decimal tokens job slot) (tokens.user slot) s) [
          | inl busy ↦
              rw (user_lane, busy)
                (elim (user_lane-cases left (slot + 1) s) [
                  | inl all ↦ inl all
                  | inr (lane, t, done, h, own) ↦ inr (
                    lane,
                    t,
                    done,
                    h,
                    record {
                      slot = own.slot;
                      from = omega (arith, own.from);
                      below = omega (arith, own.below);
                      is = own.is;
                    },
                  )
                ])
          | inr (t, done, h) ↦ inr (
            _,
            t,
            rw done,
            h,
            record { slot = slot; from = omega arith; below = omega arith; is = refl },
          )
        ]

    -- While no other client writes, an application gets all the leases that it needs: one of the user's
    -- slots, the profile of the session if there is one, and the portal, each free before and each
    -- under its own token, and giving them back restores every key; or it gets none and every key
    -- is as it was.
    pub acquire_application_lanes-IsAllOrNothing :
        (configured : ℕ) (session : Option BrowserSession) (s : redis.Store)
        → IsAllOrNothing
            (effective_concurrency configured (is_session session))
            session
            s
            (acquire_application_lanes redis decimal tokens job configured session s)
    unfolding acquire_application_lanes
    acquire_application_lanes-IsAllOrNothing configured session s =
        let limit = effective_concurrency configured (is_session session) in
        elim (user_lane-cases limit 0 s) [
          | inl busy ↦ rw busy (λ key. refl)
          | inr (user, t, done, h, own) ↦
              rw done (with_profile-IsAllOrNothing limit session user s t own h)
        ]
