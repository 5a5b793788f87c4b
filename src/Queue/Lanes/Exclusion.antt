-- ===== src/Queue/Lanes/Exclusion.antt =====
-- While one application holds a portal's lease, `acquireApplicationLanes` of
-- src/hunt/application-queue.ts refuses every other application of the user to that portal.
use Prim.Native.String.{String}
use job_hunters_api.Common.{ℕ, ◌≡◌, ◌∙◌, sym, Option, none, some, inl, inr}
use job_hunters_api.Redis.{Redis, IsRedis}
use job_hunters_api.Queue.Policy.{effective_concurrency}
use job_hunters_api.Queue.Lanes.{
  Lane, ApplyJobData, BrowserSession, is_session, Tokens, profile_key, portal_key, with_portal,
  with_profile, acquire_application_lanes,
}
use job_hunters_api.Queue.Lanes.Laws.{Takes-keeps, acquire_lane-cases, user_lane-cases}

module _ (redis : Redis) (laws : IsRedis redis) where
  none_ne_some : (token : String) → none ≡ some token → ⊥
  none_ne_some token e = cc

  module _ (decimal : ℕ → String) (tokens : Tokens) (job : ApplyJobData) (owner : String) where
    with_portal_of_held :
        (user : Lane) (profile : Option Lane) (s : redis.Store)
        → redis.get (portal_key redis decimal tokens job) s ≡ some owner
        → (with_portal redis decimal tokens job user profile s).0 ≡ none
    unfolding with_portal
    with_portal_of_held user profile s held =
        elim (acquire_lane-cases redis laws (portal_key redis decimal tokens job) tokens.portal s) [
          | inl busy ↦ rw busy
          | inr (t, done, h) ↦ absurd (none_ne_some owner (sym h.free ∙ held))
        ]

    with_profile_of_held :
        (session : Option BrowserSession) (user : Lane) (s : redis.Store)
        → redis.get (portal_key redis decimal tokens job) s ≡ some owner
        → (with_profile redis decimal tokens job session user s).0 ≡ none
    unfolding with_profile
    with_profile_of_held none user s held = with_portal_of_held user none s held
    with_profile_of_held (some session) user s held =
        elim (acquire_lane-cases redis laws (profile_key redis decimal tokens job session)
          tokens.profile s) [
            | inl busy ↦ rw busy
            | inr (t, done, h) ↦ rw done (
                with_portal_of_held user (some _) t
                  (Takes-keeps redis laws _ s t (portal_key redis decimal tokens job) owner h held))
          ]

    -- Where any owner holds the lease of the user and the portal, no leases are given.
    acquire_application_lanes_of_held :
        (configured : ℕ) (session : Option BrowserSession) (s : redis.Store)
        → redis.get (portal_key redis decimal tokens job) s ≡ some owner
        → (acquire_application_lanes redis decimal tokens job configured session s).0 ≡ none
    unfolding acquire_application_lanes
    acquire_application_lanes_of_held configured session s held =
        elim (user_lane-cases redis laws decimal tokens job
          (effective_concurrency configured (is_session session)) 0 s) [
            | inl busy ↦ rw busy
            | inr (user, t, done, h, own) ↦ rw done (
                with_profile_of_held session user t (
                  Takes-keeps redis laws user s t (portal_key redis decimal tokens job) owner h
                    held))
          ]
