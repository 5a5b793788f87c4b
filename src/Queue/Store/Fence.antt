-- ===== src/Queue/Store/Fence.antt =====
-- The fence of the claim in src/hunt/application-queue.ts: a dispatch that a retry replaced never
-- starts the candidate.
use job_hunters_api.Common.{
  ℕ, ◌<◌, ◌≡◌, refl, subst, Bool, true, false, Bool-cases, inl, inr, not, ◌&&◌, Option, none, some,
  List, [], ◌∷◌, ◌++◌, map, any, arith, ◌==◌, All,
}
use job_hunters_api.Queue.Policy.{Attempt, AttemptEvent, Refusal, safe_retry_reason}
use job_hunters_api.Queue.Store.{
  Candidate, Application, Dispatch, Store, is_reserved, daily_start, budget,
}
use job_hunters_api.Queue.Store.Actions.{
  candidate_of, cancel_dispatches, is_live, has_live_dispatch, can_claim, claim, retry_application,
  retry_if, retry_within, retry_rows,
}

store_inj : (s t : Store) → some s ≡ some t → s ≡ t
store_inj s t e = cc

-- What a retry that goes through has written.
retry-retry_rows :
    (now : ℕ) (in_queue : Bool) (attempts : List Attempt) (events : List AttemptEvent)
    (confirmed : Bool) (app : Application) (c : Candidate) (s after : Store)
    → candidate_of app s.candidates ≡ some c
    → retry_application now true in_queue attempts events confirmed app s ≡ some after
    → retry_rows now app c s ≡ after
unfolding retry_application
retry-retry_rows now in_queue attempts events confirmed app c s after found e =
    allowed (safe_retry_reason app.status attempts events confirmed) (rw found at e)
  where
    within : retry_within now app c s ≡ some after → retry_rows now app c s ≡ after
    within k =
        elim (Bool-cases
          (not (is_reserved (daily_start now) app) && ((budget now s).remaining == 0))) [
            | inl full ↦ absurd (ground (arith, k))
            | inr room ↦ store_inj _ after (rw room at k)
          ]

    allowed :
        (refusal : Option Refusal)
        → retry_if refusal in_queue now app c s ≡ some after
        → retry_rows now app c s ≡ after
    allowed (some why) k = cc
    allowed none k = elim (Bool-cases in_queue) [
      | inl queued ↦ absurd (ground (arith, k))
      | inr gone ↦ within (rw gone at k)
    ]

none_live :
    (now cid old fresh : ℕ) (ds : List Dispatch)
    → old < fresh
    → All (λ d. d.id ≡ old → d.candidate_id ≡ cid) ds
    → any
        (λ d. (d.id == old) && is_live d.cancelled_at)
        (map (cancel_dispatches now cid) ds
          ++ record { id = fresh; candidate_id = cid; cancelled_at = none } ∷ [])
      ≡ false
none_live now cid old fresh [] lt h = ground arith
none_live now cid old fresh (d ∷ ds) lt (own, h) =
    ground (arith, own, none_live now cid old fresh ds lt h)

none_claimed :
    (old cid : ℕ) (s : Store) (cs : List Candidate)
    → has_live_dispatch (some old) cid s.dispatches ≡ false
    → any (can_claim (some old) cid s) cs ≡ false
none_claimed old cid s [] h = refl
none_claimed old cid s (c ∷ cs) h = ground (arith, h, none_claimed old cid s cs h)

-- After a retry of an application, no dispatch of its candidate from before the retry claims the
-- candidate: a job that was published late does nothing.
pub retry-claim :
    (now : ℕ) (in_queue : Bool) (attempts : List Attempt) (events : List AttemptEvent)
    (confirmed : Bool) (app : Application) (c : Candidate) (s after : Store) (old : ℕ)
    → candidate_of app s.candidates ≡ some c
    → retry_application now true in_queue attempts events confirmed app s ≡ some after
    → old < s.next_id
    → All (λ d. d.id ≡ old → d.candidate_id ≡ c.id) s.dispatches
    → (claim (some old) c.id after).0 ≡ false
unfolding claim
retry-claim now in_queue attempts events confirmed app c s after old found e lt own =
    let written = retry-retry_rows now in_queue attempts events confirmed app c s after found e in
    subst (λ t. any (can_claim (some old) c.id t) t.candidates ≡ false) written
      (none_claimed old c.id (retry_rows now app c s) (retry_rows now app c s).candidates
        (none_live now c.id old s.next_id s.dispatches lt own))
