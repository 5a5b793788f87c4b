-- ===== src/Queue/Approval.antt =====
-- src/hunt/approval.ts and src/hunt/approval-lock.ts: how a user's selection of jobs is queued, one
-- batch at a time.
--
-- `ready` is `applicationPreflight` on the portals of the batch, and `now` one instant for a call.
-- `lease` says of each run whether the lock was still held when its transaction asked. No other
-- request is taken to write between the queries of a batch and its transaction. The texts of the
-- errors are left out. A posting's portal and URL are those that the joins give.
pub mod Queued
pub mod Scraped
pub mod Outcome
pub mod Accounts
pub mod Answers
pub mod Within
use Prim.Native.String.{String, ◌++◌}
use job_hunters_api.Common.{
  ℕ, ◌==◌, Bool, true, false, not, ◌&&◌, Option, none, some, List, [], ◌∷◌, map, any, filter, find,
  length, take, if◌then◌else◌,
}
use job_hunters_api.Redis.{Redis}
use job_hunters_api.Queue.Lanes.{Lane, is_mine, release_lane}
use job_hunters_api.Queue.Selection.{is_reviewable}
use job_hunters_api.Queue.Store.{CandidateStatus, Candidate, Run, Store, in_array}
use job_hunters_api.Queue.Store.Enqueue.{Enqueued, enqueue_approved_candidates, has_application}

pub data Refused : Type 0 where
  not_configured not_ready no_resume missing_details already_queueing nothing_selected run_not_found
        still_discovering changed_meanwhile already_applied lease_lost jobs_not_found :
      Refused

pub data Result {ℓ} (A : Type ℓ) : Type ℓ where
  ok : A → Result A
  err : Refused → Result A

infixl 5 ◌>>=◌
abbrev pub ◌>>=◌ {ℓ κ} : {A : Type ℓ} {B : Type κ} → Result A → (A → Result B) → Result B
ok a >>= f = f a
err e >>= f = err e

abbrev pub guard : Bool → Refused → Result (Unit {0})
guard true e = ok tt
guard false e = err e

infixl 5 ◌>>◌
abbrev pub ◌>>◌ {ℓ} : {A : Type ℓ} → Result (Unit {0}) → Result A → Result A
m >> k = m >>= λ _. k

-- What `checkProfile` reads.
pub record Profile : Type 0 where
  pub queue_configured : Bool
  pub can_apply : Bool
  pub has_base_resume : Bool
  pub missing_required : List String

abbrev pub is_empty {ℓ} : {A : Type ℓ} → List A → Bool
is_empty [] = true
is_empty (x ∷ xs) = false

unfoldable pub check_profile : Profile → Result (Unit {0})
check_profile p = do
  guard p.queue_configured not_configured
  guard p.can_apply not_ready
  guard p.has_base_resume no_resume
  guard (is_empty p.missing_required) missing_details

-- `[...new Set(ids)]`.
dedup_from : List ℕ → List ℕ → List ℕ
dedup_from seen [] = []
dedup_from seen (id ∷ ids) =
    let rest = dedup_from (id ∷ seen) ids in if in_array id seen then rest else id ∷ rest

unfoldable pub unique_ids : List ℕ → List ℕ
unfolding dedup_from
unique_ids ids = take 100 (dedup_from [] ids)

-- `inArray(status, ['discovered', 'rejected'])`.
abbrev pub is_undecided : CandidateStatus → Bool
is_undecided CandidateStatus.discovered = true
is_undecided CandidateStatus.rejected = true
is_undecided _ = false

abbrev pub is_chosen : ℕ → List ℕ → Candidate → Bool
is_chosen run_id ids c = (c.run_id == run_id) && in_array c.id ids && is_undecided c.status

abbrev pub run_or : Option Run → Result Run
run_or none = err run_not_found
run_or (some run) = ok run

-- The answer of a batch: how many jobs were selected, and what the queue took of them.
pub record Approved : Type 0 where
  pub selected : ℕ
  pub enqueued : Enqueued

abbrev pub approved_with : ℕ → Option (Enqueued × Store) → Result (Approved × Store)
approved_with selected none = err lease_lost
approved_with selected (some (enqueued, s)) =
    ok (record { selected = selected; enqueued = enqueued }, s)

module _ (is_aggregator : String → Bool) (ready : List String → Bool) (now : ℕ) where
  abbrev pub approve_chosen : Bool → ℕ → List ℕ → List Candidate → Store → Result (Approved × Store)
  approve_chosen lease run_id ids chosen s = do
    guard (ready (map (λ c. c.portal) chosen)) not_ready
    guard (length chosen == length ids) changed_meanwhile
    guard (not (any (λ c. has_application s c.job_id) chosen)) already_applied
    approved_with (length ids) (enqueue_approved_candidates is_aggregator now lease run_id ids s)

  unfoldable pub approve_batch :
      (lease : Bool) (run_id : ℕ) (selected_ids : List ℕ) → Store → Result (Approved × Store)
  unfolding unique_ids
  approve_batch lease run_id selected_ids s =
      let ids = unique_ids selected_ids in
      do
        guard (not (is_empty ids)) nothing_selected
        run ← run_or (find (λ r. r.id == run_id) s.runs)
        guard (is_reviewable run.status) still_discovering
        approve_chosen lease run_id ids (filter (is_chosen run_id ids) s.candidates) s

-- `withApprovalLock`: one batch of a user at a time, and the lock is given back by its owner alone.
module _ (redis : Redis) where
  abbrev approval_key : String → String
  approval_key user_id = "huntly:approval:" ++ user_id

  abbrev locked_operation :
      {A : Type 0} (key token : String)
      → (redis.Store → Result A × redis.Store)
      → redis.Store
      → Option redis.Store
      → Result A × redis.Store
  locked_operation key token operation s none = (err already_queueing, s)
  locked_operation key token operation s (some t) =
      let (result, u) = operation t in
      (result, release_lane redis (record { key = key; token = token }) u)

  -- The checks come before the lock.
  abbrev pub checked :
      {A : Type 0}
      → Result (Unit {0})
      → Result A × redis.Store
      → redis.Store
      → Result A × redis.Store
  checked (ok u) locked s = locked
  checked (err e) locked s = (err e, s)

  unfoldable pub with_approval_lock :
      {A : Type 0} (user_id token : String)
      → (redis.Store → Result A × redis.Store)
      → redis.Store
      → Result A × redis.Store
  with_approval_lock user_id token operation s =
      let key = approval_key user_id in
      locked_operation key token operation s (redis.set_nx key token s)

  -- `assertApprovalLease`, inside the lock; `lost` is what the renewal timer has found.
  unfoldable assert_approval_lease :
      (lost : Bool) (user_id token : String) → redis.Store → Result (Unit {0})
  assert_approval_lease lost user_id token s =
      guard (not lost && is_mine redis token (redis.get (approval_key user_id) s)) lease_lost

  -- `approveDailyBatch`.
  unfoldable approve_daily_batch :
      (is_aggregator : String → Bool) (ready : List String → Bool) (now : ℕ) (p : Profile)
      (user_id token : String) (lease : Bool) (run_id : ℕ) (selected_ids : List ℕ)
      → Store
      → redis.Store
      → Result (Approved × Store) × redis.Store
  unfolding approve_batch check_profile with_approval_lock
  approve_daily_batch is_aggregator ready now p user_id token lease run_id selected_ids s t =
      checked (check_profile p)
        (with_approval_lock user_id token
          (λ u. (approve_batch is_aggregator ready now lease run_id selected_ids s, u)) t)
        t
