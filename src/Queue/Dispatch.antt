-- ===== src/Queue/Dispatch.antt =====
-- How the intents of src/hunt/application-queue.ts reach the queue server and leave it:
-- `dispatchPendingApplications`, `removeWaitingApplication`, and `flagApplication` of
-- src/modules/applications/actions.ts.
--
-- `BullQueue` is the server: `add` of a known id changes nothing, and `none` is a call that throws.
-- An intent is a dispatch with the columns that only this code reads. All are of this queue's name.
-- `newest_attempt` is the instant of the candidate's latest attempt.
pub mod Published
pub mod Delivered
pub mod Removed
use job_hunters_api.Common.{
  ℕ, zero, suc, ◌+◌, ◌==◌, Bool, true, false, not, ◌&&◌, ◌||◌, Option, none, some, List, [], ◌∷◌,
  ◌++◌, map, any, filter, length, take, ltb, leb, if◌then◌else◌, update_where, ◌≡◌,
}
use job_hunters_api.Common.Sort.{sort_asc}
use job_hunters_api.Queue.Store.{CandidateStatus, Candidate, Dispatch}

-- `dispatch-<id>`, and the `apply-<user>-<candidate>` of older jobs.
pub data JobId : Type 0 where
  of_dispatch : ℕ → JobId
  of_candidate : ℕ → JobId

abbrev pub is_same_job : JobId → JobId → Bool
is_same_job (of_dispatch a) (of_dispatch b) = a == b
is_same_job (of_candidate a) (of_candidate b) = a == b
is_same_job _ _ = false

pub data JobState : Type 0 where
  waiting delayed paused waiting_children completed failed active prioritized unknown : JobState

pub record Intent : Type 0 where
  pub dispatch : Dispatch
  pub created_at : ℕ
  pub delivered_at : Option ℕ

pub record BullQueue : Type 1 where
  pub Jobs : Type 0
  pub has : JobId → Jobs → Bool
  pub state : JobId → Jobs → JobState
  pub add : JobId → Jobs → Option Jobs
  pub remove : JobId → Jobs → Option Jobs

pub record IsBullQueue (b : BullQueue) : Type 0 where
  pub added :
      (id : JobId) (q r : b.Jobs) (other : JobId)
      → b.add id q ≡ some r
      → b.has other r ≡ (is_same_job id other || b.has other q)
  pub removed :
      (id : JobId) (q r : b.Jobs) (other : JobId)
      → b.remove id q ≡ some r
      → b.has other r ≡ (not (is_same_job id other) && b.has other q)

abbrev pub is_given : Option ℕ → Bool
is_given none = false
is_given (some at) = true

abbrev awaits_worker : CandidateStatus → Bool
awaits_worker CandidateStatus.queued = true
awaits_worker _ = false

abbrev is_queued_candidate : ℕ → Candidate → Bool
is_queued_candidate id c = (c.id == id) && awaits_worker c.status

abbrev has_attempt_since : ℕ → Option ℕ → Bool
has_attempt_since created_at none = false
has_attempt_since created_at (some at) = leb created_at at

-- The `runnable` of the query.
abbrev pub is_runnable : (newest_attempt : ℕ → Option ℕ) → List Candidate → Intent → Bool
is_runnable newest_attempt candidates i =
    not (is_given i.dispatch.cancelled_at)
    && any (is_queued_candidate i.dispatch.candidate_id) candidates
    && not (has_attempt_since i.created_at (newest_attempt i.dispatch.candidate_id))

abbrev pub is_behind : Option ℕ → ℕ → Bool
is_behind none id = true
is_behind (some cursor) id = ltb cursor id

abbrev pub pending_rows : (Intent → Bool) → List Intent → List Intent
pending_rows runnable intents = take 200 (
    sort_asc (λ i. i.created_at)
      (filter (λ i. runnable i && not (is_given i.delivered_at)) intents))

abbrev pub recovery_rows : (Intent → Bool) → Option ℕ → List Intent → List Intent
recovery_rows runnable cursor intents = take 200 (
    sort_asc (λ i. i.dispatch.id)
      (filter (λ i. runnable i && is_given i.delivered_at && is_behind cursor i.dispatch.id)
        intents))

pub last_id : Option ℕ → List Intent → Option ℕ
last_id id [] = id
last_id id (i ∷ is) = last_id (some i.dispatch.id) is

module _ (b : BullQueue) where
  pub record Publishing : Type 0 where
    pub intents : List Intent
    pub cursor : Option ℕ
    pub jobs : b.Jobs

  abbrev pub mark_delivered : ℕ → Intent → Publishing → Publishing
  mark_delivered now i p = record p {
    intents =
        update_where (λ x. x.dispatch.id == i.dispatch.id)
          (λ x. record x { delivered_at = some now }) p.intents;
  }

  -- The loop over the rows: whether it ran to its end.
  abbrev pub published :
      ℕ → Intent → Option b.Jobs → Publishing → (Publishing → Bool × Publishing) → Bool × Publishing
  published now i none p rest = (false, p)
  published now i (some jobs) p rest = rest (mark_delivered now i (record p { jobs = jobs }))

  pub publish : ℕ → List Intent → Publishing → Bool × Publishing
  publish now [] p = (true, p)
  publish now (i ∷ is) p =
      let rest = publish now is p in
      if is_given i.delivered_at && b.has (of_dispatch i.dispatch.id) p.jobs
      then rest
      else published now i (b.add (of_dispatch i.dispatch.id) p.jobs) p (publish now is)

  abbrev pub rows_of : (Intent → Bool) → Publishing → List Intent
  rows_of runnable p = pending_rows runnable p.intents ++ recovery_rows runnable p.cursor p.intents

  abbrev pub next_cursor : List Intent → Option ℕ
  next_cursor recovery = if length recovery == 200 then last_id none recovery else none

  unfoldable pub dispatch_pending_applications :
      (now : ℕ) (newest_attempt : ℕ → Option ℕ) → List Candidate → Publishing → Bool × Publishing
  unfolding publish sort_asc last_id
  dispatch_pending_applications now newest_attempt candidates p =
      let runnable = is_runnable newest_attempt candidates in
      publish now (rows_of runnable p)
        (record p { cursor = next_cursor (recovery_rows runnable p.cursor p.intents) })

  abbrev pub is_removable : JobState → Bool
  is_removable JobState.active = false
  is_removable JobState.prioritized = false
  is_removable JobState.unknown = false
  is_removable _ = true

  -- `false` is the conflict: the application has started.
  abbrev removed_or : Option b.Jobs → b.Jobs → (b.Jobs → Bool × b.Jobs) → Bool × b.Jobs
  removed_or none q rest = (false, q)
  removed_or (some r) q rest = rest r

  pub remove_jobs : List JobId → b.Jobs → Bool × b.Jobs
  remove_jobs [] q = (true, q)
  remove_jobs (id ∷ ids) q =
      let rest = remove_jobs ids q in
      let gone = removed_or (b.remove id q) q (remove_jobs ids) in
      if not (b.has id q) then rest else if is_removable (b.state id q) then gone else (false, q)

  abbrev pub jobs_of_candidate : ℕ → List Intent → List JobId
  jobs_of_candidate candidate_id intents =
      of_candidate candidate_id
      ∷ map (λ i. of_dispatch i.dispatch.id)
          (filter
            (λ i.
              (i.dispatch.candidate_id == candidate_id) && not (is_given i.dispatch.cancelled_at))
            intents)

  unfoldable pub remove_waiting_application :
      (candidate_id : ℕ) → List Intent → b.Jobs → Bool × b.Jobs
  unfolding remove_jobs
  remove_waiting_application candidate_id intents q =
      remove_jobs (jobs_of_candidate candidate_id intents) q
