-- ===== src/Queue/Store/Actions.antt =====
-- What changes a queued application afterwards: `cancelApplication` and `retryApplication` of
-- src/modules/applications/actions.ts, and the claim by the worker of src/hunt/application-queue.ts.
-- `none` is an error that rolls the transaction back. The queue server answers through arguments:
-- `removable`, that it removed every waiting job of the candidate; `in_queue`, that it still has
-- one; `lease`, that the lease of the approval held throughout.
use job_hunters_api.Common.{
  update_where, ℕ, ◌+◌, ◌==◌, Bool, true, false, not, ◌&&◌, Option, none, some, List, [], ◌∷◌, ◌++◌,
  map, any, find, if◌then◌else◌,
}
use job_hunters_api.Queue.Policy.{
  ApplicationStatus, Attempt, AttemptEvent, Refusal, safe_retry_reason,
}
use job_hunters_api.Queue.Store.{
  CandidateStatus, RunStatus, RunJobStatus, Candidate, Application, Dispatch, Store, is_reserved,
  daily_start, budget, is_closed,
}
use job_hunters_api.Queue.Store.Enqueue.{set_status, is_run_job}

abbrev pub is_queued : ApplicationStatus → Bool
is_queued ApplicationStatus.queued = true
is_queued _ = false

abbrev pub is_waiting : CandidateStatus → Bool
is_waiting CandidateStatus.approved = true
is_waiting CandidateStatus.queued = true
is_waiting CandidateStatus.tailored = true
is_waiting _ = false

abbrev pub is_rejected : CandidateStatus → Bool
is_rejected CandidateStatus.rejected = true
is_rejected _ = false

abbrev pub is_candidate : ℕ → Candidate → Bool
is_candidate id c = c.id == id

-- `ownedApplication`.
abbrev pub candidate_of : Application → List Candidate → Option Candidate
candidate_of app cs = find (λ c. (c.job_id == app.job_id) && (c.run_id == app.run_id)) cs

abbrev pub cancel_dispatches : ℕ → ℕ → Dispatch → Dispatch
cancel_dispatches now candidate_id d =
    if d.candidate_id == candidate_id then record d { cancelled_at = some now } else d

abbrev pub cancel_rows : ℕ → Application → Candidate → Store → Store
cancel_rows now app c s = record s {
  candidates = update_where (is_candidate c.id) (set_status CandidateStatus.rejected) s.candidates;
  dispatches = map (cancel_dispatches now c.id) s.dispatches;
  run_jobs =
      update_where (is_run_job c.run_id (c.job_id ∷ []))
        (λ j. record j { status = RunJobStatus.rejected }) s.run_jobs;
  applications =
      update_where (λ a. a.id == app.id)
        (λ a. record a { status = ApplicationStatus.closed; cancelled_note = true }) s.applications;
  events = s.events ++ (app.id, ApplicationStatus.closed) ∷ [];
}

abbrev pub cancel_found : ℕ → Bool → Application → Option Candidate → Store → Option Store
cancel_found now removable app none s = none
cancel_found now removable app (some c) s =
    if is_closed app.status && is_rejected c.status
    then some s
    else if is_queued app.status && is_waiting c.status && removable
    then some (cancel_rows now app c s)
    else none

-- `cancelApplication`, of the application's row.
unfoldable pub cancel_application :
    (now : ℕ) (lease removable : Bool) → Application → Store → Option Store
cancel_application now lease removable app s =
    if lease then cancel_found now removable app (candidate_of app s.candidates) s else none

abbrev pub retry_rows : ℕ → Application → Candidate → Store → Store
retry_rows now app c s = record s {
  dispatches =
      map (cancel_dispatches now c.id) s.dispatches
      ++ record { id = s.next_id; candidate_id = c.id; cancelled_at = none } ∷ [];
  candidates = update_where (is_candidate c.id) (set_status CandidateStatus.queued) s.candidates;
  run_jobs =
      update_where (is_run_job c.run_id (c.job_id ∷ []))
        (λ j. record j { status = RunJobStatus.queued }) s.run_jobs;
  runs =
      update_where (λ r. r.id == c.run_id)
        (λ r. record r { status = RunStatus.applying; finished_at = none }) s.runs;
  applications =
      update_where (λ a. a.id == app.id)
        (λ a. record a { status = ApplicationStatus.queued; queued_at = now }) s.applications;
  events = s.events ++ (app.id, ApplicationStatus.queued) ∷ [];
  next_id = s.next_id + 1;
}

abbrev pub retry_within : ℕ → Application → Candidate → Store → Option Store
retry_within now app c s =
    if not (is_reserved (daily_start now) app) && ((budget now s).remaining == 0)
    then none
    else some (retry_rows now app c s)

abbrev pub retry_if : Option Refusal → Bool → ℕ → Application → Candidate → Store → Option Store
retry_if (some why) in_queue now app c s = none
retry_if none in_queue now app c s = if in_queue then none else retry_within now app c s

abbrev pub retry_found :
    ℕ
    → Bool
    → List Attempt
    → List AttemptEvent
    → Bool
    → Application
    → Option Candidate
    → Store
    → Option Store
retry_found now in_queue attempts events confirmed app none s = none
retry_found now in_queue attempts events confirmed app (some c) s =
    retry_if (safe_retry_reason app.status attempts events confirmed) in_queue now app c s

-- `retryApplication`, of the application's row, its latest attempt and that attempt's events.
unfoldable pub retry_application :
    (now : ℕ) (lease in_queue : Bool)
    → List Attempt
    → List AttemptEvent
    → (confirmed : Bool) → Application
    → Store
    → Option Store
retry_application now lease in_queue attempts events confirmed app s =
    if lease
    then retry_found now in_queue attempts events confirmed app (candidate_of app s.candidates) s
    else none

abbrev pub is_claimable : CandidateStatus → Bool
is_claimable CandidateStatus.queued = true
is_claimable CandidateStatus.tailored = true
is_claimable _ = false

abbrev pub is_live : Option ℕ → Bool
is_live none = true
is_live (some at) = false

abbrev pub has_live_dispatch : Option ℕ → ℕ → List Dispatch → Bool
has_live_dispatch (some id) candidate_id ds = any (λ d. (d.id == id) && is_live d.cancelled_at) ds
has_live_dispatch none candidate_id ds = not (any (λ d. d.candidate_id == candidate_id) ds)

abbrev pub can_claim : Option ℕ → ℕ → Store → Candidate → Bool
can_claim dispatch_id candidate_id s c =
    is_candidate candidate_id c
    && is_claimable c.status
    && has_live_dispatch dispatch_id candidate_id s.dispatches

-- The worker's claim: whether a row was updated, and the store after it.
unfoldable pub claim : (dispatch_id : Option ℕ) (candidate_id : ℕ) → Store → Bool × Store
claim dispatch_id candidate_id s =
    let test = can_claim dispatch_id candidate_id s in
    (
      any test s.candidates,
      record s {
        candidates = update_where test (set_status CandidateStatus.applying) s.candidates;
      },
    )
