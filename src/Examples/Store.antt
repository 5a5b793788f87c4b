-- ===== src/Examples/Store.antt =====
-- src/hunt/application-queue.ts on one run with two candidates: a batch, a claim and a retry.
use Prim.Native.String.{String}
use text.Mathlib.Text.{◌==◌ as str_eq}
use job_hunters_api.Common.{
  arith, ℕ, ◌≤◌, ◌≡◌, refl, Bool, true, false, Option, none, some, [], ◌∷◌,
}
use job_hunters_api.Queue.Policy.{ApplicationStatus, daily_budget, safe_retry_reason}
use job_hunters_api.Queue.Order.{plan_application_order}
use job_hunters_api.Queue.Store.{
  CandidateStatus, RunStatus, Candidate, Application, Store, used_today,
}
use job_hunters_api.Queue.Store.Enqueue.{Enqueued, enqueue_approved_candidates}
use job_hunters_api.Queue.Store.Actions.{claim, retry_application}
use job_hunters_api.Queue.Store.Fence.{retry-claim}
use job_hunters_api.Queue.Store.Days.{Reach, here, next, enqueue, start}
use job_hunters_api.Queue.Store.Days.Allowed.{Reach-used_today-le}

abbrev is_aggregator : String → Bool
is_aggregator url = str_eq url "https://jooble.org/1"

abbrev candidate : ℕ → String → Candidate
candidate id url = record {
  id = id;
  run_id = 1;
  job_id = id;
  portal = "lever";
  apply_url = url;
  status = CandidateStatus.discovered;
}

abbrev empty_rows : Store
empty_rows = record {
  candidates = candidate 10 "https://jobs.lever.co/1" ∷ candidate 11 "https://jooble.org/1" ∷ [];
  applications = [];
  dispatches = [];
  run_jobs = [];
  runs =
      record {
        id = 1;
        target = 5;
        status = RunStatus.awaiting_approval;
        candidates_approved = 0;
        approved_at = none;
        finished_at = none;
      }
      ∷ [];
  events = [];
  daily_target = none;
  next_id = 100;
}

abbrev answered : Option (Enqueued × Store) → Enqueued × Store
answered none =
    (record { queued = 0; capped = false; queued_job_ids = []; skipped = [] }, empty_rows)
answered (some answer) = answer

abbrev batch : Option (Enqueued × Store)
batch = enqueue_approved_candidates is_aggregator 1000 true 1 (10 ∷ 11 ∷ []) empty_rows

batch_answer :
    batch
    ≡ some (
      record { queued = 1; capped = false; queued_job_ids = 10 ∷ []; skipped = 11 ∷ [] },
      (answered batch).1,
    )
unfolding enqueue_approved_candidates plan_application_order daily_budget used_today
batch_answer = refl

abbrev claimed : Store
claimed = (claim (some 101) 10 (answered batch).1).1

claimed_reached :
    Reach is_aggregator
      (record { now = 1000; store = empty_rows })
      (record { now = 1000; store = claimed })
claimed_reached =
    next (next here (enqueue 1000 empty_rows 1 (10 ∷ 11 ∷ []) _ (answered batch).1 batch_answer))
      (start 1000 (answered batch).1 (some 101) 10)

Reach-used_today-le_example : used_today 1000 claimed ≤ 100
Reach-used_today-le_example =
    Reach-used_today-le is_aggregator 1000 empty_rows (record { now = 1000; store = claimed }) refl
      claimed_reached

claimed_count : used_today 1000 claimed ≡ 1
unfolding enqueue_approved_candidates plan_application_order daily_budget used_today claim
claimed_count = refl

-- An application that failed before any attempt, with its first dispatch.
abbrev failed_application : Application
failed_application = record {
  id = 50;
  job_id = 10;
  run_id = 1;
  status = ApplicationStatus.failed;
  queued_at = 900;
  cancelled_note = false;
}

abbrev failed_rows : Store
failed_rows = record empty_rows {
  applications = failed_application ∷ [];
  dispatches = record { id = 51; candidate_id = 10; cancelled_at = none } ∷ [];
}

abbrev retried : Option Store
retried = retry_application 1000 true false [] [] false failed_application failed_rows

abbrev store_of : Option Store → Store
store_of none = empty_rows
store_of (some s) = s

retried_done : retried ≡ some (store_of retried)
unfolding retry_application safe_retry_reason daily_budget used_today
retried_done = refl

retry-claim_example : (claim (some 51) 10 (store_of retried)).0 ≡ false
retry-claim_example =
    retry-claim 1000 false [] [] false failed_application (candidate 10 "https://jobs.lever.co/1")
      failed_rows (store_of retried) 51 refl retried_done (omega arith) (λ e. refl, tt)

new_dispatch_claims : (claim (some 100) 10 (store_of retried)).0 ≡ true
unfolding retry_application safe_retry_reason daily_budget used_today claim
new_dispatch_claims = refl
