-- ===== src/Examples/Dispatch.antt =====
-- A queue server as a list of jobs, none of which has started.
use job_hunters_api.Common.{
  ℕ, ◌≡◌, refl, Bool, not, ◌&&◌, Option, none, some, List, [], ◌∷◌, any, filter, arith,
}
use job_hunters_api.Queue.Store.{CandidateStatus, Candidate}
use job_hunters_api.Queue.Dispatch.{
  JobId, of_dispatch, of_candidate, is_same_job, JobState, Intent, BullQueue, IsBullQueue,
  Publishing, dispatch_pending_applications, remove_waiting_application,
}
use job_hunters_api.Queue.Dispatch.Delivered.{IsDelivered, dispatch_pending-IsDelivered}
use job_hunters_api.Queue.Dispatch.Removed.{IsWithdrawn, remove_waiting-IsRemoved}

abbrev has_job : JobId → List JobId → Bool
has_job id jobs = any (λ j. is_same_job j id) jobs

abbrev listed : BullQueue
listed = record {
  Jobs = List JobId;
  has = has_job;
  state = λ id jobs. JobState.waiting;
  add = λ id jobs. some (id ∷ jobs);
  remove = λ id jobs. some (filter (λ j. not (is_same_job id j)) jobs);
}

-- The same job as another, and not as a third.
same_job_trans :
    (id j other : JobId)
    → (not (is_same_job id j) && is_same_job j other)
      ≡ (not (is_same_job id other) && is_same_job j other)
same_job_trans (of_dispatch a) (of_dispatch c) (of_dispatch e) = ground arith
same_job_trans (of_dispatch a) (of_dispatch c) (of_candidate e) = ground arith
same_job_trans (of_dispatch a) (of_candidate c) (of_dispatch e) = ground arith
same_job_trans (of_dispatch a) (of_candidate c) (of_candidate e) = ground arith
same_job_trans (of_candidate a) (of_dispatch c) (of_dispatch e) = ground arith
same_job_trans (of_candidate a) (of_dispatch c) (of_candidate e) = ground arith
same_job_trans (of_candidate a) (of_candidate c) (of_dispatch e) = ground arith
same_job_trans (of_candidate a) (of_candidate c) (of_candidate e) = ground arith

has_job-filter :
    (id other : JobId) (jobs : List JobId)
    → has_job other (filter (λ j. not (is_same_job id j)) jobs)
      ≡ (not (is_same_job id other) && has_job other jobs)
has_job-filter id other [] = ground arith
has_job-filter id other (j ∷ jobs) =
    ground (arith, same_job_trans id j other, has_job-filter id other jobs)

listed-IsBullQueue : IsBullQueue listed
listed-IsBullQueue = record {
  added = λ id q r other e. let same : id ∷ q ≡ r = cc in rw (← same) refl;
  removed = λ id q r other e.
      let same : filter (λ j. not (is_same_job id j)) q ≡ r = cc in
      rw (← same) (has_job-filter id other q);
}

abbrev intent : ℕ → ℕ → Option ℕ → Intent
intent id candidate_id cancelled_at = record {
  dispatch = record { id = id; candidate_id = candidate_id; cancelled_at = cancelled_at };
  created_at = 10;
  delivered_at = none;
}

abbrev queued_candidate : ℕ → Candidate
queued_candidate id = record {
  id = id;
  run_id = 1;
  job_id = id;
  portal = "lever";
  apply_url = "https://jobs.lever.co/1";
  status = CandidateStatus.queued;
}

abbrev no_attempt : ℕ → Option ℕ
no_attempt candidate_id = none

abbrev two_intents : Publishing listed
two_intents = record {
  intents = intent 1 5 none ∷ intent 2 6 (some 20) ∷ [];
  cursor = none;
  jobs = [];
}

one_published :
    (dispatch_pending_applications listed 30 no_attempt
      (queued_candidate 5 ∷ queued_candidate 6 ∷ [])
      two_intents).1.jobs
    ≡ of_dispatch 1 ∷ []
unfolding dispatch_pending_applications
one_published = refl

dispatch_pending-IsDelivered_example :
    IsDelivered listed listed-IsBullQueue no_attempt
      (queued_candidate 5 ∷ queued_candidate 6 ∷ [])
      two_intents
      (dispatch_pending_applications listed 30 no_attempt
        (queued_candidate 5 ∷ queued_candidate 6 ∷ [])
        two_intents)
dispatch_pending-IsDelivered_example =
    dispatch_pending-IsDelivered listed listed-IsBullQueue no_attempt
      (queued_candidate 5 ∷ queued_candidate 6 ∷ []) 30 two_intents

remove_waiting-IsRemoved_example :
    IsWithdrawn listed listed-IsBullQueue 5 two_intents.intents
      (of_dispatch 1 ∷ of_dispatch 2 ∷ [])
      (remove_waiting_application listed 5 two_intents.intents (of_dispatch 1 ∷ of_dispatch 2 ∷ []))
remove_waiting-IsRemoved_example =
    remove_waiting-IsRemoved listed listed-IsBullQueue 5 two_intents.intents
      (of_dispatch 1 ∷ of_dispatch 2 ∷ [])
