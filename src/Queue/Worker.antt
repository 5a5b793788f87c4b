-- ===== src/Queue/Worker.antt =====
-- The worker of src/hunt/application-queue.ts that processes one job, and what it does when the job
-- fails.
--
-- `flagged` says that the user has an open flag, and `lanes` that the lanes of the job were acquired.
-- `apply` is `applyApprovedCandidate`, which drives a browser; it is given the tables of its start and
-- ends with tables of its own. The release of the lanes writes no table.
use job_hunters_api.Common.{
  ℕ, Bool, true, false, not, ◌||◌, Option, none, some, find, if◌then◌else◌,
}
use job_hunters_api.Queue.Store.{Candidate, Store}
use job_hunters_api.Queue.Store.Actions.{is_candidate, is_claimable, claim}
use job_hunters_api.Queue.Recovery.{
  Tables, set_at, finish_run_when_settled, handle_failed_application_job,
}

pub data Applied : Type 0 where
  finished deferred threw : Tables → Applied

pub data JobEnd : Type 0 where
  returned delayed failed : JobEnd

abbrev pub is_failed : JobEnd → Bool
is_failed failed = true
is_failed _ = false

module _ (now run_id candidate_id : ℕ) (dispatch_id : Option ℕ) (flagged lanes : Bool)
    (apply : Tables → Applied) where
  abbrev after_apply : Applied → JobEnd × Tables
  after_apply (finished t) = (returned, finish_run_when_settled now run_id t)
  after_apply (deferred t) = (delayed, t)
  after_apply (threw t) = (failed, t)

  abbrev after_claim : Tables → Bool × Store → JobEnd × Tables
  after_claim t (false, s) = (returned, t)
  after_claim t (true, s) =
      after_apply
        (apply (record t { store = s; updated_at = set_at candidate_id now t.updated_at }))

  abbrev process_found : Option Candidate → Tables → JobEnd × Tables
  process_found none t = (returned, t)
  process_found (some c) t =
      if not (is_claimable c.status)
      then (returned, t)
      else if flagged || not lanes
      then (delayed, t)
      else after_claim t (claim dispatch_id candidate_id t.store)

  unfoldable pub process_job : Tables → JobEnd × Tables
  process_job t = process_found (find (is_candidate candidate_id) t.store.candidates) t

  -- With the handler of the worker's `failed` event.
  abbrev after_job : JobEnd × Tables → Tables
  after_job (returned, t) = t
  after_job (delayed, t) = t
  after_job (failed, t) = handle_failed_application_job now run_id candidate_id t
