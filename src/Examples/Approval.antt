-- ===== src/Examples/Approval.antt =====
-- A hunt with a posting that can be applied to and one of an aggregator.
use Prim.Native.String.{String}
use text.Mathlib.Text.{◌==◌ as str_eq}
use job_hunters_api.Common.{ℕ, ◌≡◌, refl, Bool, true, false, none, List, [], ◌∷◌, arith}
use job_hunters_api.Queue.Policy.{daily_budget}
use job_hunters_api.Queue.Selection.{Wanted, selection_blocked_reason}
use job_hunters_api.Queue.Store.Enqueue.{enqueue_approved_candidates}
use job_hunters_api.Queue.Store.{
  CandidateStatus, RunStatus, RunJobStatus, Candidate, RunJob, Store, used_today,
}
use job_hunters_api.Queue.Approval.Scraped.{ScrapedAnswer, approve_scraped_jobs}
use job_hunters_api.Queue.Approval.Answers.{Answers}
use job_hunters_api.Queue.Approval.Within.{IsAllowed, approve_scraped_jobs-IsAllowed}
use job_hunters_api.Queue.Approval.{Result, ok, err}

abbrev from_aggregator : String → Bool
from_aggregator url = str_eq url "https://remoteok.com/9"

abbrev always_ready : List String → Bool
always_ready portals = true

abbrev posting : ℕ → String → RunJob
posting job_id url = record {
  run_id = 1;
  job_id = job_id;
  portal = "greenhouse";
  apply_url = url;
  status = RunJobStatus.eligible;
  eligibility = none;
  no_applyable_url = false;
}

abbrev candidate : ℕ → ℕ → String → Candidate
candidate id job_id url = record {
  id = id;
  run_id = 1;
  job_id = job_id;
  portal = "greenhouse";
  apply_url = url;
  status = CandidateStatus.discovered;
}

abbrev hunt : Store
hunt = record {
  candidates =
      candidate 11 7 "https://boards.greenhouse.io/7"
      ∷ candidate 12 9 "https://remoteok.com/9"
      ∷ [];
  applications = [];
  dispatches = [];
  run_jobs =
      posting 7 "https://boards.greenhouse.io/7"
      ∷ posting 9 "https://remoteok.com/9"
      ∷ posting 8 "https://jobs.lever.co/8"
      ∷ [];
  runs =
      record {
        id = 1;
        target = 10;
        status = RunStatus.awaiting_approval;
        candidates_approved = 0;
        approved_at = none;
        finished_at = none;
      }
      ∷ [];
  events = [];
  daily_target = none;
  next_id = 50;
}

abbrev lock_kept : ℕ → Bool
lock_kept run_id = true

hunt-IsAllowed : IsAllowed 86400000 hunt
unfolding used_today
hunt-IsAllowed = record {
  fresh = record { unique = λ id. omega arith; free = λ id le. refl };
  allowed = omega arith;
}

abbrev three_jobs : List Wanted
three_jobs =
    record { run_id = 1; job_id = 7 }
    ∷ record { run_id = 1; job_id = 8 }
    ∷ record { run_id = 1; job_id = 9 }
    ∷ []

approve_scraped_jobs-IsAllowed_example :
    IsAllowed 86400000
      (approve_scraped_jobs from_aggregator always_ready 86400000 lock_kept 3 three_jobs hunt).1
approve_scraped_jobs-IsAllowed_example =
    approve_scraped_jobs-IsAllowed from_aggregator always_ready 86400000 lock_kept 3 three_jobs hunt
      hunt-IsAllowed

abbrev queued_of : Result ScrapedAnswer × Store → List ℕ
queued_of (ok a, s) = a.queued_job_ids
queued_of (err e, s) = []

three_jobs_queued :
    queued_of
      (approve_scraped_jobs from_aggregator always_ready 86400000 lock_kept 3 three_jobs hunt)
    ≡ 7 ∷ 8 ∷ []
unfolding approve_scraped_jobs selection_blocked_reason enqueue_approved_candidates daily_budget
    used_today
three_jobs_queued = refl
