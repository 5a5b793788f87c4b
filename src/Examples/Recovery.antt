-- ===== src/Examples/Recovery.antt =====
-- Concrete recoveries of applications.
use job_hunters_api.Common.{
  update_where, ℕ, ◌==◌, ◌≡◌, refl, Bool, false, ◌&&◌, none, some, [], ◌∷◌, map, any, All,
}
use job_hunters_api.Queue.Policy.{AttemptStatus}
use job_hunters_api.Queue.Store.{CandidateStatus, RunStatus, Candidate, Run, Store}
use job_hunters_api.Queue.Store.Enqueue.{set_status}
use job_hunters_api.Queue.Recovery.{
  Tables, AttemptRow, is_in_progress, reconcile_interrupted_applications,
}
use job_hunters_api.Queue.Recovery.Pass.{is_lost, reconcile-update}
use job_hunters_api.Queue.Recovery.Settle.{reconcile-none_lost}

abbrev candidate : ℕ → CandidateStatus → Candidate
candidate id status = record {
  id = id;
  run_id = 1;
  job_id = id;
  portal = "lever";
  apply_url = "https://jobs.lever.co/1";
  status = status;
}

abbrev run : Run
run = record {
  id = 1;
  target = 5;
  status = RunStatus.applying;
  candidates_approved = 2;
  approved_at = some 10;
  finished_at = none;
}

abbrev attempt : AttemptRow
attempt = record {
  id = 7;
  candidate_id = 10;
  status = AttemptStatus.submitting;
  completed_at = none;
}

abbrev rows : Store
rows = record {
  candidates = candidate 10 CandidateStatus.applying ∷ candidate 11 CandidateStatus.queued ∷ [];
  applications = [];
  dispatches = record { id = 51; candidate_id = 11; cancelled_at = some 60 } ∷ [];
  run_jobs = [];
  runs = run ∷ [];
  events = [];
  daily_target = none;
  next_id = 100;
}

abbrev tables : Tables
tables = record {
  store = rows;
  attempts = attempt ∷ [];
  updated_at = λ id. 50;
  needs_review = λ id. 0;
}

-- The queue holds a job for candidate 11 only.
abbrev live : ℕ → ℕ → Bool
live run_id id = id == 11

reconcile_test : (reconcile_interrupted_applications live 1000 900 tables).1 ≡ 1
unfolding reconcile_interrupted_applications
reconcile_test = refl

abbrev second_attempt : AttemptRow
second_attempt = record attempt { id = 8 }

-- Of two open attempts of one candidate, a pass gives up the first only.
two_attempts_test :
    map
      (λ a. a.completed_at)
      (reconcile_interrupted_applications live 1000 900
        (record tables { attempts = attempt ∷ second_attempt ∷ [] })).0.attempts
    ≡ some 1000 ∷ none ∷ []
unfolding reconcile_interrupted_applications
two_attempts_test = refl

reconcile-update_example :
    (reconcile_interrupted_applications live 1000 900 tables).0.store.candidates
    ≡ update_where
        (λ c.
          is_in_progress c.status
          && any (λ x. (x.id == c.id) && is_lost live 900 tables x) rows.candidates)
        (set_status CandidateStatus.needs_review)
        rows.candidates
reconcile-update_example = reconcile-update live 1000 900 tables

reconcile-none_lost_example :
    All
      (λ c. is_lost live 900 tables c ≡ false)
      (reconcile_interrupted_applications live 1000 900 tables).0.store.candidates
reconcile-none_lost_example = reconcile-none_lost live 1000 900 tables
