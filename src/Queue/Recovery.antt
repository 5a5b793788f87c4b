-- ===== src/Queue/Recovery.antt =====
-- src/hunt/application-queue.ts: what becomes of applications whose worker stopped or whose job
-- failed, `reconcileInterruptedApplications`, `handleFailedApplicationJob`, `finishRunWhenSettled`,
-- and the worker that starts a job.
--
-- The columns that the store leaves out and that are read here stand beside it: the attempts, and by
-- id a candidate's `updatedAt` and a run's `applicationsNeedsReview`. Left out: the error texts, the
-- logs, the publishing of pending dispatches that a pass begins with, and the stop of a browser
-- session, which writes no row and whose errors are caught. The queue is `hunt-apply`, and so are all
-- dispatches. The queue server answers through `live`: whether an active job with a lock, or a waiting
-- or delayed one, is there for a candidate of a run.
pub mod Pass
pub mod Settle
pub mod Work
use job_hunters_api.Common.{
  update_where, ℕ, ◌+◌, ◌==◌, Bool, true, false, not, ◌&&◌, ◌||◌, Option, none, some, List, [], ◌∷◌,
  ◌++◌, map, any, find, count, filter, ltb, if◌then◌else◌,
}
use job_hunters_api.Queue.Policy.{ApplicationStatus, AttemptStatus}
use job_hunters_api.Queue.Store.{
  CandidateStatus, RunStatus, RunJobStatus, Candidate, Run, Store, in_array,
}
use job_hunters_api.Queue.Store.Enqueue.{set_status, is_run_job}
use job_hunters_api.Queue.Store.Actions.{is_queued, is_candidate}

pub record AttemptRow : Type 0 where
  pub id : ℕ
  pub candidate_id : ℕ
  pub status : AttemptStatus
  pub completed_at : Option ℕ

pub record Tables : Type 0 where
  pub store : Store
  pub attempts : List AttemptRow
  pub updated_at : ℕ → ℕ
  pub needs_review : ℕ → ℕ

abbrev pub is_in_progress : CandidateStatus → Bool
is_in_progress CandidateStatus.queued = true
is_in_progress CandidateStatus.applying = true
is_in_progress _ = false

abbrev is_unsettled : CandidateStatus → Bool
is_unsettled CandidateStatus.approved = true
is_unsettled CandidateStatus.tailored = true
is_unsettled CandidateStatus.queued = true
is_unsettled CandidateStatus.applying = true
is_unsettled _ = false

abbrev pub is_open : AttemptStatus → Bool
is_open AttemptStatus.pending = true
is_open AttemptStatus.submitting = true
is_open _ = false

abbrev pub is_applying : RunStatus → Bool
is_applying RunStatus.applying = true
is_applying _ = false

abbrev pub set_at : ℕ → ℕ → (ℕ → ℕ) → ℕ → ℕ
set_at key value column other = if other == key then value else column other

abbrev pub active_in : ℕ → List Candidate → ℕ
active_in run_id cs = count (λ c. (c.run_id == run_id) && is_unsettled c.status) cs

abbrev pub complete_run : ℕ → Run → Run
complete_run now r = record r { status = RunStatus.completed; finished_at = some now }

unfoldable pub finish_run_when_settled : (now run_id : ℕ) → Tables → Tables
finish_run_when_settled now run_id t =
    if ltb 0 (active_in run_id t.store.candidates) then t else record t {
      store = record (t.store) {
        runs = update_where (λ r. r.id == run_id) (complete_run now) t.store.runs;
      };
    }

abbrev pub is_interrupted : ℕ → Candidate → Bool
is_interrupted id c = is_candidate id c && is_in_progress c.status

abbrev pub give_up_attempt : ℕ → AttemptRow → AttemptRow
give_up_attempt now a = record a { status = AttemptStatus.unknown; completed_at = some now }

-- The updates of the candidate's rows, but for its attempts.
abbrev review_rows : ℕ → Candidate → Tables → Tables
review_rows now c t = record t {
  updated_at = set_at c.id now t.updated_at;
  needs_review = set_at c.run_id (t.needs_review c.run_id + 1) t.needs_review;
  store = record (t.store) {
    candidates =
        update_where (is_interrupted c.id) (set_status CandidateStatus.needs_review)
          t.store.candidates;
    applications =
        update_where (λ a. (a.job_id == c.job_id) && is_queued a.status)
          (λ a. record a { status = ApplicationStatus.needs_review }) t.store.applications;
    run_jobs =
        update_where (is_run_job c.run_id (c.job_id ∷ []))
          (λ j. record j { status = RunJobStatus.needs_review }) t.store.run_jobs;
  };
}

-- A row of the join: a candidate, and one of its open attempts if it has any.
abbrev pub Row : Type 0
Row = Candidate × Option ℕ

abbrev pub with_attempts : Candidate → List AttemptRow → List Row
with_attempts c [] = (c, none) ∷ []
with_attempts c (a ∷ []) = (c, some a.id) ∷ []
with_attempts c (a ∷ b ∷ attempts) = (c, some a.id) ∷ with_attempts c (b ∷ attempts)

abbrev pub is_stale : (cutoff : ℕ) → Tables → Candidate → Bool
is_stale cutoff t c =
    any (λ r. (r.id == c.run_id) && is_applying r.status) t.store.runs
    && is_in_progress c.status
    && ltb (t.updated_at c.id) cutoff

abbrev pub join : List AttemptRow → List Candidate → List Row
join attempts [] = []
join attempts (c ∷ cs) =
    with_attempts c (filter (λ a. (a.candidate_id == c.id) && is_open a.status) attempts)
    ++ join attempts cs

abbrev pub stale_rows : ℕ → Tables → List Row
stale_rows cutoff t = join t.attempts (filter (is_stale cutoff t) t.store.candidates)

-- The variables of the loop.
pub record Repair : Type 0 where
  pub tables : Tables
  pub repaired_runs : List ℕ
  pub repaired : ℕ

abbrev pub give_up : ℕ → Option ℕ → List AttemptRow → List AttemptRow
give_up now none attempts = attempts
give_up now (some id) attempts = update_where (λ a. a.id == id) (give_up_attempt now) attempts

abbrev add_run : ℕ → List ℕ → List ℕ
add_run id ids = if in_array id ids then ids else ids ++ id ∷ []

module _ (live : (run_id candidate_id : ℕ) → Bool) where
  abbrev pub repair_row : ℕ → Row → Repair → Repair
  repair_row now (c, attempt) p =
      if live c.run_id c.id || not (any (is_interrupted c.id) p.tables.store.candidates)
      then p
      else record {
        tables = record (review_rows now c p.tables) {
          attempts = give_up now attempt p.tables.attempts;
        };
        repaired_runs = add_run c.run_id p.repaired_runs;
        repaired = p.repaired + 1;
      }

  pub repair_rows : ℕ → List Row → Repair → Repair
  repair_rows now [] p = p
  repair_rows now (row ∷ rows) p = repair_rows now rows (repair_row now row p)

  abbrev pub fail_run : ℕ → Run → Run
  fail_run now r = record r { status = RunStatus.failed; finished_at = some now }

  abbrev pub settle_run : ℕ → ℕ → Tables → Tables
  settle_run now run_id t =
      if active_in run_id t.store.candidates == 0
      then record t {
        store = record (t.store) {
          runs =
              update_where (λ r. (r.id == run_id) && is_applying r.status) (fail_run now)
                t.store.runs;
        };
      }
      else t

  pub settle_runs : ℕ → List ℕ → Tables → Tables
  settle_runs now [] t = t
  settle_runs now (id ∷ ids) t = settle_runs now ids (settle_run now id t)

  -- `reconcileInterruptedApplications`: the tables after it, and the number it returns.
  unfoldable pub reconcile_interrupted_applications : (now cutoff : ℕ) → Tables → Tables × ℕ
  unfolding repair_rows settle_runs
  reconcile_interrupted_applications now cutoff t =
      let p =
        repair_rows now (stale_rows cutoff t)
          (record { tables = t; repaired_runs = []; repaired = 0 }) in
      (settle_runs now p.repaired_runs p.tables, p.repaired)

-- `handleFailedApplicationJob`, of the candidate that the query finds.
abbrev pub fail_found : ℕ → Option Candidate → Tables → Tables
fail_found now none t = t
fail_found now (some c) t =
    let given_up = record t {
      attempts =
          update_where (λ a. (a.candidate_id == c.id) && is_open a.status) (give_up_attempt now)
            t.attempts;
    } in
    if any (is_interrupted c.id) t.store.candidates then review_rows now c given_up else given_up

unfoldable pub handle_failed_application_job : (now run_id candidate_id : ℕ) → Tables → Tables
unfolding finish_run_when_settled
handle_failed_application_job now run_id candidate_id t =
    finish_run_when_settled now run_id
      (fail_found now (find (is_candidate candidate_id) t.store.candidates) t)
