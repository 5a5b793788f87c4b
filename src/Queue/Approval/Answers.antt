-- ===== src/Queue/Approval/Answers.antt =====
-- How a batch of src/hunt/approval.ts ends: every id that it takes is accounted for, or the error names
-- the reason.
use Prim.Native.String.{String}
use job_hunters_api.Common.{
  ℕ, ◌==◌, ◌≡◌, Bool, true, false, Option, none, some, List, map, any, find, length, All,
}
use job_hunters_api.Queue.Selection.{is_reviewable}
use job_hunters_api.Queue.Store.{Candidate, Run, Store}
use job_hunters_api.Queue.Store.Enqueue.{has_application}
use job_hunters_api.Queue.Approval.{
  Refused, not_ready, nothing_selected, run_not_found, still_discovering, changed_meanwhile,
  already_applied, lease_lost, Approved, is_empty, unique_ids,
}
use job_hunters_api.Queue.Approval.Queued.{is_queued_job}
use job_hunters_api.Queue.Approval.Accounts.{is_settled_row, chosen_rows}

module _ (is_aggregator : String → Bool) (ready : List String → Bool) (now : ℕ) where
  module _ (lease : Bool) (run_id : ℕ) (selected_ids : List ℕ) (s : Store) where
    abbrev ids : List ℕ
    ids = unique_ids selected_ids

    abbrev chosen : List Candidate
    chosen = chosen_rows run_id ids s

    abbrev run_found : Option Run
    run_found = find (λ r. r.id == run_id) s.runs

    -- Every one of the ids is a candidate of the run whose job is queued or set aside, unless the answer
    -- says that the batch was cut; and the store after has what it takes to be queued for each job that
    -- is called so.
    abbrev pub Answers : Approved → Store → Type 0
    Answers a after =
        All (λ id. any (is_settled_row run_id a.enqueued id) s.candidates ≡ true) ids
        × (a.selected ≡ length ids)
        × All (λ job_id. is_queued_job after job_id ≡ true) a.enqueued.queued_job_ids

    -- Each error, and what it means of the store.
    abbrev pub Explains : Refused → Type 0
    Explains nothing_selected = is_empty ids ≡ true
    Explains run_not_found = run_found ≡ none
    Explains still_discovering =
        (run : Run) × (run_found ≡ some run) × (is_reviewable run.status ≡ false)
    Explains not_ready = ready (map (λ c. c.portal) chosen) ≡ false
    Explains changed_meanwhile = (length chosen == length ids) ≡ false
    Explains already_applied = any (λ c. has_application s c.job_id) chosen ≡ true
    Explains lease_lost = lease ≡ false
    Explains _ = ⊥
