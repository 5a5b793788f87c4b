-- ===== src/Queue/Store/Enqueue.antt =====
-- `enqueueApprovedCandidates` of src/hunt/application-queue.ts: the transaction that turns selected
-- candidates into queued applications with dispatches. `none` is a rolled back transaction: the
-- lease of the approval is lost before or after the writes (`lease`), or the run is gone.
-- `is_aggregator` is the test by the regular expression of src/modules/dashboard/job-policy.ts.
use Prim.Native.String.{String}
use job_hunters_api.Common.{
  update_where, ℕ, suc, ◌+◌, min, ◌==◌, Bool, true, false, not, ◌&&◌, Option, none, some, List, [],
  ◌∷◌, ◌++◌, map, any, filter, find, length, ltb, if◌then◌else◌,
}
use job_hunters_api.Common.Sort.{sort_asc}
use job_hunters_api.Queue.Policy.{ApplicationStatus}
use job_hunters_api.Queue.Order.{plan_application_order}
use job_hunters_api.Queue.Store.{
  CandidateStatus, RunStatus, RunJobStatus, Candidate, Application, RunJob, Run, Store, budget,
  in_array,
}

abbrev pub is_selectable : CandidateStatus → Bool
is_selectable CandidateStatus.discovered = true
is_selectable CandidateStatus.rejected = true
is_selectable CandidateStatus.approved = true
is_selectable _ = false

abbrev pub is_approved : CandidateStatus → Bool
is_approved CandidateStatus.approved = true
is_approved _ = false

abbrev pub has_application : Store → ℕ → Bool
has_application s job_id = any (λ a. a.job_id == job_id) s.applications

-- `order.get(id) ?? 0`, where the last of equal ids counts.
pub order_of : ℕ → ℕ → ℕ → List ℕ → ℕ
order_of found index id [] = found
order_of found index id (x ∷ ids) = order_of (if x == id then index else found) (suc index) id ids

abbrev pub selected_rows : ℕ → List ℕ → Store → List Candidate
selected_rows run_id ids s =
    filter
      (λ c.
        (c.run_id == run_id)
        && in_array c.id ids
        && is_selectable c.status
        && not (has_application s c.job_id))
      s.candidates

abbrev ids_of : List Candidate → List ℕ
ids_of cs = map (λ c. c.id) cs

abbrev pub jobs_of : List Candidate → List ℕ
jobs_of cs = map (λ c. c.job_id) cs

abbrev pub set_status : CandidateStatus → Candidate → Candidate
set_status status c = record c { status = status }

abbrev pub is_run_job : ℕ → List ℕ → RunJob → Bool
is_run_job run_id job_ids j = (j.run_id == run_id) && in_array j.job_id job_ids

abbrev pub set_aside : ℕ → List Candidate → Store → Store
set_aside run_id unavailable s = record s {
  candidates =
      update_where (λ c. in_array c.id (ids_of unavailable))
        (set_status CandidateStatus.needs_review) s.candidates;
  run_jobs =
      update_where (is_run_job run_id (jobs_of unavailable))
        (λ j. record j { status = RunJobStatus.needs_review; no_applyable_url = true }) s.run_jobs;
}

-- The application with the n-th fresh id.
abbrev pub new_application : ℕ → ℕ → ℕ → Candidate → Application
new_application now run_id id c = record {
  id = id;
  job_id = c.job_id;
  run_id = run_id;
  status = ApplicationStatus.queued;
  queued_at = now;
  cancelled_note = false;
}

-- `insert … on conflict do nothing`, under the unique index on the user and the job.
unfoldable pub insert_applications : ℕ → ℕ → List Candidate → Store → Store
insert_applications now run_id [] s = s
insert_applications now run_id (c ∷ cs) s = insert_applications now run_id cs (
    if has_application s c.job_id then s else record s {
      applications = s.applications ++ new_application now run_id s.next_id c ∷ [];
      next_id = s.next_id + 1;
    })

unfoldable pub insert_dispatches : List Candidate → Store → Store
insert_dispatches [] s = s
insert_dispatches (c ∷ cs) s = insert_dispatches cs (record s {
  dispatches =
      s.dispatches ++ record { id = s.next_id; candidate_id = c.id; cancelled_at = none } ∷ [];
  next_id = s.next_id + 1;
})

abbrev pub insert_events : List Candidate → Store → Store
insert_events ordered s = record s {
  events =
      s.events
      ++ map (λ a. (a.id, ApplicationStatus.queued))
          (filter (λ a. in_array a.job_id (jobs_of ordered)) s.applications);
}

-- `coalesce(eligibility_status, 'eligible')`.
abbrev eligibility_or : Option RunJobStatus → RunJobStatus
eligibility_or none = RunJobStatus.eligible
eligibility_or (some status) = status

-- The updates from the candidates' to the run's.
abbrev pub mark_queued : ℕ → ℕ → List Candidate → List Candidate → Store → Store
mark_queued now run_id applyable ordered s =
    let dropped = filter (λ c. not (in_array c.id (ids_of ordered))) applyable in
    record s {
      candidates =
          update_where
            (λ c. in_array c.id (ids_of applyable) && not (in_array c.id (ids_of ordered)))
            (set_status CandidateStatus.discovered)
            (update_where (λ c. in_array c.id (ids_of ordered)) (set_status CandidateStatus.queued)
              s.candidates);
      run_jobs =
          update_where (is_run_job run_id (jobs_of dropped))
            (λ j. record j { status = eligibility_or j.eligibility })
            (update_where (is_run_job run_id (jobs_of ordered))
              (λ j. record j { status = RunJobStatus.queued }) s.run_jobs);
      runs =
          update_where (λ r. r.id == run_id)
            (λ r. record r {
              status = RunStatus.applying;
              candidates_approved = length ordered;
              approved_at = some now;
            })
            s.runs;
    }

abbrev back_to_discovered : List ℕ → Store → Store
back_to_discovered ids s = record s {
  candidates =
      update_where (λ c. in_array c.id ids && is_approved c.status)
        (set_status CandidateStatus.discovered) s.candidates;
}

abbrev pub write_queue : ℕ → ℕ → List ℕ → List Candidate → List Candidate → Store → Store
write_queue now run_id ids applyable [] s = back_to_discovered ids s
write_queue now run_id ids applyable (c ∷ cs) s =
    let ordered = c ∷ cs in
    mark_queued now run_id applyable ordered
      (insert_events ordered (insert_dispatches ordered (insert_applications now run_id ordered s)))

-- The answer: what was queued, whether the allowance cut the batch, and the jobs set aside.
pub record Enqueued : Type 0 where
  pub queued : ℕ
  pub capped : Bool
  pub queued_job_ids : List ℕ
  pub skipped : List ℕ

module _ (is_aggregator : String → Bool) where
  abbrev pub enqueue_in_run : ℕ → Run → List ℕ → Store → Enqueued × Store
  enqueue_in_run now run ids s =
      let target = min run.target (budget now s).remaining in
      let selected = sort_asc (λ c. order_of 0 0 c.id ids) (selected_rows run.id ids s) in
      let unavailable = filter (λ c. is_aggregator c.apply_url) selected in
      let applyable = filter (λ c. not (is_aggregator c.apply_url)) selected in
      let ordered = plan_application_order (λ c. c.portal) applyable target in
      (
        record {
          queued = length ordered;
          capped = ltb (length ordered) (length applyable);
          queued_job_ids = jobs_of ordered;
          skipped = jobs_of unavailable;
        },
        write_queue now run.id ids applyable ordered (set_aside run.id unavailable s),
      )

  abbrev pub enqueue_found : ℕ → Option Run → List ℕ → Store → Option (Enqueued × Store)
  enqueue_found now none ids s = none
  enqueue_found now (some run) ids s = some (enqueue_in_run now run ids s)

  unfoldable pub enqueue_approved_candidates :
      (now : ℕ) (lease : Bool) (run_id : ℕ) (ids : List ℕ) → Store → Option (Enqueued × Store)
  unfolding order_of insert_applications insert_dispatches sort_asc plan_application_order
  enqueue_approved_candidates now lease run_id ids s =
      if lease then enqueue_found now (find (λ r. r.id == run_id) s.runs) ids s else none
