-- ===== src/Queue/Approval/Scraped.antt =====
-- `approveScrapedJobs` of src/hunt/approval.ts: a selection over several hunts. It is checked as a
-- whole, becomes candidates, and is queued hunt by hunt.
use Prim.Native.String.{String}
use job_hunters_api.Common.{
  ℕ, ◌+◌, ◌==◌, Bool, true, false, ◌&&◌, ◌||◌, Option, none, some, List, [], ◌∷◌, ◌++◌, map, any,
  filter, find, length, take, if◌then◌else◌, update_where,
}
use job_hunters_api.Queue.Policy.{ApplicationStatus}
use job_hunters_api.Queue.Selection.{
  Wanted, OwnedRow, Blocked, selection_blocked_reason, eligibility_of, owned_job_selection,
}
use job_hunters_api.Queue.Store.{
  CandidateStatus, RunStatus, Candidate, Application, RunJob, Run, Store, in_array,
}
use job_hunters_api.Queue.Approval.{
  Refused, jobs_not_found, Result, ok, err, Approved, Profile, check_profile, checked,
  with_approval_lock, approve_batch,
}
use job_hunters_api.Redis.{Redis}

-- `[...new Map(input.map(r => [r.jobId, r])).values()]`: the first place of a job, the last request.
put_wanted : Wanted → List Wanted → List Wanted
put_wanted w [] = w ∷ []
put_wanted w (x ∷ xs) = if x.job_id == w.job_id then w ∷ xs else x ∷ put_wanted w xs

put_all_wanted : List Wanted → List Wanted → List Wanted
put_all_wanted requested [] = requested
put_all_wanted requested (w ∷ ws) = put_all_wanted (put_wanted w requested) ws

unfoldable pub requested_of : List Wanted → List Wanted
unfolding put_all_wanted put_wanted
requested_of input = take 100 (put_all_wanted [] input)

-- A row of the join: a posting of a hunt, with the user's candidate and application for it.
pub record Entry : Type 0 where
  pub row : RunJob
  pub run_status : RunStatus
  pub candidate : Option Candidate
  pub application_status : Option ApplicationStatus

abbrev status_of : Option Application → Option ApplicationStatus
status_of none = none
status_of (some a) = some a.status

-- `(run_id, job_id)` is a unique index of both tables, and `(user_id, job_id)` of the applications.
abbrev pub is_of_job : RunJob → Candidate → Bool
is_of_job row c = (c.run_id == row.run_id) && (c.job_id == row.job_id)

abbrev joined_with : Store → RunJob → Option Run → List Entry → List Entry
joined_with s row none entries = entries
joined_with s row (some run) entries =
    record {
      row = row;
      run_status = run.status;
      candidate = find (is_of_job row) s.candidates;
      application_status = status_of (find (λ a. a.job_id == row.job_id) s.applications);
    }
    ∷ entries

abbrev entries_from : Store → List RunJob → List Entry
entries_from s [] = []
entries_from s (row ∷ rows) =
    joined_with s row (find (λ r. r.id == row.run_id) s.runs) (entries_from s rows)

abbrev jobs_wanted : List Wanted → List ℕ
jobs_wanted requested = map (λ w. w.job_id) requested

abbrev pub entries_of : Store → List Wanted → List Entry
entries_of s requested =
    entries_from s (filter (λ row. in_array row.job_id (jobs_wanted requested)) s.run_jobs)

-- `ACTIVE_CANDIDATE_STATUSES.includes`.
abbrev is_active : CandidateStatus → Bool
is_active CandidateStatus.discovered = false
is_active CandidateStatus.rejected = false
is_active _ = true

abbrev has_active : Store → ℕ → Bool
has_active s job_id = any (λ c. (c.job_id == job_id) && is_active c.status) s.candidates

-- Why a job is not queued.
pub data SkipReason : Type 0 where
  blocked : Blocked → SkipReason
  no_application_url : SkipReason
  job_changed : SkipReason
  batch_failed : Refused → SkipReason

-- The ids to queue by hunt, in the order of insertion; and the jobs that are left out.
pub record Prepared : Type 0 where
  pub store : Store
  pub groups : List (ℕ × List ℕ)
  pub skipped : List (ℕ × SkipReason)

-- `groups.set(run, [...(groups.get(run) ?? []), id])`.
pub add_to_run : ℕ → ℕ → List (ℕ × List ℕ) → List (ℕ × List ℕ)
add_to_run run_id id [] = (run_id, id ∷ []) ∷ []
add_to_run run_id id ((r, ids) ∷ groups) =
    if r == run_id then (r, ids ++ id ∷ []) ∷ groups else (r, ids) ∷ add_to_run run_id id groups

abbrev is_there : Option Candidate → Bool
is_there none = false
is_there (some c) = true

abbrev pub set_eligibility : Entry → Store → Store
set_eligibility e s = record s {
  run_jobs =
      update_where (λ j. (j.run_id == e.row.run_id) && (j.job_id == e.row.job_id))
        (λ j. record j {
          eligibility = some (eligibility_of e.row.status e.row.eligibility (is_there e.candidate));
        })
        s.run_jobs;
}

-- `insert … on conflict do nothing returning id`.
abbrev insert_candidate : Entry → Store → Option ℕ × Store
insert_candidate e s = if any (is_of_job e.row) s.candidates then (none, s) else (
  some s.next_id,
  record s {
    candidates =
        s.candidates
        ++ record {
          id = s.next_id;
          run_id = e.row.run_id;
          job_id = e.row.job_id;
          portal = e.row.portal;
          apply_url = e.row.apply_url;
          status = CandidateStatus.discovered;
        }
          ∷ [];
    next_id = s.next_id + 1;
  },
)

abbrev pub candidate_id_of : Entry → Option Candidate → Store → Option ℕ × Store
candidate_id_of e (some c) s = (some c.id, s)
candidate_id_of e none s = insert_candidate e s

abbrev pub add_candidate : Entry → Prepared → Option ℕ × Store → Prepared
add_candidate e p (none, s) = record p {
  store = s;
  skipped = p.skipped ++ (e.row.job_id, job_changed) ∷ [];
}
add_candidate e p (some id, s) = record p {
  store = s;
  groups = add_to_run e.row.run_id id p.groups;
}

abbrev pub prepare_unless : Option Blocked → Entry → Prepared → Prepared
prepare_unless (some reason) e p = record p {
  skipped = p.skipped ++ (e.row.job_id, blocked reason) ∷ [];
}
prepare_unless none e p =
    add_candidate e p (candidate_id_of e e.candidate (set_eligibility e p.store))

-- One round of the loop over the selection; `s` is the store that the queries read.
abbrev pub prepare_entry : Store → Entry → Prepared → Prepared
prepare_entry s e p =
    prepare_unless
      (selection_blocked_reason (record {
        run_status = e.run_status;
        status = e.row.status;
        application_status = e.application_status;
        active_candidate = has_active s e.row.job_id;
        no_url = e.row.no_applyable_url;
      }))
      e p

unfoldable pub prepare : Store → List Entry → Prepared → Prepared
prepare s [] p = p
prepare s (e ∷ es) p = prepare s es (prepare_entry s e p)

-- The answer so far.
pub record Tally : Type 0 where
  pub store : Store
  pub queued_job_ids : List ℕ
  pub capped : Bool
  pub skipped : List (ℕ × SkipReason)

abbrev of_run : ℕ → List Entry → List (ℕ × SkipReason) → SkipReason → List (ℕ × SkipReason)
of_run run_id owned skipped reason =
    skipped ++ map (λ e. (e.row.job_id, reason)) (filter (λ e. e.row.run_id == run_id) owned)

-- The `try` and its `catch`, for one hunt.
abbrev pub tally_group : List Entry → ℕ → Result (Approved × Store) → Tally → Tally
tally_group owned run_id (ok (a, s)) t = record {
  store = s;
  queued_job_ids = t.queued_job_ids ++ a.enqueued.queued_job_ids;
  capped = t.capped || a.enqueued.capped;
  skipped = t.skipped ++ map (λ job_id. (job_id, no_application_url)) a.enqueued.skipped;
}
tally_group owned run_id (err e) t = record t {
  skipped = of_run run_id owned t.skipped (batch_failed e);
}

pub record ScrapedAnswer : Type 0 where
  pub selected : ℕ
  pub queued : ℕ
  pub queued_job_ids : List ℕ
  pub capped : Bool
  pub skipped : List (ℕ × SkipReason)

abbrev answer_of : List Wanted → Tally → Result ScrapedAnswer × Store
answer_of requested t = (
  ok (record {
    selected = length requested;
    queued = length t.queued_job_ids;
    queued_job_ids = t.queued_job_ids;
    capped = t.capped;
    skipped = t.skipped;
  }),
  t.store,
)

module _ (is_aggregator : String → Bool) (ready : List String → Bool) (now : ℕ)
    (lease : ℕ → Bool) where
  unfoldable pub approve_groups : List Entry → List (ℕ × List ℕ) → Tally → Tally
  approve_groups owned [] t = t
  approve_groups owned ((run_id, ids) ∷ groups) t = approve_groups owned groups (
      tally_group owned run_id
        (approve_batch is_aggregator ready now (lease run_id) run_id ids t.store) t)

  abbrev approve_prepared : List Wanted → List Entry → Prepared → Result ScrapedAnswer × Store
  approve_prepared requested owned p = answer_of requested (
      approve_groups owned p.groups
        (record { store = p.store; queued_job_ids = []; capped = false; skipped = p.skipped }))

  abbrev pub approve_owned :
      List Wanted → Option (List Entry) → Store → Result ScrapedAnswer × Store
  approve_owned requested none s = (err jobs_not_found, s)
  approve_owned requested (some owned) s =
      approve_prepared requested owned
        (prepare s owned (record { store = s; groups = []; skipped = [] }))

  -- The operation under the lock of the approval. All rows are the user's own.
  unfoldable pub approve_scraped_jobs :
      (user_id : ℕ) (input : List Wanted) → Store → Result ScrapedAnswer × Store
  unfolding approve_groups prepare approve_batch requested_of owned_job_selection add_to_run
  approve_scraped_jobs user_id input s =
      let requested = requested_of input in
      let key : Entry → OwnedRow =
        λ e. record { user_id = user_id; run_id = e.row.run_id; job_id = e.row.job_id } in
      approve_owned requested (owned_job_selection key user_id requested (entries_of s requested)) s

  -- The operation with its checks and its lock; an error leaves the rows as they were.
  abbrev with_rows : Result ScrapedAnswer × Store → Result (ScrapedAnswer × Store)
  with_rows (ok a, s) = ok (a, s)
  with_rows (err e, s) = err e

  unfoldable approve_selection :
      (redis : Redis) (p : Profile) (user_id : ℕ) (key token : String) (input : List Wanted)
      → Store
      → redis.Store
      → Result (ScrapedAnswer × Store) × redis.Store
  unfolding approve_scraped_jobs check_profile with_approval_lock
  approve_selection redis p user_id key token input s t =
      checked redis (check_profile p)
        (with_approval_lock redis key token
          (λ u. (with_rows (approve_scraped_jobs user_id input s), u)) t)
        t
