-- ===== src/Queue/Approval/Within.antt =====
-- A selection over several hunts of src/hunt/approval.ts stays within the daily allowance.
use Prim.Native.String.{String}
use mathlib.Core.Option.{none-ne-some}
use job_hunters_api.Common.{
  ℕ, ◌==◌, ◌≡◌, ◌≤◌, refl, sym, ◌∙◌, map, Bool, Bool-cases, inl, inr, true, false, not, Option,
  none, some, List, [], ◌∷◌, any, filter, find, length, arith,
}
use job_hunters_api.Queue.Selection.{
  Wanted, Blocked, selection_blocked_reason, owned_job_selection, is_reviewable,
}
use job_hunters_api.Queue.Store.{Candidate, Run, Store, used_today}
use job_hunters_api.Queue.Store.Enqueue.{Enqueued, enqueue_approved_candidates, has_application}
use job_hunters_api.Queue.Store.Allowance.{HasFreshIds, Grows, Grows-same, Grows-trans}
use job_hunters_api.Queue.Store.Days.Growth.{enqueue-Grows, within_budget}
use job_hunters_api.Queue.Approval.{
  Refused, not_ready, nothing_selected, still_discovering, changed_meanwhile, already_applied,
  Result, ok, err, ◌>>=◌, ◌>>◌, guard, Approved, approve_batch, approve_chosen, run_or,
  approved_with, is_chosen, is_empty, unique_ids,
}
use job_hunters_api.Queue.Approval.Outcome.{On, On-guard}
use job_hunters_api.Queue.Approval.Scraped.{
  Entry, Prepared, Tally, prepare, prepare_entry, prepare_unless, candidate_id_of, add_candidate,
  set_eligibility, is_of_job, tally_group, approve_groups, approve_owned, approve_scraped_jobs,
  entries_of, requested_of,
}

-- What a batch leaves satisfies `P`, where there is an answer.
abbrev OnStore : (Store → Type 0) → Result (Approved × Store) → Type 0
OnStore P r = On (λ a s. P s) (λ e. Unit) r

OnStore-guard :
    (P : Store → Type 0) (test : Bool) (e : Refused) (r : Result (Approved × Store))
    → OnStore P r
    → OnStore P (guard test e >> r)
OnStore-guard P test e r h = On-guard (λ a s. P s) (λ e. Unit) test e r (λ passed. h) (λ failed. tt)

module _ (now : ℕ) where
  -- Ids are free and unique, and the day's number is within the allowance.
  pub record IsAllowed (s : Store) : Type 0 where
    pub fresh : HasFreshIds s
    pub allowed : used_today now s ≤ 100

  Grows-IsAllowed : (s t : Store) → Grows 0 s t → IsAllowed s → IsAllowed t
  Grows-IsAllowed s t g h = record {
    fresh = g.fresh h.fresh;
    allowed = within_budget now 0 s t g (omega arith) h.allowed;
  }

module _ (is_aggregator : String → Bool) (ready : List String → Bool) (now : ℕ) where
  no_lease :
      (run_id : ℕ) (ids : List ℕ) (s : Store)
      → enqueue_approved_candidates is_aggregator now false run_id ids s ≡ none
  unfolding enqueue_approved_candidates
  no_lease run_id ids s = refl

  enqueued-IsAllowed :
      (lease : Bool) (run_id n : ℕ) (ids : List ℕ) (s : Store)
      → IsAllowed now s
      → OnStore
          (IsAllowed now)
          (approved_with n (enqueue_approved_candidates is_aggregator now lease run_id ids s))
  enqueued-IsAllowed lease run_id n ids s h =
      go lease (enqueue_approved_candidates is_aggregator now lease run_id ids s) refl
    where
      go :
          (lease : Bool) (r : Option (Enqueued × Store))
          → enqueue_approved_candidates is_aggregator now lease run_id ids s ≡ r
          → OnStore (IsAllowed now) (approved_with n r)
      go lease none e = tt
      go true (some (answer, after)) e =
          let g = enqueue-Grows is_aggregator now run_id ids s answer after e in
          record {
            fresh = g.fresh h.fresh;
            allowed = within_budget now _ s after g (omega arith) h.allowed;
          }
      go false (some (answer, after)) e = absurd (none-ne-some _ (sym (no_lease run_id ids s) ∙ e))

  chosen-IsAllowed :
      (lease : Bool) (run_id : ℕ) (ids : List ℕ) (chosen : List Candidate) (s : Store)
      → IsAllowed now s
      → OnStore (IsAllowed now) (approve_chosen is_aggregator ready now lease run_id ids chosen s)
  chosen-IsAllowed lease run_id ids chosen s h =
      let queued =
        approved_with (length ids)
          (enqueue_approved_candidates is_aggregator now lease run_id ids s) in
      let fresh = not (any (λ c. has_application s c.job_id) chosen) in
      let complete = length chosen == length ids in
      OnStore-guard (IsAllowed now) (ready (map (λ c. c.portal) chosen)) not_ready
        (guard complete changed_meanwhile >> (guard fresh already_applied >> queued))
        (OnStore-guard (IsAllowed now) complete changed_meanwhile
          (guard fresh already_applied >> queued)
          (OnStore-guard (IsAllowed now) fresh already_applied queued
            (enqueued-IsAllowed lease run_id (length ids) ids s h)))

  -- Behind the run that was found.
  abbrev approve_run : Bool → ℕ → List ℕ → Store → Run → Result (Approved × Store)
  approve_run lease run_id ids s run =
      guard (is_reviewable run.status) still_discovering
      >> approve_chosen is_aggregator ready now lease run_id ids
          (filter (is_chosen run_id ids) s.candidates) s

  run-IsAllowed :
      (lease : Bool) (run_id : ℕ) (ids : List ℕ) (s : Store) (run : Option Run)
      → IsAllowed now s
      → OnStore (IsAllowed now) (run_or run >>= approve_run lease run_id ids s)
  run-IsAllowed lease run_id ids s none h = tt
  run-IsAllowed lease run_id ids s (some run) h =
      let chosen = filter (is_chosen run_id ids) s.candidates in
      OnStore-guard (IsAllowed now) (is_reviewable run.status) still_discovering
        (approve_chosen is_aggregator ready now lease run_id ids chosen s)
        (chosen-IsAllowed lease run_id ids chosen s h)

  approve_batch-IsAllowed :
      (lease : Bool) (run_id : ℕ) (selected_ids : List ℕ) (s : Store)
      → IsAllowed now s
      → OnStore (IsAllowed now) (approve_batch is_aggregator ready now lease run_id selected_ids s)
  unfolding approve_batch
  approve_batch-IsAllowed lease run_id selected_ids s h =
      let ids = unique_ids selected_ids in
      let run = find (λ r. r.id == run_id) s.runs in
      OnStore-guard (IsAllowed now) (not (is_empty ids)) nothing_selected
        (run_or run >>= approve_run lease run_id ids s) (run-IsAllowed lease run_id ids s run h)

  prepare_entry-Grows :
      (s : Store) (e : Entry) (p : Prepared) → Grows 0 p.store (prepare_entry s e p).store
  prepare_entry-Grows s e p = reason (selection_blocked_reason _)
    where
      given :
          (c : Option Candidate)
          → Grows 0 p.store
              (add_candidate e p (candidate_id_of e c (set_eligibility e p.store))).store
      given (some c) = Grows-same p.store _ refl (omega arith)
      given none = elim (Bool-cases (any (is_of_job e.row) p.store.candidates)) [
        | inl there ↦ rw there (Grows-same p.store _ refl (omega arith))
        | inr new ↦ rw new (Grows-same p.store _ refl (omega arith))
      ]

      reason : (r : Option Blocked) → Grows 0 p.store (prepare_unless r e p).store
      reason (some b) = Grows-same p.store p.store refl (omega arith)
      reason none = given e.candidate

  prepare-Grows :
      (s : Store) (es : List Entry) (p : Prepared) → Grows 0 p.store (prepare s es p).store
  unfolding prepare
  prepare-Grows s [] p = Grows-same p.store p.store refl (omega arith)
  prepare-Grows s (e ∷ es) p =
      Grows-trans 0 0 0 p.store (prepare_entry s e p).store _ (omega arith)
        (prepare_entry-Grows s e p) (prepare-Grows s es (prepare_entry s e p))

  module _ (lease : ℕ → Bool) where
    approve_groups-IsAllowed :
        (owned : List Entry) (groups : List (ℕ × List ℕ)) (t : Tally)
        → IsAllowed now t.store
        → IsAllowed now (approve_groups is_aggregator ready now lease owned groups t).store
    unfolding approve_groups
    approve_groups-IsAllowed owned [] t h = h
    approve_groups-IsAllowed owned ((run_id, ids) ∷ groups) t h =
        let r = approve_batch is_aggregator ready now (lease run_id) run_id ids t.store in
        approve_groups-IsAllowed owned groups (tally_group owned run_id r t)
          (tallied r (approve_batch-IsAllowed (lease run_id) run_id ids t.store h))
      where
        tallied :
            (r : Result (Approved × Store))
            → OnStore (IsAllowed now) r
            → IsAllowed now (tally_group owned run_id r t).store
        tallied (ok (a, s)) k = k
        tallied (err e) k = h

    -- From rows with unique ids and at most 100 applications of the day, a selection over several hunts
    -- leaves such rows, whichever of its batches fail, are cut or lose their lock.
    pub approve_scraped_jobs-IsAllowed :
        (user_id : ℕ) (input : List Wanted) (s : Store)
        → IsAllowed now s
        → IsAllowed now (approve_scraped_jobs is_aggregator ready now lease user_id input s).1
    unfolding approve_scraped_jobs
    approve_scraped_jobs-IsAllowed user_id input s h =
        selected
          (owned_job_selection _ user_id (requested_of input) (entries_of s (requested_of input)))
      where
        selected :
            (owned : Option (List Entry))
            → IsAllowed now
                (approve_owned is_aggregator ready now lease (requested_of input) owned s).1
        selected none = h
        selected (some owned) =
            let p : Prepared = record { store = s; groups = []; skipped = [] } in
            approve_groups-IsAllowed owned (prepare s owned p).groups
              (record {
                store = (prepare s owned p).store;
                queued_job_ids = [];
                capped = false;
                skipped = (prepare s owned p).skipped;
              })
              (Grows-IsAllowed now s (prepare s owned p).store (prepare-Grows s owned p) h)
