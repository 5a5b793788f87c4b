-- ===== src/Queue/Approval/Accounts.antt =====
-- What a batch of src/hunt/approval.ts does with every job that was selected.
use Prim.Native.String.{String}
use job_hunters_api.Common.{
  ℕ, ◌+◌, ◌==◌, ◌≡◌, ◌≤◌, refl, Bool, Bool-cases, inl, inr, true, false, not, ◌&&◌, ◌||◌, List, [],
  ◌∷◌, any, count, filter, length, ltb, min, arith, All, any-map, any_of_count, count_of_not_any,
  count-filter_split, count_le_of_length, count-filter_mono,
}
use job_hunters_api.Common.Sort.{sort_asc, count-sort_asc}
use job_hunters_api.Queue.Order.{plan_application_order}
use job_hunters_api.Queue.Order.Plan.{count-plan-le}
use job_hunters_api.Queue.Store.{Candidate, CandidateStatus, Run, Store, in_array, budget}
use job_hunters_api.Queue.Store.Enqueue.{
  Enqueued, enqueue_in_run, selected_rows, order_of, has_application, is_selectable, jobs_of,
}
use job_hunters_api.Queue.Approval.{is_undecided, is_chosen}

abbrev with_job : ℕ → Candidate → Bool
with_job job_id c = c.job_id == job_id

-- A job is queued, set aside for want of a URL, or the answer says that the allowance or the caps cut
-- the batch.
abbrev pub is_settled : Enqueued → ℕ → Bool
is_settled e job_id = in_array job_id e.queued_job_ids || in_array job_id e.skipped || e.capped

-- The parts of a batch: the rows set aside, those that can be applied to, and those queued.
settled_of_counts :
    (job_id : ℕ) (rows unavailable applyable ordered : List Candidate)
    → 1 ≤ count (with_job job_id) rows
    → count (with_job job_id) unavailable + count (with_job job_id) applyable
      ≡ count (with_job job_id) rows
    → ((p : Candidate → Bool) → count p ordered ≤ count p applyable)
    → (in_array job_id (jobs_of ordered)
        || in_array job_id (jobs_of unavailable)
        || ltb (length ordered) (length applyable))
      ≡ true
settled_of_counts job_id rows unavailable applyable ordered there parts offered =
    let q = with_job job_id in
    let long = count_le_of_length ordered applyable offered in
    ground (
      arith,
      any-map (λ other. other == job_id) (λ (c : Candidate). c.job_id) ordered,
      any-map (λ other. other == job_id) (λ (c : Candidate). c.job_id) unavailable,
      count_of_not_any q unavailable,
      any_of_count q ordered,
      (λ (le : length applyable ≤ length ordered). long le q),
    )

module _ (is_aggregator : String → Bool) (now : ℕ) where
  pub enqueue_in_run-settles :
      (run : Run) (ids : List ℕ) (s : Store) (job_id : ℕ)
      → 1 ≤ count (with_job job_id) (selected_rows run.id ids s)
      → is_settled (enqueue_in_run is_aggregator now run ids s).0 job_id ≡ true
  enqueue_in_run-settles run ids s job_id there =
      let rows = selected_rows run.id ids s in
      let selected = sort_asc (λ c. order_of 0 0 c.id ids) rows in
      let unavailable = filter (λ c. is_aggregator c.apply_url) selected in
      let applyable = filter (λ c. not (is_aggregator c.apply_url)) selected in
      let target = min run.target (budget now s).remaining in
      let sorted = count-sort_asc (λ c. order_of 0 0 c.id ids) (with_job job_id) rows in
      settled_of_counts job_id selected unavailable applyable
        (plan_application_order (λ c. c.portal) applyable target) (omega (arith, sorted, there))
        (count-filter_split (with_job job_id) (λ c. is_aggregator c.apply_url) selected)
        (λ p. count-plan-le (λ c. c.portal) applyable target p)

pub All-counted :
    (xs ys : List Candidate)
    → ((r : Candidate → Bool) → count r xs ≤ count r ys)
    → All (λ c. 1 ≤ count (with_job c.job_id) ys) xs
All-counted [] ys less = tt
All-counted (x ∷ xs) ys less =
    (ground (arith, less (with_job x.job_id)), All-counted xs ys (λ r. ground (arith, less r)))

pub All-filtered :
    (p : Candidate → Bool) (xs : List Candidate) → All (λ c. p c ≡ true) (filter p xs)
All-filtered p [] = tt
All-filtered p (x ∷ xs) = elim (Bool-cases (p x)) [
  | inl passes ↦ rw passes (passes, All-filtered p xs)
  | inr fails ↦ rw fails (All-filtered p xs)
]

pub All-implies :
    {A : Type 0} (P Q : A → Type 0) (xs : List A) → ((x : A) → P x → Q x) → All P xs → All Q xs
All-implies P Q [] f h = tt
All-implies P Q (x ∷ xs) f (p, h) = (f x p, All-implies P Q xs f h)

-- What was chosen of a run is what the queue takes up, where none of it was applied to before.
is_undecided-is_selectable :
    (status : CandidateStatus) → is_undecided status ≡ true → is_selectable status ≡ true
is_undecided-is_selectable CandidateStatus.discovered h = refl
is_undecided-is_selectable CandidateStatus.rejected h = refl
is_undecided-is_selectable CandidateStatus.approved h = refl
is_undecided-is_selectable CandidateStatus.tailored h = cc
is_undecided-is_selectable CandidateStatus.queued h = cc
is_undecided-is_selectable CandidateStatus.applying h = cc
is_undecided-is_selectable CandidateStatus.applied h = cc
is_undecided-is_selectable CandidateStatus.needs_review h = cc
is_undecided-is_selectable CandidateStatus.failed h = cc

abbrev pub chosen_rows : ℕ → List ℕ → Store → List Candidate
chosen_rows run_id ids s = filter (is_chosen run_id ids) s.candidates

pub chosen-le-selected :
    (run_id : ℕ) (ids : List ℕ) (s : Store) (r : Candidate → Bool)
    → any (λ c. has_application s c.job_id) (chosen_rows run_id ids s) ≡ false
    → count r (chosen_rows run_id ids s) ≤ count r (selected_rows run_id ids s)
chosen-le-selected run_id ids s r fresh =
    count-filter_mono (is_chosen run_id ids) (λ c. has_application s c.job_id)
      (λ c.
        (c.run_id == run_id)
        && in_array c.id ids
        && is_selectable c.status
        && not (has_application s c.job_id))
      r s.candidates (λ c chosen new. ground (arith, is_undecided-is_selectable c.status)) fresh

-- The candidate of an id that was asked for: of the run, and with its job settled.
abbrev pub is_settled_row : ℕ → Enqueued → ℕ → Candidate → Bool
is_settled_row run_id e id c = (c.id == id) && ((c.run_id == run_id) && is_settled e c.job_id)

pub settled_row :
    (run_id id : ℕ) (ids : List ℕ) (e : Enqueued) (rows : List Candidate)
    → any (λ c. c.id == id) (filter (is_chosen run_id ids) rows) ≡ true
    → All (λ c. is_settled e c.job_id ≡ true) (filter (is_chosen run_id ids) rows)
    → any (is_settled_row run_id e id) rows ≡ true
settled_row run_id id ids e [] there settled = there
settled_row run_id id ids e (c ∷ rows) there settled = elim (Bool-cases (is_chosen run_id ids c)) [
  | inl chosen ↦
      let (here, rest) = rw chosen at settled in
      let seen = rw chosen at there in
      ground (arith, here, seen, settled_row run_id id ids e rows, rest)
  | inr other ↦
      ground (arith, settled_row run_id id ids e rows (rw other at there) (rw other at settled))
]
