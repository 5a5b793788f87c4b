-- ===== src/Queue/Store/Days/Growth.antt =====
-- How many applications each operation of src/hunt/application-queue.ts and
-- src/modules/applications/actions.ts adds to the day's number.
use Prim.Native.String.{String}
use job_hunters_api.Common.{
  ℕ, ◌≤◌, ◌≡◌, refl, ap, min, Bool, true, false, Bool-cases, inl, inr, not, ◌&&◌, subst, Option,
  none, some, List, filter, find, count_mono, length, arith, ◌==◌, update_where,
  count-update_where_same, count-update_where-le, count, count-update_where, one_if,
}
use job_hunters_api.Common.Sort.{sort_asc}
use job_hunters_api.Queue.Policy.{ApplicationStatus, daily_budget}
use job_hunters_api.Queue.Policy.Budget.{daily_budget_bounds}
use job_hunters_api.Queue.Order.{plan_application_order}
use job_hunters_api.Queue.Order.Plan.{length-plan_application_order}
use job_hunters_api.Queue.Store.{
  Candidate, Application, Store, Run, is_reserved, is_closed, daily_start, used_today, budget,
  target_or_100,
}
use job_hunters_api.Queue.Store.Enqueue.{
  Enqueued, enqueue_approved_candidates, enqueue_found, enqueue_in_run, set_aside, selected_rows,
  order_of,
}
use job_hunters_api.Queue.Store.Actions.{
  is_queued, cancel_application, cancel_found, cancel_rows, candidate_of, is_waiting, is_rejected,
}
use job_hunters_api.Queue.Store.Allowance.{
  has_app_id, HasFreshIds, Grows, Grows-trans, Grows-same, write_queue-Grows,
}
use job_hunters_api.Queue.Store.Days.{settle}

daily_start_mono : (t u : ℕ) → t ≤ u → daily_start t ≤ daily_start u
unfolding daily_budget
daily_start_mono t u le = omega arith

pub used_later : (t u : ℕ) (s : Store) → t ≤ u → used_today u s ≤ used_today t s
unfolding used_today
used_later t u s le =
    count_mono (is_reserved (daily_start u)) (is_reserved (daily_start t)) s.applications
      (λ a h. ground (arith, daily_start_mono t u le))

-- What is left of the allowance never lifts the day's number above 100.
pub within_budget :
    (t more : ℕ) (s after : Store)
    → Grows more s after
    → more ≤ (budget t s).remaining
    → used_today t s ≤ 100
    → used_today t after ≤ 100
unfolding used_today
within_budget t more s after g le h =
    let bounds = daily_budget_bounds (used_today t s) (target_or_100 s.daily_target) t in
    let grown = g.counted (daily_start t) in
    let total = bounds.2 in let limit = bounds.1 in omega (arith, grown, le, h, total, limit)

-- An update of applications that frees or keeps their allowance.
update-Grows :
    (test : Application → Bool) (f : Application → Application) (s after : Store)
    → ((a : Application) → (f a).id ≡ a.id)
    → ((start : ℕ) (a : Application)
        → test a ≡ true
        → is_reserved start (f a) ≡ true
        → is_reserved start a ≡ true)
    → after.applications ≡ update_where test f s.applications
    → s.next_id ≤ after.next_id
    → Grows 0 s after
update-Grows test f s after ids frees apps le = record {
  fresh = λ h. record {
    unique = λ id.
        let same =
          count-update_where_same test f (has_app_id id) s.applications
            (λ a. ap (λ (i : ℕ). i == id) (ids a)) in
        rw (apps, same) (h.unique id);
    free = λ id free.
        let same =
          count-update_where_same test f (has_app_id id) s.applications
            (λ a. ap (λ (i : ℕ). i == id) (ids a)) in
        rw (apps, same) (h.free id (omega arith));
  };
  counted = λ start.
      let less = count-update_where-le test f (is_reserved start) s.applications (frees start) in
      rw apps (omega (arith, less));
}

answer_inj : (x : Enqueued) (y z : Enqueued × Store) → some y ≡ some z → y.1 ≡ z.1
answer_inj x y z e = cc

pub store_inj : (s t : Store) → some s ≡ some t → s ≡ t
store_inj s t e = cc

module _ (is_aggregator : String → Bool) where
  run-Grows :
      (t : ℕ) (run : Run) (ids : List ℕ) (s : Store)
      → Grows (budget t s).remaining s (enqueue_in_run is_aggregator t run ids s).1
  run-Grows t run ids s =
      let target = min run.target (budget t s).remaining in
      let selected =
        sort_asc (λ (c : Candidate). order_of 0 0 c.id ids) (selected_rows run.id ids s) in
      let unavailable = filter (λ (c : Candidate). is_aggregator c.apply_url) selected in
      let applyable = filter (λ (c : Candidate). not (is_aggregator c.apply_url)) selected in
      let ordered = plan_application_order (λ (c : Candidate). c.portal) applyable target in
      let aside = set_aside run.id unavailable s in
      let planned = length-plan_application_order (λ (c : Candidate). c.portal) applyable target in
      Grows-trans 0 (length ordered) (budget t s).remaining s aside _ (omega (arith, planned))
        (Grows-same s aside refl (omega arith))
        (write_queue-Grows t run.id ids applyable ordered aside)

  pub enqueue-Grows :
      (t run_id : ℕ) (ids : List ℕ) (s : Store) (answer : Enqueued) (after : Store)
      → enqueue_approved_candidates is_aggregator t true run_id ids s ≡ some (answer, after)
      → Grows (budget t s).remaining s after
  unfolding enqueue_approved_candidates
  enqueue-Grows t run_id ids s answer after e = go (find (λ r. r.id == run_id) s.runs) e
    where
      go :
          (found : Option Run)
          → enqueue_found is_aggregator t found ids s ≡ some (answer, after)
          → Grows (budget t s).remaining s after
      go none e = cc
      go (some run) e =
          subst (Grows (budget t s).remaining s) (answer_inj answer _ (answer, after) e)
            (run-Grows t run ids s)

pub cancel-Grows :
    (t : ℕ) (s : Store) (app : Application) (removable : Bool) (after : Store)
    → cancel_application t true removable app s ≡ some after
    → Grows 0 s after
unfolding cancel_application
cancel-Grows t s app removable after e = go (candidate_of app s.candidates) e
  where
    go :
        (found : Option Candidate)
        → cancel_found t removable app found s ≡ some after
        → Grows 0 s after
    go none e = cc
    go (some c) e = elim (Bool-cases (is_closed app.status && is_rejected c.status)) [
      | inl done ↦
          subst (Grows 0 s) (store_inj s after (rw done at e)) (Grows-same s s refl (omega arith))
      | inr open_ ↦ elim (Bool-cases (is_queued app.status && is_waiting c.status && removable)) [
        | inr refused ↦ absurd (ground (arith, e))
        | inl waiting ↦
            subst (Grows 0 s) (store_inj (cancel_rows t app c s) after (rw (open_, waiting) at e)) (
              update-Grows (λ a. a.id == app.id)
                (λ a. record a { status = ApplicationStatus.closed; cancelled_note = true }) s
                (cancel_rows t app c s) (λ a. refl) (λ start a k h. ground arith) refl
                (omega arith))
      ]
    ]

-- A result of an application that was not cancelled frees its allowance or keeps it.
pub finish-Grows :
    (s : Store) (id : ℕ) (status : ApplicationStatus) (app : Application)
    → find (has_app_id id) s.applications ≡ some app
    → (is_closed app.status && app.cancelled_note) ≡ false
    → HasFreshIds s
    → Grows 0 s (settle id status s)
finish-Grows s id status app found open_ ids = record {
  fresh = λ h. record {
    unique = λ i. rw (same_ids i) (h.unique i);
    free = λ i late. rw (same_ids i) (h.free i (omega arith));
  };
  counted = λ start.
      let moved =
        count-update_where (has_app_id id) finished (is_reserved start) s.applications found
          (ids.unique id) in
      let less : one_if (is_reserved start (finished app)) ≤ one_if (is_reserved start app) =
        ground arith in
      omega (arith, moved, less);
}
  where
    finished : Application → Application
    finished a = record a { status = status }

    same_ids :
        (i : ℕ)
        → count (has_app_id i) (update_where (has_app_id id) finished s.applications)
          ≡ count (has_app_id i) s.applications
    same_ids i =
        count-update_where_same (has_app_id id) finished (has_app_id i) s.applications (λ a. refl)
