-- ===== src/Queue/Store/Days.antt =====
-- A user's applications day by day: the requests and the worker of src/hunt/application-queue.ts and
-- src/modules/applications/actions.ts as steps in any order, and the daily allowance.
pub mod Growth
pub mod Allowed
use Prim.Native.String.{String}
use job_hunters_api.Common.{
  ℕ, zero, suc, ◌+◌, ◌≤◌, ◌<◌, ◌≡◌, refl, sym, ap, ◌∙◌, min, max, Bool, true, false, Bool-cases,
  inl, inr, not, ◌&&◌, Option, none, some, List, [], ◌∷◌, ◌++◌, map, find, count, count-append,
  count_mono, length, arith, ◌==◌, leb, if◌then◌else◌, update_where, count-update_where,
  count-update_where_same, count-update_where-le, one_if, one_if_le,
}
use job_hunters_api.Queue.Policy.{ApplicationStatus, Attempt, AttemptEvent, daily_budget}
use job_hunters_api.Queue.Policy.Budget.{daily_budget_bounds}
use job_hunters_api.Queue.Order.{plan_application_order}
use job_hunters_api.Queue.Order.Plan.{length-plan_application_order}
use job_hunters_api.Queue.Store.{
  Candidate, Application, Store, is_reserved, is_closed, daily_start, used_today, budget,
  target_or_100,
}
use job_hunters_api.Queue.Store.Enqueue.{Enqueued, enqueue_approved_candidates, enqueue_in_run}
use job_hunters_api.Queue.Store.Actions.{
  is_queued, cancel_application, cancel_rows, retry_application, retry_rows, claim,
}
use job_hunters_api.Queue.Store.Allowance.{
  has_app_id, HasFreshIds, Grows, Grows-trans, Grows-same, write_queue-Grows,
}

pub record World : Type 0 where
  pub now : ℕ
  pub store : Store

-- The worker's result writes the status of an application by its id. As a step, `finish`, it comes for an
-- application that was not cancelled while it waited: a cancellation withdraws the dispatches, without
-- which the worker does not start.
abbrev pub settle : ℕ → ApplicationStatus → Store → Store
settle id status s = record s {
  applications = update_where (has_app_id id) (λ a. record a { status = status }) s.applications;
}

module _ (is_aggregator : String → Bool) where
  pub data Step : World → World → Type 0 where
    wait :
        (t u : ℕ) (s : Store)
        → t ≤ u
        → Step (record { now = t; store = s }) (record { now = u; store = s })
    enqueue :
        (t : ℕ) (s : Store) (run_id : ℕ) (ids : List ℕ) (answer : Enqueued) (after : Store)
        → enqueue_approved_candidates is_aggregator t true run_id ids s ≡ some (answer, after)
        → Step (record { now = t; store = s }) (record { now = t; store = after })
    cancel :
        (t : ℕ) (s : Store) (app : Application) (removable : Bool) (after : Store)
        → find (has_app_id app.id) s.applications ≡ some app
        → cancel_application t true removable app s ≡ some after
        → Step (record { now = t; store = s }) (record { now = t; store = after })
    retry :
        (t : ℕ) (s : Store) (app : Application) (in_queue : Bool) (attempts : List Attempt)
        (events : List AttemptEvent) (confirmed : Bool) (after : Store)
        → find (has_app_id app.id) s.applications ≡ some app
        → retry_application t true in_queue attempts events confirmed app s ≡ some after
        → Step (record { now = t; store = s }) (record { now = t; store = after })
    start :
        (t : ℕ) (s : Store) (dispatch_id : Option ℕ) (candidate_id : ℕ)
        → Step
            (record { now = t; store = s })
            (record { now = t; store = (claim dispatch_id candidate_id s).1 })
    finish :
        (t : ℕ) (s : Store) (id : ℕ) (status : ApplicationStatus) (app : Application)
        → find (has_app_id id) s.applications ≡ some app
        → (is_closed app.status && app.cancelled_note) ≡ false
        → Step (record { now = t; store = s }) (record { now = t; store = settle id status s })
    choose_target :
        (t : ℕ) (s : Store) (target : Option ℕ)
        → Step
            (record { now = t; store = s })
            (record { now = t; store = record s { daily_target = target } })

  pub data Reach (from : World) : World → Type 0 where
    here : Reach from from
    next : {v w : World} → Reach from v → Step v w → Reach from w
