-- ===== src/Queue/Store/Days/Allowed.antt =====
-- No user has more than 100 applications of one day, whatever the requests, the worker and the
-- recovery of src/hunt/application-queue.ts do.
use Prim.Native.String.{String}
use job_hunters_api.Common.{
  ℕ, ◌+◌, ◌≤◌, ◌≡◌, refl, max, Bool, true, false, Bool-cases, inl, inr, not, ◌&&◌, subst, Option,
  none, some, List, [], find, arith, ◌==◌, count-update_where, count-update_where_same, one_if,
  one_if_le,
}
use job_hunters_api.Queue.Policy.{
  ApplicationStatus, Attempt, AttemptEvent, safe_retry_reason, Refusal,
}
use job_hunters_api.Queue.Policy.Budget.{daily_budget_bounds}
use job_hunters_api.Queue.Store.{
  Candidate, Application, Store, is_reserved, daily_start, used_today, budget, target_or_100,
}
use job_hunters_api.Queue.Store.Actions.{
  candidate_of, retry_application, retry_found, retry_if, retry_within, retry_rows, claim,
}
use job_hunters_api.Queue.Store.Allowance.{has_app_id, HasFreshIds, Grows, Grows-same}
use job_hunters_api.Queue.Store.Days.{
  World, Step, wait, enqueue, cancel, retry, start, finish, choose_target, Reach, here, next,
}
use job_hunters_api.Queue.Store.Days.Growth.{
  used_later, within_budget, store_inj, enqueue-Grows, cancel-Grows, finish-Grows,
}

record Inv (w : World) : Type 0 where
  pub fresh : HasFreshIds w.store
  pub allowed : used_today w.now w.store ≤ 100

-- A retry takes up one application of the allowance, unless it had it already.
retry_rows-count :
    (t : ℕ) (app : Application) (c : Candidate) (s : Store)
    → find (has_app_id app.id) s.applications ≡ some app
    → HasFreshIds s
    → used_today t (retry_rows t app c s) + one_if (is_reserved (daily_start t) app)
      ≤ used_today t s + 1
unfolding used_today
retry_rows-count t app c s found fresh =
    let f : Application → Application =
      λ a. record a { status = ApplicationStatus.queued; queued_at = t } in
    let change =
      count-update_where (has_app_id app.id) f (is_reserved (daily_start t)) s.applications found
        (fresh.unique app.id) in
    let most = one_if_le (is_reserved (daily_start t) (f app)) in omega (arith, change, most)

retry_rows-fresh :
    (t : ℕ) (app : Application) (c : Candidate) (s : Store)
    → HasFreshIds s
    → HasFreshIds (retry_rows t app c s)
retry_rows-fresh t app c s h =
    let f : Application → Application =
      λ a. record a { status = ApplicationStatus.queued; queued_at = t } in
    record {
      unique = λ id.
          let same =
            count-update_where_same (has_app_id app.id) f (has_app_id id) s.applications
              (λ a. refl) in
          rw same (h.unique id);
      free = λ id le.
          let same =
            count-update_where_same (has_app_id app.id) f (has_app_id id) s.applications
              (λ a. refl) in
          rw same (h.free id (omega (arith, le)));
    }

retry_room :
    (reserved : Bool) (used after remaining limit : ℕ)
    → (not reserved && (remaining == 0)) ≡ false
    → after + one_if reserved ≤ used + 1
    → used + remaining ≡ max used limit
    → limit ≤ 100
    → used ≤ 100
    → after ≤ 100
retry_room true used after remaining limit room grown total cap le = omega (arith, grown, le)
retry_room false used after remaining limit room grown total cap le =
    let some_left : 1 ≤ remaining = ground arith in omega (arith, grown, total, cap, le, some_left)

retry-Inv :
    (t : ℕ) (s : Store) (app : Application) (in_queue : Bool) (attempts : List Attempt)
    (events : List AttemptEvent) (confirmed : Bool) (after : Store)
    → find (has_app_id app.id) s.applications ≡ some app
    → retry_application t true in_queue attempts events confirmed app s ≡ some after
    → Inv (record { now = t; store = s })
    → Inv (record { now = t; store = after })
unfolding retry_application
retry-Inv t s app in_queue attempts events confirmed after found e v =
    go (candidate_of app s.candidates) e
  where
    within :
        (c : Candidate)
        → retry_within t app c s ≡ some after
        → Inv (record { now = t; store = after })
    within c k =
        elim (Bool-cases (not (is_reserved (daily_start t) app) && ((budget t s).remaining == 0))) [
          | inl full ↦ absurd (ground (arith, k))
          | inr room ↦
              subst (λ x. Inv (record { now = t; store = x }))
                (store_inj (retry_rows t app c s) after (rw room at k))
                (record {
                  fresh = retry_rows-fresh t app c s v.fresh;
                  allowed =
                      let grown = retry_rows-count t app c s found v.fresh in
                      let bounds =
                        daily_budget_bounds (used_today t s) (target_or_100 s.daily_target) t in
                      retry_room (is_reserved (daily_start t) app) (used_today t s)
                        (used_today t (retry_rows t app c s)) (budget t s).remaining
                        (budget t s).limit room grown bounds.2 bounds.1 v.allowed;
                })
        ]

    allowed :
        (refusal : Option Refusal) (c : Candidate)
        → retry_if refusal in_queue t app c s ≡ some after
        → Inv (record { now = t; store = after })
    allowed (some why) c k = cc
    allowed none c k = elim (Bool-cases in_queue) [
      | inl queued ↦ absurd (ground (arith, k))
      | inr gone ↦ within c (rw gone at k)
    ]

    go :
        (candidate : Option Candidate)
        → retry_found t in_queue attempts events confirmed app candidate s ≡ some after
        → Inv (record { now = t; store = after })
    go none k = cc
    go (some c) k = allowed (safe_retry_reason app.status attempts events confirmed) c k

Grows-Inv :
    (t more : ℕ) (s after : Store)
    → Grows more s after
    → more ≤ (budget t s).remaining
    → Inv (record { now = t; store = s })
    → Inv (record { now = t; store = after })
Grows-Inv t more s after g le v = record {
  fresh = g.fresh v.fresh;
  allowed = within_budget t more s after g le v.allowed;
}

claim-Grows : (dispatch_id : Option ℕ) (id : ℕ) (s : Store) → Grows 0 s (claim dispatch_id id s).1
unfolding claim
claim-Grows dispatch_id id s = Grows-same s _ refl (omega arith)

module _ (is_aggregator : String → Bool) where
  Step-Inv : {v w : World} → Step is_aggregator v w → Inv v → Inv w
  Step-Inv (wait t u s le) v = record {
    fresh = v.fresh;
    allowed = omega (arith, used_later t u s le, v.allowed);
  }
  Step-Inv (enqueue t s run_id ids answer after e) v =
      Grows-Inv t _ s after (enqueue-Grows is_aggregator t run_id ids s answer after e)
        (omega arith) v
  Step-Inv (cancel t s app removable after found e) v =
      Grows-Inv t 0 s after (cancel-Grows t s app removable after e) (omega arith) v
  Step-Inv (retry t s app in_queue attempts events confirmed after found e) v =
      retry-Inv t s app in_queue attempts events confirmed after found e v
  Step-Inv (start t s dispatch_id id) v =
      Grows-Inv t 0 s _ (claim-Grows dispatch_id id s) (omega arith) v
  Step-Inv (finish t s id status app found open_) v =
      Grows-Inv t 0 s _ (finish-Grows s id status app found open_ v.fresh) (omega arith) v
  Step-Inv (choose_target t s target) v =
      Grows-Inv t 0 s _ (Grows-same s _ refl (omega arith)) (omega arith) v

  Reach-Inv : (from w : World) → Reach is_aggregator from w → Inv from → Inv w
  Reach-Inv from w here v = v
  Reach-Inv from w (next r s) v = Step-Inv s (Reach-Inv from _ r v)

  -- From rows without applications, every state that waiting, batches, cancellations, retries, the
  -- worker's claims, its results for applications that were not cancelled, and changed targets reach
  -- has at most 100 applications that count for the present day, those cancelled before they started
  -- not included.
  pub Reach-used_today-le :
      (t : ℕ) (s : Store) (w : World)
      → s.applications ≡ []
      → Reach is_aggregator (record { now = t; store = s }) w
      → used_today w.now w.store ≤ 100
  unfolding used_today
  Reach-used_today-le t s w empty r =
      (Reach-Inv (record { now = t; store = s }) w r
        (record {
          fresh = record { unique = λ id. rw empty (omega arith); free = λ id le. rw empty };
          allowed = rw empty (omega arith);
        })).allowed
