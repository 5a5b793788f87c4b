-- ===== src/Queue/Dispatch/Delivered.antt =====
-- A pass of `dispatchPendingApplications` of src/hunt/application-queue.ts against the intents of the user.
use job_hunters_api.Common.{
  ℕ, ◌≡◌, ◌≤◌, refl, sym, ◌∙◌, Bool, Bool-cases, inl, inr, true, false, not, ◌&&◌, ◌||◌, Option,
  List, ◌++◌, any, all, all-append, all_of_count, count_of_all, count_in_filter, count_of_any,
  any_of_count, count, count-append, count_mono, count-take-le, filter, length, take_all, ltb,
  le_of_not_ltb, arith,
}
use job_hunters_api.Common.Sort.{sort_asc, count-sort_asc, length-sort_asc}
use job_hunters_api.Queue.Store.{Candidate}
use job_hunters_api.Queue.Dispatch.{
  JobId, is_same_job, Intent, BullQueue, IsBullQueue, is_given, is_runnable, is_behind,
  pending_rows, recovery_rows, Publishing, publish, rows_of, next_cursor,
  dispatch_pending_applications,
}
use job_hunters_api.Queue.Dispatch.Published.{
  job_of, publish-Publishes, IsComplete, publish-IsComplete,
}

left_of : (a b : Bool) → (a && b) ≡ true → a ≡ true
left_of a b h = ground arith

last_implies :
    (a b c d : Bool) → (not a || b || c) ≡ true → (c ≡ true → d ≡ true) → (not a || b || d) ≡ true
last_implies a b c d h f = ground (arith, f)

-- What a query returns is runnable.
count-pending-le :
    (runnable q : Intent → Bool) (intents : List Intent)
    → count q (pending_rows runnable intents) ≤ count (λ i. runnable i && q i) intents
count-pending-le runnable q intents =
    let fresh : Intent → Bool = λ i. runnable i && not (is_given i.delivered_at) in
    omega (
      arith,
      count-take-le q 200 (sort_asc (λ i. i.created_at) (filter fresh intents)),
      count-sort_asc (λ (i : Intent). i.created_at) q (filter fresh intents),
      count_in_filter q fresh intents,
      count_mono (λ i. fresh i && q i) (λ i. runnable i && q i) intents (λ i h. ground arith),
    )

count-recovery-le :
    (runnable q : Intent → Bool) (cursor : Option ℕ) (intents : List Intent)
    → count q (recovery_rows runnable cursor intents) ≤ count (λ i. runnable i && q i) intents
count-recovery-le runnable q cursor intents =
    let old : Intent → Bool =
      λ i. runnable i && is_given i.delivered_at && is_behind cursor i.dispatch.id in
    omega (
      arith,
      count-take-le q 200 (sort_asc (λ i. i.dispatch.id) (filter old intents)),
      count-sort_asc (λ (i : Intent). i.dispatch.id) q (filter old intents),
      count_in_filter q old intents,
      count_mono (λ i. old i && q i) (λ i. runnable i && q i) intents (λ i h. ground arith),
    )

any_row :
    (runnable q : Intent → Bool) (cursor : Option ℕ) (intents : List Intent)
    → any q (pending_rows runnable intents ++ recovery_rows runnable cursor intents) ≡ true
    → any (λ i. runnable i && q i) intents ≡ true
any_row runnable q cursor intents h =
    any_of_count (λ i. runnable i && q i) intents
      (omega (
        arith,
        count_of_any q (pending_rows runnable intents ++ recovery_rows runnable cursor intents) h,
        count-append q (pending_rows runnable intents) (recovery_rows runnable cursor intents),
        count-pending-le runnable q intents,
        count-recovery-le runnable q cursor intents,
      ))

-- Where a page has room for all that is undelivered, a test of the page is a test of them all.
all_fresh :
    (runnable q : Intent → Bool) (intents : List Intent)
    → length (filter (λ i. runnable i && not (is_given i.delivered_at)) intents) ≤ 200
    → all q (pending_rows runnable intents) ≡ true
    → all (λ i. not (runnable i && not (is_given i.delivered_at)) || q i) intents ≡ true
all_fresh runnable q intents room h =
    let fresh : Intent → Bool = λ i. runnable i && not (is_given i.delivered_at) in
    let rows = sort_asc (λ (i : Intent). i.created_at) (filter fresh intents) in
    let size = length-sort_asc (λ (i : Intent). i.created_at) (filter fresh intents) in
    let whole : all q rows ≡ true = rw (take_all 200 rows (omega (arith, size, room))) at h in
    all_of_count (λ i. not (fresh i) || q i) intents
      (omega (
        arith,
        count_of_all q rows whole,
        count-sort_asc (λ (i : Intent). i.created_at) (λ i. not (q i)) (filter fresh intents),
        count_in_filter (λ i. not (q i)) fresh intents,
        count_mono (λ i. not (not (fresh i) || q i)) (λ i. fresh i && not (q i)) intents
            (λ i e. ground arith),
      ))

module _ (b : BullQueue) (laws : IsBullQueue b) (newest_attempt : ℕ → Option ℕ)
    (candidates : List Candidate) where
  abbrev runnable : Intent → Bool
  runnable = is_runnable newest_attempt candidates

  abbrev is_undelivered : Intent → Bool
  is_undelivered i = runnable i && not (is_given i.delivered_at)

  -- No job is lost, a new one is of a runnable intent, and a pass that ran to its end leaves a job for
  -- every runnable intent that was not delivered, where these fit a page.
  pub record IsDelivered (p : Publishing b) (r : Bool × Publishing b) : Type 0 where
    pub kept : (j : JobId) → (not (b.has j p.jobs) || b.has j r.1.jobs) ≡ true
    pub only :
        (j : JobId)
        → (not (b.has j r.1.jobs)
            || b.has j p.jobs
            || any (λ i. runnable i && is_same_job (job_of i) j) p.intents)
          ≡ true
    pub complete :
        (not r.0
          || ltb 200 (length (filter is_undelivered p.intents))
          || all (λ i. not (is_undelivered i) || b.has (job_of i) r.1.jobs) p.intents)
        ≡ true

  page_complete :
      (p : Publishing b) (r : Bool × Publishing b)
      → IsComplete b laws (rows_of b runnable p) r
      → (not r.0
          || ltb 200 (length (filter is_undelivered p.intents))
          || all (λ i. not (is_undelivered i) || b.has (job_of i) r.1.jobs) p.intents)
        ≡ true
  page_complete p (false, after) h = refl
  page_complete p (true, after) h =
      elim (Bool-cases (ltb 200 (length (filter is_undelivered p.intents)))) [
        | inl many ↦ rw many refl
        | inr few ↦
            let q : Intent → Bool = λ i. b.has (job_of i) after.jobs in
            let pending = pending_rows runnable p.intents in
            let recovery = recovery_rows runnable p.cursor p.intents in
            rw few (
              all_fresh runnable q p.intents (le_of_not_ltb 200 _ few) (
                left_of (all q pending) (all q recovery) (sym (all-append q pending recovery) ∙ h)))
      ]

  -- A pass of the dispatch keeps every job of the server. A job that it adds is that of an intent that is
  -- not cancelled, whose candidate is queued and has no attempt since. If no call of the server fails
  -- and at most 200 such intents are undelivered, each of these has a job afterwards.
  pub dispatch_pending-IsDelivered :
      (now : ℕ) (p : Publishing b)
      → IsDelivered p (dispatch_pending_applications b now newest_attempt candidates p)
  unfolding dispatch_pending_applications
  dispatch_pending-IsDelivered now p =
      let rows = rows_of b runnable p in
      let from = record p { cursor = next_cursor b (recovery_rows runnable p.cursor p.intents) } in
      let h = publish-Publishes b laws now rows from in
      record {
        kept = h.kept;
        only = λ j.
            last_implies (b.has j (publish b now rows from).1.jobs) (b.has j p.jobs)
              (any (λ i. is_same_job (job_of i) j) rows)
              (any (λ i. runnable i && is_same_job (job_of i) j) p.intents) (h.only j)
              (any_row runnable (λ i. is_same_job (job_of i) j) p.cursor p.intents);
        complete =
            page_complete p (publish b now rows from) (publish-IsComplete b laws now rows from);
      }
