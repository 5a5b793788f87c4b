-- ===== src/Queue/Dispatch/Published.antt =====
-- What the server holds after a pass of `dispatchPendingApplications`, and after the removal of a
-- candidate's jobs, in src/hunt/application-queue.ts.
use job_hunters_api.Common.{
  ℕ, ◌≡◌, refl, sym, subst, Bool, Bool-cases, inl, inr, true, false, not, ◌&&◌, ◌||◌, some,
  Option-cases, List, [], ◌∷◌, any, all, arith,
}
use job_hunters_api.Queue.Dispatch.{
  JobId, of_dispatch, of_candidate, is_same_job, Intent, BullQueue, IsBullQueue, is_given,
  Publishing, mark_delivered, publish,
}

pub is_same_job_self : (j : JobId) → is_same_job j j ≡ true
is_same_job_self (of_dispatch id) = ground arith
is_same_job_self (of_candidate id) = ground arith

abbrev pub job_of : Intent → JobId
job_of i = of_dispatch i.dispatch.id

module _ (b : BullQueue) (laws : IsBullQueue b) where
  -- From the jobs before to those after: nothing is lost, and what is new is of one of the intents.
  pub record Publishes (rows : List Intent) (before after : b.Jobs) : Type 0 where
    pub kept : (j : JobId) → (not (b.has j before) || b.has j after) ≡ true
    pub only :
        (j : JobId)
        → (not (b.has j after) || b.has j before || any (λ i. is_same_job (job_of i) j) rows) ≡ true

  Publishes-skip :
      (i : Intent) (rows : List Intent) (before after : b.Jobs)
      → Publishes rows before after
      → Publishes (i ∷ rows) before after
  Publishes-skip i rows before after h = record {
    kept = h.kept;
    only = λ j. ground (arith, h.only j);
  }

  Publishes-add :
      (i : Intent) (rows : List Intent) (before middle after : b.Jobs)
      → b.add (job_of i) before ≡ some middle
      → Publishes rows middle after
      → Publishes (i ∷ rows) before after
  Publishes-add i rows before middle after added h = record {
    kept = λ j. ground (arith, h.kept j, laws.added (job_of i) before middle j added);
    only = λ j. ground (arith, h.only j, laws.added (job_of i) before middle j added);
  }

  pub publish-Publishes :
      (now : ℕ) (rows : List Intent) (p : Publishing b)
      → Publishes rows p.jobs (publish b now rows p).1.jobs
  unfolding publish
  publish-Publishes now [] p = record { kept = λ j. ground arith; only = λ j. ground arith }
  publish-Publishes now (i ∷ rows) p =
      elim (Bool-cases (is_given i.delivered_at && b.has (job_of i) p.jobs)) [
        | inl there ↦ rw there (Publishes-skip i rows p.jobs _ (publish-Publishes now rows p))
        | inr gone ↦ rw gone (elim (Option-cases (b.add (job_of i) p.jobs)) [
          | inl throws ↦ rw throws (record { kept = λ j. ground arith; only = λ j. ground arith })
          | inr (jobs, added) ↦ rw added (
              Publishes-add i rows p.jobs jobs _ added
                (publish-Publishes now rows (mark_delivered b now i (record p { jobs = jobs }))))
        ])
      ]

  -- A pass that ran to its end: every one of its intents has a job.
  abbrev pub IsComplete : List Intent → Bool × Publishing b → Type 0
  IsComplete rows (ran, p) = (not ran || all (λ i. b.has (job_of i) p.jobs) rows) ≡ true

  IsComplete-cons :
      (i : Intent) (rows : List Intent) (r : Bool × Publishing b)
      → b.has (job_of i) r.1.jobs ≡ true
      → IsComplete rows r
      → IsComplete (i ∷ rows) r
  IsComplete-cons i rows r here h = ground arith

  pub publish-IsComplete :
      (now : ℕ) (rows : List Intent) (p : Publishing b) → IsComplete rows (publish b now rows p)
  unfolding publish
  publish-IsComplete now [] p = refl
  publish-IsComplete now (i ∷ rows) p =
      elim (Bool-cases (is_given i.delivered_at && b.has (job_of i) p.jobs)) [
        | inl there ↦
            let same : publish b now (i ∷ rows) p ≡ publish b now rows p = rw there refl in
            subst (IsComplete (i ∷ rows)) (sym same) (
              IsComplete-cons i rows (publish b now rows p)
                (ground (arith, there, (publish-Publishes now rows p).kept (job_of i)))
                (publish-IsComplete now rows p))
        | inr gone ↦ elim (Option-cases (b.add (job_of i) p.jobs)) [
          | inl throws ↦
              let same : publish b now (i ∷ rows) p ≡ (false, p) = rw gone (rw throws refl) in
              subst (IsComplete (i ∷ rows)) (sym same) refl
          | inr (jobs, added) ↦
              let after = mark_delivered b now i (record p { jobs = jobs }) in
              let same : publish b now (i ∷ rows) p ≡ publish b now rows after =
                rw gone (rw added refl) in
              subst (IsComplete (i ∷ rows)) (sym same) (
                IsComplete-cons i rows (publish b now rows after)
                  (ground (
                    arith,
                    laws.added (job_of i) p.jobs jobs (job_of i) added,
                    is_same_job_self (job_of i),
                    (publish-Publishes now rows after).kept (job_of i),
                  ))
                  (publish-IsComplete now rows after))
        ]
      ]
