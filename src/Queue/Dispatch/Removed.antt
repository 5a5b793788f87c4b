-- ===== src/Queue/Dispatch/Removed.antt =====
-- After `removeWaitingApplication` of src/hunt/application-queue.ts the server has no job of the candidate.
use job_hunters_api.Common.{
  ℕ, ◌≡◌, refl, Bool, Bool-cases, inl, inr, true, false, not, ◌||◌, some, Option-cases, List, [],
  ◌∷◌, any, all, arith, ◌==◌, ◌&&◌, All, map, filter,
}
use job_hunters_api.Queue.Dispatch.{
  JobId, of_candidate, of_dispatch, is_given, is_same_job, Intent, BullQueue, IsBullQueue,
  is_removable, remove_jobs, jobs_of_candidate, remove_waiting_application,
}
use job_hunters_api.Queue.Dispatch.Published.{is_same_job_self}

module _ (b : BullQueue) (laws : IsBullQueue b) where
  -- Only jobs of the list go; and all of them, unless one has started.
  pub record IsRemoved (ids : List JobId) (before : b.Jobs) (r : Bool × b.Jobs) : Type 0 where
    pub shrinks : (j : JobId) → (not (b.has j r.1) || b.has j before) ≡ true
    pub others :
        (j : JobId)
        → (not (b.has j before) || b.has j r.1 || any (λ id. is_same_job id j) ids) ≡ true
    pub cleared : (not r.0 || all (λ id. not (b.has id r.1)) ids) ≡ true

  refused-IsRemoved : (ids : List JobId) (q : b.Jobs) → IsRemoved ids q (false, q)
  refused-IsRemoved ids q = record {
    shrinks = λ j. ground arith;
    others = λ j. ground arith;
    cleared = refl;
  }

  absent-IsRemoved :
      (id : JobId) (ids : List JobId) (q : b.Jobs) (r : Bool × b.Jobs)
      → b.has id q ≡ false
      → IsRemoved ids q r
      → IsRemoved (id ∷ ids) q r
  absent-IsRemoved id ids q r absent h = record {
    shrinks = h.shrinks;
    others = λ j. ground (arith, h.others j);
    cleared = ground (arith, h.cleared, h.shrinks id);
  }

  gone-IsRemoved :
      (id : JobId) (ids : List JobId) (q middle : b.Jobs) (r : Bool × b.Jobs)
      → b.remove id q ≡ some middle
      → IsRemoved ids middle r
      → IsRemoved (id ∷ ids) q r
  gone-IsRemoved id ids q middle r removed h = record {
    shrinks = λ j. ground (arith, h.shrinks j, laws.removed id q middle j removed);
    others = λ j. ground (arith, h.others j, laws.removed id q middle j removed);
    cleared =
        ground (
          arith,
          h.cleared,
          h.shrinks id,
          laws.removed id q middle id removed,
          is_same_job_self id,
        );
  }

  remove_jobs-IsRemoved : (ids : List JobId) (q : b.Jobs) → IsRemoved ids q (remove_jobs b ids q)
  unfolding remove_jobs
  remove_jobs-IsRemoved [] q = record {
    shrinks = λ j. ground arith;
    others = λ j. ground arith;
    cleared = refl;
  }
  remove_jobs-IsRemoved (id ∷ ids) q = elim (Bool-cases (b.has id q)) [
    | inr absent ↦
        rw absent
          (absent-IsRemoved id ids q (remove_jobs b ids q) absent (remove_jobs-IsRemoved ids q))
    | inl there ↦ rw there (elim (Bool-cases (is_removable b (b.state id q))) [
      | inr started ↦ rw started (refused-IsRemoved (id ∷ ids) q)
      | inl waits ↦ rw waits (elim (Option-cases (b.remove id q)) [
        | inl refused ↦ rw refused (refused-IsRemoved (id ∷ ids) q)
        | inr (middle, removed) ↦ rw removed (
            gone-IsRemoved id ids q middle (remove_jobs b ids middle) removed
              (remove_jobs-IsRemoved ids middle))
      ])
    ])
  ]

  -- The jobs of a candidate by their names: the older one, and that of a dispatch of the candidate.
  abbrev pub is_job_of : ℕ → List Intent → JobId → Bool
  is_job_of candidate_id intents (of_candidate id) = id == candidate_id
  is_job_of candidate_id intents (of_dispatch id) =
      any (λ i. (i.dispatch.id == id) && (i.dispatch.candidate_id == candidate_id)) intents

  abbrev pub is_uncancelled : ℕ → Intent → Bool
  is_uncancelled candidate_id i =
      (i.dispatch.candidate_id == candidate_id) && not (is_given i.dispatch.cancelled_at)

  -- The first of the result says whether no conflict arose.
  pub record IsWithdrawn (candidate_id : ℕ) (intents : List Intent) (before : b.Jobs)
      (r : Bool × b.Jobs) : Type 0 where
    pub none_added : (j : JobId) → (not (b.has j r.1) || b.has j before) ≡ true
    pub only_own :
        (j : JobId)
        → (not (b.has j before) || b.has j r.1 || is_job_of candidate_id intents j) ≡ true
    pub old_gone : (not r.0 || not (b.has (of_candidate candidate_id) r.1)) ≡ true
    pub live_gone :
        All
          (λ i.
            (not r.0
              || not (is_uncancelled candidate_id i)
              || not (b.has (of_dispatch i.dispatch.id) r.1))
            ≡ true)
          intents

  abbrev dispatch_jobs : ℕ → List Intent → List JobId
  dispatch_jobs candidate_id intents =
      map (λ i. of_dispatch i.dispatch.id) (filter (is_uncancelled candidate_id) intents)

  dispatch-is_job_of :
      (candidate_id : ℕ) (j : JobId) (intents : List Intent)
      → any (λ id. is_same_job id j) (dispatch_jobs candidate_id intents) ≡ true
      → is_job_of candidate_id intents j ≡ true
  dispatch-is_job_of candidate_id (of_candidate id) [] e = absurd (ground arith)
  dispatch-is_job_of candidate_id (of_dispatch id) [] e = e
  dispatch-is_job_of candidate_id (of_candidate id) (i ∷ is) e =
      elim (Bool-cases (is_uncancelled candidate_id i)) [
        | inl live ↦ let k = rw live at e in dispatch-is_job_of candidate_id (of_candidate id) is k
        | inr other ↦ dispatch-is_job_of candidate_id (of_candidate id) is (rw other at e)
      ]
  dispatch-is_job_of candidate_id (of_dispatch id) (i ∷ is) e =
      elim (Bool-cases (is_uncancelled candidate_id i)) [
        | inl live ↦
            let k = rw live at e in
            ground (arith, dispatch-is_job_of candidate_id (of_dispatch id) is)
        | inr other ↦
            let k = dispatch-is_job_of candidate_id (of_dispatch id) is (rw other at e) in
            ground arith
      ]

  all_dispatched :
      (candidate_id : ℕ) (intents : List Intent) (r : Bool × b.Jobs)
      → (not r.0 || all (λ id. not (b.has id r.1)) (dispatch_jobs candidate_id intents)) ≡ true
      → All
          (λ i.
            (not r.0
              || not (is_uncancelled candidate_id i)
              || not (b.has (of_dispatch i.dispatch.id) r.1))
            ≡ true)
          intents
  all_dispatched candidate_id [] r h = tt
  all_dispatched candidate_id (i ∷ is) r h = elim (Bool-cases (is_uncancelled candidate_id i)) [
    | inl live ↦
        let k = rw live at h in (ground arith, all_dispatched candidate_id is r (ground arith))
    | inr other ↦ (ground arith, all_dispatched candidate_id is r (rw other at h))
  ]

  IsRemoved-IsWithdrawn :
      (candidate_id : ℕ) (intents : List Intent) (q : b.Jobs) (r : Bool × b.Jobs)
      → IsRemoved (jobs_of_candidate b candidate_id intents) q r
      → IsWithdrawn candidate_id intents q r
  IsRemoved-IsWithdrawn candidate_id intents q r h = record {
    none_added = h.shrinks;
    only_own = λ j. own j (h.others j);
    old_gone = ground (arith, h.cleared);
    live_gone = all_dispatched candidate_id intents r (ground (arith, h.cleared));
  }
    where
      own :
          (j : JobId)
          → (not (b.has j q)
              || b.has j r.1
              || any (λ id. is_same_job id j) (jobs_of_candidate b candidate_id intents))
            ≡ true
          → (not (b.has j q) || b.has j r.1 || is_job_of candidate_id intents j) ≡ true
      own (of_candidate id) e =
          ground (arith, dispatch-is_job_of candidate_id (of_candidate id) intents)
      own (of_dispatch id) e =
          ground (arith, dispatch-is_job_of candidate_id (of_dispatch id) intents)

  -- The removal of a candidate's jobs adds none and takes none but those of the candidate; and where it
  -- ends without a conflict, the server has no job under the candidate's name, and none of a
  -- dispatch of the candidate that is not cancelled.
  pub remove_waiting-IsRemoved :
      (candidate_id : ℕ) (intents : List Intent) (q : b.Jobs)
      → IsWithdrawn candidate_id intents q (remove_waiting_application b candidate_id intents q)
  unfolding remove_waiting_application
  remove_waiting-IsRemoved candidate_id intents q =
      IsRemoved-IsWithdrawn candidate_id intents q _
        (remove_jobs-IsRemoved (jobs_of_candidate b candidate_id intents) q)
