-- ===== src/Queue/Recovery/Pass.antt =====
-- What a pass of `reconcileInterruptedApplications` in src/hunt/application-queue.ts does to the
-- candidates.
use job_hunters_api.Common.{
  update_where, ℕ, ◌==◌, ◌≡◌, refl, sym, ap, ◌∙◌, Bool, true, false, Bool-cases, inl, inr, not,
  ◌&&◌, ◌||◌, Option, none, List, [], ◌∷◌, ◌++◌, any, filter, if◌then◌else◌, arith,
}
use job_hunters_api.Queue.Store.{CandidateStatus, Candidate}
use job_hunters_api.Queue.Store.Enqueue.{set_status}
use job_hunters_api.Queue.Recovery.{
  AttemptRow, Tables, is_in_progress, is_open, is_interrupted, Row, with_attempts, is_stale, join,
  stale_rows, Repair, repair_row, repair_rows, settle_run, settle_runs, active_in,
  reconcile_interrupted_applications,
}

abbrev pub review : Candidate → Candidate
review c = set_status CandidateStatus.needs_review c

-- An update whose test no row passes does nothing.
update_where-none :
    (test : Candidate → Bool) (f : Candidate → Candidate) (cs : List Candidate)
    → any test cs ≡ false
    → update_where test f cs ≡ cs
update_where-none test f [] h = refl
update_where-none test f (c ∷ cs) h = elim (Bool-cases (test c)) [
  | inl e ↦ absurd (ground arith)
  | inr e ↦ rw e (ap (λ rest. c ∷ rest) (update_where-none test f cs (rw e at h)))
]

module _ (live : (run_id candidate_id : ℕ) → Bool) where
  abbrev is_dead_row : ℕ → Row → Bool
  is_dead_row id (c, attempt) = (c.id == id) && not (live c.run_id c.id)

  -- The candidates that the rows name, reviewed.
  abbrev lost_in : List Row → Candidate → Bool
  lost_in rows c = is_in_progress c.status && any (is_dead_row c.id) rows

  repair_row-candidates :
      (now : ℕ) (c : Candidate) (attempt : Option ℕ) (p : Repair)
      → (repair_row live now (c, attempt) p).tables.store.candidates ≡ (
          if live c.run_id c.id
          then p.tables.store.candidates
          else update_where (is_interrupted c.id) review p.tables.store.candidates)
  repair_row-candidates now c attempt p = elim (Bool-cases (live c.run_id c.id)) [
    | inl e ↦ rw e refl
    | inr e ↦ elim (Bool-cases (any (is_interrupted c.id) p.tables.store.candidates)) [
      | inl found ↦ rw (e, found) refl
      | inr absent ↦ rw (e, absent) (sym (update_where-none (is_interrupted c.id) review _ absent))
    ]
  ]

  review_then :
      (c : Candidate) (attempt : Option ℕ) (rows : List Row) (cs : List Candidate)
      → live c.run_id c.id ≡ false
      → update_where (lost_in rows) review (update_where (is_interrupted c.id) review cs)
        ≡ update_where (lost_in ((c, attempt) ∷ rows)) review cs
  review_then c attempt rows [] dead = refl
  review_then c attempt rows (x ∷ cs) dead = ground (arith, review_then c attempt rows cs dead)

  live_row :
      (c : Candidate) (attempt : Option ℕ) (rows : List Row) (cs : List Candidate)
      → live c.run_id c.id ≡ true
      → update_where (lost_in rows) review cs
        ≡ update_where (lost_in ((c, attempt) ∷ rows)) review cs
  live_row c attempt rows [] alive = refl
  live_row c attempt rows (x ∷ cs) alive = ground (arith, live_row c attempt rows cs alive)

  no_rows : (cs : List Candidate) → cs ≡ update_where (lost_in []) review cs
  no_rows [] = refl
  no_rows (c ∷ cs) = ground (arith, no_rows cs)

  repair_rows-candidates :
      (now : ℕ) (rows : List Row) (p : Repair)
      → (repair_rows live now rows p).tables.store.candidates
        ≡ update_where (lost_in rows) review p.tables.store.candidates
  unfolding repair_rows
  repair_rows-candidates now [] p = no_rows p.tables.store.candidates
  repair_rows-candidates now ((c, attempt) ∷ rows) p =
      repair_rows-candidates now rows (repair_row live now (c, attempt) p)
      ∙ ap (update_where (lost_in rows) review) (repair_row-candidates now c attempt p)
      ∙ elim (Bool-cases (live c.run_id c.id)) [
        | inl alive ↦ ap branch alive ∙ live_row c attempt rows p.tables.store.candidates alive
        | inr dead ↦ ap branch dead ∙ review_then c attempt rows p.tables.store.candidates dead
      ]
    where
      branch : Bool → List Candidate
      branch alive = update_where (lost_in rows) review (
          if alive
          then p.tables.store.candidates
          else update_where (is_interrupted c.id) review p.tables.store.candidates)

  settle_runs-candidates :
      (now : ℕ) (ids : List ℕ) (t : Tables)
      → (settle_runs live now ids t).store.candidates ≡ t.store.candidates
  unfolding settle_runs
  settle_runs-candidates now [] t = refl
  settle_runs-candidates now (id ∷ ids) t =
      settle_runs-candidates now ids (settle_run live now id t)
      ∙ elim (Bool-cases (active_in id t.store.candidates == 0)) [
        | inl e ↦ rw e refl
        | inr e ↦ rw e refl
      ]

  -- A candidate that is stale and for which the queue holds no job.
  abbrev pub is_lost : (cutoff : ℕ) → Tables → Candidate → Bool
  is_lost cutoff t c = is_stale cutoff t c && not (live c.run_id c.id)

  any-append :
      (id : ℕ) (a b : List Row)
      → any (is_dead_row id) (a ++ b) ≡ (any (is_dead_row id) a || any (is_dead_row id) b)
  any-append id [] b = refl
  any-append id (row ∷ a) b = ground (arith, any-append id a b)

  any-with_attempts :
      (id : ℕ) (c : Candidate) (attempts : List AttemptRow)
      → any (is_dead_row id) (with_attempts c attempts) ≡ is_dead_row id (c, none)
  any-with_attempts id c [] = ground arith
  any-with_attempts id c (a ∷ []) = ground arith
  any-with_attempts id c (a ∷ b ∷ attempts) = ground (arith, any-with_attempts id c (b ∷ attempts))

  any-join :
      (id cutoff : ℕ) (t : Tables) (attempts : List AttemptRow) (cs : List Candidate)
      → any (is_dead_row id) (join attempts (filter (is_stale cutoff t) cs))
        ≡ any (λ x. (x.id == id) && is_lost cutoff t x) cs
  any-join id cutoff t attempts [] = refl
  any-join id cutoff t attempts (c ∷ cs) =
      let open_attempts = filter (λ a. (a.candidate_id == c.id) && is_open a.status) attempts in
      let rest = any-join id cutoff t attempts cs in
      elim (Bool-cases (is_stale cutoff t c)) [
        | inl e ↦ rw e (
            any-append id (with_attempts c open_attempts)
              (join attempts (filter (is_stale cutoff t) cs))
            ∙ rw (any-with_attempts id c open_attempts, rest) refl)
        | inr e ↦ rw (e, rest) (ground arith)
      ]

  same_update :
      (p q : Candidate → Bool) (cs : List Candidate)
      → ((c : Candidate) → p c ≡ q c)
      → update_where p review cs ≡ update_where q review cs
  same_update p q [] h = refl
  same_update p q (c ∷ cs) h = ground (arith, h c, same_update p q cs h)

  -- One pass has the effect of one update: a candidate that waits or applies is set to
  -- `needs_review` when it is in a run that applies, was not touched since `cutoff`, and the queue
  -- holds no job for it; every other candidate is left as it is.
  pub reconcile-update :
      (now cutoff : ℕ) (t : Tables)
      → (reconcile_interrupted_applications live now cutoff t).0.store.candidates
        ≡ update_where
            (λ c.
              is_in_progress c.status
              && any (λ x. (x.id == c.id) && is_lost cutoff t x) t.store.candidates)
            (set_status CandidateStatus.needs_review)
            t.store.candidates
  unfolding reconcile_interrupted_applications
  reconcile-update now cutoff t =
      let start : Repair = record { tables = t; repaired_runs = []; repaired = 0 } in
      let p = repair_rows live now (stale_rows cutoff t) start in
      settle_runs-candidates now p.repaired_runs p.tables
      ∙ repair_rows-candidates now (stale_rows cutoff t) start
      ∙ same_update _ _ t.store.candidates (λ c.
        ap (λ b. is_in_progress c.status && b)
          (any-join c.id cutoff t t.attempts t.store.candidates))
