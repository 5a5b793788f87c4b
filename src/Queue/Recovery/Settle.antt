-- ===== src/Queue/Recovery/Settle.antt =====
-- What the recoveries of src/hunt/application-queue.ts leave behind: no lost candidate, and no run
-- that applies for nothing.
use job_hunters_api.Common.{
  update_where, ℕ, ◌<◌, ◌==◌, ◌≡◌, subst, Bool, true, false, Bool-cases, inl, inr, ◌&&◌, ◌||◌, ◌⊎◌,
  List, [], ◌∷◌, any, if◌then◌else◌, ==_iff, arith, All,
}
use job_hunters_api.Queue.Store.{Candidate, Run, in_array}
use job_hunters_api.Queue.Recovery.{
  Tables, is_in_progress, is_applying, stale_rows, repair_rows, settle_run, settle_runs, fail_run,
  active_in, reconcile_interrupted_applications,
}
use job_hunters_api.Queue.Recovery.Pass.{review, is_lost, reconcile-update}

module _ (live : (run_id candidate_id : ℕ) → Bool) where
  one_lost :
      (cutoff : ℕ) (t : Tables) (all : List Candidate) (c : Candidate)
      → (is_lost live cutoff t c ≡ true
          → any (λ x. (x.id == c.id) && is_lost live cutoff t x) all ≡ true)
      → is_lost live cutoff t (
          if is_in_progress c.status && any (λ x. (x.id == c.id) && is_lost live cutoff t x) all
          then review c
          else c)
        ≡ false
  one_lost cutoff t all c h =
      elim (Bool-cases
        (is_in_progress c.status && any (λ x. (x.id == c.id) && is_lost live cutoff t x) all)) [
          | inl e ↦ rw e (ground arith)
          | inr e ↦ elim (Bool-cases (is_lost live cutoff t c)) [
            | inl lost ↦ absurd (let k = h lost in ground arith)
            | inr fine ↦ rw e fine
          ]
        ]

  none_lost :
      (cutoff : ℕ) (t : Tables) (all cs : List Candidate)
      → ((id : ℕ)
          → any (λ x. (x.id == id) && is_lost live cutoff t x) cs ≡ true
          → any (λ x. (x.id == id) && is_lost live cutoff t x) all ≡ true)
      → All
          (λ c. is_lost live cutoff t c ≡ false)
          (update_where
            (λ c.
              is_in_progress c.status && any (λ x. (x.id == c.id) && is_lost live cutoff t x) all)
            review
            cs)
  none_lost cutoff t all [] h = tt
  none_lost cutoff t all (c ∷ cs) h = (
    one_lost cutoff t all c (λ lost. h c.id (ground arith)),
    none_lost cutoff t all cs (λ id k. h id (ground arith)),
  )

  -- After a pass no lost candidate is left waiting or applying: whatever is still in progress, in a
  -- run that applied, has a job in the queue or was touched since `cutoff`.
  pub reconcile-none_lost :
      (now cutoff : ℕ) (t : Tables)
      → All
          (λ c. is_lost live cutoff t c ≡ false)
          (reconcile_interrupted_applications live now cutoff t).0.store.candidates
  reconcile-none_lost now cutoff t =
      rw (reconcile-update live now cutoff t)
        (none_lost cutoff t t.store.candidates t.store.candidates (λ id k. k))

  -- A run that applies still has a candidate to settle.
  abbrev IsBusy : List Candidate → Run → Type 0
  IsBusy cs r = is_applying r.status ≡ true → 0 < active_in r.id cs

  abbrev Settled : List ℕ → Tables → Type 0
  Settled ids t = All (λ r. in_array r.id ids ≡ true → IsBusy t.store.candidates r) t.store.runs

  fail_runs-Settled :
      (now id : ℕ) (ids : List ℕ) (cs : List Candidate) (rs : List Run)
      → All (λ r. in_array r.id ids ≡ true → IsBusy cs r) rs
      → All
          (λ r. in_array r.id (id ∷ ids) ≡ true → IsBusy cs r)
          (update_where (λ r. (r.id == id) && is_applying r.status) (fail_run live now) rs)
  fail_runs-Settled now id ids cs [] h = tt
  fail_runs-Settled now id ids cs (r ∷ rs) (h, k) = (one r h, fail_runs-Settled now id ids cs rs k)
    where
      one :
          (r : Run)
          → (in_array r.id ids ≡ true → IsBusy cs r)
          → in_array
              (if (r.id == id) && is_applying r.status then fail_run live now r else r).id
              (id ∷ ids)
            ≡ true
          → IsBusy cs (if (r.id == id) && is_applying r.status then fail_run live now r else r)
      one r h member busy = elim (Bool-cases ((r.id == id) && is_applying r.status)) [
        | inl e ↦
            let k : is_applying (fail_run live now r).status ≡ true = rw e at busy in
            absurd (ground arith)
        | inr e ↦ rw e (h (ground arith) (rw e at busy))
      ]

  IsBusy-Settled :
      (id : ℕ) (ids : List ℕ) (cs : List Candidate) (rs : List Run)
      → 0 < active_in id cs
      → All (λ r. in_array r.id ids ≡ true → IsBusy cs r) rs
      → All (λ r. in_array r.id (id ∷ ids) ≡ true → IsBusy cs r) rs
  IsBusy-Settled id ids cs [] active h = tt
  IsBusy-Settled id ids cs (r ∷ rs) active (h, k) = (
    (λ member busy. elim (Bool-cases (id == r.id)) [
      | inl e ↦ subst (λ n. 0 < active_in n cs) ((==_iff id r.id).0 e) active
      | inr e ↦ h (ground arith) busy
    ]),
    IsBusy-Settled id ids cs rs active k,
  )

  settle_run-Settled :
      (now id : ℕ) (ids : List ℕ) (t : Tables)
      → Settled ids t
      → Settled (id ∷ ids) (settle_run live now id t)
  settle_run-Settled now id ids t h = elim (Bool-cases (active_in id t.store.candidates == 0)) [
    | inl e ↦ rw e (fail_runs-Settled now id ids t.store.candidates t.store.runs h)
    | inr e ↦ rw e (IsBusy-Settled id ids t.store.candidates t.store.runs (ground arith) h)
  ]

  reorder :
      (id : ℕ) (ids over : List ℕ) (cs : List Candidate) (rs : List Run)
      → All (λ r. (in_array r.id ids || in_array r.id (id ∷ over)) ≡ true → IsBusy cs r) rs
      → All (λ r. (in_array r.id (id ∷ ids) || in_array r.id over) ≡ true → IsBusy cs r) rs
  reorder id ids over cs [] h = tt
  reorder id ids over cs (r ∷ rs) (h, k) =
      ((λ member. h (ground arith)), reorder id ids over cs rs k)

  settle_runs-Settled :
      (now : ℕ) (ids over : List ℕ) (t : Tables)
      → Settled over t
      → All
          (λ r.
            (in_array r.id ids || in_array r.id over) ≡ true
            → IsBusy (settle_runs live now ids t).store.candidates r)
          (settle_runs live now ids t).store.runs
  unfolding settle_runs
  settle_runs-Settled now [] over t h = h
  settle_runs-Settled now (id ∷ ids) over t h = reorder id ids over _ _ (
      settle_runs-Settled now ids (id ∷ over) (settle_run live now id t)
        (settle_run-Settled now id over t h))

  nothing_settled :
      (cs : List Candidate) (rs : List Run) → All (λ r. in_array r.id [] ≡ true → IsBusy cs r) rs
  nothing_settled cs [] = tt
  nothing_settled cs (r ∷ rs) = ((λ member. absurd (ground arith)), nothing_settled cs rs)

  drop_over :
      (ids : List ℕ) (cs : List Candidate) (rs : List Run)
      → All (λ r. (in_array r.id ids || in_array r.id []) ≡ true → IsBusy cs r) rs
      → All (λ r. in_array r.id ids ≡ true → IsBusy cs r) rs
  drop_over ids cs [] h = tt
  drop_over ids cs (r ∷ rs) (h, k) = ((λ member. h (ground arith)), drop_over ids cs rs k)

  busy_or_not :
      (ids : List ℕ) (cs : List Candidate) (rs : List Run)
      → All (λ r. in_array r.id ids ≡ true → IsBusy cs r) rs
      → All
          (λ r. ((in_array r.id ids && is_applying r.status) ≡ false) ⊎ (0 < active_in r.id cs))
          rs
  busy_or_not ids cs [] h = tt
  busy_or_not ids cs (r ∷ rs) (h, k) = (
    elim (Bool-cases (in_array r.id ids && is_applying r.status)) [
      | inl e ↦ inr (h (ground arith) (ground arith))
      | inr e ↦ inl e
    ],
    busy_or_not ids cs rs k,
  )

  -- A run of which a pass repaired an application does not stay behind for nothing: it no longer
  -- applies after the pass, or one of its candidates is approved, tailored, queued or applying.
  reconcile-IsBusy :
      (now cutoff : ℕ) (t : Tables)
      → All
          (λ r.
            ((in_array r.id
                  (repair_rows live now
                    (stale_rows cutoff t)
                    (record { tables = t; repaired_runs = []; repaired = 0 })).repaired_runs
                && is_applying r.status)
              ≡ false)
            ⊎ (0
                < active_in r.id
                    (reconcile_interrupted_applications live now cutoff t).0.store.candidates))
          (reconcile_interrupted_applications live now cutoff t).0.store.runs
  unfolding reconcile_interrupted_applications
  reconcile-IsBusy now cutoff t =
      let p =
        repair_rows live now (stale_rows cutoff t)
          (record { tables = t; repaired_runs = []; repaired = 0 }) in
      busy_or_not p.repaired_runs _ _ (
        drop_over p.repaired_runs _ _ (
          settle_runs-Settled now p.repaired_runs [] p.tables
            (nothing_settled p.tables.store.candidates p.tables.store.runs)))
