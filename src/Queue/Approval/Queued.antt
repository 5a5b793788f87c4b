-- ===== src/Queue/Approval/Queued.antt =====
-- What `enqueueApprovedCandidates` of src/hunt/application-queue.ts leaves of the jobs that it queues.
use Prim.Native.String.{String}
use job_hunters_api.Common.{
  update_where, ℕ, ◌+◌, ◌≤◌, ◌==◌, ◌≡◌, refl, ap, ◌∙◌, Bool, Bool-cases, inl, inr, true, false, not,
  ◌&&◌, Option, none, some, List, [], ◌∷◌, ◌++◌, any, any-append, any-map, any_of_count, count,
  count-filter-le, filter, map, min, if◌then◌else◌, arith, All,
}
use job_hunters_api.Common.Sort.{sort_asc, count-sort_asc}
use job_hunters_api.Queue.Order.{plan_application_order}
use job_hunters_api.Queue.Order.Plan.{count-plan-le}
use job_hunters_api.Queue.Store.{
  Candidate, CandidateStatus, Application, Dispatch, Run, Store, in_array, budget,
}
use job_hunters_api.Queue.Approval.Accounts.{All-implies}
use job_hunters_api.Queue.Store.Enqueue.{
  enqueue_in_run, selected_rows, order_of, has_application, jobs_of, set_status, set_aside,
  new_application, insert_applications, insert_dispatches, write_queue, insert_events, mark_queued,
}

abbrev is_in_queue : CandidateStatus → Bool
is_in_queue CandidateStatus.queued = true
is_in_queue _ = false

abbrev is_standing : Option ℕ → Bool
is_standing none = true
is_standing (some at) = false

abbrev is_dispatched : List Dispatch → ℕ → Bool
is_dispatched dispatches id =
    any (λ d. (d.candidate_id == id) && is_standing d.cancelled_at) dispatches

-- A queued candidate of the job, with a dispatch that is not cancelled, and an application for the job.
abbrev pub is_queued_job : Store → ℕ → Bool
is_queued_job s job_id =
    any (λ c. (c.job_id == job_id) && is_in_queue c.status && is_dispatched s.dispatches c.id)
      s.candidates
    && has_application s job_id

any_mono :
    {A : Type 0} (p q : A → Bool) (xs : List A)
    → ((x : A) → p x ≡ true → q x ≡ true)
    → any p xs ≡ true
    → any q xs ≡ true
any_mono p q [] f h = cc
any_mono p q (x ∷ xs) f h = ground (arith, f x, any_mono p q xs f)

-- Applications.
insert_applications-keep :
    (now run_id job_id : ℕ) (cs : List Candidate) (s : Store)
    → has_application s job_id ≡ true
    → has_application (insert_applications now run_id cs s) job_id ≡ true
unfolding insert_applications
insert_applications-keep now run_id job_id [] s h = h
insert_applications-keep now run_id job_id (c ∷ cs) s h =
    elim (Bool-cases (has_application s c.job_id)) [
      | inl known ↦
          rw (insert_applications, known) (insert_applications-keep now run_id job_id cs s h)
      | inr new ↦
          rw (insert_applications, new)
            (insert_applications-keep now run_id job_id cs _
              (any-append (λ (a : Application). a.job_id == job_id) s.applications _ ∙ rw h refl))
    ]

insert_applications-All :
    (now run_id : ℕ) (cs : List Candidate) (s : Store)
    → All (λ c. has_application (insert_applications now run_id cs s) c.job_id ≡ true) cs
unfolding insert_applications
insert_applications-All now run_id [] s = tt
insert_applications-All now run_id (c ∷ cs) s =
    let middle = if has_application s c.job_id then s else record s {
      applications = s.applications ++ new_application now run_id s.next_id c ∷ [];
      next_id = s.next_id + 1;
    } in
    let known : has_application middle c.job_id ≡ true =
      elim (Bool-cases (has_application s c.job_id)) [
        | inl old ↦ rw old old
        | inr new ↦
            rw new (
              any-append (λ (a : Application). a.job_id == c.job_id) s.applications _
              ∙ ground arith)
      ] in
    (
      insert_applications-keep now run_id c.job_id cs middle known,
      insert_applications-All now run_id cs middle,
    )

insert_dispatches-rest :
    (cs : List Candidate) (s : Store)
    → ((insert_dispatches cs s).candidates ≡ s.candidates)
      × ((insert_dispatches cs s).applications ≡ s.applications)
unfolding insert_dispatches
insert_dispatches-rest [] s = (refl, refl)
insert_dispatches-rest (c ∷ cs) s = insert_dispatches-rest cs _

insert_applications-candidates :
    (now run_id : ℕ) (cs : List Candidate) (s : Store)
    → (insert_applications now run_id cs s).candidates ≡ s.candidates
unfolding insert_applications
insert_applications-candidates now run_id [] s = refl
insert_applications-candidates now run_id (c ∷ cs) s =
    insert_applications-candidates now run_id cs _ ∙ same (has_application s c.job_id)
  where
    same :
        (known : Bool)
        → (if known then s else record s {
          applications = s.applications ++ new_application now run_id s.next_id c ∷ [];
          next_id = s.next_id + 1;
        }).candidates
          ≡ s.candidates
    same true = refl
    same false = refl

insert_dispatches-keep :
    (id : ℕ) (cs : List Candidate) (s : Store)
    → is_dispatched s.dispatches id ≡ true
    → is_dispatched (insert_dispatches cs s).dispatches id ≡ true
unfolding insert_dispatches
insert_dispatches-keep id [] s h = h
insert_dispatches-keep id (c ∷ cs) s h = insert_dispatches-keep id cs _ (
    any-append (λ (d : Dispatch). (d.candidate_id == id) && is_standing d.cancelled_at) s.dispatches
      _
    ∙ rw h refl)

insert_dispatches-All :
    (cs : List Candidate) (s : Store)
    → All (λ c. is_dispatched (insert_dispatches cs s).dispatches c.id ≡ true) cs
unfolding insert_dispatches
insert_dispatches-All [] s = tt
insert_dispatches-All (c ∷ cs) s = (
  insert_dispatches-keep c.id cs _ (
      any-append (λ (d : Dispatch). (d.candidate_id == c.id) && is_standing d.cancelled_at)
        s.dispatches _
      ∙ ground arith),
  insert_dispatches-All cs _,
)

abbrev is_row : Candidate → Candidate → Bool
is_row x c = (c.id == x.id) && (c.job_id == x.job_id)

-- A row that is queued by its id is not put back.
marked :
    (x : Candidate) (ids all : List ℕ) (cs : List Candidate)
    → in_array x.id ids ≡ true
    → any (is_row x) cs ≡ true
    → any
        (λ c. is_row x c && is_in_queue c.status)
        (update_where
          (λ c. in_array c.id all && not (in_array c.id ids))
          (set_status CandidateStatus.discovered)
          (update_where (λ c. in_array c.id ids) (set_status CandidateStatus.queued) cs))
      ≡ true
marked x ids all [] h e = cc
marked x ids all (c ∷ cs) h e = elim (Bool-cases (is_row x c)) [
  | inl this ↦
      let own : c.id ≡ x.id = ground arith in
      let here : in_array c.id ids ≡ true = rw own h in rw here (rw here (ground (arith, here)))
  | inr other ↦ let rest = marked x ids all cs h (rw other at e) in ground arith
]

aside :
    (x : Candidate) (test : Candidate → Bool) (cs : List Candidate)
    → any (is_row x) cs ≡ true
    → any (is_row x) (update_where test (set_status CandidateStatus.needs_review) cs) ≡ true
aside x test [] e = cc
aside x test (c ∷ cs) e = ground (arith, aside x test cs)

-- What a list offers of another.
All-offered :
    (xs : List Candidate) (cs : List Candidate)
    → ((q : Candidate → Bool) → count q xs ≤ count q cs)
    → All (λ x. any (is_row x) cs ≡ true) xs
All-offered [] cs less = tt
All-offered (x ∷ xs) cs less = (
  any_of_count (is_row x) cs (ground (arith, less (is_row x))),
  All-offered xs cs (λ q. ground (arith, less q)),
)

-- A list's own rows stand in it by their ids.
All-named :
    (xs all : List Candidate)
    → ((q : Candidate → Bool) → count q xs ≤ count q all)
    → All (λ x. in_array x.id (map (λ c. c.id) all) ≡ true) xs
All-named [] all less = tt
All-named (x ∷ xs) all less = (
  any-map (λ other. other == x.id) (λ (c : Candidate). c.id) all
      ∙ any_of_count (λ c. c.id == x.id) all (ground (arith, less (λ c. c.id == x.id))),
  All-named xs all (λ q. ground (arith, less q)),
)

All-job_ids :
    (s : Store) (xs : List Candidate)
    → All (λ x. is_queued_job s x.job_id ≡ true) xs
    → All (λ job_id. is_queued_job s job_id ≡ true) (jobs_of xs)
All-job_ids s [] h = tt
All-job_ids s (x ∷ xs) (here, rest) = (here, All-job_ids s xs rest)

module _ (now run_id : ℕ) (applyable ordered : List Candidate) where
  queued_row :
      (x : Candidate) (s : Store)
      → any (is_row x) s.candidates ≡ true
      → in_array x.id (map (λ c. c.id) ordered) ≡ true
      → is_dispatched s.dispatches x.id ≡ true
      → has_application s x.job_id ≡ true
      → is_queued_job (mark_queued now run_id applyable ordered s) x.job_id ≡ true
  queued_row x s there picked sent applied =
      let row =
        marked x (map (λ c. c.id) ordered) (map (λ c. c.id) applyable) s.candidates picked there in
      let queued =
        any_mono (λ c. is_row x c && is_in_queue c.status)
          (λ c. (c.job_id == x.job_id) && is_in_queue c.status && is_dispatched s.dispatches c.id) _
          (λ c here.
            let same : c.id ≡ x.id = ground arith in
            let live : is_dispatched s.dispatches c.id ≡ true = rw same sent in
            ground (arith, live))
          row in
      rw queued applied

  queued_rows :
      (xs : List Candidate) (s : Store)
      → All (λ x. any (is_row x) s.candidates ≡ true) xs
      → All (λ x. in_array x.id (map (λ c. c.id) ordered) ≡ true) xs
      → All (λ x. is_dispatched s.dispatches x.id ≡ true) xs
      → All (λ x. has_application s x.job_id ≡ true) xs
      → All (λ x. is_queued_job (mark_queued now run_id applyable ordered s) x.job_id ≡ true) xs
  queued_rows [] s there picked sent applied = tt
  queued_rows (x ∷ xs) s (t, there) (p, picked) (d, sent) (a, applied) =
      (queued_row x s t p d a, queued_rows xs s there picked sent applied)

write_queue-All :
    (now run_id : ℕ) (ids : List ℕ) (applyable ordered : List Candidate) (s : Store)
    → All (λ x. any (is_row x) s.candidates ≡ true) ordered
    → All
        (λ x. is_queued_job (write_queue now run_id ids applyable ordered s) x.job_id ≡ true)
        ordered
write_queue-All now run_id ids applyable [] s h = tt
write_queue-All now run_id ids applyable (c ∷ cs) s h =
    let ordered = c ∷ cs in
    let applied = insert_applications now run_id ordered s in
    let (rows, apps) = insert_dispatches-rest ordered applied in
    queued_rows now run_id applyable ordered ordered
      (insert_events ordered (insert_dispatches ordered applied))
      (All-implies _ _ ordered
        (λ x e.
          ap (any (is_row x)) (rows ∙ insert_applications-candidates now run_id ordered s) ∙ e)
        h)
      (All-named ordered ordered (λ q. omega arith)) (insert_dispatches-All ordered applied)
      (All-implies _ _ ordered (λ x e. ap (any (λ a. a.job_id == x.job_id)) apps ∙ e)
        (insert_applications-All now run_id ordered s))

module _ (is_aggregator : String → Bool) (now : ℕ) where
  pub enqueue_in_run-queues :
      (run : Run) (ids : List ℕ) (s : Store)
      → let (e, after) = enqueue_in_run is_aggregator now run ids s in
        All (λ job_id. is_queued_job after job_id ≡ true) e.queued_job_ids
  enqueue_in_run-queues run ids s =
      let rows = selected_rows run.id ids s in
      let key = λ (c : Candidate). order_of 0 0 c.id ids in
      let selected = sort_asc key rows in
      let unavailable = filter (λ c. is_aggregator c.apply_url) selected in
      let applyable = filter (λ c. not (is_aggregator c.apply_url)) selected in
      let target = min run.target (budget now s).remaining in
      let ordered = plan_application_order (λ (c : Candidate). c.portal) applyable target in
      All-job_ids (enqueue_in_run is_aggregator now run ids s).1 ordered (
        write_queue-All now run.id ids applyable ordered (set_aside run.id unavailable s) (
          All-implies _ _ ordered (λ x here. aside x _ s.candidates here)
            (All-offered ordered s.candidates (λ q. omega (
              arith,
              count-plan-le (λ (c : Candidate). c.portal) applyable target q,
              count-filter-le q (λ (c : Candidate). not (is_aggregator c.apply_url)) selected,
              count-sort_asc key q rows,
              selected-le run.id ids s q,
            )))))
    where
      selected-le :
          (run_id : ℕ) (ids : List ℕ) (s : Store) (q : Candidate → Bool)
          → count q (selected_rows run_id ids s) ≤ count q s.candidates
      selected-le run_id ids s q = count-filter-le q _ s.candidates
