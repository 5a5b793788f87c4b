-- ===== src/Queue/Store/Allowance.antt =====
-- The daily allowance of src/hunt/application-policy.ts over the rows of a user: how every operation
-- changes the number of applications that it counts.

use job_hunters_api.Common.{
  ℕ, ◌+◌, ◌≤◌, ◌≡◌, refl, Bool, Bool-cases, inl, inr, List, [], ◌∷◌, ◌++◌, count, count-append,
  length, arith, ◌==◌,
}
use job_hunters_api.Queue.Store.{Candidate, Application, Store, is_reserved}
use job_hunters_api.Queue.Store.Enqueue.{
  has_application, new_application, insert_applications, insert_dispatches, write_queue,
}

abbrev pub has_app_id : ℕ → Application → Bool
has_app_id id a = a.id == id

-- Application ids are unique, and those from `next_id` on are free.
pub record HasFreshIds (s : Store) : Type 0 where
  pub unique : (id : ℕ) → count (has_app_id id) s.applications ≤ 1
  pub free : (id : ℕ) → s.next_id ≤ id → count (has_app_id id) s.applications ≡ 0

-- The rows of `t` are those of `s`, with `more` applications at most that a test can count.
pub record Grows (more : ℕ) (s t : Store) : Type 0 where
  pub fresh : HasFreshIds s → HasFreshIds t
  pub counted :
      (start : ℕ)
      → count (is_reserved start) t.applications ≤ count (is_reserved start) s.applications + more

pub Grows-trans :
    (m n sum : ℕ) (s t u : Store) → m + n ≤ sum → Grows m s t → Grows n t u → Grows sum s u
Grows-trans m n sum s t u le h k = record {
  fresh = λ f. k.fresh (h.fresh f);
  counted = λ start. omega (arith, h.counted start, k.counted start);
}

-- A change of other tables.
pub Grows-same :
    (s t : Store) → t.applications ≡ s.applications → s.next_id ≤ t.next_id → Grows 0 s t
Grows-same s t apps le = record {
  fresh = λ h. record {
    unique = λ id. rw apps (h.unique id);
    free = λ id free. rw apps (h.free id (omega arith));
  };
  counted = λ start. rw apps (omega arith);
}

insert_one-Grows :
    (now run_id : ℕ) (c : Candidate) (s : Store)
    → Grows 1 s (record s {
      applications = s.applications ++ new_application now run_id s.next_id c ∷ [];
      next_id = s.next_id + 1;
    })
insert_one-Grows now run_id c s =
    let row = new_application now run_id s.next_id c in
    record {
      fresh = λ h. record {
        unique = λ id.
            ground (
              arith,
              count-append (has_app_id id) s.applications (row ∷ []),
              h.unique id,
              h.free id,
            );
        free = λ id le.
            ground (arith, count-append (has_app_id id) s.applications (row ∷ []), h.free id);
      };
      counted = λ start. ground (arith, count-append (is_reserved start) s.applications (row ∷ []));
    }

Grows-refl : (more : ℕ) (s : Store) → Grows more s s
Grows-refl more s = record { fresh = λ h. h; counted = λ start. omega arith }

insert_applications-Grows :
    (now run_id : ℕ) (cs : List Candidate) (s : Store)
    → Grows (length cs) s (insert_applications now run_id cs s)
unfolding insert_applications
insert_applications-Grows now run_id [] s = Grows-refl 0 s
insert_applications-Grows now run_id (c ∷ cs) s = elim (Bool-cases (has_application s c.job_id)) [
  | inl known ↦ rw known (
      Grows-trans 1 (length cs) _ s s _ (omega arith) (Grows-refl 1 s)
        (insert_applications-Grows now run_id cs s))
  | inr new ↦ rw new (
      Grows-trans 1 (length cs) _ s _ _ (omega arith) (insert_one-Grows now run_id c s)
        (insert_applications-Grows now run_id cs _))
]

insert_dispatches-Grows : (cs : List Candidate) (s : Store) → Grows 0 s (insert_dispatches cs s)
unfolding insert_dispatches
insert_dispatches-Grows [] s = Grows-refl 0 s
insert_dispatches-Grows (c ∷ cs) s =
    Grows-trans 0 0 0 s _ _ (omega arith) (Grows-same s _ refl (omega arith))
      (insert_dispatches-Grows cs _)

pub write_queue-Grows :
    (now run_id : ℕ) (ids : List ℕ) (applyable ordered : List Candidate) (s : Store)
    → Grows (length ordered) s (write_queue now run_id ids applyable ordered s)
write_queue-Grows now run_id ids applyable [] s = Grows-same s _ refl (omega arith)
write_queue-Grows now run_id ids applyable (c ∷ cs) s =
    let ordered = c ∷ cs in
    let inserted = insert_applications now run_id ordered s in
    let dispatched = insert_dispatches ordered inserted in
    let up_to_events =
      Grows-trans (length ordered) 0 (length ordered) s inserted dispatched (omega arith)
        (insert_applications-Grows now run_id ordered s)
        (insert_dispatches-Grows ordered inserted) in
    Grows-trans (length ordered) 0 (length ordered) s dispatched _ (omega arith) up_to_events
      (Grows-same dispatched (write_queue now run_id ids applyable ordered s) refl (omega arith))
