-- ===== src/Outreach/Sequence/Counting.antt =====
-- Counting the rows of src/outreach/sequence.ts before and after an update by id.
use job_hunters_api.Common.{
  one_if, count-update_where, ℕ, ◌+◌, ◌≤◌, ◌≡◌, refl, ap, Bool, true, false, Bool-cases, inl, inr,
  some, List, [], ◌∷◌, ◌++◌, map, find, count, arith, ◌==◌,
}
use job_hunters_api.Outreach.Sequence.{ProspectRow, has_id}
use job_hunters_api.Outreach.Sequence.Changes.{update_prospect}

-- An update of the one row that has an id changes a count by that row alone.
pub count-update :
    (q : ProspectRow → Bool) (f : ProspectRow → ProspectRow) (id : ℕ) (ps : List ProspectRow)
    {p : ProspectRow}
    → find (has_id id) ps ≡ some p
    → count (has_id id) ps ≤ 1
    → count q (map (update_prospect f id) ps) + one_if (q p) ≡ count q ps + one_if (q (f p))
count-update q f id ps e h = count-update_where (has_id id) f q ps e h

-- An update that a count does not see leaves it alone.
pub count-map-same :
    (q : ProspectRow → Bool) (g : ProspectRow → ProspectRow) (ps : List ProspectRow)
    → ((p : ProspectRow) → q (g p) ≡ q p)
    → count q (map g ps) ≡ count q ps
count-map-same q g [] h = refl
count-map-same q g (p ∷ ps) h = ground (arith, h p, count-map-same q g ps h)

pub find-map-same :
    (id : ℕ) (g : ProspectRow → ProspectRow) (ps : List ProspectRow) {p : ProspectRow}
    → ((r : ProspectRow) → (g r).id ≡ r.id)
    → find (has_id id) ps ≡ some p
    → find (has_id id) (map g ps) ≡ some (g p)
find-map-same id g [] h e = cc
find-map-same id g (r ∷ ps) {p} h e = elim (Bool-cases (r.id == id)) [
  | inl same ↦
      let kept : ((g r).id == id) ≡ true = rw (h r) same in
      let here : r ≡ p = ground arith in rw kept (ap (λ x. some (g x)) here)
  | inr other ↦
      let kept : ((g r).id == id) ≡ false = rw (h r) other in
      rw kept (find-map-same id g ps {p = p} h (rw other at e))
]

pub find-append :
    (id : ℕ) (ps qs : List ProspectRow) {p : ProspectRow}
    → find (has_id id) ps ≡ some p
    → find (has_id id) (ps ++ qs) ≡ some p
find-append id [] qs e = cc
find-append id (r ∷ ps) qs {p} e = elim (Bool-cases (r.id == id)) [
  | inl same ↦ rw same (rw same at e)
  | inr other ↦ rw other (find-append id ps qs {p = p} (rw other at e))
]
