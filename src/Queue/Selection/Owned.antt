-- ===== src/Queue/Selection/Owned.antt =====
-- A selection of src/modules/dashboard/job-policy.ts is the user's own, as a whole or not at all.
use job_hunters_api.Common.{
  ℕ, ◌≡◌, refl, true, Bool-cases, inl, inr, not, Option, none, some, Option-cases, List, [], ◌∷◌,
  find, any, all, arith,
}
use job_hunters_api.Queue.Selection.{Wanted, OwnedRow, is_wanted, add_found, owned_job_selection}

module _ {T : Type 0} (key : T → OwnedRow) where
  -- Row by row: a row of the user, of the run and the job that were asked for.
  abbrev IsAnswer : ℕ → List Wanted → List T → Type 0
  IsAnswer user_id [] [] = Unit
  IsAnswer user_id (wanted ∷ requested) (row ∷ rows) =
      (((key row).user_id ≡ user_id)
        × ((key row).run_id ≡ wanted.run_id)
        × ((key row).job_id ≡ wanted.job_id))
      × IsAnswer user_id requested rows
  IsAnswer user_id _ _ = ⊥

  -- An answer, or a request that no row of the user meets.
  abbrev pub IsOwned : ℕ → List Wanted → List T → Option (List T) → Type 0
  IsOwned user_id requested rows (some selected) = IsAnswer user_id requested selected
  IsOwned user_id requested rows none =
      any (λ wanted. all (λ row. not (is_wanted key user_id wanted row)) rows) requested ≡ true

  found_row :
      (user_id : ℕ) (wanted : Wanted) (rows : List T) {row : T}
      → find (is_wanted key user_id wanted) rows ≡ some row
      → ((key row).user_id ≡ user_id)
        × ((key row).run_id ≡ wanted.run_id)
        × ((key row).job_id ≡ wanted.job_id)
  found_row user_id wanted [] e = cc
  found_row user_id wanted (r ∷ rows) {row} e = elim (Bool-cases (is_wanted key user_id wanted r)) [
    | inl same ↦ let here : r ≡ row = ground (arith, e) in rw (← here) (ground arith)
    | inr other ↦ found_row user_id wanted rows {row = row} (rw other at e)
  ]

  missing_row :
      (user_id : ℕ) (wanted : Wanted) (rows : List T)
      → find (is_wanted key user_id wanted) rows ≡ none
      → all (λ row. not (is_wanted key user_id wanted row)) rows ≡ true
  missing_row user_id wanted [] e = refl
  missing_row user_id wanted (r ∷ rows) e = elim (Bool-cases (is_wanted key user_id wanted r)) [
    | inl same ↦ absurd (ground (arith, e))
    | inr other ↦ rw other (missing_row user_id wanted rows (rw other at e))
  ]

  -- The selection has exactly one row for each request, in their order, each the user's own and of the
  -- run and the job asked for; or there is none, and then some request is met by no row of the user.
  pub owned_job_selection-IsOwned :
      (user_id : ℕ) (requested : List Wanted) (rows : List T)
      → IsOwned user_id requested rows (owned_job_selection key user_id requested rows)
  unfolding owned_job_selection
  owned_job_selection-IsOwned user_id [] rows = tt
  owned_job_selection-IsOwned user_id (wanted ∷ requested) rows =
      let rest = owned_job_selection-IsOwned user_id requested rows in
      elim (Option-cases (find (is_wanted key user_id wanted) rows)) [
        | inl missing ↦ rw missing (ground (arith, missing_row user_id wanted rows missing))
        | inr (row, found) ↦ rw found (
            added row (owned_job_selection key user_id requested rows)
              (found_row user_id wanted rows found) rest)
      ]
    where
      added :
          (row : T) (selected : Option (List T))
          → ((key row).user_id ≡ user_id)
            × ((key row).run_id ≡ wanted.run_id)
            × ((key row).job_id ≡ wanted.job_id)
          → IsOwned user_id requested rows selected
          → IsOwned user_id (wanted ∷ requested) rows (add_found key (some row) selected)
      added row (some selected) own rest = (own, rest)
      added row none own rest = ground (arith, rest)
