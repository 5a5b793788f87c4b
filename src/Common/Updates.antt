-- ===== src/Common/Updates.antt =====
-- Counting rows before and after an `update … where`.
use Prim.Native.Nat.{ℕ, ◌+◌, ◌≤◌}
use mathlib.Core.Path.{◌≡◌, refl, ap}
use mathlib.Core.Bool.{Bool, true, false}
use mathlib.Core.List.{List, [], ◌∷◌, map}
use mathlib.Core.Option.{some}
use mathlib.Core.Logic.{inl, inr}
use native.Mathlib.Omega.{arith}
use job_hunters_api.Common.Tests.{if◌then◌else◌, Bool-cases}
use job_hunters_api.Common.Lists.{count, find}

abbrev pub one_if : Bool → ℕ
one_if true = 1
one_if false = 0

pub one_if_le : (b : Bool) → one_if b ≤ 1
one_if_le true = omega arith
one_if_le false = omega arith

module _ {ℓ} {A : Type ℓ} (test : A → Bool) (f : A → A) where
  -- `update … set … where …`.
  abbrev pub update_where : List A → List A
  update_where rows = map (λ r. if test r then f r else r) rows

  update_where-absent : (rows : List A) → count test rows ≡ 0 → update_where rows ≡ rows
  update_where-absent [] h = refl
  update_where-absent (r ∷ rows) h = elim (Bool-cases (test r)) [
    | inl same ↦ absurd (ground arith)
    | inr other ↦ rw other (ap (λ rs. r ∷ rs) (update_where-absent rows (rw other at h)))
  ]

  -- An update of the one row that passes a test changes a count by that row alone.
  pub count-update_where :
      (q : A → Bool) (rows : List A) {x : A}
      → find test rows ≡ some x
      → count test rows ≤ 1
      → count q (update_where rows) + one_if (q x) ≡ count q rows + one_if (q (f x))
  count-update_where q [] e h = cc
  count-update_where q (r ∷ rows) {x} e h = elim (Bool-cases (test r)) [
    | inl same ↦
        let here : r ≡ x = ground arith in
        let rest = update_where-absent rows (ground arith) in
        rw same (rw (rest, ← here) (ground arith))
    | inr other ↦
        let rest = count-update_where q rows {x = x} (rw other at e) (rw other at h) in
        rw other (ground (arith, rest))
  ]

  -- An update that a count does not see leaves it alone.
  pub count-update_where_same :
      (q : A → Bool) (rows : List A)
      → ((x : A) → q (f x) ≡ q x)
      → count q (update_where rows) ≡ count q rows
  count-update_where_same q [] h = refl
  count-update_where_same q (r ∷ rows) h = ground (arith, h r, count-update_where_same q rows h)

  pub count-update_where-le :
      (q : A → Bool) (rows : List A)
      → ((x : A) → test x ≡ true → q (f x) ≡ true → q x ≡ true)
      → count q (update_where rows) ≤ count q rows
  count-update_where-le q [] h = omega arith
  count-update_where-le q (r ∷ rows) h = ground (arith, h r, count-update_where-le q rows h)
