-- ===== src/Queue/Order/RoundRobin.antt =====
-- `roundRobin` of src/hunt/application-queue.ts reorders, and loses and repeats nothing.
use Prim.Native.String.{String}
use text.Mathlib.Text.{◌==◌}
use job_hunters_api.Common.{
  ℕ, zero, suc, ◌+◌, ◌≤◌, ◌<◌, ◌≡◌, refl, Bool, true, List, [], ◌∷◌, ◌++◌, arith, count,
  count-append, length, length-append, count-le-length, ltb, ltb→lt, le_of_not_ltb, ◌∙◌, Bool-cases,
  inl, inr,
}
use job_hunters_api.Queue.Order.{
  add_to_group, group_by_portal, shift_heads, shift_rest, deal, round_robin,
}

module _ {A : Type 0} where
  -- How many values of the groups pass a test.
  abbrev count_groups : (A → Bool) → List (String × List A) → ℕ
  count_groups q [] = 0
  count_groups q ((p, group) ∷ groups) = count q group + count_groups q groups

  -- Every value passes the test that is always true.
  abbrev pub always : A → Bool
  always value = true

  pub count-always : (xs : List A) → count always xs ≡ length xs
  count-always [] = refl
  count-always (x ∷ xs) = omega (arith, count-always xs)

  count_groups-shift :
      (q : A → Bool) (groups : List (String × List A))
      → count q (shift_heads groups) + count_groups q (shift_rest groups) ≡ count_groups q groups
  unfolding shift_heads shift_rest
  count_groups-shift q [] = refl
  count_groups-shift q ((p, []) ∷ groups) = omega (arith, count_groups-shift q groups)
  count_groups-shift q ((p, next ∷ group) ∷ groups) = ground (arith, count_groups-shift q groups)

  shift_heads_pos :
      (groups : List (String × List A))
      → 0 < count_groups always groups
      → 0 < count always (shift_heads groups)
  unfolding shift_heads
  shift_heads_pos [] h = h
  shift_heads_pos ((p, []) ∷ groups) h = shift_heads_pos groups (omega arith)
  shift_heads_pos ((p, next ∷ group) ∷ groups) h = omega arith

  count_groups_zero :
      (q : A → Bool) (groups : List (String × List A))
      → count_groups q groups ≤ count_groups always groups
  count_groups_zero q [] = omega arith
  count_groups_zero q ((p, group) ∷ groups) =
      omega (arith, count_groups_zero q groups, count-le-length q group, count-always group)

  deal-count :
      (q : A → Bool) (fuel total : ℕ) (ordered : List A) (groups : List (String × List A))
      → length ordered + count_groups always groups ≡ total
      → count_groups always groups ≤ fuel
      → count q (deal fuel total ordered groups) ≡ count q ordered + count_groups q groups
  unfolding deal
  deal-count q zero total ordered groups e h = omega (arith, count_groups_zero q groups)
  deal-count q (suc fuel) total ordered groups e h =
      let heads = shift_heads groups in
      let rest = shift_rest groups in
      let placed = count_groups-shift always groups in
      let fewer : 0 < count_groups always groups → 0 < count always heads =
        shift_heads_pos groups in
      let counted = count_groups-shift q groups in
      let longer = length-append ordered heads in
      let head_count = count-always heads in
      elim (Bool-cases (ltb (length ordered) total)) [
        | inl more ↦ rw more (
            deal-count q fuel total (ordered ++ heads) rest (omega arith)
              (let short = ltb→lt (length ordered) total more in omega (arith, fewer))
            ∙ omega (arith, count-append q ordered heads))
        | inr done ↦
            rw done
              (omega (arith, count_groups_zero q groups, le_of_not_ltb (length ordered) total done))
      ]

module _ {A : Type 0} (portal : A → String) where
  count_groups-add :
      (q : A → Bool) (value : A) (groups : List (String × List A))
      → count_groups q (add_to_group portal value groups)
        ≡ count q (value ∷ []) + count_groups q groups
  unfolding add_to_group
  count_groups-add q value [] = omega arith
  count_groups-add q value ((p, group) ∷ groups) = elim (Bool-cases (p == portal value)) [
    | inl same ↦ rw same (omega (arith, count-append q group (value ∷ [])))
    | inr other ↦ rw other (omega (arith, count_groups-add q value groups))
  ]

  count_groups-group :
      (q : A → Bool) (groups : List (String × List A)) (values : List A)
      → count_groups q (group_by_portal portal groups values)
        ≡ count_groups q groups + count q values
  unfolding group_by_portal
  count_groups-group q groups [] = omega arith
  count_groups-group q groups (value ∷ values) = ground (
    arith,
    count_groups-group q (add_to_group portal value groups) values,
    count_groups-add q value groups,
  )

  -- Whatever is counted, the round robin has as many of it as the values: it is a reordering.
  pub count-round_robin :
      (q : A → Bool) (values : List A) → count q (round_robin portal values) ≡ count q values
  unfolding round_robin
  count-round_robin q values =
      let all = count_groups-group always [] values in
      let size = count-always values in
      deal-count q (length values) (length values) [] (group_by_portal portal [] values)
        (omega arith) (omega arith)
      ∙ omega (arith, count_groups-group q [] values)
