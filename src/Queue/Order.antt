-- ===== src/Queue/Order.antt =====
-- src/hunt/application-queue.ts, `planApplicationOrder` and its two helpers: which of the approved
-- candidates are queued, and in what order. `T extends { portal: string }` is a type with a
-- function `portal`; the `Map`s are association lists in the order of insertion.
pub mod Caps
pub mod RoundRobin
pub mod Plan
use Prim.Native.String.{String}
use text.Mathlib.Text.{◌==◌}
use job_hunters_api.Common.{
  ℕ, zero, suc, ◌+◌, min, Bool, true, false, List, [], ◌∷◌, ◌++◌, if◌then◌else◌, ltb, leb, length,
  take,
}
use job_hunters_api.Common.Dict.{get_or, put}

abbrev pub max_daily_applications : ℕ
max_daily_applications = 100

abbrev default_portal_cap : ℕ
default_portal_cap = 30

abbrev portal_caps : List (String × ℕ)
portal_caps =
    ("greenhouse", 35) ∷ ("ashby", 30) ∷ ("lever", 30) ∷ ("wellfound", 15) ∷ ("instahyre", 15) ∷ []

-- `PORTAL_CAPS[portal] ?? DEFAULT_PORTAL_CAP`.
unfoldable pub cap_of : String → ℕ
unfolding get_or
cap_of portal = get_or default_portal_cap portal portal_caps

module _ {A : Type 0} (portal : A → String) where
  -- The filter of `applyPortalCaps`, with the map of counts that its callback updates.
  pub apply_portal_caps_from : List (String × ℕ) → List A → List A
  apply_portal_caps_from counts [] = []
  apply_portal_caps_from counts (value ∷ values) =
      let count = get_or 0 (portal value) counts in
      let dropped = apply_portal_caps_from counts values in
      let kept = value ∷ apply_portal_caps_from (put (portal value) (count + 1) counts) values in
      if leb (cap_of (portal value)) count then dropped else kept

  unfoldable pub apply_portal_caps : List A → List A
  unfolding apply_portal_caps_from get_or put
  apply_portal_caps values = apply_portal_caps_from [] values

  -- One value joins the group of its portal, or opens a new one behind the others.
  pub add_to_group : A → List (String × List A) → List (String × List A)
  add_to_group value [] = (portal value, value ∷ []) ∷ []
  add_to_group value ((p, group) ∷ groups) =
      if p == portal value
      then (p, group ++ value ∷ []) ∷ groups
      else (p, group) ∷ add_to_group value groups

  pub group_by_portal : List (String × List A) → List A → List (String × List A)
  group_by_portal groups [] = groups
  group_by_portal groups (value ∷ values) = group_by_portal (add_to_group value groups) values

module _ {A : Type 0} where
  -- One pass of the inner loop: what `group.shift()` yields for each group, and what it leaves.
  pub shift_heads : List (String × List A) → List A
  shift_heads [] = []
  shift_heads ((p, []) ∷ groups) = shift_heads groups
  shift_heads ((p, next ∷ group) ∷ groups) = next ∷ shift_heads groups

  pub shift_rest : List (String × List A) → List (String × List A)
  shift_rest [] = []
  shift_rest ((p, []) ∷ groups) = (p, []) ∷ shift_rest groups
  shift_rest ((p, next ∷ group) ∷ groups) = (p, group) ∷ shift_rest groups

  -- `while (ordered.length < values.length)`, on fuel.
  pub deal : ℕ → ℕ → List A → List (String × List A) → List A
  deal zero total ordered groups = ordered
  deal (suc fuel) total ordered groups =
      let more = deal fuel total (ordered ++ shift_heads groups) (shift_rest groups) in
      if ltb (length ordered) total then more else ordered

module _ {A : Type 0} (portal : A → String) where
  unfoldable pub round_robin : List A → List A
  unfolding deal shift_heads shift_rest group_by_portal add_to_group
  round_robin values = deal (length values) (length values) [] (group_by_portal portal [] values)

  unfoldable pub plan_application_order : List A → ℕ → List A
  unfolding round_robin apply_portal_caps cap_of
  plan_application_order values target =
      take (min target max_daily_applications) (round_robin (apply_portal_caps portal values))
