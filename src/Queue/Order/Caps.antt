-- ===== src/Queue/Order/Caps.antt =====
-- What `applyPortalCaps` of src/hunt/application-queue.ts keeps.
use Prim.Native.String.{String}
use text.Mathlib.Text.{◌==◌}
use text.Mathlib.TextEquality.{eq_iff}
use job_hunters_api.Common.{ℕ, ◌+◌, ◌-◌, ◌≡◌, ◌≤◌, Bool, min, List, [], ◌∷◌, arith, count}
use job_hunters_api.Common.Dict.{get_or, put, get_or-put}
use job_hunters_api.Queue.Order.{cap_of, apply_portal_caps_from, apply_portal_caps}

module _ {A : Type 0} (portal : A → String) where
  -- How many values belong to a portal.
  abbrev pub from_portal : String → List A → ℕ
  from_portal p = count (λ value. portal value == p)

  apply_portal_caps_from-count :
      (p : String) (counts : List (String × ℕ)) (values : List A)
      → from_portal p (apply_portal_caps_from portal counts values)
        ≡ min (cap_of p - get_or 0 p counts) (from_portal p values)
  unfolding apply_portal_caps_from
  apply_portal_caps_from-count p counts [] = omega arith
  apply_portal_caps_from-count p counts (value ∷ values) = ground (
    arith,
    eq_iff (portal value) p,
    get_or-put 0 (get_or 0 (portal value) counts + 1) (portal value) p counts,
    apply_portal_caps_from-count p counts values,
    apply_portal_caps_from-count p (put (portal value) (get_or 0 (portal value) counts + 1) counts)
        values,
  )

  -- Of every portal's values the caps keep as many as there are, up to the portal's cap.
  pub from_portal-apply_portal_caps :
      (p : String) (values : List A)
      → from_portal p (apply_portal_caps portal values) ≡ min (cap_of p) (from_portal p values)
  unfolding apply_portal_caps
  from_portal-apply_portal_caps p values = omega (arith, apply_portal_caps_from-count p [] values)

  apply_portal_caps_from-le :
      (q : A → Bool) (counts : List (String × ℕ)) (values : List A)
      → count q (apply_portal_caps_from portal counts values) ≤ count q values
  unfolding apply_portal_caps_from
  apply_portal_caps_from-le q counts [] = omega arith
  apply_portal_caps_from-le q counts (value ∷ values) = ground (
    arith,
    apply_portal_caps_from-le q counts values,
    apply_portal_caps_from-le q (put (portal value) (get_or 0 (portal value) counts + 1) counts)
        values,
  )

  pub count-apply_portal_caps-le :
      (q : A → Bool) (values : List A) → count q (apply_portal_caps portal values) ≤ count q values
  unfolding apply_portal_caps
  count-apply_portal_caps-le q values = apply_portal_caps_from-le q [] values
