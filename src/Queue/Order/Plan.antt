-- ===== src/Queue/Order/Plan.antt =====
-- What `planApplicationOrder` of src/hunt/application-queue.ts promises of a batch.
use Prim.Native.String.{String}
use text.Mathlib.Text.{◌==◌}
use text.Mathlib.TextEquality.{eq_iff}
use job_hunters_api.Common.Dict.{get_or}
use job_hunters_api.Common.{
  ℕ, ◌≤◌, ◌≡◌, min, ◌∙◌, refl, ◌||◌, Bool, Bool-cases, inl, inr, if◌then◌else◌, List, arith, count,
  count-take-le, length, length-take,
}
use job_hunters_api.Queue.Order.{
  max_daily_applications, cap_of, apply_portal_caps, round_robin, plan_application_order,
}
use job_hunters_api.Queue.Order.Caps.{
  from_portal, from_portal-apply_portal_caps, count-apply_portal_caps-le,
}
use job_hunters_api.Queue.Order.RoundRobin.{always, count-always, count-round_robin}

module _ {A : Type 0} (portal : A → String) (values : List A) (target : ℕ) where
  -- How long a batch is.
  pub length-plan_application_order :
      length (plan_application_order portal values target)
      ≡ min (min target max_daily_applications) (length (apply_portal_caps portal values))
  unfolding plan_application_order
  length-plan_application_order =
      let capped = apply_portal_caps portal values in
      omega (
        arith,
        length-take (min target max_daily_applications) (round_robin portal capped),
        count-round_robin portal always capped,
        count-always (round_robin portal capped),
        count-always capped,
      )

  from_portal-plan-le-cap :
      (p : String)
      → from_portal portal p (plan_application_order portal values target)
        ≤ min (cap_of p) (from_portal portal p values)
  unfolding plan_application_order
  from_portal-plan-le-cap p =
      let capped = apply_portal_caps portal values in
      omega (
        arith,
        count-take-le (λ v. portal v == p) (min target max_daily_applications)
            (round_robin portal capped),
        count-round_robin portal (λ v. portal v == p) capped,
        from_portal-apply_portal_caps portal p values,
      )

  -- A batch has nothing that was not offered.
  pub count-plan-le :
      (q : A → Bool) → count q (plan_application_order portal values target) ≤ count q values
  unfolding plan_application_order
  count-plan-le q =
      let capped = apply_portal_caps portal values in
      omega (
        arith,
        count-take-le q (min target max_daily_applications) (round_robin portal capped),
        count-round_robin portal q capped,
        count-apply_portal_caps-le portal q values,
      )

-- The caps of the portals in so many words.
abbrev pub allowed_from : String → ℕ
allowed_from portal =
    if "greenhouse" == portal
    then 35
    else if "wellfound" == portal || "instahyre" == portal
    then 15
    else 30

cap_of-allowed_from : (portal : String) → cap_of portal ≡ allowed_from portal
unfolding cap_of get_or
cap_of-allowed_from portal = elim (Bool-cases ("ashby" == portal)) [
  | inl ashby ↦ let is = (eq_iff "ashby" portal).0 ashby in rw (← is) refl
  | inr other ↦ elim (Bool-cases ("lever" == portal)) [
    | inl lever ↦ let is = (eq_iff "lever" portal).0 lever in rw (← is) refl
    | inr third ↦ rw (other, third) (ground arith)
  ]
]

-- A batch that is planned of some candidates: short enough, and nothing dropped without need. `within`
-- is what the portals' caps leave.
pub record IsPlanned {A : Type 0} (portal : A → String) (values : List A) (target : ℕ)
    (batch : List A) : Type 0 where
  pub within : List A
  pub left :
      (p : String)
      → from_portal portal p within ≡ min (allowed_from p) (from_portal portal p values)
  pub offered : (q : A → Bool) → count q within ≤ count q values
  pub from_left : (q : A → Bool) → count q batch ≤ count q within
  pub as_many : length batch ≡ min (min target 100) (length within)

-- A batch has as many candidates as the target and 100 applications allow of what the caps leave: of
-- every portal as many as it has, up to 35 for greenhouse, 15 for wellfound and instahyre and 30 for
-- any other. It has no candidate more often than it was offered.
pub plan_application_order-IsPlanned :
    {A : Type 0} (portal : A → String) (values : List A) (target : ℕ)
    → IsPlanned portal values target (plan_application_order portal values target)
unfolding plan_application_order
plan_application_order-IsPlanned portal values target =
    let capped = apply_portal_caps portal values in
    record {
      within = capped;
      left = λ p. from_portal-apply_portal_caps portal p values ∙ rw (cap_of-allowed_from p) refl;
      offered = λ q. count-apply_portal_caps-le portal q values;
      from_left = λ q. omega (
        arith,
        count-take-le q (min target 100) (round_robin portal capped),
        count-round_robin portal q capped,
      );
      as_many = length-plan_application_order portal values target;
    }
