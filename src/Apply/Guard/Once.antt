-- ===== src/Apply/Guard/Once.antt =====
-- What the guard of src/hunt/apply/submission-guard.ts lets through of the agent's tools. `submitForm`
-- of src/hunt/apply/fill.ts, which clicks in a scope before it records the click, is not modelled here.
use job_hunters_api.Common.{
  ℕ, ◌+◌, ◌≤◌, Bool, false, Option, none, some, List, [], ◌∷◌, if◌then◌else◌,
}
use job_hunters_api.Apply.Guard.{Guarded, before_submission, note_unexpected_submission}

-- What the tools of src/agent/tools.ts do to the guard in a scope: a submit, whose click comes after
-- `beforeSubmission` has returned, or the note of a confirmation that was not expected.
pub data Move : Type 0 where
  submit unexpected : Move

module _ {W : Type 0} (before : W → Bool × W) where
  -- The clicks that a call of the guard lets through, and the state after it.
  abbrev move : Move → Guarded W → ℕ × Guarded W
  move submit g =
      let (passed, after) = before_submission before g in ((if passed then 1 else 0), after)
  move unexpected g = (0, (note_unexpected_submission before g).1)

  -- A caller may catch what a call throws and go on.
  abbrev pub browse : List Move → Guarded W → ℕ × Guarded W
  browse [] g = (0, g)
  browse (m ∷ moves) g =
      let (clicks, after) = move m g in let (more, end) = browse moves after in (clicks + more, end)

  -- The clicks that are still allowed: one while nothing was attempted.
  abbrev allowed : Option Bool → ℕ
  allowed (some false) = 1
  allowed _ = 0

  abbrev IsInside : Option Bool → Type 0
  IsInside none = ⊥
  IsInside (some attempted) = Unit

  abbrev clicks_if : Bool → ℕ
  clicks_if passed = if passed then 1 else 0

  module _ (recorded : W → ℕ)
      (counts : (w : W) → clicks_if (before w).0 + recorded w ≤ recorded (before w).1) where
    -- What a call may do: it stays inside, uses up what was allowed, and clicks on record only.
    record IsCounted (clicks : ℕ) (g after : Guarded W) : Type 0 where
      pub inside : IsInside after.attempted
      pub once : clicks + allowed after.attempted ≤ allowed g.attempted
      pub on_record : clicks + recorded g.world ≤ recorded after.world
