-- ===== src/Apply/Guard.antt =====
-- src/hunt/apply/submission-guard.ts: the scope in which a browser submits at most once.
--
-- The store of `AsyncLocalStorage` is `attempted`, `none` outside every scope. `before` is the
-- callback of `withSubmissionGuard`, which records the intent to submit: it changes the world, and
-- fails where it throws.
pub mod Once
use job_hunters_api.Common.{
  ℕ, suc, ◌+◌, Bool, true, false, Option, none, some, List, [], ◌∷◌, if◌then◌else◌,
}

pub record Guarded (W : Type 0) : Type 0 where
  pub attempted : Option Bool
  pub world : W

-- Whether a call returned, and the state after it.
abbrev Called : Type 0 → Type 0
Called W = Bool × Guarded W

module _ {W : Type 0} (before : W → Bool × W) where
  abbrev pub with_submission_guard : W → Guarded W
  with_submission_guard w = record { attempted = some false; world = w }

  abbrev record_intent : Bool × W → Called W
  record_intent (returned, w) = (returned, record { attempted = some returned; world = w })

  abbrev pub before_if : Option Bool → W → Called W
  before_if none w = (true, record { attempted = none; world = w })
  before_if (some true) w = (false, record { attempted = some true; world = w })
  before_if (some false) w = record_intent (before w)

  unfoldable pub before_submission : Guarded W → Called W
  before_submission g = before_if g.attempted g.world

  abbrev pub note_if : Option Bool → W → Called W
  note_if (some false) w = ((before w).0, record { attempted = some true; world = (before w).1 })
  note_if attempted w = (true, record { attempted = attempted; world = w })

  unfoldable pub note_unexpected_submission : Guarded W → Called W
  note_unexpected_submission g = note_if g.attempted g.world

  abbrev submission_was_attempted : Guarded W → Bool
  submission_was_attempted g = elim g.attempted [ none ↦ false | some attempted ↦ attempted ]
