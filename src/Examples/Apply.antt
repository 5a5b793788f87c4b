-- ===== src/Examples/Apply.antt =====
-- src/hunt/apply/submission-guard.ts on a browser that tries to submit twice.
use job_hunters_api.Common.{ℕ, suc, ◌≡◌, refl, Bool, true, List, [], ◌∷◌}
use job_hunters_api.Apply.Guard.{
  with_submission_guard, before_submission, note_unexpected_submission,
}
use job_hunters_api.Apply.Guard.Once.{Move, submit, unexpected, browse}

-- The world counts the intents.
abbrev record_one : ℕ → Bool × ℕ
record_one w = (true, suc w)

abbrev moves : List Move
moves = submit ∷ submit ∷ unexpected ∷ []

one_click : (browse record_one moves (with_submission_guard record_one 4)).0 ≡ 1
unfolding before_submission note_unexpected_submission
one_click = refl
