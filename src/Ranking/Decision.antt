-- ===== src/Ranking/Decision.antt =====
-- Why `rankJob` of src/hunt/ranking.ts decides as it does.

use job_hunters_api.Common.{
  ℕ, ◌≡◌, refl, Bool, true, false, Bool-cases, inl, inr, not, ◌&&◌, ◌||◌, Option, none, some, List,
  [], ◌∷◌, all, filter, leb, ltb, length, arith,
}
use job_hunters_api.Ranking.{
  SoftwareFamily, RankingDecision, eligible, deal_breaker, role_mismatch, seniority_mismatch,
  experience_mismatch, insufficient_skills, location_mismatch, below_threshold, ScoreWeights,
  RankableJob, RankingInput, RankingResult, Lexicon, Component,
}
use job_hunters_api.Ranking.Score.{
  weights_or, Parts, parts_of, rank_parts, rank_family, rank_job, classify_role, is_blocked,
  is_weak, weakest, worst, later_of, costs_less, decision_or,
}

abbrev is_rejected : Option SoftwareFamily → Bool
is_rejected none = true
is_rejected (some family) = false

module _ (lex : Lexicon) where
  -- Whether one of the components that a mismatch is about is weak; below the threshold, none is.
  abbrev blames : Parts lex → RankingDecision → Bool
  blames p insufficient_skills = p.coverage.weak || p.stack.weak
  blames p experience_mismatch = p.experience.weak
  blames p seniority_mismatch = p.seniority.weak
  blames p location_mismatch = p.location.weak
  blames p below_threshold =
      not (
        p.coverage.weak || p.stack.weak || p.experience.weak || p.seniority.weak || p.location.weak)
  blames p _ = false

  -- Whether a result was decided for the reason that its decision names.
  abbrev pub is_explained : RankableJob → RankingInput → RankingResult → Bool
  is_explained job input result = explained result.decision
    where
      explained : RankingDecision → Bool
      explained role_mismatch = is_rejected (classify_role lex job.title) && not result.accepted
      explained deal_breaker = is_blocked lex job input && not result.accepted
      explained eligible = leb input.min_match_score result.score && result.accepted
      explained decision =
          ltb result.score input.min_match_score
          && not result.accepted
          && blames (parts_of lex job input) decision

  -- A test that all decisions of a list pass is passed by the decision of its worst, or there is none.
  worst-passes :
      (test : RankingDecision → Bool) (xs : List (RankingDecision × (Component × ℕ)))
      → all (λ x. test x.0) xs ≡ true
      → (test below_threshold || ltb 0 (length xs)) ≡ true
      → test (decision_or (worst xs)) ≡ true
  unfolding worst
  worst-passes test [] h k = ground arith
  worst-passes test ((d, x) ∷ []) h k = ground arith
  worst-passes test ((d, x) ∷ y ∷ xs) h k =
      one d x (worst (y ∷ xs)) (ground arith)
        (worst-passes test (y ∷ xs) (ground arith) (ground arith))
    where
      one :
          (d : RankingDecision) (x : Component × ℕ)
          (rest : Option (RankingDecision × (Component × ℕ)))
          → test d ≡ true
          → test (decision_or rest) ≡ true
          → test (decision_or (some (later_of (d, x) rest))) ≡ true
      one d x none h k = h
      one d (c, weight) (some (e, (b, other))) h k =
          elim (Bool-cases (costs_less (b, other) (c, weight))) [
            | inl less ↦ rw less h
            | inr more ↦ rw more k
          ]

  worst-blames :
      (p : Parts lex) (weights : ScoreWeights)
      → blames p (decision_or (worst (filter is_weak (weakest lex weights p)))) ≡ true
  worst-blames p weights =
      worst-passes (blames p) (filter is_weak (weakest lex weights p)) (ground arith) (ground arith)

  not_special :
      (job : RankableJob) (input : RankingInput) (result : RankingResult)
      → result.accepted ≡ false
      → ltb result.score input.min_match_score ≡ true
      → blames (parts_of lex job input) result.decision ≡ true
      → is_explained job input result ≡ true
  not_special job input result refused low blamed = blamed_by result.decision blamed
    where
      blamed_by :
          (d : RankingDecision)
          → blames (parts_of lex job input) d ≡ true
          → is_explained job input (record result { decision = d }) ≡ true
      blamed_by role_mismatch h = absurd (ground arith)
      blamed_by deal_breaker h = absurd (ground arith)
      blamed_by eligible h = absurd (ground arith)
      blamed_by seniority_mismatch h = rw (low, refused) h
      blamed_by experience_mismatch h = rw (low, refused) h
      blamed_by insufficient_skills h = rw (low, refused) h
      blamed_by location_mismatch h = rw (low, refused) h
      blamed_by below_threshold h = rw (low, refused) h

  parts-is_explained :
      (job : RankableJob) (input : RankingInput) (family : SoftwareFamily)
      → is_explained job input (rank_parts lex job input family (parts_of lex job input)) ≡ true
  parts-is_explained job input family =
      let result = rank_parts lex job input family (parts_of lex job input) in
      elim (Bool-cases (leb input.min_match_score result.score)) [
        | inl enough ↦ rw enough (ground arith)
        | inr low ↦
            not_special job input result low (ground arith)
              (rw low (worst-blames (parts_of lex job input) (weights_or input.weights)))
      ]

  -- Every decision is given for the reason that it names: `role_mismatch` for a title that is no
  -- software role, `deal_breaker` for a blocked posting, `eligible` for a score that reaches the
  -- minimum; else the score is below the minimum and the component of the mismatch is weak, or, for
  -- `below_threshold`, none is. A posting is accepted with `eligible` only.
  pub rank_job-is_explained :
      (job : RankableJob) (input : RankingInput)
      → is_explained job input (rank_job lex job input) ≡ true
  unfolding rank_job
  rank_job-is_explained job input = family (classify_role lex job.title) refl
    where
      family :
          (f : Option SoftwareFamily)
          → classify_role lex job.title ≡ f
          → is_explained job input (rank_family lex f job input) ≡ true
      family none is = rw is refl
      family (some f) is = elim (Bool-cases (is_blocked lex job input)) [
        | inl e ↦ rw (e, e) refl
        | inr e ↦ rw e (parts-is_explained job input f)
      ]
