-- ===== src/Ranking/Score.antt =====
-- `rankJob` of src/hunt/ranking.ts, with its components.
use Prim.Native.String.{String}
use Prim.Native.String
use text.Mathlib.Text.{◌==◌ as str_eq}
use job_hunters_api.Common.{
  ℕ, ◌+◌, ◌-◌, ◌*◌, ◌==◌, min, max, Bool, true, false, not, ◌&&◌, ◌||◌, Option, none, some, List,
  [], ◌∷◌, ◌++◌, map, any, filter, length, take, ltb, leb, if◌then◌else◌,
}
use job_hunters_api.Common.Text.{includes}
use job_hunters_api.Ranking.{
  SoftwareFamily, RankingDecision, eligible, deal_breaker, role_mismatch, seniority_mismatch,
  experience_mismatch, insufficient_skills, location_mismatch, below_threshold, RemoteMode, remote,
  hybrid, ScoreWeights, default_weights, RankableJob, RankingInput, RankingResult, Lexicon, has,
  set_of, or_else, is_named, join_by_space, Ratio, Component, component, family_fit, points,
}

abbrev no_points : ScoreWeights
no_points = record { coverage = 0; stack = 0; experience = 0; seniority = 0; location = 0 }

abbrev pub rejected_with : RankingDecision → RankingResult
rejected_with decision = record {
  accepted = false;
  decision = decision;
  score = 0;
  matched_skills = [];
  missing_skills = [];
  breakdown = no_points;
}

abbrev pub weights_or : Option ScoreWeights → ScoreWeights
weights_or none = default_weights
weights_or (some weights) = weights

abbrev pub total : ScoreWeights → ℕ
total w = w.coverage + w.stack + w.experience + w.seniority + w.location

abbrev pub score_coverage : List String → List String → Component
score_coverage required profile =
    let matched = filter (λ skill. has skill profile) required in
    if length required == 0
    then component 1 2 false
    else component (length matched) (length required) (ltb (2 * length matched) (length required))

abbrev pub score_experience : Option ℕ → ℕ → Component
score_experience none max_years = component 70 100 false
score_experience (some required) max_years =
    if leb required max_years
    then component 1 1 false
    else if leb (required - max_years) 1
    then component 70 100 false
    else if leb (required - max_years) 3
    then component 30 100 true
    else component 0 1 true

-- The weak component that costs most, with its decision: the last of the stable sort by the points lost.
abbrev pub costs_less : Component × ℕ → Component × ℕ → Bool
costs_less (a, weight) (b, other) =
    ltb ((a.ratio.den - a.ratio.num) * weight * b.ratio.den)
      ((b.ratio.den - b.ratio.num) * other * a.ratio.den)

abbrev pub later_of :
    RankingDecision × (Component × ℕ)
    → Option (RankingDecision × (Component × ℕ))
    → RankingDecision × (Component × ℕ)
later_of (d, x) none = (d, x)
later_of (d, x) (some (e, y)) = if costs_less y x then (d, x) else (e, y)

unfoldable pub worst :
    List (RankingDecision × (Component × ℕ)) → Option (RankingDecision × (Component × ℕ))
worst [] = none
worst (x ∷ xs) = let rest = worst xs in some (later_of x rest)

abbrev pub decision_or : Option (RankingDecision × (Component × ℕ)) → RankingDecision
decision_or none = below_threshold
decision_or (some (decision, cost)) = decision

abbrev pub is_weak : RankingDecision × (Component × ℕ) → Bool
is_weak (decision, (c, weight)) = c.weak

module _ (lex : Lexicon) where
  -- `classifyRole`: the family of a title that is not rejected.
  abbrev first_family : String → List ((String → Bool) × SoftwareFamily) → Option SoftwareFamily
  first_family clean [] = none
  first_family clean ((pattern, family) ∷ patterns) =
      if pattern clean
      then if lex.excluded family then none else some family
      else first_family clean patterns

  abbrev pub classify_role : String → Option SoftwareFamily
  classify_role title =
      let clean = lex.clean title in
      if any (λ pattern. pattern clean) lex.reject then none else first_family clean lex.accept

  abbrev pub canonicalise : String → String
  canonicalise skill = or_else (lex.canonical_by_alias (lex.fold (lex.trim skill))) (lex.trim skill)

  unfoldable pub canonical_set : List String → List String
  unfolding set_of
  canonical_set skills =
      set_of [] (filter (λ skill. not (str_eq skill "")) (map canonicalise skills))

  abbrev from_requirements : RankableJob → List String
  from_requirements job =
      filter lex.is_technical
        (map (λ skill. skill.0) (filter (λ skill. is_named skill.1) job.extracted))

  abbrev required_skills_of : RankableJob → List String
  required_skills_of job =
      if not (str_eq job.description_text "") && leb 3 (length (from_requirements job))
      then take 12 (from_requirements job)
      else take 12 (filter lex.is_technical (map canonicalise job.skills))

  abbrev pub expand : List String → List (String × List String) → List String → List String
  expand profile [] expanded = expanded
  expand profile ((umbrella, evidence) ∷ entries) expanded = expand profile entries (
      if not (has umbrella expanded) && any (λ skill. has skill profile) evidence
      then expanded ++ umbrella ∷ []
      else expanded)

  abbrev with_implied_skills : List String → List String
  with_implied_skills profile = expand profile lex.implied_by profile

  abbrev pub score_stack : RankableJob → List String → Component
  score_stack job profile_core =
      let shared = filter (λ skill. has skill profile_core) (canonical_set job.skills) in
      component (min 5 (length shared)) 5 (length shared == 0)

  abbrev pub score_seniority : String → List String → Component
  score_seniority title roles =
      let wants_senior = any lex.names_senior roles in
      if lex.is_junior title && wants_senior
      then component 20 100 true
      else if wants_senior && not (lex.is_senior title)
      then component 70 100 false
      else component 1 1 false

  abbrev pub outside : RemoteMode → Bool → Bool → Component
  outside remote worldwide restricted =
      if worldwide || not restricted then component 1 1 false else component 20 100 true
  outside hybrid worldwide restricted = component 15 100 true
  outside _ worldwide restricted = component 5 100 true

  abbrev pub score_location : RankableJob → List String → Component
  score_location job wanted =
      let raw = lex.fold (join_by_space (map (λ l. l.raw) job.locations)) in
      let wanted_tokens =
        filter (λ token. not (str_eq token "remote"))
          (lex.keyword_tokens (lex.fold (join_by_space wanted))) in
      let location_tokens = lex.keyword_tokens raw in
      if length wanted == 0
      then component 1 1 false
      else if any (λ token. has token location_tokens) wanted_tokens
      then component 1 1 false
      else outside job.remote (lex.is_worldwide raw || str_eq (lex.trim raw) "")
          (any (λ l. l.has_country_code) job.locations)

  abbrev pub is_blocked : RankableJob → RankingInput → Bool
  is_blocked job input =
      let haystack = lex.fold (
        String.◌++◌ job.title
          (String.◌++◌ " " (String.◌++◌ job.company (String.◌++◌ " " job.description_text)))) in
      any (λ value. not (str_eq value "") && includes (lex.fold value) haystack)
        (map lex.trim input.deal_breakers)

  -- The five components.
  pub record Parts : Type 0 where
    pub coverage : Component
    pub stack : Component
    pub experience : Component
    pub seniority : Component
    pub location : Component

  abbrev profile_of : RankingInput → List String
  profile_of input = with_implied_skills (canonical_set input.skills)

  abbrev core_of : List String → List String
  core_of profile =
      let core = filter lex.is_core profile in if ltb 0 (length core) then core else profile

  abbrev pub parts_of : RankableJob → RankingInput → Parts
  parts_of job input = record {
    coverage = score_coverage (required_skills_of job) (profile_of input);
    stack = score_stack job (core_of (profile_of input));
    experience = score_experience job.min_experience input.max_years_experience;
    seniority = score_seniority job.title input.roles;
    location = score_location job input.locations;
  }

  abbrev pub breakdown_of : ℕ → ScoreWeights → Parts → ScoreWeights
  breakdown_of fit weights parts = record {
    coverage = points parts.coverage.ratio fit weights.coverage;
    stack = points parts.stack.ratio fit weights.stack;
    experience = points parts.experience.ratio 100 weights.experience;
    seniority = points parts.seniority.ratio 100 weights.seniority;
    location = points parts.location.ratio 100 weights.location;
  }

  -- `location.ratio <= 0.2`.
  abbrev pub is_far : Ratio → Bool
  is_far r = leb (100 * r.num) (20 * r.den)

  abbrev pub score_of : ScoreWeights → Ratio → ℕ
  score_of breakdown location =
      max 0 (min 100 (if is_far location then min (total breakdown) 70 else total breakdown))

  abbrev pub weakest : ScoreWeights → Parts → List (RankingDecision × (Component × ℕ))
  weakest weights parts =
      (insufficient_skills, (parts.coverage, weights.coverage))
      ∷ (insufficient_skills, (parts.stack, weights.stack))
      ∷ (experience_mismatch, (parts.experience, weights.experience))
      ∷ (seniority_mismatch, (parts.seniority, weights.seniority))
      ∷ (location_mismatch, (parts.location, weights.location))
      ∷ []

  abbrev decide : Bool → Option (RankingDecision × (Component × ℕ)) → RankingDecision
  decide enough x = if enough then eligible else decision_or x

  abbrev pub rank_parts : RankableJob → RankingInput → SoftwareFamily → Parts → RankingResult
  rank_parts job input family parts =
      let weights = weights_or input.weights in
      let breakdown = breakdown_of (family_fit family) weights parts in
      let score = score_of breakdown parts.location.ratio in
      let required = required_skills_of job in
      record {
        accepted = leb input.min_match_score score;
        decision =
            decide (leb input.min_match_score score)
              (worst (filter is_weak (weakest weights parts)));
        score = score;
        matched_skills = filter (λ skill. has skill (profile_of input)) required;
        missing_skills = filter (λ skill. not (has skill (profile_of input))) required;
        breakdown = breakdown;
      }

  abbrev pub rank_family : Option SoftwareFamily → RankableJob → RankingInput → RankingResult
  rank_family none job input = rejected_with role_mismatch
  rank_family (some family) job input =
      if is_blocked job input
      then rejected_with deal_breaker
      else rank_parts job input family (parts_of job input)

  unfoldable pub rank_job : RankableJob → RankingInput → RankingResult
  unfolding worst canonical_set
  rank_job job input = rank_family (classify_role job.title) job input
