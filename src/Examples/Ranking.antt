-- ===== src/Examples/Ranking.antt =====
-- A concrete ranking.

use text.Mathlib.Text.{◌==◌ as str_eq}
use job_hunters_api.Common.{◌≡◌, refl, true, false, none, some, [], ◌∷◌, if◌then◌else◌}
use job_hunters_api.Ranking.{
  backend, remote, requirements, title, RankableJob, RankingInput, Lexicon,
}
use job_hunters_api.Ranking.Score.{rank_job, canonical_set, worst}
use job_hunters_api.Ranking.Decision.{is_explained, rank_job-is_explained}

abbrev lexicon : Lexicon
lexicon = record {
  clean = λ text. text;
  reject = (λ text. str_eq text "Product Manager") ∷ [];
  accept = ((λ text. str_eq text "Backend Engineer"), backend) ∷ [];
  excluded = λ family. false;
  trim = λ text. text;
  fold = λ text. text;
  canonical_by_alias = λ text. if str_eq text "golang" then some "Go" else none;
  is_technical = λ text. true;
  is_core = λ text. true;
  implied_by = ("Monitoring", "Grafana" ∷ []) ∷ [];
  keyword_tokens = λ text. text ∷ [];
  is_senior = λ text. false;
  is_junior = λ text. false;
  names_senior = λ text. false;
  is_worldwide = λ text. false;
}

abbrev job : RankableJob
job = record {
  title = "Backend Engineer";
  company = "Acme";
  locations = record { raw = "Berlin"; has_country_code = true } ∷ [];
  remote = remote;
  skills = "golang" ∷ "Kafka" ∷ [];
  min_experience = some 5;
  description_text = "We build.";
  extracted = ("Go", requirements) ∷ ("Kafka", requirements) ∷ ("Monitoring", title) ∷ [];
}

abbrev wish : RankingInput
wish = record {
  roles = "Backend" ∷ [];
  locations = "Pune" ∷ [];
  deal_breakers = [];
  skills = "golang" ∷ "Grafana" ∷ [];
  max_years_experience = 3;
  min_match_score = 75;
  weights = none;
}

-- 30 for the skills asked for, 4 for the stack, 4 for the years, 8 for the seniority, 3 for the place.
score_test : (rank_job lexicon job wish).score ≡ 49
unfolding rank_job canonical_set worst
score_test = refl

rank_job-is_explained_example : is_explained lexicon job wish (rank_job lexicon job wish) ≡ true
rank_job-is_explained_example = rank_job-is_explained lexicon job wish
