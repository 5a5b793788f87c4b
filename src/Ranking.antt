-- ===== src/Ranking.antt =====
-- src/hunt/ranking.ts and `classifyRole` of src/hunt/role-filter.ts: how well a posting fits a
-- candidate, and which decision is given on it.
--
-- A ratio is a fraction of natural numbers, and the arithmetic is exact. `Lexicon` has what the source
-- looks up in its tables or matches by regular expressions, `extracted` is `extractSkills`, and `trim`
-- and `fold` are the language's `trim` and `toLowerCase`. The texts of the reasons are left out.
-- Weights are whole numbers.
pub mod Score
pub mod Decision
use Prim.Native.String.{String}
use Prim.Native.String
use text.Mathlib.Text.{◌==◌ as str_eq}
use job_hunters_api.Common.{
  ℕ, zero, suc, ◌+◌, ◌-◌, ◌*◌, ◌/◌, ◌==◌, min, max, Bool, true, false, not, ◌&&◌, ◌||◌, Option,
  none, some, List, [], ◌∷◌, ◌++◌, map, any, filter, find, length, take, ltb, leb, if◌then◌else◌,
}

pub data SoftwareFamily : Type 0 where
  backend frontend fullstack generalist platform mobile data_engineering ml qa devops :
      SoftwareFamily

pub data RankingDecision : Type 0 where
  eligible deal_breaker role_mismatch seniority_mismatch experience_mismatch insufficient_skills
        location_mismatch below_threshold :
      RankingDecision

pub data RemoteMode : Type 0 where
  remote hybrid onsite unknown : RemoteMode

pub data SkillSource : Type 0 where
  requirements title tags elsewhere : SkillSource

-- Whole weights, such as the defaults are. Those that `readWeights` scales may be fractions, and are not
-- modelled.
pub record ScoreWeights : Type 0 where
  pub coverage : ℕ
  pub stack : ℕ
  pub experience : ℕ
  pub seniority : ℕ
  pub location : ℕ

abbrev pub default_weights : ScoreWeights
default_weights = record {
  coverage = 45;
  stack = 20;
  experience = 12;
  seniority = 8;
  location = 15;
}

pub record Location : Type 0 where
  pub raw : String
  pub has_country_code : Bool

pub record RankableJob : Type 0 where
  pub title : String
  pub company : String
  pub locations : List Location
  pub remote : RemoteMode
  pub skills : List String
  pub min_experience : Option ℕ
  pub description_text : String
  pub extracted : List (String × SkillSource)

pub record RankingInput : Type 0 where
  pub roles : List String
  pub locations : List String
  pub deal_breakers : List String
  pub skills : List String
  pub max_years_experience : ℕ
  pub min_match_score : ℕ
  pub weights : Option ScoreWeights

pub record RankingResult : Type 0 where
  pub accepted : Bool
  pub decision : RankingDecision
  pub score : ℕ
  pub matched_skills : List String
  pub missing_skills : List String
  pub breakdown : ScoreWeights

pub record Lexicon : Type 0 where
  pub clean : String → String
  pub reject : List (String → Bool)
  pub accept : List ((String → Bool) × SoftwareFamily)
  pub excluded : SoftwareFamily → Bool
  pub trim : String → String
  pub fold : String → String
  pub canonical_by_alias : String → Option String
  pub is_technical : String → Bool  -- of a name's category, also where it has none
  pub is_core : String → Bool  -- of a name's category, if it has one
  pub implied_by : List (String × List String)
  pub keyword_tokens : String → List String
  pub is_senior : String → Bool
  pub is_junior : String → Bool
  pub names_senior : String → Bool
  pub is_worldwide : String → Bool

abbrev pub has : String → List String → Bool
has name names = any (λ other. str_eq other name) names

-- `new Set(names)`.
pub set_of : List String → List String → List String
set_of seen [] = seen
set_of seen (name ∷ names) = set_of (if has name seen then seen else seen ++ name ∷ []) names

abbrev pub or_else : Option String → String → String
or_else none name = name
or_else (some canonical) name = canonical

abbrev pub is_named : SkillSource → Bool
is_named elsewhere = false
is_named _ = true

abbrev pub join_by_space : List String → String
join_by_space [] = ""
join_by_space (text ∷ []) = text
join_by_space (text ∷ next ∷ texts) =
    String.◌++◌ text (String.◌++◌ " " (join_by_space (next ∷ texts)))

-- A share of a whole, `num / den`.
pub record Ratio : Type 0 where
  pub num : ℕ
  pub den : ℕ

pub record Component : Type 0 where
  pub ratio : Ratio
  pub weak : Bool

abbrev pub component : ℕ → ℕ → Bool → Component
component num den weak = record { ratio = record { num = num; den = den }; weak = weak }

-- In hundredths.
abbrev pub family_fit : SoftwareFamily → ℕ
family_fit backend = 100
family_fit fullstack = 100
family_fit generalist = 100
family_fit frontend = 95
family_fit platform = 90
family_fit devops = 70
family_fit data_engineering = 70
family_fit mobile = 60
family_fit ml = 40
family_fit qa = 40

-- `Math.round` of a fraction.
abbrev pub round : (num den : ℕ) → ℕ
round num den = (2 * num + den) / (2 * den)

abbrev pub points : Ratio → ℕ → ℕ → ℕ
points r fit weight = round (r.num * fit * weight) (r.den * 100)
