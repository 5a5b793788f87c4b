-- ===== src/Outreach/Rank.antt =====
-- src/outreach/rank.ts: who can refer the user, scored and ranked.
--
-- The source's decimals are whole hundredths here: a component's score is a number up to 100, and
-- a weight is a number of hundredths, so a weighted sum counts ten-thousandths. `Math.round` of the
-- exact decimal is taken; the source adds doubles, which can fall to the other side of a tie.
pub mod Laws
use Prim.Native.String.{String}
use job_hunters_api.Common.{
  ℕ, ◌+◌, ◌*◌, ◌/◌, min, Bool, true, false, ◌&&◌, Option, none, some, List, [], ◌∷◌, ◌++◌, map, ltb,
  leb, ◌==◌, if◌then◌else◌, length, take,
}
use job_hunters_api.Common.Sort.{sort_desc}

pub data Relationship : Type 0 where
  first_degree strong_mutual alumni ex_colleague cold : Relationship

-- Their level against the target's: -1 or lower, 0, 1, or further above.
pub data LevelDelta : Type 0 where
  below same one_above further : LevelDelta

pub record Prospect : Type 0 where
  pub profile_url : String
  pub name : String
  pub title : Option String
  pub degree : ℕ
  pub relationship : Relationship
  pub same_function : Bool
  pub level_delta : LevelDelta
  pub is_recruiter : Bool
  pub shared_school : Bool
  pub shared_employer : Bool
  pub shared_city : Bool
  pub skill_overlap : ℕ
  pub mutual_connections : ℕ
  pub months_at_company : Option ℕ
  pub active_recently : Bool
  pub open_profile : Bool

-- The lines that `signalsFor` can give, with the number that one of them prints.
pub data Signal : Type 0 where
  already_connected same_company same_school joined_recently same_kind_of_role recruits : Signal
  mutual_connection : ℕ → Signal

pub record RankedProspect : Type 0 where
  pub prospect : Prospect
  pub open prospect use *
  pub score : ℕ
  pub signals : List Signal

abbrev pub relationship_score : Relationship → ℕ
relationship_score first_degree = 100
relationship_score strong_mutual = 75
relationship_score ex_colleague = 70
relationship_score alumni = 60
relationship_score cold = 20

abbrev level_score : LevelDelta → ℕ
level_score below = 35
level_score same = 90
level_score one_above = 100
level_score further = 40

pub authority_score : Prospect → ℕ
authority_score input =
    if input.is_recruiter
    then 55
    else if input.same_function
    then level_score input.level_delta
    else 25

abbrev tenure_bonus : Option ℕ → ℕ
tenure_bonus none = 0
tenure_bonus (some months) = if leb months 18 then 50 else if leb months 36 then 30 else 10

pub recency_score : Prospect → ℕ
recency_score input =
    min 100 ((if input.active_recently then 50 else 20) + tenure_bonus input.months_at_company)

pub affinity_score : Prospect → ℕ
affinity_score input =
    let employer = if input.shared_employer then 40 else 0 in
    let school = if input.shared_school then 35 else 0 in
    let city = if input.shared_city then 10 else 0 in
    min 100 (employer + school + city + min 15 (input.skill_overlap * 3))

pub reachability_score : Prospect → ℕ
reachability_score input =
    if input.degree == 1
    then 100
    else min 100 ((if input.open_profile then 60 else 30) + min 40 (input.mutual_connections * 8))

abbrev joined_lately : Option ℕ → Bool
joined_lately none = false
joined_lately (some months) = leb months 18

abbrev pub is_first_degree : Relationship → Bool
is_first_degree first_degree = true
is_first_degree _ = false

-- `if (test) signals.push(signal)`.
abbrev push_if : Bool → Signal → List Signal → List Signal
push_if test signal signals = if test then signals ++ signal ∷ [] else signals

signals_for : Prospect → List Signal
signals_for input =
    let connected = push_if (is_first_degree input.relationship) already_connected [] in
    let employer = push_if input.shared_employer same_company connected in
    let school = push_if input.shared_school same_school employer in
    let mutuals =
      push_if (ltb 0 input.mutual_connections) (mutual_connection input.mutual_connections)
        school in
    let joined = push_if (joined_lately input.months_at_company) joined_recently mutuals in
    let role = push_if input.same_function same_kind_of_role joined in
    push_if input.is_recruiter recruits role

unfoldable pub score_prospect : Prospect → RankedProspect
unfolding authority_score recency_score affinity_score reachability_score signals_for
score_prospect input =
    let sum =
      35 * relationship_score input.relationship
      + 25 * authority_score input
      + 15 * affinity_score input
      + 15 * recency_score input
      + 10 * reachability_score input in
    record { prospect = input; score = (sum + 50) / 100; signals = signals_for input }

abbrev pub max_per_company : ℕ
max_per_company = 8

unfoldable pub rank_prospects : List Prospect → ℕ → List RankedProspect
unfolding sort_desc score_prospect
rank_prospects prospects limit =
    take limit (sort_desc (λ r. r.score) (map score_prospect prospects))

abbrev pub is_empty {ℓ} : {A : Type ℓ} → List A → Bool
is_empty [] = true
is_empty (x ∷ xs) = false

unfoldable pub worth_contacting : RankedProspect → Bool
worth_contacting prospect =
    if is_first_degree prospect.relationship
    then true
    else ltb 0 (length prospect.signals) && leb 35 prospect.score
