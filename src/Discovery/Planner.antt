-- ===== src/Discovery/Planner.antt =====
-- src/hunt/discovery/planner.ts: which searches a hunt sends out.
--
-- `Words` has the language's `trim`, the normal form of `normalise`, and the regular expressions of the
-- two tables, each under a name. A market is its code. A note is its kind.
pub mod Plan
pub mod Markets
pub mod Asked
use Prim.Native.String.{String, ◌++◌ as join}
use text.Mathlib.Text.{◌==◌ as str_eq}
use job_hunters_api.Common.{
  ℕ, ◌==◌, Bool, true, false, not, ◌&&◌, ◌||◌, Option, none, some, List, [], ◌∷◌, ◌++◌, map, any,
  filter, length, take, leb, if◌then◌else◌,
}

pub data RoleTerm : Type 0 where
  backend frontend full_stack sde software devops node python java : RoleTerm

pub data Place : Type 0 where
  remote india gulf saudi qatar singapore britain america germany canada australia netherlands :
      Place

pub record Words : Type 0 where
  pub trim : String → String
  pub normalise : String → String
  pub names_role : RoleTerm → String → Bool
  pub names_place : Place → String → Bool

pub data RemotePreference : Type 0 where
  remote hybrid onsite any_way : RemotePreference

pub record PlannerInput : Type 0 where
  pub roles : List String
  pub locations : List String
  pub dream_companies : List String
  pub home_city : Option String
  pub home_country : Option String
  pub remote_preference : Option RemotePreference

pub record SearchQuery : Type 0 where
  pub keywords : String
  pub market : String
  pub location_text : String
  pub remote_only : Bool

pub data PlanNote : Type 0 where
  no_roles no_locations budget_reached : PlanNote

pub record QueryPlan : Type 0 where
  pub queries : List SearchQuery
  pub dream_companies : List String
  pub notes : List PlanNote

pub record Market : Type 0 where
  pub market : String
  pub location_text : String

abbrev query_budget : ℕ
query_budget = 30

abbrev max_titles : ℕ
max_titles = 8

abbrev max_markets : ℕ
max_markets = 5

abbrev pub title_synonyms : List (RoleTerm × List String)
title_synonyms =
    (backend, "backend engineer" ∷ "backend developer" ∷ "software engineer backend" ∷ [])
    ∷ (frontend, "frontend engineer" ∷ "frontend developer" ∷ "react developer" ∷ [])
    ∷ (full_stack, "full stack engineer" ∷ "full stack developer" ∷ [])
    ∷ (sde, "software engineer" ∷ "sde" ∷ "software development engineer" ∷ [])
    ∷ (software, "software engineer" ∷ "software developer" ∷ "sde" ∷ [])
    ∷ (devops, "devops engineer" ∷ "site reliability engineer" ∷ "platform engineer" ∷ [])
    ∷ (node, "node.js developer" ∷ "backend engineer node" ∷ [])
    ∷ (python, "python developer" ∷ "python engineer" ∷ [])
    ∷ (java, "java developer" ∷ "java backend engineer" ∷ [])
    ∷ []

abbrev market_by_pattern : List (Place × String)
market_by_pattern =
    (Place.remote, "remote")
    ∷ (india, "IN")
    ∷ (gulf, "AE")
    ∷ (saudi, "SA")
    ∷ (qatar, "QA")
    ∷ (singapore, "SG")
    ∷ (britain, "GB")
    ∷ (america, "US")
    ∷ (germany, "DE")
    ∷ (canada, "CA")
    ∷ (australia, "AU")
    ∷ (netherlands, "NL")
    ∷ []

-- `seen.has(market)`; the set has the markets of what was found.
abbrev pub has_market : String → List Market → Bool
has_market market found = any (λ m. str_eq m.market market) found

abbrev pub push_market : String → String → List Market → List Market
push_market market location_text found =
    if has_market market found
    then found
    else found ++ record { market = market; location_text = location_text } ∷ []

abbrev pub is_remote : RemotePreference → Bool
is_remote RemotePreference.remote = true
is_remote _ = false

abbrev pub is_onsite : RemotePreference → Bool
is_onsite RemotePreference.onsite = true
is_onsite _ = false

-- `input.remotePreference ?? 'any'`.
abbrev pub preference_or_any : Option RemotePreference → RemotePreference
preference_or_any none = any_way
preference_or_any (some preference) = preference

-- `[city, country].filter(Boolean).join(', ')`.
abbrev is_text : Option String → Bool
is_text none = false
is_text (some t) = not (str_eq t "")

abbrev text_or_empty : Option String → String
text_or_empty none = ""
text_or_empty (some t) = t

abbrev pub home_of : Option String → Option String → String
home_of city country =
    if is_text city && is_text country
    then join (text_or_empty city) (join ", " (text_or_empty country))
    else join (text_or_empty city) (text_or_empty country)

module _ (w : Words) where
  abbrev market_in : List (Place × String) → String → Option String
  market_in [] location = none
  market_in ((place, market) ∷ entries) location =
      if w.names_place place location then some market else market_in entries location

  unfoldable pub market_for : String → Option String
  market_for location = market_in market_by_pattern location

  -- The set `seen` has the keys of `out`.
  abbrev pub push_title : String → List String → List String
  push_title title out =
      let key = w.normalise title in
      if str_eq key "" || any (λ t. str_eq t key) out then out else out ++ key ∷ []

  pub push_all : List String → List String → List String
  push_all [] out = out
  push_all (title ∷ titles) out = push_all titles (push_title title out)

  pub push_synonyms : List (RoleTerm × List String) → String → List String → List String
  push_synonyms [] role out = out
  push_synonyms ((term, expand) ∷ entries) role out =
      push_synonyms entries role (if w.names_role term role then push_all expand out else out)

  abbrev push_role : String → List String → List String
  push_role role out =
      let trimmed = w.trim role in
      if str_eq trimmed ""
      then out
      else push_synonyms title_synonyms trimmed (push_title trimmed out)

  pub push_roles : List String → List String → List String
  push_roles [] out = out
  push_roles (role ∷ roles) out = push_roles roles (push_role role out)

  abbrev pub or_default : List String → List String
  or_default [] = push_title "software engineer" []
  or_default (t ∷ ts) = t ∷ ts

  unfoldable pub expand_titles : List String → List String
  unfolding push_roles push_synonyms push_all
  expand_titles roles = take max_titles (or_default (push_roles roles []))

  abbrev pub push_found : RemotePreference → String → Option String → List Market → List Market
  push_found preference text none found = found
  push_found preference text (some market) found =
      if str_eq market "remote" && is_onsite preference
      then found
      else push_market market text found

  pub push_locations : RemotePreference → List String → List Market → List Market
  push_locations preference [] found = found
  push_locations preference (location ∷ locations) found =
      push_locations preference locations
        (push_found preference (w.trim location) (market_for location) found)

  -- The market of the user's home, whatever the preference.
  abbrev pub push_home : String → Option String → List Market → List Market
  push_home home none found = found
  push_home home (some market) found = push_market market home found

  abbrev pub or_home : PlannerInput → List Market → List Market
  or_home input (m ∷ ms) = m ∷ ms
  or_home input [] =
      let home = home_of input.home_city input.home_country in
      push_home home (if str_eq home "" then none else market_for home) []

  unfoldable pub resolve_markets : PlannerInput → List Market
  unfolding push_locations market_for
  resolve_markets input =
      let preference = preference_or_any input.remote_preference in
      if is_remote preference
      then record { market = "remote"; location_text = "Remote" } ∷ []
      else let found = or_home input (push_locations preference input.locations []) in
        take max_markets
          (if is_onsite preference then found else push_market "remote" "Remote" found)

-- The inner loop; the flag is `break outer`.
abbrev pub query_of : String → Market → SearchQuery
query_of title m = record {
  keywords = title;
  market = m.market;
  location_text = m.location_text;
  remote_only = str_eq m.market "remote";
}

pub fill_markets : String → List Market → List SearchQuery → List SearchQuery × Bool
fill_markets title [] queries = (queries, false)
fill_markets title (m ∷ ms) queries =
    let rest =
      fill_markets title ms
        (if str_eq title "" then queries else queries ++ query_of title m ∷ []) in
    if leb query_budget (length queries) then (queries, true) else rest

abbrev pub unless_broken :
    List SearchQuery × Bool → (List SearchQuery → List SearchQuery) → List SearchQuery
unless_broken (queries, true) rest = queries
unless_broken (queries, false) rest = rest queries

pub fill_titles : List String → List Market → List SearchQuery → List SearchQuery
fill_titles [] markets queries = queries
fill_titles (title ∷ titles) markets queries =
    unless_broken (fill_markets title markets queries) (fill_titles titles markets)

abbrev plan_note : Bool → PlanNote → List PlanNote
plan_note true note = note ∷ []
plan_note false note = []

abbrev is_nil : List String → Bool
is_nil [] = true
is_nil (x ∷ xs) = false

unfoldable pub plan_queries : Words → PlannerInput → QueryPlan
unfolding fill_titles fill_markets expand_titles resolve_markets
plan_queries w input =
    let queries = fill_titles (expand_titles w input.roles) (resolve_markets w input) [] in
    record {
      queries = queries;
      dream_companies =
          take 20 (filter (λ c. not (str_eq c "")) (map w.trim input.dream_companies));
      notes =
          plan_note (is_nil input.roles) no_roles
          ++ (plan_note (is_nil input.locations) no_locations
              ++ plan_note (length queries == query_budget) budget_reached);
    }
