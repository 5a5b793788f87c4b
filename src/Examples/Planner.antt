-- ===== src/Examples/Planner.antt =====
-- The searches for one role, for a user in Pune.
use Prim.Native.String.{String}
use text.Mathlib.Text.{◌==◌ as str_eq}
use job_hunters_api.Common.{◌≡◌, refl, Bool, false, Option, none, some, [], ◌∷◌, map}
use job_hunters_api.Discovery.Planner.{
  RoleTerm, Place, Words, RemotePreference, PlannerInput, plan_queries, resolve_markets,
}
use job_hunters_api.Discovery.Planner.Asked.{IsResolved, resolve_markets-IsWanted}
use job_hunters_api.Discovery.Planner.Plan.{IsPlan, plan_queries-IsPlan}

abbrev names_place : Place → String → Bool
names_place Place.remote text = str_eq text "Remote"
names_place Place.india text = str_eq text "Pune"
names_place Place.germany text = str_eq text "Berlin"
names_place _ text = false

abbrev names_role : RoleTerm → String → Bool
names_role RoleTerm.python text = str_eq text "python developer"
names_role _ text = false

abbrev plain_words : Words
plain_words = record {
  trim = λ text. text;
  normalise = λ text. text;
  names_role = names_role;
  names_place = names_place;
}

abbrev pune : Option RemotePreference → PlannerInput
pune preference = record {
  roles = "python developer" ∷ [];
  locations = "Remote" ∷ "Pune" ∷ "Berlin" ∷ "Pune" ∷ [];
  dream_companies = [];
  home_city = some "Pune";
  home_country = none;
  remote_preference = preference;
}

office_markets :
    map (λ m. m.market) (resolve_markets plain_words (pune (some RemotePreference.onsite)))
    ≡ "IN" ∷ "DE" ∷ []
unfolding resolve_markets
office_markets = refl

four_searches :
    map (λ q. q.keywords) (plan_queries plain_words (pune (some RemotePreference.onsite))).queries
    ≡ "python developer" ∷ "python developer" ∷ "python engineer" ∷ "python engineer" ∷ []
unfolding plan_queries
four_searches = refl

resolve_markets-IsWanted_example :
    IsResolved plain_words
      (pune (some RemotePreference.onsite))
      (resolve_markets plain_words (pune (some RemotePreference.onsite)))
resolve_markets-IsWanted_example =
    resolve_markets-IsWanted plain_words (pune (some RemotePreference.onsite))

plan_queries-IsPlan_example :
    IsPlan plain_words (pune none) (plan_queries plain_words (pune none)).queries
plan_queries-IsPlan_example = plan_queries-IsPlan plain_words (pune none)
