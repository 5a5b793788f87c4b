-- ===== src/Discovery/Planner/Asked.antt =====
-- The markets of src/hunt/discovery/planner.ts are those of the user's locations, or of the home.
use Prim.Native.String.{String}
use text.Mathlib.Text.{◌==◌ as str_eq}
use job_hunters_api.Common.{
  ◌≡◌, refl, ◌∙◌, Bool, Bool-cases, inl, inr, true, false, not, ◌&&◌, ◌||◌, Option, none, some,
  List, [], ◌∷◌, any, length, length-take, take, take_all, leb, arith, if◌then◌else◌,
}
use job_hunters_api.Discovery.Planner.{
  Words, PlannerInput, RemotePreference, Market, has_market, push_market, is_remote, is_onsite,
  preference_or_any, home_of, push_home, market_for, push_found, push_locations, or_home,
  resolve_markets,
}
use job_hunters_api.Discovery.Planner.Markets.{
  has_market-push_market, home_market, has_market-take, IsWanted, markets-IsWanted, found_for,
}

abbrev is_at : String → Option String → Bool
is_at k none = false
is_at k (some market) = str_eq market k

-- An office user's location counts where it has a market, and not the remote one.
abbrev counts : RemotePreference → Option String → Bool
counts p none = false
counts p (some market) = not (str_eq market "remote" && is_onsite p)

abbrev is_none : List Market → Bool
is_none [] = true
is_none (m ∷ ms) = false

is_none-push_market :
    (market text : String) (found : List Market) → is_none (push_market market text found) ≡ false
is_none-push_market market text [] = refl
is_none-push_market market text (m ∷ ms) = elim (Bool-cases (has_market market (m ∷ ms))) [
  | inl known ↦ rw known refl
  | inr new ↦ rw new refl
]

module _ (w : Words) where
  abbrev is_local : RemotePreference → String → String → Bool
  is_local p k l = counts p (market_for w l) && is_at k (market_for w l)

  -- The markets that a hunt asks for: those of the locations or, if none of them counts, that of the
  -- home; for a remote user the remote one alone, and but for an office user the remote one too.
  abbrev pub is_asked_for : PlannerInput → RemotePreference → String → Bool
  is_asked_for input p k =
      if is_remote p
      then str_eq "remote" k
      else (if any (λ l. counts p (market_for w l)) input.locations
          then any (is_local p k) input.locations
          else is_at k (home_market w input))
        || (not (is_onsite p) && str_eq "remote" k)

  has_market-push_found :
      (p : RemotePreference) (k text : String) (m : Option String) (found : List Market)
      → has_market k (push_found w p text m found)
        ≡ (has_market k found || (counts p m && is_at k m))
  has_market-push_found p k text none found = ground arith
  has_market-push_found p k text (some market) found =
      elim (Bool-cases (str_eq market "remote" && is_onsite p)) [
        | inl skip ↦ rw skip (ground arith)
        | inr go ↦ rw go (has_market-push_market k market text found)
      ]

  is_none-push_found :
      (p : RemotePreference) (text : String) (m : Option String) (found : List Market)
      → is_none (push_found w p text m found) ≡ (is_none found && not (counts p m))
  is_none-push_found p text none found = ground arith
  is_none-push_found p text (some market) found =
      elim (Bool-cases (str_eq market "remote" && is_onsite p)) [
        | inl skip ↦ rw skip (ground arith)
        | inr go ↦ rw go (is_none-push_market market text found ∙ ground arith)
      ]

  has_market-push_locations :
      (p : RemotePreference) (k : String) (ls : List String) (found : List Market)
      → has_market k (push_locations w p ls found) ≡ (has_market k found || any (is_local p k) ls)
  unfolding push_locations
  has_market-push_locations p k [] found = ground arith
  has_market-push_locations p k (l ∷ ls) found =
      let next = push_found w p (w.trim l) (market_for w l) found in
      ground (
        arith,
        has_market-push_locations p k ls next,
        has_market-push_found p k (w.trim l) (market_for w l) found,
      )

  is_none-push_locations :
      (p : RemotePreference) (ls : List String) (found : List Market)
      → is_none (push_locations w p ls found)
        ≡ (is_none found && not (any (λ l. counts p (market_for w l)) ls))
  unfolding push_locations
  is_none-push_locations p [] found = ground arith
  is_none-push_locations p (l ∷ ls) found =
      let next = push_found w p (w.trim l) (market_for w l) found in
      ground (
        arith,
        is_none-push_locations p ls next,
        is_none-push_found p (w.trim l) (market_for w l) found,
      )

  has_market-or_home :
      (input : PlannerInput) (k : String) (found : List Market)
      → has_market k (or_home w input found)
        ≡ (if is_none found then is_at k (home_market w input) else has_market k found)
  has_market-or_home input k (m ∷ ms) = refl
  has_market-or_home input k [] = of_home (home_market w input)
    where
      text : String
      text = home_of input.home_city input.home_country

      of_home : (home : Option String) → has_market k (push_home w text home []) ≡ is_at k home
      of_home none = refl
      of_home (some market) = has_market-push_market k market text []

  -- What the cut to five markets leaves.
  pub record IsCut (input : PlannerInput) (p : RemotePreference) (markets : List Market)
      : Type 0 where
    pub only_asked : (k : String) → (not (has_market k markets) || is_asked_for input p k) ≡ true
    pub all_asked :
        (k : String)
        → (not (is_asked_for input p k) || has_market k markets || leb 5 (length markets)) ≡ true

  take-IsCut :
      (input : PlannerInput) (p : RemotePreference) (found : List Market)
      → ((k : String) → has_market k found ≡ is_asked_for input p k)
      → IsCut input p (take 5 found)
  take-IsCut input p found same = record {
    only_asked = λ k. rw (← same k) (elim (Bool-cases (has_market k found)) [
      | inl there ↦ rw there (ground arith)
      | inr absent ↦ rw (absent, has_market-take w 5 k found absent) refl
    ]);
    all_asked = λ k. rw (← same k) (elim (Bool-cases (leb (length found) 5)) [
      | inl short ↦ rw (take_all 5 found (ground arith)) (ground arith)
      | inr long ↦ ground (arith, length-take 5 found)
    ]);
  }

  found-is_asked_for :
      (input : PlannerInput) (p : RemotePreference) (k : String)
      → has_market k (found_for w p input) ≡ (
          if any (λ l. counts p (market_for w l)) input.locations
          then any (is_local p k) input.locations
          else is_at k (home_market w input))
  unfolding found_for
  found-is_asked_for input p k =
      let found = push_locations w p input.locations [] in
      has_market-or_home input k found
      ∙ rw
          (
            is_none-push_locations p input.locations [],
            has_market-push_locations p k input.locations [],
          )
          (ground arith)

  open-IsCut :
      (input : PlannerInput) (p : RemotePreference)
      → is_remote p ≡ false
      → is_onsite p ≡ false
      → IsCut input p (take 5 (push_market "remote" "Remote" (found_for w p input)))
  open-IsCut input p away inside =
      take-IsCut input p (push_market "remote" "Remote" (found_for w p input)) (λ k.
        has_market-push_market k "remote" "Remote" (found_for w p input)
        ∙ rw (away, inside, found-is_asked_for input p k) refl)

  resolve_markets-IsCut :
      (input : PlannerInput)
      → IsCut input (preference_or_any input.remote_preference) (resolve_markets w input)
  unfolding resolve_markets found_for
  resolve_markets-IsCut input = go (preference_or_any input.remote_preference)
    where
      go :
          (p : RemotePreference)
          → IsCut input p (
              if is_remote p
              then record { market = "remote"; location_text = "Remote" } ∷ []
              else take 5 (
                  if is_onsite p
                  then or_home w input (push_locations w p input.locations [])
                  else push_market "remote" "Remote"
                      (or_home w input (push_locations w p input.locations []))))
      go RemotePreference.remote = record {
        only_asked = λ k. ground arith;
        all_asked = λ k. ground arith;
      }
      go RemotePreference.onsite =
          take-IsCut input RemotePreference.onsite
            (or_home w input (push_locations w RemotePreference.onsite input.locations []))
            (λ k. found-is_asked_for input RemotePreference.onsite k ∙ ground arith)
      go RemotePreference.hybrid = open-IsCut input RemotePreference.hybrid refl refl
      go RemotePreference.any_way = open-IsCut input RemotePreference.any_way refl refl

  pub record IsResolved (input : PlannerInput) (markets : List Market) : Type 0 where
    pub fits : IsWanted w (preference_or_any input.remote_preference) (home_market w input) markets
    pub asked : IsCut input (preference_or_any input.remote_preference) markets

  -- The markets of a hunt are those of the user's locations or, if none has one, that of the home; for a
  -- remote user the remote market alone; for an office user no remote market, but for that of a home
  -- that names it; for any other user the remote market as well. Each is there once, nothing else
  -- is, and all of them are, unless there are more than five: then five of them.
  pub resolve_markets-IsWanted : (input : PlannerInput) → IsResolved input (resolve_markets w input)
  resolve_markets-IsWanted input = record {
    fits = markets-IsWanted w input;
    asked = resolve_markets-IsCut input;
  }
