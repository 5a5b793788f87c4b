-- ===== src/Discovery/Planner/Markets.antt =====
-- The markets of src/hunt/discovery/planner.ts follow how the user wants to work.
use Prim.Native.String.{String}
use text.Mathlib.Text.{◌==◌ as str_eq}
use text.Mathlib.TextEquality.{eq_iff}
use job_hunters_api.Common.{
  ℕ, ◌≡◌, ◌≤◌, refl, ◌∙◌, Bool, Bool-cases, inl, inr, true, false, not, ◌&&◌, ◌||◌, Option, none,
  some, List, [], ◌∷◌, any-append, all, count, count-append, count-take-le, count_of_not_any,
  not_any_of_count, length, length-take, take, take_all, leb, arith, if◌then◌else◌,
}
use job_hunters_api.Discovery.Planner.{
  Words, PlannerInput, RemotePreference, Market, has_market, push_market, is_remote, is_onsite,
  preference_or_any, home_of, market_for, push_found, push_locations, push_home, or_home,
  resolve_markets,
}

abbrev is_market : String → Market → Bool
is_market market m = str_eq m.market market

-- Each market once.
abbrev IsOnce : List Market → Type 0
IsOnce found = (market : String) → count (is_market market) found ≤ 1

push_market-IsOnce :
    (market text : String) (found : List Market)
    → IsOnce found
    → IsOnce (push_market market text found)
push_market-IsOnce market text found h k = elim (Bool-cases (has_market market found)) [
  | inl known ↦ rw known (h k)
  | inr new ↦ rw new (
      ground (
        arith,
        eq_iff market k,
        h k,
        count-append (is_market k) found (record { market = market; location_text = text } ∷ []),
        count_of_not_any (is_market market) found,
      ))
]

pub has_market-push_market :
    (k market text : String) (found : List Market)
    → has_market k (push_market market text found) ≡ (has_market k found || str_eq market k)
has_market-push_market k market text found = elim (Bool-cases (has_market market found)) [
  | inl known ↦ rw known (ground (arith, eq_iff market k))
  | inr new ↦ rw new (
      ground (
        arith,
        any-append (is_market k) found (record { market = market; location_text = text } ∷ []),
      ))
]

module _ (w : Words) where
  push_locations-IsOnce :
      (p : RemotePreference) (locations : List String) (found : List Market)
      → IsOnce found
      → IsOnce (push_locations w p locations found)
  unfolding push_locations
  push_locations-IsOnce p [] found h = h
  push_locations-IsOnce p (l ∷ ls) found h = push_locations-IsOnce p ls _ (pushed (market_for w l))
    where
      pushed : (m : Option String) → IsOnce (push_found w p (w.trim l) m found)
      pushed none = h
      pushed (some market) = elim (Bool-cases (str_eq market "remote" && is_onsite p)) [
        | inl skip ↦ rw skip h
        | inr go ↦ rw go (push_market-IsOnce market (w.trim l) found h)
      ]

  -- An office user's locations bring no remote market.
  push_locations-office :
      (p : RemotePreference) (locations : List String) (found : List Market)
      → is_onsite p ≡ true
      → has_market "remote" found ≡ false
      → has_market "remote" (push_locations w p locations found) ≡ false
  unfolding push_locations
  push_locations-office p [] found office h = h
  push_locations-office p (l ∷ ls) found office h =
      push_locations-office p ls (push_found w p (w.trim l) (market_for w l) found) office
        (pushed (market_for w l))
    where
      pushed : (m : Option String) → has_market "remote" (push_found w p (w.trim l) m found) ≡ false
      pushed none = h
      pushed (some market) = elim (Bool-cases (str_eq market "remote")) [
        | inl skip ↦ rw (skip, office) h
        | inr go ↦ rw go (has_market-push_market "remote" market (w.trim l) found ∙ rw (h, go) refl)
      ]

  -- The market that the user's home stands for, and whether that is the remote one.
  abbrev pub home_market : PlannerInput → Option String
  home_market input =
      let home = home_of input.home_city input.home_country in
      if str_eq home "" then none else market_for w home

  abbrev is_remote_home : Option String → Bool
  is_remote_home none = false
  is_remote_home (some market) = str_eq market "remote"

  push_home-IsOnce : (home : String) (m : Option String) → IsOnce (push_home w home m [])
  push_home-IsOnce home none = λ k. omega arith
  push_home-IsOnce home (some market) = push_market-IsOnce market home [] (λ k. omega arith)

  or_home-IsOnce :
      (input : PlannerInput) (found : List Market) → IsOnce found → IsOnce (or_home w input found)
  or_home-IsOnce input [] h =
      push_home-IsOnce (home_of input.home_city input.home_country) (home_market input)
  or_home-IsOnce input (m ∷ ms) h = h

  push_home-office :
      (home : String) (m : Option String)
      → (is_remote_home m || not (has_market "remote" (push_home w home m []))) ≡ true
  push_home-office home none = refl
  push_home-office home (some market) =
      ground (arith, has_market-push_market "remote" market home [])

  or_home-office :
      (input : PlannerInput) (found : List Market)
      → has_market "remote" found ≡ false
      → (is_remote_home (home_market input) || not (has_market "remote" (or_home w input found)))
        ≡ true
  or_home-office input [] h =
      push_home-office (home_of input.home_city input.home_country) (home_market input)
  or_home-office input (m ∷ ms) h = ground arith

  -- Each market once, at most five; a remote user is offered nothing else; an office user no remote
  -- market but that of a home that names it; and any other user the remote market, unless five others
  -- come first.
  pub record IsWanted (p : RemotePreference) (home : Option String) (markets : List Market)
      : Type 0 where
    pub once : IsOnce markets
    pub few : length markets ≤ 5
    pub remote_alone : (not (is_remote p) || all (is_market "remote") markets) ≡ true
    pub office :
        (not (is_onsite p) || is_remote_home home || not (has_market "remote" markets)) ≡ true
    pub open_to_remote :
        (is_onsite p || has_market "remote" markets || leb 5 (length markets)) ≡ true

  pub has_market-take :
      (n : ℕ) (market : String) (ms : List Market)
      → has_market market ms ≡ false
      → has_market market (take n ms) ≡ false
  has_market-take n market ms h = not_any_of_count (is_market market) (take n ms) (
      omega
        (arith, count-take-le (is_market market) n ms, count_of_not_any (is_market market) ms h))

  five_or_all :
      (ms : List Market)
      → has_market "remote" ms ≡ true
      → (has_market "remote" (take 5 ms) || leb 5 (length (take 5 ms))) ≡ true
  five_or_all ms h = elim (Bool-cases (leb (length ms) 5)) [
    | inl short ↦ rw (take_all 5 ms (ground arith)) (rw h refl)
    | inr long ↦ ground (arith, length-take 5 ms)
  ]

  cut-IsWanted :
      (p : RemotePreference) (home : Option String) (found : List Market)
      → is_remote p ≡ false
      → IsOnce found
      → (not (is_onsite p) || is_remote_home home || not (has_market "remote" found)) ≡ true
      → (is_onsite p || has_market "remote" found) ≡ true
      → IsWanted p home (take 5 found)
  cut-IsWanted p home found away once office wide = record {
    once = λ k. omega (arith, once k, count-take-le (is_market k) 5 found);
    few = omega (arith, length-take 5 found);
    remote_alone = rw away refl;
    office = ground (arith, has_market-take 5 "remote" found);
    open_to_remote = ground (arith, five_or_all found);
  }

  remote-IsWanted :
      (p : RemotePreference) (home : Option String)
      → is_remote p ≡ true
      → is_onsite p ≡ false
      → IsWanted p home (record { market = "remote"; location_text = "Remote" } ∷ [])
  remote-IsWanted p home remote away = record {
    once = λ k. ground arith;
    few = omega arith;
    remote_alone = ground (arith, remote);
    office = rw away refl;
    open_to_remote = ground arith;
  }

  unfoldable pub found_for : RemotePreference → PlannerInput → List Market
  found_for p input = or_home w input (push_locations w p input.locations [])

  found_for-IsOnce : (p : RemotePreference) (input : PlannerInput) → IsOnce (found_for p input)
  unfolding found_for
  found_for-IsOnce p input =
      or_home-IsOnce input (push_locations w p input.locations [])
        (push_locations-IsOnce p input.locations [] (λ k. omega arith))

  -- Somebody who is neither for remote work alone nor for an office is offered remote work too.
  open-IsWanted :
      (p : RemotePreference) (input : PlannerInput)
      → is_remote p ≡ false
      → is_onsite p ≡ false
      → IsWanted p (home_market input) (take 5 (push_market "remote" "Remote" (found_for p input)))
  open-IsWanted p input away inside =
      let found = found_for p input in
      let offered : has_market "remote" (push_market "remote" "Remote" found) ≡ true =
        has_market-push_market "remote" "remote" "Remote" found ∙ ground arith in
      cut-IsWanted p (home_market input) (push_market "remote" "Remote" found) away
        (push_market-IsOnce "remote" "Remote" found (found_for-IsOnce p input)) (rw inside refl)
        (ground (arith, offered))

  pub markets-IsWanted :
      (input : PlannerInput)
      → IsWanted
          (preference_or_any input.remote_preference)
          (home_market input)
          (resolve_markets w input)
  unfolding resolve_markets found_for
  markets-IsWanted input = go (preference_or_any input.remote_preference)
    where
      go :
          (p : RemotePreference)
          → IsWanted p (home_market input) (
              if is_remote p
              then record { market = "remote"; location_text = "Remote" } ∷ []
              else take 5 (
                  if is_onsite p
                  then or_home w input (push_locations w p input.locations [])
                  else push_market "remote" "Remote"
                      (or_home w input (push_locations w p input.locations []))))
      go RemotePreference.remote =
          remote-IsWanted RemotePreference.remote (home_market input) refl refl
      go RemotePreference.hybrid = open-IsWanted RemotePreference.hybrid input refl refl
      go RemotePreference.any_way = open-IsWanted RemotePreference.any_way input refl refl
      go RemotePreference.onsite =
          let found = push_locations w RemotePreference.onsite input.locations [] in
          cut-IsWanted RemotePreference.onsite (home_market input) (or_home w input found) refl
            (found_for-IsOnce RemotePreference.onsite input)
            (or_home-office input found
              (push_locations-office RemotePreference.onsite input.locations [] refl refl))
            refl
