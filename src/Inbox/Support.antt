-- ===== src/Inbox/Support.antt =====
-- What a match of src/inbox/match.ts rests on.
use Prim.Native.String.{String}
use job_hunters_api.Common.{
  ℕ, ◌==◌, ◌≡◌, refl, ap, sym, ◌∙◌, Bool, true, false, Bool-cases, inl, inr, ◌&&◌, ◌||◌, Option,
  none, some, List, [], ◌∷◌, any, filter, length, count, arith,
}
use job_hunters_api.Inbox.{
  MatchableApplication, MatchableEmail, MatchStrategy, ats_domain, url, company, MatchResult,
  quotes_url, quotes_id, by_url, is_same_ats, is_named, is_by_company, by_company, by_ats,
  without_url, after_url, match_email,
}

abbrev is_ats : (String → Bool) → Option String → Bool
is_ats test none = false
is_ats test (some ats) = test ats

module _ (normalise domain_of : String → String) (ats_for : String → Option String) where
  -- A strategy's ground for an application: a link or an id of the job; the sender's system, where no
  -- other application of the system is named, or none is and it is the only one there; or the company,
  -- where no other application is of a company that the sender or the subject mentions.
  abbrev is_ground :
      MatchableEmail → List MatchableApplication → MatchStrategy → MatchableApplication → Bool
  is_ground email applications url a = quotes_url email a || quotes_id email a
  is_ground email applications ats_domain a =
      is_ats
        (λ ats.
          is_same_ats normalise domain_of ats_for ats a
          && (((count (is_named normalise domain_of ats_for email ats) applications == 1)
                && is_named normalise domain_of ats_for email ats a)
              || ((count (is_named normalise domain_of ats_for email ats) applications == 0)
                  && (count (is_same_ats normalise domain_of ats_for ats) applications == 1))))
        (ats_for email.from_address)
  is_ground email applications company a =
      (count (is_by_company normalise domain_of ats_for email) applications == 1)
      && is_by_company normalise domain_of ats_for email a

  abbrev pub is_supported :
      MatchableEmail → List MatchableApplication → Option (ℕ × MatchStrategy) → Bool
  is_supported email applications none = true
  is_supported email applications (some (id, strategy)) =
      any (λ a. (a.id == id) && is_ground email applications strategy a) applications

  -- A list of one that a filter leaves: its element passes the test.
  only_one :
      (test fits : MatchableApplication → Bool) (a : MatchableApplication)
      (apps : List MatchableApplication)
      → filter test apps ≡ a ∷ []
      → ((x : MatchableApplication) → test x ≡ true → fits x ≡ true)
      → any (λ x. (x.id == a.id) && fits x) apps ≡ true
  only_one test fits a [] e h = absurd (ground arith)
  only_one test fits a (x ∷ apps) e h = elim (Bool-cases (test x)) [
    | inl passes ↦
        let here : x ≡ a = head_inj x a _ [] (rw passes at e) in
        let fine = h x passes in let same : x.id ≡ a.id = ap (λ y. y.id) here in ground arith
    | inr fails ↦ let rest = only_one test fits a apps (rw fails at e) h in ground arith
  ]
    where
      head_inj :
          (x y : MatchableApplication) (xs ys : List MatchableApplication) → x ∷ xs ≡ y ∷ ys → x ≡ y
      head_inj x y xs ys e = cc

  length-filter :
      (test : MatchableApplication → Bool) (apps : List MatchableApplication)
      → length (filter test apps) ≡ count test apps
  length-filter test [] = refl
  length-filter test (a ∷ apps) =
      let rest = length-filter test apps in
      elim (Bool-cases (test a)) [ inl e ↦ rw (e, rest) refl | inr e ↦ rw (e, rest) refl ]

  abbrev OnResult : MatchableEmail → List MatchableApplication → Option MatchResult → Type 0
  OnResult email all none = Unit
  OnResult email all (some result) = is_supported email all result.found ≡ true

  by_url-is_supported :
      (email : MatchableEmail) (all apps : List MatchableApplication)
      → ((id : ℕ)
          → any (λ a. (a.id == id) && is_ground email all url a) apps ≡ true
          → any (λ a. (a.id == id) && is_ground email all url a) all ≡ true)
      → OnResult email all (by_url email apps)
  by_url-is_supported email all [] up = tt
  by_url-is_supported email all (a ∷ apps) up = elim (Bool-cases (quotes_url email a)) [
    | inl linked ↦ rw linked (up a.id (ground arith))
    | inr unlinked ↦ elim (Bool-cases (quotes_id email a)) [
      | inl numbered ↦ rw (unlinked, numbered) (up a.id (ground arith))
      | inr other ↦
          rw (unlinked, other) (by_url-is_supported email all apps (λ id k. up id (ground arith)))
    ]
  ]

  by_company-is_supported :
      (email : MatchableEmail) (all : List MatchableApplication)
      → is_supported email all
          (by_company normalise domain_of ats_for
            (filter (is_by_company normalise domain_of ats_for email) all)).found
        ≡ true
  by_company-is_supported email all =
      single (filter (is_by_company normalise domain_of ats_for email) all) refl
    where
      single :
          (named : List MatchableApplication)
          → filter (is_by_company normalise domain_of ats_for email) all ≡ named
          → is_supported email all (by_company normalise domain_of ats_for named).found ≡ true
      single [] e = refl
      single (a ∷ []) e =
          let alone : count (is_by_company normalise domain_of ats_for email) all ≡ 1 =
            sym (length-filter (is_by_company normalise domain_of ats_for email) all)
            ∙ ap length e in
          only_one (is_by_company normalise domain_of ats_for email) (is_ground email all company) a
            all e (λ x h. ground arith)
      single (a ∷ b ∷ named) e = refl

  by_ats-is_supported :
      (email : MatchableEmail) (all : List MatchableApplication) (ats : String)
      → ats_for email.from_address ≡ some ats
      → is_supported email all
          (by_ats normalise domain_of ats_for
            (filter (is_named normalise domain_of ats_for email ats) all)
            (filter (is_same_ats normalise domain_of ats_for ats) all)
            (by_company normalise domain_of ats_for
              (filter (is_by_company normalise domain_of ats_for email) all))).found
        ≡ true
  by_ats-is_supported email all ats is =
      pick (filter (is_named normalise domain_of ats_for email ats) all)
        (filter (is_same_ats normalise domain_of ats_for ats) all) refl refl
    where
      pick :
          (named same : List MatchableApplication)
          → filter (is_named normalise domain_of ats_for email ats) all ≡ named
          → filter (is_same_ats normalise domain_of ats_for ats) all ≡ same
          → is_supported email all
              (by_ats normalise domain_of ats_for named same (
                by_company normalise domain_of ats_for
                  (filter (is_by_company normalise domain_of ats_for email) all))).found
            ≡ true
      pick (a ∷ []) same e f =
          let alone : count (is_named normalise domain_of ats_for email ats) all ≡ 1 =
            sym (length-filter (is_named normalise domain_of ats_for email ats) all)
            ∙ ap length e in
          only_one (is_named normalise domain_of ats_for email ats) (is_ground email all ats_domain)
            a all e (λ x h. rw is (ground arith))
      pick [] (a ∷ []) e f =
          let nobody : count (is_named normalise domain_of ats_for email ats) all ≡ 0 =
            sym (length-filter (is_named normalise domain_of ats_for email ats) all)
            ∙ ap length e in
          let alone : count (is_same_ats normalise domain_of ats_for ats) all ≡ 1 =
            sym (length-filter (is_same_ats normalise domain_of ats_for ats) all) ∙ ap length f in
          only_one (is_same_ats normalise domain_of ats_for ats) (is_ground email all ats_domain) a
            all f (λ x h. rw is (ground arith))
      pick [] [] e f = by_company-is_supported email all
      pick [] (a ∷ b ∷ same) e f = by_company-is_supported email all
      pick (a ∷ b ∷ named) same e f = refl

  -- A reply is matched with an application of the list only, and with a ground for it: a link that
  -- contains the address of its job or is a part of it, however short, or the id of its job; its system,
  -- when it is the one application of the system that the reply names, or no other is there and none is
  -- named; or its company, when it is the one application whose company's normal form is a part of
  -- that of the sender or the subject, be it in the middle of a word. Between several by system or
  -- company no choice is made.
  pub match_email-is_supported :
      (email : MatchableEmail) (applications : List MatchableApplication)
      → is_supported email applications
          (match_email normalise domain_of ats_for email applications).found
        ≡ true
  unfolding match_email
  match_email-is_supported email applications =
      linked (by_url email applications)
        (by_url-is_supported email applications applications (λ id k. k))
    where
      system :
          (ats : Option String)
          → ats_for email.from_address ≡ ats
          → is_supported email applications
              (without_url normalise domain_of ats_for email applications ats).found
            ≡ true
      system none is = by_company-is_supported email applications
      system (some ats) is = by_ats-is_supported email applications ats is

      linked :
          (result : Option MatchResult)
          → OnResult email applications result
          → is_supported email applications
              (after_url normalise domain_of ats_for email applications result).found
            ≡ true
      linked (some result) h = h
      linked none h = system (ats_for email.from_address) refl
