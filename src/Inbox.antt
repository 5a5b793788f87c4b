-- ===== src/Inbox.antt =====
-- src/inbox/match.ts: which application a reply is about.
--
-- `normalise` is `normaliseCompany`, `domain_of` and `ats_for` are the functions of these names; they
-- are regular expressions. A confidence is in hundredths. An empty text counts as none.
pub mod Support
use Prim.Native.String.{String}
use Prim.Native.String
use text.Mathlib.Text.{◌==◌ as str_eq}
use job_hunters_api.Common.{
  ℕ, ◌==◌, Bool, true, false, not, ◌&&◌, ◌||◌, Option, none, some, List, [], ◌∷◌, any, filter,
  length, leb, if◌then◌else◌,
}
use job_hunters_api.Common.Text.{codes, includes}

pub record MatchableApplication : Type 0 where
  pub id : ℕ
  pub company : String
  pub portal_id : Option String
  pub job_url : String
  pub external_job_id : String

pub record MatchableEmail : Type 0 where
  pub from_address : String
  pub subject : String
  pub links : List String

pub data MatchStrategy : Type 0 where
  ats_domain url company : MatchStrategy

pub record MatchResult : Type 0 where
  pub found : Option (ℕ × MatchStrategy)
  pub confidence : ℕ

abbrev no_match : MatchResult
no_match = record { found = none; confidence = 0 }

abbrev pub matched : MatchableApplication → MatchStrategy → ℕ → MatchResult
matched application strategy confidence = record {
  found = some (application.id, strategy);
  confidence = confidence;
}

abbrev is_portal : String → Option String → Bool
is_portal portal none = false
is_portal portal (some other) = str_eq other portal

abbrev pub join_by_space : List String → String
join_by_space [] = ""
join_by_space (text ∷ []) = text
join_by_space (text ∷ next ∷ texts) =
    String.◌++◌ text (String.◌++◌ " " (join_by_space (next ∷ texts)))

abbrev haystack_of : MatchableEmail → String
haystack_of email = join_by_space (email.subject ∷ email.links)

abbrev pub quotes_url : MatchableEmail → MatchableApplication → Bool
quotes_url email application =
    not (str_eq application.job_url "")
    && any (λ link. includes application.job_url link || includes link application.job_url)
        email.links

-- The test of the job's id is behind the `continue` of an application without a URL.
abbrev pub quotes_id : MatchableEmail → MatchableApplication → Bool
quotes_id email application =
    not (str_eq application.job_url "")
    && not (str_eq application.external_job_id "")
    && includes application.external_job_id (haystack_of email)

abbrev pub by_url : MatchableEmail → List MatchableApplication → Option MatchResult
by_url email [] = none
by_url email (application ∷ applications) =
    if quotes_url email application
    then some (matched application url 98)
    else if quotes_id email application
    then some (matched application url 95)
    else by_url email applications

module _ (normalise domain_of : String → String) (ats_for : String → Option String) where
  abbrev mentions_company : String → String → Bool
  mentions_company text name =
      let needle = normalise name in
      leb 3 (length (codes needle)) && includes needle (normalise text)

  abbrev pub is_same_ats : String → MatchableApplication → Bool
  is_same_ats ats application = is_portal ats application.portal_id

  abbrev pub is_named : MatchableEmail → String → MatchableApplication → Bool
  is_named email ats application =
      is_same_ats ats application && mentions_company (haystack_of email) application.company

  abbrev pub is_by_company : MatchableEmail → MatchableApplication → Bool
  is_by_company email application =
      mentions_company (domain_of email.from_address) application.company
      || mentions_company email.subject application.company

  abbrev pub by_company : List MatchableApplication → MatchResult
  by_company (application ∷ []) = matched application company 75
  by_company _ = no_match

  -- The applications of the system that are named, and all of the system.
  abbrev pub by_ats :
      List MatchableApplication → List MatchableApplication → MatchResult → MatchResult
  by_ats (application ∷ []) same rest = matched application ats_domain 90
  by_ats [] (application ∷ []) rest = matched application ats_domain 70
  by_ats [] same rest = rest
  by_ats _ same rest = no_match

  abbrev pub without_url : MatchableEmail → List MatchableApplication → Option String → MatchResult
  without_url email applications none = by_company (filter (is_by_company email) applications)
  without_url email applications (some ats) =
      by_ats (filter (is_named email ats) applications) (filter (is_same_ats ats) applications)
        (by_company (filter (is_by_company email) applications))

  abbrev pub after_url :
      MatchableEmail → List MatchableApplication → Option MatchResult → MatchResult
  after_url email applications (some result) = result
  after_url email applications none = without_url email applications (ats_for email.from_address)

  unfoldable pub match_email : MatchableEmail → List MatchableApplication → MatchResult
  unfolding includes
  match_email email applications = after_url email applications (by_url email applications)
