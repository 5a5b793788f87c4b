-- ===== src/Examples/Inbox.antt =====
-- Concrete replies.
use Prim.Native.String.{String}
use text.Mathlib.Text.{◌==◌ as str_eq}
use job_hunters_api.Common.{ℕ, ◌≡◌, refl, true, Option, none, some, List, [], ◌∷◌, if◌then◌else◌}
use job_hunters_api.Common.Text.{includes}
use job_hunters_api.Inbox.{MatchableApplication, MatchableEmail, url, matched, match_email}
use job_hunters_api.Inbox.Support.{is_supported, match_email-is_supported}

abbrev same_text : String → String
same_text text = text

abbrev system_of : String → Option String
system_of address = if str_eq address "no-reply@greenhouse.io" then some "greenhouse" else none

abbrev application : ℕ → String → String → MatchableApplication
application id company job_url = record {
  id = id;
  company = company;
  portal_id = some "greenhouse";
  job_url = job_url;
  external_job_id = "";
}

abbrev both : List MatchableApplication
both =
    application 1 "acme" "https://gh.io/acme/1"
    ∷ application 2 "globex" "https://gh.io/globex/2"
    ∷ []

abbrev reply : MatchableEmail
reply = record {
  from_address = "no-reply@greenhouse.io";
  subject = "Your application to globex";
  links = "https://gh.io/" ∷ [];
}

-- A link to the system's own page is part of every job's URL there, so the first application matches,
-- although the reply names the other one.
short_link_test :
    match_email same_text same_text system_of reply both
    ≡ matched (application 1 "acme" "https://gh.io/acme/1") url 98
unfolding match_email includes
short_link_test = refl

-- The name of a company inside a longer word is a mention.
inside_a_word_test :
    (match_email same_text same_text system_of
      (record { from_address = "jobs"; subject = "stripey ltd"; links = [] })
      (application 3 "stripe" "" ∷ [])).confidence
    ≡ 75
unfolding match_email includes
inside_a_word_test = refl

match_email-is_supported_example :
    is_supported same_text same_text system_of reply both
      (match_email same_text same_text system_of reply both).found
    ≡ true
match_email-is_supported_example = match_email-is_supported same_text same_text system_of reply both
