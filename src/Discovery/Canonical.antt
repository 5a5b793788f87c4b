-- ===== src/Discovery/Canonical.antt =====
-- src/hunt/discovery/canonicalise.ts: one posting of those that several sources gave.
--
-- `Names` has the normal forms that are regular expressions, the printing of the week, and `hostname`,
-- the host of a URL in lower case, where it is one. The `Map` is an association list.
pub mod Best
pub mod Copies
use Prim.Native.String.{String, ◌++◌ as join}
use text.Mathlib.Text.{◌==◌ as str_eq}
use job_hunters_api.Common.{
  ℕ, ◌+◌, ◌*◌, ◌/◌, min, Bool, true, false, ◌||◌, Option, none, some, List, [], ◌∷◌, ◌++◌, map, any,
  ltb, if◌then◌else◌,
}
use job_hunters_api.Common.Dict.{get, put}
use job_hunters_api.Common.Text.{ends_with}
use job_hunters_api.Discovery.{ScrapedJob}

pub record Names : Type 0 where
  pub hostname : String → Option String
  pub company : String → String
  pub title : String → String
  pub decimal : ℕ → String

abbrev ats_hosts : List String
ats_hosts =
    "greenhouse.io" ∷ "lever.co" ∷ "ashbyhq.com" ∷ "smartrecruiters.com" ∷ "workable.com"
    ∷ "myworkdayjobs.com" ∷ "workday.com" ∷ []

abbrev is_ats_host : Option String → Bool
is_ats_host none = false
is_ats_host (some host) = any (λ ats. str_eq host ats || ends_with (join "." ats) host) ats_hosts

-- `job.applyUrl ?? job.url`.
abbrev url_of : Option String → String → String
url_of none url = url
url_of (some apply_url) url = apply_url

-- `[...new Set(tags)]`.
abbrev pub has_tag : String → List String → Bool
has_tag tag tags = any (λ t. str_eq t tag) tags

pub dedup_tags : List String → List String → List String
dedup_tags out [] = out
dedup_tags out (tag ∷ tags) = dedup_tags (if has_tag tag out then out else out ++ tag ∷ []) tags

module _ (n : Names) where
  unfoldable is_ats_url : String → Bool
  is_ats_url url = if str_eq url "" then false else is_ats_host (n.hostname url)

  unfoldable has_applyable_url : ScrapedJob → Bool
  unfolding is_ats_url
  has_applyable_url job = is_ats_url (url_of job.apply_url job.url)

  unfoldable pub canonical_key : ScrapedJob → String
  canonical_key job =
      join (n.company job.company) (
        join "|" (join (n.title job.title) (join "|" (n.decimal (job.posted_at / (7 * 86400000))))))

  unfoldable pub score : ScrapedJob → ℕ
  unfolding is_ats_url
  score job =
      (if is_ats_url (url_of job.apply_url job.url) then 1000000 else 0)
      + (if job.detail_fetched then 100000 else 0)
      + min job.description_length 50000

  abbrev pub merge : ScrapedJob → ScrapedJob → ScrapedJob
  merge winner loser = record winner { tags = dedup_tags [] (winner.tags ++ loser.tags) }

  -- The copy that stays, with the tags of both.
  abbrev pub better_of : ScrapedJob → ScrapedJob → ScrapedJob
  better_of job existing =
      if ltb (score existing) (score job) then merge job existing else merge existing job

  abbrev pub kept_copy : ScrapedJob → Option ScrapedJob → ScrapedJob
  kept_copy job none = job
  kept_copy job (some existing) = better_of job existing

  pub collect : List ScrapedJob → List (String × ScrapedJob) → List (String × ScrapedJob)
  collect [] best = best
  collect (job ∷ jobs) best =
      collect jobs (put (canonical_key job) (kept_copy job (get (canonical_key job) best)) best)

  unfoldable pub canonicalise : List ScrapedJob → List ScrapedJob
  unfolding collect dedup_tags
  canonicalise jobs = map (λ e. e.1) (collect jobs [])
