-- ===== src/Examples/Canonical.antt =====
-- A posting of a board that an aggregator repeats with a longer text.
use Prim.Native.String.{String}
use text.Mathlib.Text.{◌==◌ as str_eq}
use job_hunters_api.Common.{ℕ, ◌≡◌, refl, false, none, some, List, [], ◌∷◌, map, if◌then◌else◌}
use job_hunters_api.Common.Dict.{get, put}
use job_hunters_api.Common.Text.{ends_with}
use job_hunters_api.Discovery.{ScrapedJob}
use job_hunters_api.Discovery.Canonical.{Names, canonicalise, canonical_key, score}
use job_hunters_api.Discovery.Canonical.Copies.{IsCanonical, canonicalise-IsCanonical}

abbrev plain_names : Names
plain_names = record {
  hostname =
      λ url. if str_eq url "board" then some "boards.greenhouse.io" else some "jobs.example.com";
  company = λ text. text;
  title = λ text. text;
  decimal = λ week. "2900";
}

abbrev copy_at : String → ℕ → String → ScrapedJob
copy_at url description_length tag = record {
  fingerprint = 1;
  url = url;
  apply_url = none;
  title = "Engineer";
  company = "Acme";
  description_length = description_length;
  tags = tag ∷ [];
  posted_at = 1753920000000;
  detail_fetched = false;
}

abbrev two_copies : List ScrapedJob
two_copies = copy_at "aggregator" 900 "linkedin" ∷ copy_at "board" 40 "greenhouse" ∷ []

board_kept : map (λ v. v.url) (canonicalise plain_names two_copies) ≡ "board" ∷ []
unfolding canonicalise canonical_key score get put ends_with
board_kept = refl

both_tags :
    map (λ v. v.tags) (canonicalise plain_names two_copies) ≡ ("greenhouse" ∷ "linkedin" ∷ []) ∷ []
unfolding canonicalise canonical_key score get put ends_with
both_tags = refl

canonicalise-IsCanonical_example :
    IsCanonical plain_names two_copies (canonicalise plain_names two_copies)
canonicalise-IsCanonical_example = canonicalise-IsCanonical plain_names two_copies
