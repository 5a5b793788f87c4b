-- ===== src/Examples/Discovery.antt =====
-- A concrete selection of postings.
use job_hunters_api.Common.{ℕ, ◌≡◌, refl, false, none, List, [], ◌∷◌}
use job_hunters_api.Discovery.{ScrapedJob, queues_of, balanced_selection}
use job_hunters_api.Discovery.Complete.{IsSelection, balanced_selection-IsSelection}

abbrev posting : ℕ → ℕ → ScrapedJob
posting fingerprint posted_at = record {
  fingerprint = fingerprint;
  url = "https://example.com";
  apply_url = none;
  title = "Engineer";
  company = "Acme";
  description_length = 0;
  tags = [];
  posted_at = posted_at;
  detail_fetched = false;
}

abbrev two_portals : List (List ScrapedJob)
two_portals =
    (posting 1 5 ∷ posting 2 9 ∷ posting 3 1 ∷ []) ∷ [] ∷ (posting 2 4 ∷ posting 4 3 ∷ []) ∷ []

-- The newest of each portal in turn, the repeated posting once, and the third of the first portal not.
balanced_selection_test :
    balanced_selection 5 2 two_portals ≡ posting 2 9 ∷ posting 1 5 ∷ posting 4 3 ∷ []
unfolding balanced_selection
balanced_selection_test = refl

balanced_selection-IsSelection_example :
    IsSelection 5 (queues_of 2 two_portals) (balanced_selection 5 2 two_portals)
balanced_selection-IsSelection_example = balanced_selection-IsSelection 5 2 two_portals
