-- ===== src/Discovery.antt =====
-- `balancedSelection` of src/hunt/discovery/service.ts: which of the postings that the portals returned
-- are kept.
--
-- A fingerprint and an instant are numbers. The set `seen` has the fingerprints of `picked`. The rounds
-- are on fuel, one more than the postings there are, and a round that finds every
-- queue at its end is the last.
pub mod Selection
pub mod Complete
pub mod Planner
pub mod Canonical
use Prim.Native.String.{String}
use job_hunters_api.Common.{
  ℕ, zero, suc, ◌+◌, ◌==◌, Bool, true, false, Option, none, some, List, [], ◌∷◌, ◌++◌, map, any,
  filter, length, take, get_elem?, ltb, if◌then◌else◌,
}
use job_hunters_api.Common.Sort.{sort_desc}

pub record ScrapedJob : Type 0 where
  pub fingerprint : ℕ
  pub url : String
  pub apply_url : Option String
  pub title : String
  pub company : String
  pub description_length : ℕ  -- 0 where there is no `descriptionText`
  pub tags : List String
  pub posted_at : ℕ
  pub detail_fetched : Bool

-- `seen.has(fingerprint)`.
abbrev pub is_picked : ScrapedJob → List ScrapedJob → Bool
is_picked job picked = any (λ p. p.fingerprint == job.fingerprint) picked

abbrev pub queues_of : (per_portal_cap : ℕ) → List (List ScrapedJob) → List (List ScrapedJob)
queues_of cap results =
    map (λ jobs. take cap (sort_desc (λ job. job.posted_at) jobs))
      (filter (λ jobs. ltb 0 (length jobs)) results)

pub record Round : Type 0 where
  pub picked : List ScrapedJob
  pub placed : Bool
  pub full : Bool

-- One queue's turn in a round.
abbrev pub visit : ℕ → Option ScrapedJob → List ScrapedJob → Bool → Round
visit target none picked placed = record { picked = picked; placed = placed; full = false }
visit target (some job) picked placed =
    if is_picked job picked
    then record { picked = picked; placed = true; full = false }
    else record {
      picked = picked ++ job ∷ [];
      placed = true;
      full = length (picked ++ job ∷ []) == target;
    }

-- The loop over the queues, which ends early when the target is met.
pub pick_round : (target round : ℕ) → List (List ScrapedJob) → List ScrapedJob → Bool → Round
pick_round target round [] picked placed = record { picked = picked; placed = placed; full = false }
pick_round target round (queue ∷ queues) picked placed =
    let v = visit target (get_elem? queue round) picked placed in
    let rest = pick_round target round queues v.picked v.placed in if v.full then v else rest

pub rounds : (fuel target round : ℕ) → List (List ScrapedJob) → List ScrapedJob → List ScrapedJob
rounds zero target round queues picked = picked
rounds (suc fuel) target round queues picked =
    let v = pick_round target round queues picked false in
    let rest = rounds fuel target (suc round) queues v.picked in
    if ltb (length picked) target then if v.placed then rest else v.picked else picked

abbrev pub total_length : List (List ScrapedJob) → ℕ
total_length [] = 0
total_length (queue ∷ queues) = length queue + total_length queues

unfoldable pub balanced_selection :
    (target per_portal_cap : ℕ) → List (List ScrapedJob) → List ScrapedJob
unfolding rounds pick_round sort_desc
balanced_selection target per_portal_cap results =
    let queues = queues_of per_portal_cap results in
    rounds (total_length queues + 1) target 0 queues []
