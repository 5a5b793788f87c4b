-- ===== src/Queue/Selection.antt =====
-- src/modules/dashboard/job-policy.ts: which jobs a user may select for application. Ids are numbers;
-- the statuses are those of the enums.
pub mod Owned
use job_hunters_api.Common.{
  ℕ, ◌==◌, Bool, true, false, not, ◌&&◌, Option, none, some, List, [], ◌∷◌, find, if◌then◌else◌,
}
use job_hunters_api.Queue.Policy.{ApplicationStatus}
use job_hunters_api.Queue.Store.{RunStatus, RunJobStatus}

-- `ELIGIBILITY_STATUSES.includes`.
abbrev is_eligibility : RunJobStatus → Bool
is_eligibility RunJobStatus.eligible = true
is_eligibility RunJobStatus.scraped = true
is_eligibility RunJobStatus.role_mismatch = true
is_eligibility RunJobStatus.seniority_mismatch = true
is_eligibility RunJobStatus.experience_mismatch = true
is_eligibility RunJobStatus.insufficient_skills = true
is_eligibility RunJobStatus.location_mismatch = true
is_eligibility RunJobStatus.below_threshold = true
is_eligibility RunJobStatus.deal_breaker = true
is_eligibility _ = false

abbrev eligibility_of_status : RunJobStatus → Bool → RunJobStatus
eligibility_of_status status has_candidate =
    if is_eligibility status
    then status
    else if has_candidate
    then RunJobStatus.eligible
    else RunJobStatus.scraped

abbrev eligibility_of_stored : RunJobStatus → Option RunJobStatus → Bool → RunJobStatus
eligibility_of_stored status none has_candidate = eligibility_of_status status has_candidate
eligibility_of_stored status (some stored) has_candidate =
    if is_eligibility stored then stored else eligibility_of_status status has_candidate

unfoldable pub eligibility_of : RunJobStatus → Option RunJobStatus → Bool → RunJobStatus
eligibility_of status stored has_candidate = eligibility_of_stored status stored has_candidate

-- `REVIEWABLE_RUNS.includes`.
abbrev pub is_reviewable : RunStatus → Bool
is_reviewable RunStatus.queued = false
is_reviewable RunStatus.running = false
is_reviewable _ = true

abbrev is_closed_job : RunJobStatus → Bool
is_closed_job RunJobStatus.closed = true
is_closed_job _ = false

pub data Blocked : Type 0 where
  in_applications job_closed being_processed still_finding no_applyable_url : Blocked

pub record SelectionInput : Type 0 where
  pub run_status : RunStatus
  pub status : RunJobStatus
  pub application_status : Option ApplicationStatus
  pub active_candidate : Bool
  pub no_url : Bool  -- `reasons.includes('no_applyable_url')`

abbrev has_status : Option ApplicationStatus → Bool
has_status none = false
has_status (some status) = true

unfoldable pub selection_blocked_reason : SelectionInput → Option Blocked
selection_blocked_reason input =
    if has_status input.application_status
    then some in_applications
    else if is_closed_job input.status
    then some job_closed
    else if input.active_candidate
    then some being_processed
    else if not (is_reviewable input.run_status)
    then some still_finding
    else if input.no_url
    then some no_applyable_url
    else none

pub record Wanted : Type 0 where
  pub run_id : ℕ
  pub job_id : ℕ

pub record OwnedRow : Type 0 where
  pub user_id : ℕ
  pub run_id : ℕ
  pub job_id : ℕ

-- The rows that a query joined are of `T`; `key` has the columns that are compared.
module _ {T : Type 0} (key : T → OwnedRow) where
  abbrev pub is_wanted : ℕ → Wanted → T → Bool
  is_wanted user_id wanted row =
      ((key row).user_id == user_id)
      && ((key row).run_id == wanted.run_id)
      && ((key row).job_id == wanted.job_id)

  abbrev pub add_found : Option T → Option (List T) → Option (List T)
  add_found (some row) (some rows) = some (row ∷ rows)
  add_found _ _ = none

  -- The `map` and the `every` together: `none` where one request has no row.
  unfoldable pub owned_job_selection : ℕ → List Wanted → List T → Option (List T)
  owned_job_selection user_id [] rows = some []
  owned_job_selection user_id (wanted ∷ requested) rows =
      add_found (find (is_wanted user_id wanted) rows) (owned_job_selection user_id requested rows)
