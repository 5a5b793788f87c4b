-- ===== src/Queue/Policy.antt =====
-- src/hunt/application-policy.ts: the daily budget, the number of lanes, and when an application
-- may be retried. Instants are milliseconds since the epoch; `configured` is a count, so the
-- negative values that `number` admits, which the clamp treats as 0, are left out.
pub mod Budget
pub mod Retry
use Prim.Native.String.{String}
use text.Mathlib.Text.{◌==◌ as str_eq}
use job_hunters_api.Common.{
  ℕ, ◌+◌, ◌-◌, ◌*◌, ◌/◌, min, max, Bool, true, false, not, ◌&&◌, ◌||◌, Option, none, some, List, [],
  ◌∷◌, if◌then◌else◌, any,
}
use job_hunters_api.Common.Text.{includes, includes_ignoring_case}

abbrev pub day_ms : ℕ
day_ms = 86400000

pub record DailyBudget : Type 0 where
  pub limit : ℕ
  pub used : ℕ
  pub remaining : ℕ
  pub start : ℕ
  pub resets_at : ℕ

-- `Date.UTC` of the UTC year, month and day of `now` is the last multiple of a day before it.
unfoldable pub daily_budget : ℕ → ℕ → ℕ → DailyBudget
daily_budget used configured now =
    let limit = max 1 (min 100 configured) in
    let start = now / day_ms * day_ms in
    record {
      limit = limit;
      used = used;
      remaining = max 0 (limit - used);
      start = start;
      resets_at = start + day_ms;
    }

unfoldable pub effective_concurrency : ℕ → Bool → ℕ
effective_concurrency configured vm_profile = if vm_profile then 1 else max 1 (min 4 configured)

-- `application_status` and `apply_attempt_status` of src/db/schema.ts. `submitted_unconfirmed`,
-- which the last test of `safeRetryReason` lists too, is no value of the column.
pub data ApplicationStatus : Type 0 where
  queued applied viewed interview rejected needs_review failed closed : ApplicationStatus

pub data AttemptStatus : Type 0 where
  pending submitting submitted needs_review unknown failed : AttemptStatus

-- The states of src/hunt/apply/state.ts that an attempt event can have.
pub data AttemptState : Type 0 where
  resolving_answers waiting_for_input queued opening filling blocked submitting submitted failed
        skipped :
      AttemptState

pub record Attempt : Type 0 where
  pub status : AttemptStatus
  pub submit_started_at : Option ℕ
  pub error : Option String

pub record AttemptEvent : Type 0 where
  pub state : AttemptState
  pub dry_run : Bool  -- `detail?.dryRun === true`
  pub reason : Option String

-- The messages of `safeRetryReason`, each once: the test of `submitStartedAt` answers with the
-- text of the in-flight test, and the test of uncertain statuses with that of the submitted test.
pub data Refusal : Type 0 where
  not_retryable provider_spam completed_or_uncertain submit_attempted cannot_retry : Refusal

abbrev pub is_retryable_status : ApplicationStatus → Bool
is_retryable_status failed = true
is_retryable_status needs_review = true
is_retryable_status closed = true
is_retryable_status _ = false

abbrev pub is_submitted : AttemptStatus → Bool
is_submitted submitted = true
is_submitted _ = false

abbrev pub is_in_flight : AttemptStatus → Bool
is_in_flight submitting = true
is_in_flight pending = true
is_in_flight _ = false

abbrev pub is_unknown : AttemptStatus → Bool
is_unknown unknown = true
is_unknown _ = false

abbrev pub is_set_aside : AttemptStatus → Bool
is_set_aside needs_review = true
is_set_aside failed = true
is_set_aside _ = false

abbrev is_uncertain : AttemptStatus → Bool
is_uncertain submitted = true
is_uncertain unknown = true
is_uncertain submitting = true
is_uncertain pending = true
is_uncertain _ = false

abbrev pub is_some {ℓ} : {A : Type ℓ} → Option A → Bool
is_some none = false
is_some (some a) = true

-- `latest?.error ?? ''`.
abbrev pub error_text : Option String → String
error_text none = ""
error_text (some error) = error

unfoldable pub is_spam_error : String → Bool
unfolding includes_ignoring_case
is_spam_error error =
    includes_ignoring_case "flagged as possible spam" error
    || includes_ignoring_case "rejected this submission as possible spam" error

unfoldable pub is_dry_run_error : String → Bool
is_dry_run_error error =
    str_eq error "Not submitted: dry_run" || str_eq error "Not submitted: kill_switch"

unfoldable pub is_interrupted_error : String → Bool
unfolding includes_ignoring_case
is_interrupted_error error =
    includes_ignoring_case "worker stopped before this attempt completed" error

unfoldable pub is_held_back_error : String → Bool
unfolding includes
is_held_back_error error =
    includes "Not submitted: invalid_fields" error
    || includes "Not submitted: no_form" error
    || includes "Not submitted: dry_run" error
    || includes "Not submitted: kill_switch" error
    || includes "Not submitted: no_submit_control" error
    || includes "Not submitted: posting_closed" error

abbrev pub is_submitted_state : AttemptState → Bool
is_submitted_state submitted = true
is_submitted_state _ = false

abbrev is_submitting_state : AttemptState → Bool
is_submitting_state submitting = true
is_submitting_state _ = false

abbrev pub is_provider_blocked : AttemptEvent → Bool
is_provider_blocked event = str_eq (error_text event.reason) "provider_blocked"

-- A `submitting` event of an attempt that was not a dry run.
abbrev pub is_live_submit : AttemptEvent → Bool
is_live_submit event = is_submitting_state event.state && not event.dry_run

-- The tests from the dry run on, for an attempt that is neither spam, submitted nor in flight.
abbrev pub retry_reason_of_attempt : Attempt → Bool → Bool → Option Refusal
retry_reason_of_attempt latest submitting_live confirmed =
    let started = is_some latest.submit_started_at in
    let error = error_text latest.error in
    let dry_run = is_unknown latest.status && is_dry_run_error error && not started in
    let interrupted = is_interrupted_error error in
    let held_back = is_held_back_error error in
    if (held_back || dry_run || interrupted) && not started && not submitting_live
    then none
    else if not started && not submitting_live && is_set_aside latest.status
    then none
    else if confirmed
    then none
    else if started
    then some submit_attempted
    else if is_uncertain latest.status && not dry_run
    then some completed_or_uncertain
    else if submitting_live
    then some cannot_retry
    else none

abbrev retry_reason : Option Attempt → List AttemptEvent → Bool → Option Refusal
retry_reason none events confirmed =
    if any is_provider_blocked events
    then some provider_spam
    else if any (λ e. is_submitted_state e.state) events
    then some completed_or_uncertain
    else none
retry_reason (some latest) events confirmed =
    if is_spam_error (error_text latest.error) || any is_provider_blocked events
    then some provider_spam
    else if is_submitted latest.status || any (λ e. is_submitted_state e.state) events
    then some completed_or_uncertain
    else if is_in_flight latest.status
    then some submit_attempted
    else retry_reason_of_attempt latest (any is_live_submit events) confirmed

abbrev head? {ℓ} : {A : Type ℓ} → List A → Option A
head? [] = none
head? (x ∷ xs) = some x

unfoldable pub safe_retry_reason :
    ApplicationStatus → List Attempt → List AttemptEvent → Bool → Option Refusal
safe_retry_reason status attempts events confirmed =
    if is_retryable_status status
    then retry_reason (head? attempts) events confirmed
    else some not_retryable
