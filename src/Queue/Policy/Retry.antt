-- ===== src/Queue/Policy/Retry.antt =====
-- When `safeRetryReason` of src/hunt/application-policy.ts allows a retry.
use job_hunters_api.Common.{
  ◌≡◌, ◌≢◌, ◌⊎◌, ◌↔◌, Bool, true, false, ◌&&◌, ◌||◌, none, List, [], ◌∷◌, arith, any, All, inl, inr,
}
use job_hunters_api.Queue.Policy.{
  ApplicationStatus, pending, submitting, submitted, AttemptState, Attempt, AttemptEvent,
  is_retryable_status, is_submitted, is_in_flight, is_unknown, is_set_aside, is_spam_error,
  is_dry_run_error, is_interrupted_error, is_held_back_error, is_submitted_state,
  is_provider_blocked, is_live_submit, error_text, retry_reason_of_attempt, safe_retry_reason,
}

-- Nothing in the trail of an attempt says that an application may have gone in.
pub record IsUnsubmitted (latest : Attempt) (events : List AttemptEvent) : Type 0 where
  pub not_submitted : latest.status ≢ submitted
  pub not_submitting : latest.status ≢ submitting
  pub not_pending : latest.status ≢ pending
  pub not_started : latest.submit_started_at ≡ none
  pub no_submitted_event : All (λ e. e.state ≢ AttemptState.submitted) events
  pub only_dry_submits : All (λ e. e.state ≡ AttemptState.submitting → e.dry_run ≡ true) events

no_submitted_events :
    (events : List AttemptEvent)
    → any (λ e. is_submitted_state e.state) events ≡ false
    → All (λ e. e.state ≢ AttemptState.submitted) events
no_submitted_events [] h = tt
no_submitted_events (e ∷ events) h = (λ eq. ground arith, no_submitted_events events (ground arith))

no_live_submits :
    (events : List AttemptEvent)
    → any is_live_submit events ≡ false
    → All (λ e. e.state ≡ AttemptState.submitting → e.dry_run ≡ true) events
no_live_submits [] h = tt
no_live_submits (e ∷ events) h = (λ eq. ground arith, no_live_submits events (ground arith))

-- The evidence that `retry_reason_of_attempt` accepts without a confirmation.
abbrev pub is_known_unsubmitted : Attempt → Bool
is_known_unsubmitted latest =
    is_set_aside latest.status
    || is_held_back_error (error_text latest.error)
    || is_interrupted_error (error_text latest.error)
    || (is_unknown latest.status && is_dry_run_error (error_text latest.error))

retry_reason_of_attempt-none_iff :
    (latest : Attempt) (live confirmed : Bool)
    → is_submitted latest.status ≡ false
    → is_in_flight latest.status ≡ false
    → (retry_reason_of_attempt latest live confirmed ≡ none) ↔ (
        (confirmed ≡ true)
        ⊎ ((latest.submit_started_at ≡ none)
            × (live ≡ false)
            × (is_known_unsubmitted latest ≡ true)))
retry_reason_of_attempt-none_iff latest live confirmed s f = ground arith

-- For an application with an attempt, a retry is allowed exactly if its status is failed, in
-- review or closed, there is no sign of a spam block, of a submission or of an attempt in flight,
-- and either the user confirms that nothing was submitted, or no submit was started and the
-- attempt is known to have stopped before one: it was set aside, held back, interrupted or a dry
-- run.
pub safe_retry_reason-none_iff :
    (status : ApplicationStatus) (latest : Attempt) (older : List Attempt)
    (events : List AttemptEvent) (confirmed : Bool)
    → (safe_retry_reason status (latest ∷ older) events confirmed ≡ none) ↔ (
        (is_retryable_status status ≡ true)
        × (is_spam_error (error_text latest.error) ≡ false)
        × (any is_provider_blocked events ≡ false)
        × (is_submitted latest.status ≡ false)
        × (any (λ e. is_submitted_state e.state) events ≡ false)
        × (is_in_flight latest.status ≡ false)
        × ((confirmed ≡ true)
            ⊎ ((latest.submit_started_at ≡ none)
                × (any is_live_submit events ≡ false)
                × (is_known_unsubmitted latest ≡ true))))
unfolding safe_retry_reason
safe_retry_reason-none_iff status latest older events confirmed =
    ground (arith, retry_reason_of_attempt-none_iff latest (any is_live_submit events) confirmed)

-- An automatic retry is allowed only if no evidence of a submission exists: the latest attempt was
-- not submitted, not in flight and never started its submit, no event says that it was submitted,
-- and every submit that an event reports was a dry run's.
pub safe_retry_reason-IsUnsubmitted :
    (status : ApplicationStatus) (latest : Attempt) (older : List Attempt)
    (events : List AttemptEvent)
    → safe_retry_reason status (latest ∷ older) events false ≡ none
    → IsUnsubmitted latest events
safe_retry_reason-IsUnsubmitted status latest older events e =
    let (_, _, _, s, ev, f, why) =
      (safe_retry_reason-none_iff status latest older events false).0 e in
    let known : (latest.submit_started_at ≡ none)
        × (any is_live_submit events ≡ false)
        × (is_known_unsubmitted latest ≡ true) =
      elim why [ inl c ↦ cc | inr k ↦ k ] in
    record {
      not_submitted = λ eq. ground arith;
      not_submitting = λ eq. ground arith;
      not_pending = λ eq. ground arith;
      not_started = known.0;
      no_submitted_event = no_submitted_events events ev;
      only_dry_submits = no_live_submits events known.1;
    }

-- Even a user's confirmation does not allow the retry of an attempt that is recorded as submitted
-- or still in flight, or that has a submitted event.
safe_retry_reason_confirmed :
    (status : ApplicationStatus) (latest : Attempt) (older : List Attempt)
    (events : List AttemptEvent)
    → safe_retry_reason status (latest ∷ older) events true ≡ none
    → (latest.status ≢ submitted)
      × (latest.status ≢ submitting)
      × (latest.status ≢ pending)
      × All (λ e. e.state ≢ AttemptState.submitted) events
safe_retry_reason_confirmed status latest older events e =
    let (_, _, _, s, ev, f, _) = (safe_retry_reason-none_iff status latest older events true).0 e in
    (
      (λ eq. ground arith),
      (λ eq. ground arith),
      (λ eq. ground arith),
      no_submitted_events events ev,
    )
