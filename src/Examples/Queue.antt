-- ===== src/Examples/Queue.antt =====
-- src/hunt/application-queue.ts, src/hunt/application-policy.ts and
-- src/modules/dashboard/job-policy.ts on concrete inputs.
use Prim.Native.String.{String}
use job_hunters_api.Common.{ℕ, ◌≡◌, ◌↔◌, ◌⊎◌, refl, true, false, none, some, List, [], ◌∷◌, any}
use job_hunters_api.Queue.Selection.{Wanted, OwnedRow, owned_job_selection}
use job_hunters_api.Queue.Selection.Owned.{IsOwned, owned_job_selection-IsOwned}
use job_hunters_api.Queue.Order.{round_robin, plan_application_order}
use job_hunters_api.Queue.Order.Plan.{IsPlanned, plan_application_order-IsPlanned}
use job_hunters_api.Queue.Policy.{
  ApplicationStatus, AttemptStatus, AttemptState, Attempt, AttemptEvent, safe_retry_reason,
  is_retryable_status, is_submitted, is_in_flight, is_submitted_state, is_provider_blocked,
  is_live_submit, error_text, is_spam_error, is_dry_run_error, is_interrupted_error,
  is_held_back_error,
}
use job_hunters_api.Queue.Policy.Retry.{
  IsUnsubmitted, is_known_unsubmitted, safe_retry_reason-none_iff, safe_retry_reason-IsUnsubmitted,
}

-- A candidate is its portal and a number.
abbrev Candidate : Type 0
Candidate = String × ℕ

abbrev portal : Candidate → String
portal c = c.0

abbrev candidates : List Candidate
candidates = ("lever", 1) ∷ ("lever", 2) ∷ ("ashby", 3) ∷ ("lever", 4) ∷ ("ashby", 5) ∷ []

round_robin_of_candidates :
    round_robin portal candidates
    ≡ ("lever", 1) ∷ ("ashby", 3) ∷ ("lever", 2) ∷ ("ashby", 5) ∷ ("lever", 4) ∷ []
unfolding round_robin
round_robin_of_candidates = refl

plan_application_order-IsPlanned_example :
    IsPlanned portal candidates 3 (plan_application_order portal candidates 3)
plan_application_order-IsPlanned_example = plan_application_order-IsPlanned portal candidates 3

-- An attempt that the worker's restart interrupted before it submitted anything.
abbrev interrupted : Attempt
interrupted = record {
  status = AttemptStatus.failed;
  submit_started_at = none;
  error = some "The worker stopped before this attempt completed";
}

abbrev filling : AttemptEvent
filling = record { state = AttemptState.filling; dry_run = false; reason = none }

interrupted_retry :
    safe_retry_reason ApplicationStatus.failed (interrupted ∷ []) (filling ∷ []) false ≡ none
unfolding safe_retry_reason is_spam_error is_dry_run_error is_interrupted_error is_held_back_error
interrupted_retry = refl

safe_retry_reason-IsUnsubmitted_example : IsUnsubmitted interrupted (filling ∷ [])
safe_retry_reason-IsUnsubmitted_example =
    safe_retry_reason-IsUnsubmitted ApplicationStatus.failed interrupted [] (filling ∷ [])
      interrupted_retry

confirmed_retry :
    safe_retry_reason ApplicationStatus.failed (interrupted ∷ []) (filling ∷ []) true ≡ none
unfolding safe_retry_reason is_spam_error is_dry_run_error is_interrupted_error is_held_back_error
confirmed_retry = refl

safe_retry_reason-none_iff_example :
    (safe_retry_reason ApplicationStatus.failed (interrupted ∷ []) (filling ∷ []) false ≡ none) ↔ (
      (is_retryable_status ApplicationStatus.failed ≡ true)
      × (is_spam_error (error_text interrupted.error) ≡ false)
      × (any is_provider_blocked (filling ∷ []) ≡ false)
      × (is_submitted interrupted.status ≡ false)
      × (any (λ e. is_submitted_state e.state) (filling ∷ []) ≡ false)
      × (is_in_flight interrupted.status ≡ false)
      × ((false ≡ true)
          ⊎ ((interrupted.submit_started_at ≡ none)
              × (any is_live_submit (filling ∷ []) ≡ false)
              × (is_known_unsubmitted interrupted ≡ true))))
safe_retry_reason-none_iff_example =
    safe_retry_reason-none_iff ApplicationStatus.failed interrupted [] (filling ∷ []) false

abbrev wanted : Wanted
wanted = record { run_id = 1; job_id = 7 }

abbrev other_users : OwnedRow
other_users = record { user_id = 4; run_id = 1; job_id = 7 }

abbrev own : OwnedRow
own = record { user_id = 3; run_id = 1; job_id = 7 }

own_selected :
    owned_job_selection (λ row. row) 3 (wanted ∷ []) (other_users ∷ own ∷ []) ≡ some (own ∷ [])
unfolding owned_job_selection
own_selected = refl

owned_job_selection-IsOwned_example :
    IsOwned
      (λ row. row)
      3
      (wanted ∷ [])
      (other_users ∷ own ∷ [])
      (owned_job_selection (λ row. row) 3 (wanted ∷ []) (other_users ∷ own ∷ []))
owned_job_selection-IsOwned_example =
    owned_job_selection-IsOwned (λ row. row) 3 (wanted ∷ []) (other_users ∷ own ∷ [])
