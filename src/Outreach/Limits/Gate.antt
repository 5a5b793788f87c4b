-- ===== src/Outreach/Limits/Gate.antt =====
-- `canSend` of src/outreach/limits.ts: the one gate that every send passes.
use Prim.Native.String.{String}
use job_hunters_api.Common.{ℕ, ◌≤◌, ◌<◌, ◌≡◌, ◌↔◌, true, false, Option, none, some, arith}
use job_hunters_api.Outreach.Limits.{
  OutreachLimits, SendabilityInput, is_paused, local_hour, hour_or_utc, can_send,
}

module _ (format_hour : ℕ → String → Option ℕ) where
  -- A message is sendable exactly if it is approved, the breaker is closed, the user's local hour
  -- lies in the window, and the week's, the day's and the company's invitations are below the caps.
  pub can_send-none_iff :
      (limits : OutreachLimits) (input : SendabilityInput)
      → (can_send format_hour limits input ≡ none) ↔ (
          (input.approved ≡ true)
          × (is_paused input.paused_until input.now ≡ false)
          × (limits.send_window.start_hour ≤ local_hour format_hour input.now input.timezone)
          × (local_hour format_hour input.now input.timezone < limits.send_window.end_hour)
          × (input.invites_this_week < limits.invites_per_week)
          × (input.invites_today < limits.invites_per_day)
          × (input.invites_to_this_company_today < limits.per_company_per_day))
  unfolding can_send
  can_send-none_iff limits input = ground arith

  -- The hour that the window is compared with is an hour of the day, also where the timezone is
  -- unknown.
  local_hour-lt-24 : (now : ℕ) (timezone : String) → local_hour format_hour now timezone < 24
  unfolding local_hour
  local_hour-lt-24 now timezone = go (format_hour now timezone)
    where
      go : (hour : Option ℕ) → hour_or_utc hour now < 24
      go none = omega arith
      go (some hour) = omega arith
