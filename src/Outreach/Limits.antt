-- ===== src/Outreach/Limits.antt =====
-- src/outreach/limits.ts: the caps, the send window, the breaker and the pacing. Instants and
-- durations are milliseconds. `Intl.DateTimeFormat` is the parameter `format_hour`: the hour that
-- it prints, or `none` where it throws or prints no number. `Math.random()` is a fraction.
pub mod Gate
pub mod Pacing
use Prim.Native.String.{String}
use job_hunters_api.Common.{
  ℕ, ◌+◌, ◌-◌, ◌*◌, ◌/◌, ◌%◌, Bool, not, ◌||◌, ◌&&◌, false, Option, none, some, ltb, leb,
  if◌then◌else◌,
}

pub record SendWindow : Type 0 where
  pub start_hour : ℕ
  pub end_hour : ℕ

pub record OutreachLimits : Type 0 where
  pub invites_per_day : ℕ
  pub invites_per_week : ℕ
  pub per_company_per_day : ℕ
  pub send_window : SendWindow
  pub min_gap_ms : ℕ
  pub max_gap_ms : ℕ
  pub withdraw_after_days : ℕ
  pub max_follow_ups : ℕ
  pub follow_up_gap_ms : ℕ
  pub breaker_pause_ms : ℕ

abbrev pub default_limits : OutreachLimits
default_limits = record {
  invites_per_day = 15;
  invites_per_week = 60;
  per_company_per_day = 5;
  send_window = record { start_hour = 9; end_hour = 19 };
  min_gap_ms = 240000;
  max_gap_ms = 720000;
  withdraw_after_days = 21;
  max_follow_ups = 2;
  follow_up_gap_ms = 172800000;
  breaker_pause_ms = 259200000;
}

-- A refusal, with the numbers that its `because` prints.
pub data Refusal : Type 0 where
  not_approved breaker_open company_cap : Refusal
  outside_send_window : (start_hour end_hour : ℕ) → Refusal
  weekly_cap daily_cap : (invites : ℕ) → Refusal

pub record SendabilityInput : Type 0 where
  pub now : ℕ
  pub timezone : String
  pub invites_today : ℕ
  pub invites_this_week : ℕ
  pub invites_to_this_company_today : ℕ
  pub paused_until : Option ℕ
  pub approved : Bool

-- `now.getUTCHours()`.
abbrev utc_hours : ℕ → ℕ
utc_hours now = now / 3600000 % 24

abbrev pub hour_or_utc : Option ℕ → ℕ → ℕ
hour_or_utc (some hour) now = hour % 24
hour_or_utc none now = utc_hours now

abbrev pub is_paused : Option ℕ → ℕ → Bool
is_paused none now = false
is_paused (some until) now = ltb now until

module _ (format_hour : ℕ → String → Option ℕ) where
  unfoldable pub local_hour : ℕ → String → ℕ
  local_hour now timezone = hour_or_utc (format_hour now timezone) now

  -- `ok: true` is `none`.
  unfoldable pub can_send : OutreachLimits → SendabilityInput → Option Refusal
  can_send limits input =
      let hour = local_hour input.now input.timezone in
      let window = limits.send_window in
      if not input.approved
      then some not_approved
      else if is_paused input.paused_until input.now
      then some breaker_open
      else if ltb hour window.start_hour || leb window.end_hour hour
      then some (outside_send_window window.start_hour window.end_hour)
      else if leb limits.invites_per_week input.invites_this_week
      then some (weekly_cap input.invites_this_week)
      else if leb limits.invites_per_day input.invites_today
      then some (daily_cap input.invites_today)
      else if leb limits.per_company_per_day input.invites_to_this_company_today
      then some company_cap
      else none

-- `Math.round` of the fraction a / d.
abbrev pub round_div : ℕ → ℕ → ℕ
round_div a d = (2 * a + d) / (2 * d)

-- `random()` is r / d. A span below 0 is subtracted.
unfoldable pub next_gap_ms : OutreachLimits → ℕ → ℕ → ℕ
next_gap_ms limits r d =
    if leb limits.min_gap_ms limits.max_gap_ms
    then round_div (limits.min_gap_ms * d + r * (limits.max_gap_ms - limits.min_gap_ms)) d
    else round_div (limits.min_gap_ms * d - r * (limits.min_gap_ms - limits.max_gap_ms)) d

-- `now - invitedAt >= withdrawAfterDays * 86_400_000`, over the integers.
unfoldable should_withdraw : ℕ → ℕ → OutreachLimits → Bool
should_withdraw invited_at now limits = leb (invited_at + limits.withdraw_after_days * 86400000) now
