-- ===== src/Examples/Outreach.antt =====
-- src/outreach/ on concrete inputs: a user with one target, one drafted prospect and one approved
-- invitation.
use Prim.Native.String.{String}
use job_hunters_api.Common.{
  ◌≢◌, ℕ, ◌≤◌, ◌<◌, ◌≡◌, ◌↔◌, refl, true, false, Option, none, some, [], ◌∷◌,
}
use job_hunters_api.Outreach.Limits.{
  default_limits, SendabilityInput, can_send, is_paused, local_hour,
}
use job_hunters_api.Outreach.Limits.Gate.{can_send-none_iff}
use job_hunters_api.Outreach.Rank.{
  Relationship, LevelDelta, Prospect, score_prospect, rank_prospects, worth_contacting,
}
use job_hunters_api.Outreach.Rank.Laws.{IsBest, rank_prospects-IsBest}
use job_hunters_api.Outreach.Sequence.{
  Account, Schedule, ProspectState, MessageKind, Row, message, next_sendable, sendable_rows,
  sent_this_week, sent_today, count_company_invites_today,
}
use job_hunters_api.Outreach.Sequence.Changes.{mark_sent, approve_messages, discover_prospects}
use job_hunters_api.Outreach.Sequence.Changes.{edit_message}
use job_hunters_api.Outreach.Sequence.Editing.{edit_message-next_sendable}
use job_hunters_api.Outreach.Sequence.Selecting.{IsCleared, next_sendable-IsCleared}
use job_hunters_api.Outreach.Sequence.Trace.{
  World, Reach, pick, record_outcome, approve, discover, here, next,
}
use job_hunters_api.Outreach.Sequence.Trace.Caps.{IsWithinCaps}
use job_hunters_api.Outreach.Sequence.Trace.Safety.{Reach-IsWithinCaps}

-- Every timezone shows the hour of UTC.
abbrev no_format : ℕ → String → Option ℕ
no_format now timezone = none

abbrev compose : Prospect → String × String
compose p = ("invitation", "ask")

abbrev ten_o_clock : ℕ
ten_o_clock = 36000000

abbrev engineer : Prospect
engineer = record {
  profile_url = "https://linkedin.test/in/a";
  name = "A";
  title = none;
  degree = 2;
  relationship = Relationship.strong_mutual;
  same_function = true;
  level_delta = LevelDelta.same;
  is_recruiter = false;
  shared_school = true;
  shared_employer = false;
  shared_city = false;
  skill_overlap = 4;
  mutual_connections = 6;
  months_at_company = some 8;
  active_recently = true;
  open_profile = false;
}

abbrev stranger : Prospect
stranger = record engineer {
  relationship = Relationship.cold;
  same_function = false;
  active_recently = false;
  shared_school = false;
}

abbrev input : SendabilityInput
input = record {
  now = ten_o_clock;
  timezone = "UTC";
  invites_today = 3;
  invites_this_week = 20;
  invites_to_this_company_today = 1;
  paused_until = none;
  approved = true;
}

can_send-none_iff_example : (can_send no_format default_limits input ≡ none) ↔ (
    (true ≡ true)
    × (is_paused none ten_o_clock ≡ false)
    × (9 ≤ local_hour no_format ten_o_clock "UTC")
    × (local_hour no_format ten_o_clock "UTC" < 19)
    × (20 < 60)
    × (3 < 15)
    × (1 < 5))
can_send-none_iff_example = can_send-none_iff no_format default_limits input

engineer_score : (score_prospect engineer).score ≡ 78
unfolding score_prospect
engineer_score = refl

rank_prospects-IsBest_example :
    IsBest (stranger ∷ engineer ∷ []) 1 (rank_prospects (stranger ∷ engineer ∷ []) 1)
rank_prospects-IsBest_example = rank_prospects-IsBest (stranger ∷ engineer ∷ []) 1

abbrev schedule : Schedule
schedule = record { timezone = "UTC"; outreach_enabled = true }

abbrev empty_account : Account
empty_account = record {
  health = record { paused_until = none; invites_today = 0; invites_7d = 0; challenges_30d = 0 };
  schedule = some schedule;
  targets = record { id = 0; company = "Acme" } ∷ [];
  prospects = [];
  messages = [];
  next_id = 1;
}

abbrev found : Account
found = discover_prospects compose 0 (engineer ∷ []) empty_account

abbrev ready : Account
ready = approve_messages ten_o_clock (2 ∷ []) found

abbrev invitation : Row
invitation = record {
  message = record {
    id = 2;
    prospect_id = 1;
    kind = MessageKind.invite;
    body = "invitation";
    approved_at = some ten_o_clock;
    sent_at = none;
  };
  prospect = record {
    id = 1;
    target_id = 0;
    profile_url = "https://linkedin.test/in/a";
    score = 78;
    state = ProspectState.approved;
    invited_at = none;
    asked_at = none;
    outcome = none;
  };
  company = "Acme";
}

ready_next : next_sendable no_format ten_o_clock ready ≡ message invitation
unfolding next_sendable approve_messages discover_prospects rank_prospects worth_contacting
    sendable_rows can_send local_hour sent_this_week sent_today count_company_invites_today
ready_next = refl

next_sendable-IsCleared_example :
    (s : Schedule) × (ready.schedule ≡ some s)
    × (s.outreach_enabled ≡ true)
    × IsCleared no_format ten_o_clock ready invitation
    × (9 ≤ local_hour no_format ten_o_clock s.timezone)
    × (local_hour no_format ten_o_clock s.timezone < 19)
next_sendable-IsCleared_example =
    next_sendable-IsCleared no_format ten_o_clock ready invitation ready_next

abbrev world_at : Account → Option Row → World
world_at a sending = record { now = ten_o_clock; account = a; sending = sending }

-- Discovery, approval, the pick and the sending of the invitation.
abbrev sent_world : World
sent_world = world_at (mark_sent ten_o_clock invitation.message none ready) none

sent_world_reached : Reach no_format compose (world_at empty_account none) sent_world
sent_world_reached =
    next
      (next
        (next (next here (discover ten_o_clock empty_account none 0 (engineer ∷ [])))
          (approve ten_o_clock found none (2 ∷ [])))
        (pick ten_o_clock ready invitation ready_next))
      (record_outcome ten_o_clock ready invitation none)

Reach-IsWithinCaps_example :
    IsWithinCaps ten_o_clock (mark_sent ten_o_clock invitation.message none ready)
Reach-IsWithinCaps_example =
    Reach-IsWithinCaps no_format compose ten_o_clock empty_account sent_world refl
      sent_world_reached

sent_world_count : sent_today ten_o_clock sent_world.account ≡ 1
unfolding sent_today mark_sent approve_messages discover_prospects rank_prospects worth_contacting
sent_world_count = refl

edited_next :
    next_sendable no_format ten_o_clock (edit_message 3 "other words" ready) ≡ message invitation
unfolding next_sendable approve_messages discover_prospects rank_prospects worth_contacting
    sendable_rows can_send local_hour sent_this_week sent_today count_company_invites_today
    edit_message
edited_next = refl

edit_message-next_sendable_example : invitation.message.id ≢ 3
edit_message-next_sendable_example =
    edit_message-next_sendable no_format ten_o_clock 3 "other words" ready invitation edited_next
