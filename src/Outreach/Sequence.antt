-- ===== src/Outreach/Sequence.antt =====
-- src/outreach/sequence.ts, with the approval and the edit of src/modules/outreach/routes.ts: the
-- outreach of one user as operations on the rows that the queries read and write.
--
-- Every query of the source filters by the user, so an `Account` holds one user's rows; `updatedAt`
-- is left out. Row ids are numbers, and `next_id` stands for a fresh id. A query is a list function
-- on a table, an `update … where` is a map over it, and an inner join is a search by the id. The
-- operations take the instant of `new Date()` in milliseconds. The drafts of `composeOutreach`,
-- which a model writes, are the parameter of `discover_prospects`.
pub mod Changes
pub mod Counting
pub mod Selecting
pub mod Editing
pub mod Trace
use Prim.Native.String.{String}
use text.Mathlib.Text.{◌==◌ as str_eq}
use job_hunters_api.Common.{
  ℕ, ◌+◌, ◌==◌, Bool, true, false, not, ◌&&◌, ◌||◌, Option, none, some, List, [], ◌∷◌, ◌++◌, map,
  leb, any, filter, find, count, take, if◌then◌else◌,
}
use job_hunters_api.Common.Sort.{sort_asc}
use job_hunters_api.Outreach.Limits.{default_limits, SendabilityInput, Refusal, can_send}
use job_hunters_api.Outreach.Rank.{
  Prospect, RankedProspect, rank_prospects, max_per_company, worth_contacting, is_first_degree,
}

pub data ProspectState : Type 0 where
  identified drafted approved invited accepted asked referred declined withdrawn : ProspectState

-- `outcome` texts; the cut of a failure's text at 300 characters is left out.
pub data ProspectOutcome : Type 0 where
  send_failed : String → ProspectOutcome
  withdrawn_unaccepted : ProspectOutcome

pub data MessageKind : Type 0 where
  invite ask follow_up : MessageKind

pub record ProspectRow : Type 0 where
  pub id : ℕ
  pub target_id : ℕ
  pub profile_url : String
  pub score : ℕ
  pub state : ProspectState
  pub invited_at : Option ℕ
  pub asked_at : Option ℕ
  pub outcome : Option ProspectOutcome

pub record MessageRow : Type 0 where
  pub id : ℕ
  pub prospect_id : ℕ
  pub kind : MessageKind
  pub body : String
  pub approved_at : Option ℕ
  pub sent_at : Option ℕ

pub record Target : Type 0 where
  pub id : ℕ
  pub company : String

pub record AccountHealth : Type 0 where
  pub paused_until : Option ℕ
  pub invites_today : ℕ
  pub invites_7d : ℕ
  pub challenges_30d : ℕ

pub record Schedule : Type 0 where
  pub timezone : String
  pub outreach_enabled : Bool

pub record Account : Type 0 where
  pub health : AccountHealth
  pub schedule : Option Schedule
  pub targets : List Target
  pub prospects : List ProspectRow
  pub messages : List MessageRow
  pub next_id : ℕ

abbrev pub day_ms : ℕ
day_ms = 86400000

abbrev pub week_ms : ℕ
week_ms = 604800000

-- `tripBreaker`, less its line in the activity feed.
unfoldable pub trip_breaker : ℕ → Account → Account
trip_breaker now a = record a {
  health = record (a.health) {
    paused_until = some (now + default_limits.breaker_pause_ms);
    challenges_30d = a.health.challenges_30d + 1;
  };
}

-- `invitedAt >= now - span`, false where it is null.
abbrev pub invited_within : ℕ → ℕ → ProspectRow → Bool
invited_within span now p = elim p.invited_at [ none ↦ false | some at ↦ leb now (at + span) ]

unfoldable pub sent_today : ℕ → Account → ℕ
sent_today now a = count (invited_within day_ms now) a.prospects

unfoldable pub sent_this_week : ℕ → Account → ℕ
sent_this_week now a = count (invited_within week_ms now) a.prospects

abbrev pub company_of : List Target → ℕ → Option String
company_of [] target_id = none
company_of (t ∷ targets) target_id =
    if t.id == target_id then some t.company else company_of targets target_id

abbrev pub is_company : String → Option String → Bool
is_company company none = false
is_company company (some c) = str_eq c company

abbrev pub invited_at_company : String → ℕ → List Target → ProspectRow → Bool
invited_at_company company now targets p =
    is_company company (company_of targets p.target_id) && invited_within day_ms now p

unfoldable pub count_company_invites_today : String → ℕ → Account → ℕ
count_company_invites_today company now a =
    count (invited_at_company company now a.targets) a.prospects

-- A row of the join in `nextSendable`.
pub record Row : Type 0 where
  pub message : MessageRow
  pub prospect : ProspectRow
  pub company : String

abbrev pub is_some {ℓ} : {A : Type ℓ} → Option A → Bool
is_some none = false
is_some (some x) = true

abbrev pub has_id : ℕ → ProspectRow → Bool
has_id id p = p.id == id

abbrev with_company : MessageRow → ProspectRow → Option String → List Row
with_company m p none = []
with_company m p (some company) = record { message = m; prospect = p; company = company } ∷ []

abbrev with_prospect : List Target → MessageRow → Option ProspectRow → List Row
with_prospect targets m none = []
with_prospect targets m (some p) = with_company m p (company_of targets p.target_id)

abbrev pub join_row : Account → MessageRow → List Row
join_row a m = with_prospect a.targets m (find (has_id m.prospect_id) a.prospects)

pub join_rows : Account → List MessageRow → List Row
join_rows a [] = []
join_rows a (m ∷ ms) =
    if is_some m.approved_at && not (is_some m.sent_at)
    then join_row a m ++ join_rows a ms
    else join_rows a ms

-- The rows that the query returns. Rows with one score come in no promised order; here they come
-- in the order of the table.
unfoldable pub sendable_rows : Account → List Row
unfolding join_rows sort_asc
sendable_rows a = take 25 (sort_asc (λ r. r.prospect.score) (join_rows a a.messages))

-- An invitation goes to someone who was not invited yet, any other message to someone who accepted.
abbrev pub is_ready : MessageKind → ProspectState → Bool
is_ready invite drafted = true
is_ready invite approved = true
is_ready invite _ = false
is_ready _ accepted = true
is_ready _ _ = false

pub data Next : Type 0 where
  switched_off nothing_waiting : Next
  refused : Refusal → Next
  message : Row → Next

abbrev pub verdict_next : Option Refusal → Row → Next
verdict_next none r = message r
verdict_next (some why) r = refused why

module _ (format_hour : ℕ → String → Option ℕ) where
  abbrev pub send_input : ℕ → String → Account → Row → SendabilityInput
  send_input now timezone a r = record {
    now = now;
    timezone = timezone;
    invites_today = sent_today now a;
    invites_this_week = sent_this_week now a;
    invites_to_this_company_today = count_company_invites_today r.company now a;
    paused_until = a.health.paused_until;
    approved = true;
  }

  pub first_sendable : ℕ → String → Account → List Row → Next
  first_sendable now timezone a [] = nothing_waiting
  first_sendable now timezone a (r ∷ rows) =
      if is_ready r.message.kind r.prospect.state
      then verdict_next (can_send format_hour default_limits (send_input now timezone a r)) r
      else first_sendable now timezone a rows

  abbrev pub next_for : ℕ → Option Schedule → Account → Next
  next_for now none a = switched_off
  next_for now (some s) a =
      if s.outreach_enabled then first_sendable now s.timezone a (sendable_rows a) else switched_off

  unfoldable pub next_sendable : ℕ → Account → Next
  unfolding first_sendable
  next_sendable now a = next_for now a.schedule a
