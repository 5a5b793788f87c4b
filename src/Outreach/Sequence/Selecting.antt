-- ===== src/Outreach/Sequence/Selecting.antt =====
-- What `nextSendable` of src/outreach/sequence.ts has checked when it hands out a message.
use Prim.Native.String.{String}
use job_hunters_api.Common.{
  ℕ, ◌≤◌, ◌<◌, ◌≡◌, ◌≢◌, refl, true, false, Bool-cases, inl, inr, Option, none, Option-cases, subst,
  not, ◌&&◌, some, List, [], ◌∷◌, find, All, All-append, All-take, arith,
}
use job_hunters_api.Common.Sort.{All-sort_asc, sort_asc}
use job_hunters_api.Outreach.Limits.{default_limits, Refusal, is_paused, local_hour, can_send}
use job_hunters_api.Outreach.Limits.Gate.{can_send-none_iff}
use job_hunters_api.Outreach.Sequence.{
  Account, Schedule, MessageRow, Row, message, refused, is_some, is_ready, has_id, company_of,
  join_row, join_rows, sendable_rows, send_input, first_sendable, next_for, next_sendable,
  sent_today, sent_this_week, count_company_invites_today,
}

-- A row of the query: approved, unsent, and joined with its prospect and its company.
pub record IsJoined (a : Account) (r : Row) : Type 0 where
  pub is_approved : r.message.approved_at ≢ none
  pub is_unsent : r.message.sent_at ≡ none
  pub prospect_found : find (has_id r.message.prospect_id) a.prospects ≡ some r.prospect
  pub company_found : company_of a.targets r.prospect.target_id ≡ some r.company

join_row-IsJoined :
    (a : Account) (m : MessageRow)
    → m.approved_at ≢ none
    → m.sent_at ≡ none
    → All (IsJoined a) (join_row a m)
join_row-IsJoined a m ap un = elim (Option-cases (find (has_id m.prospect_id) a.prospects)) [
  | inl missing ↦ rw missing tt
  | inr (p, found) ↦ rw found (elim (Option-cases (company_of a.targets p.target_id)) [
    | inl missing ↦ rw missing tt
    | inr (company, known) ↦ rw known (
      record { is_approved = ap; is_unsent = un; prospect_found = found; company_found = known },
      tt,
    )
  ])
]

join_rows-IsJoined : (a : Account) (ms : List MessageRow) → All (IsJoined a) (join_rows a ms)
unfolding join_rows
join_rows-IsJoined a [] = tt
join_rows-IsJoined a (m ∷ ms) =
    elim (Bool-cases (is_some m.approved_at && not (is_some m.sent_at))) [
      | inl chosen ↦ rw chosen (
          All-append (IsJoined a) (join_row a m) (join_rows a ms)
            (join_row-IsJoined a m (λ e. ground arith) (ground arith)) (join_rows-IsJoined a ms))
      | inr passed ↦ rw passed (join_rows-IsJoined a ms)
    ]

sendable_rows-IsJoined : (a : Account) → All (IsJoined a) (sendable_rows a)
unfolding sendable_rows
sendable_rows-IsJoined a =
    All-take (IsJoined a) 25 (sort_asc (λ r. r.prospect.score) (join_rows a a.messages)) (
      All-sort_asc (λ r. r.prospect.score) (IsJoined a) (join_rows a a.messages)
        (join_rows-IsJoined a a.messages))

message-inj : (x y : Row) → message x ≡ message y → x ≡ y
message-inj x y e = cc

refused_ne : (why : Refusal) (r : Row) → refused why ≢ message r
refused_ne why r e = cc

module _ (format_hour : ℕ → String → Option ℕ) where
  -- Everything that holds of a message when it is handed out to be sent.
  pub record IsCleared (now : ℕ) (a : Account) (r : Row) : Type 0 where
    pub joined : IsJoined a r
    pub ready : is_ready r.message.kind r.prospect.state ≡ true
    pub unpaused : is_paused a.health.paused_until now ≡ false
    pub today : sent_today now a < 15
    pub week : sent_this_week now a < 60
    pub company : count_company_invites_today r.company now a < 5

  first_sendable-IsCleared :
      (now : ℕ) (timezone : String) (a : Account) (rows : List Row) (r : Row)
      → All (IsJoined a) rows
      → first_sendable format_hour now timezone a rows ≡ message r
      → IsCleared now a r
        × (9 ≤ local_hour format_hour now timezone)
        × (local_hour format_hour now timezone < 19)
  unfolding first_sendable
  first_sendable-IsCleared now timezone a [] r h e = cc
  first_sendable-IsCleared now timezone a (row ∷ rows) r (j, h) e =
      elim (Bool-cases (is_ready row.message.kind row.prospect.state)) [
        | inr unready ↦
            first_sendable-IsCleared now timezone a rows r h (rw (unready, first_sendable) at e)
        | inl ready ↦ elim (Option-cases (verdict row)) [
          | inr (why, no_) ↦ absurd (refused_ne why r (rw (ready, no_) at e))
          | inl clear ↦
              let same : row ≡ r = message-inj row r (rw (ready, clear) at e) in
              let checked = (can_send-none_iff format_hour default_limits _).0 clear in
              subst
                (λ x.
                  IsCleared now a x
                  × (9 ≤ local_hour format_hour now timezone)
                  × (local_hour format_hour now timezone < 19))
                same
                (
                  record {
                    joined = j;
                    ready = ready;
                    unpaused = checked.1;
                    today = checked.5;
                    week = checked.4;
                    company = checked.6;
                  },
                  checked.2,
                  checked.3,
                )
        ]
      ]
    where
      verdict : Row → Option Refusal
      verdict x = can_send format_hour default_limits (send_input format_hour now timezone a x)

  -- A message that is handed out is approved and unsent, its prospect is in the state that its kind
  -- asks for, outreach is switched on, the breaker is closed, it is between 9:00 and 19:00 for the
  -- user, and fewer than 15 invitations went out in the last day, fewer than 60 in the last week and
  -- fewer than 5 to this company in the last day.
  pub next_sendable-IsCleared :
      (now : ℕ) (a : Account) (r : Row)
      → next_sendable format_hour now a ≡ message r
      → (s : Schedule) × (a.schedule ≡ some s)
        × (s.outreach_enabled ≡ true)
        × IsCleared now a r
        × (9 ≤ local_hour format_hour now s.timezone)
        × (local_hour format_hour now s.timezone < 19)
  unfolding next_sendable
  next_sendable-IsCleared now a r e = go a.schedule refl e
    where
      go :
          (schedule : Option Schedule)
          → a.schedule ≡ schedule
          → next_for format_hour now schedule a ≡ message r
          → (s : Schedule) × (a.schedule ≡ some s)
            × (s.outreach_enabled ≡ true)
            × IsCleared now a r
            × (9 ≤ local_hour format_hour now s.timezone)
            × (local_hour format_hour now s.timezone < 19)
      go none k h = cc
      go (some s) k h = elim (Bool-cases s.outreach_enabled) [
        | inl on ↦
            let (cleared, from, to) =
              first_sendable-IsCleared now s.timezone a (sendable_rows a) r
                (sendable_rows-IsJoined a) (rw on at h) in
            (s, k, on, cleared, from, to)
        | inr off ↦ cc
      ]
