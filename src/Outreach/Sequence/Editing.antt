-- ===== src/Outreach/Sequence/Editing.antt =====
-- An edit in src/modules/outreach/routes.ts takes the approval back: `nextSendable` of
-- src/outreach/sequence.ts does not hand the edited message out.
use Prim.Native.String.{String}
use job_hunters_api.Common.{
  ℕ, ◌≡◌, ◌≢◌, subst, true, Bool-cases, inl, inr, not, ◌&&◌, Option, none, some, Option-cases, List,
  [], ◌∷◌, map, find, All, All-append, All-take, arith,
}
use job_hunters_api.Common.Sort.{All-sort_asc}
use job_hunters_api.Outreach.Limits.{Refusal, default_limits, can_send}
use job_hunters_api.Outreach.Sequence.{
  Account, Schedule, MessageRow, Row, message, is_some, is_ready, has_id, company_of, join_row,
  join_rows, sendable_rows, send_input, verdict_next, first_sendable, next_for, next_sendable,
}
use job_hunters_api.Outreach.Sequence.Changes.{edit_if, edit_message}

-- A message that the query would take is another one.
abbrev IsOther : ℕ → MessageRow → Type 0
IsOther id m = (is_some m.approved_at && not (is_some m.sent_at)) ≡ true → m.id ≢ id

join_row-All :
    (id : ℕ) (a : Account) (m : MessageRow)
    → m.id ≢ id
    → All (λ r. r.message.id ≢ id) (join_row a m)
join_row-All id a m other = elim (Option-cases (find (has_id m.prospect_id) a.prospects)) [
  | inl missing ↦ rw missing tt
  | inr (p, found) ↦ rw found (elim (Option-cases (company_of a.targets p.target_id)) [
    | inl missing ↦ rw missing tt
    | inr (company, known) ↦ rw known (other, tt)
  ])
]

join_rows-All :
    (id : ℕ) (a : Account) (ms : List MessageRow)
    → All (IsOther id) ms
    → All (λ r. r.message.id ≢ id) (join_rows a ms)
unfolding join_rows
join_rows-All id a [] h = tt
join_rows-All id a (m ∷ ms) (other, h) =
    elim (Bool-cases (is_some m.approved_at && not (is_some m.sent_at))) [
      | inl chosen ↦ rw chosen (
          All-append (λ r. r.message.id ≢ id) (join_row a m) (join_rows a ms)
            (join_row-All id a m (other chosen)) (join_rows-All id a ms h))
      | inr passed ↦ rw passed (join_rows-All id a ms h)
    ]

edited-All :
    (id : ℕ) (body : String) (ms : List MessageRow) → All (IsOther id) (map (edit_if id body) ms)
edited-All id body [] = tt
edited-All id body (m ∷ ms) = ((λ taken same. ground (arith, taken, same)), edited-All id body ms)

message-inj : (x y : Row) → message x ≡ message y → x ≡ y
message-inj x y e = cc

module _ (format_hour : ℕ → String → Option ℕ) where
  first_sendable-All :
      (Q : Row → Type 0) (now : ℕ) (timezone : String) (a : Account) (rows : List Row) (r : Row)
      → All Q rows
      → first_sendable format_hour now timezone a rows ≡ message r
      → Q r
  unfolding first_sendable
  first_sendable-All Q now timezone a [] r h e = cc
  first_sendable-All Q now timezone a (row ∷ rows) r (q, h) e =
      elim (Bool-cases (is_ready row.message.kind row.prospect.state)) [
        | inr unready ↦
            first_sendable-All Q now timezone a rows r h (rw (unready, first_sendable) at e)
        | inl ready ↦
            handed (can_send format_hour default_limits (send_input format_hour now timezone a row))
              (rw ready at e)
      ]
    where
      handed : (verdict : Option Refusal) → verdict_next verdict row ≡ message r → Q r
      handed none k = subst Q (message-inj row r k) q
      handed (some why) k = cc

  -- Whatever is handed out right after a message was edited is another message: the new words want a
  -- new approval.
  pub edit_message-next_sendable :
      (now id : ℕ) (body : String) (a : Account) (r : Row)
      → next_sendable format_hour now (edit_message id body a) ≡ message r
      → r.message.id ≢ id
  unfolding next_sendable edit_message sendable_rows
  edit_message-next_sendable now id body a r e = go a.schedule e
    where
      go :
          (schedule : Option Schedule)
          → next_for format_hour now schedule (edit_message id body a) ≡ message r
          → r.message.id ≢ id
      go none k = cc
      go (some s) k = elim (Bool-cases s.outreach_enabled) [
        | inr off ↦ absurd (ground (arith, k))
        | inl on ↦
            first_sendable-All (λ r. r.message.id ≢ id) now s.timezone (edit_message id body a) _ r
              (All-take (λ r. r.message.id ≢ id) 25 _
                (All-sort_asc (λ r. r.prospect.score) (λ r. r.message.id ≢ id) _
                  (join_rows-All id (edit_message id body a) (map (edit_if id body) a.messages)
                    (edited-All id body a.messages))))
              (rw on at k)
      ]
