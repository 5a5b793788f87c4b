-- ===== src/Outreach/Sequence/Trace/Safety.antt =====
-- The caps of src/outreach/limits.ts hold in every state that the outreach can reach: an invitation
-- that is sent fits in the room that was found when the worker picked it.
use Prim.Native.String.{String}
use text.Mathlib.Text.{◌==◌ as str_eq}
use text.Mathlib.TextEquality.{eq_iff}
use job_hunters_api.Common.{
  one_if, one_if_le, ℕ, ◌+◌, ◌≤◌, ◌<◌, ◌≡◌, refl, ap, Bool, false, Bool-cases, inl, inr, ◌⊎◌,
  Option, none, some, List, [], map, count, arith,
}
use job_hunters_api.Outreach.Rank.{Prospect}
use job_hunters_api.Outreach.Sequence.{
  Account, ProspectRow, MessageRow, MessageKind, invite, ask, follow_up, Row, has_id,
  invited_within, invited_at_company, day_ms, week_ms, message, next_sendable, sent_today,
  sent_this_week, count_company_invites_today, trip_breaker,
}
use job_hunters_api.Outreach.Sequence.Changes.{mark_sent, update_prospect, set_invited, set_asked}
use job_hunters_api.Outreach.Sequence.Counting.{count-update, count-map-same}
use job_hunters_api.Outreach.Sequence.Selecting.{next_sendable-IsCleared}
use job_hunters_api.Outreach.Sequence.Trace.{
  World, Step, wait, pick, record_outcome, checkpoint, trip, give_up, approve, edit, discover,
  withdraw, change_settings, Reach, here, next,
}
use job_hunters_api.Outreach.Sequence.Trace.Quiet.{
  HasUniqueIds, IsQuiet, same-IsQuiet, map-IsQuiet, update-IsGentle, approve_messages-IsQuiet,
  edit_message-IsQuiet, mark_withdrawn-IsQuiet, failed-IsQuiet,
}
use job_hunters_api.Outreach.Sequence.Trace.Discovery.{discover_prospects-IsQuiet}
use job_hunters_api.Outreach.Sequence.Trace.Caps.{
  IsWithinCaps, HasRoom, Inv, Room-wait, IsWithinCaps-wait, Inv-quiet, Inv-idle,
}

invite_keeps_id :
    (t id other : ℕ) (p : ProspectRow)
    → has_id other (update_prospect (set_invited t) id p) ≡ has_id other p
invite_keeps_id t id other p = ground arith

abbrev invited_rows : ℕ → MessageRow → Account → List ProspectRow
invited_rows t m a = map (update_prospect (set_invited t) m.prospect_id) a.prospects

-- One more row counts at most.
count_invited_le :
    (q : ProspectRow → Bool) (t : ℕ) (a : Account) (r : Row)
    → HasUniqueIds a
    → HasRoom t a r
    → count q (invited_rows t r.message a) ≤ count q a.prospects + 1
count_invited_le q t a r u h =
    let change =
      count-update q (set_invited t) r.message.prospect_id a.prospects h.found (u.unique _) in
    let most = one_if_le (q (set_invited t h.prospect)) in omega (arith, change, most)

-- At another company none does.
count_other_le :
    (c : String) (t : ℕ) (a : Account) (r : Row)
    → HasUniqueIds a
    → HasRoom t a r
    → str_eq r.company c ≡ false
    → count (invited_at_company c t a.targets) (invited_rows t r.message a)
      ≤ count (invited_at_company c t a.targets) a.prospects
count_other_le c t a r u h other =
    let q = invited_at_company c t a.targets in
    let change =
      count-update q (set_invited t) r.message.prospect_id a.prospects h.found (u.unique _) in
    let unseen : q (set_invited t h.prospect) ≡ false = rw (h.employer, other) in
    let none_ : one_if (q (set_invited t h.prospect)) ≡ 0 = ap one_if unseen in
    omega (arith, change, none_)

company_le :
    (c : String) (t : ℕ) (a : Account) (r : Row)
    → HasUniqueIds a
    → IsWithinCaps t a
    → HasRoom t a r
    → count (invited_at_company c t a.targets) (invited_rows t r.message a) ≤ 5
unfolding count_company_invites_today
company_le c t a r u k h = elim (Bool-cases (str_eq r.company c)) [
  | inl same ↦
      let eq : r.company ≡ c = (eq_iff r.company c).0 same in
      let more = count_invited_le (invited_at_company c t a.targets) t a r u h in
      let room : count_company_invites_today c t a < 5 = rw (← eq) h.company in
      omega (arith, more, room)
  | inr other ↦
      let less = count_other_le c t a r u h other in
      let cap = k.company c in omega (arith, less, cap)
]

kind-cases : (k : MessageKind) → (k ≡ invite) ⊎ ((k ≡ ask) ⊎ (k ≡ follow_up))
kind-cases invite = inl refl
kind-cases ask = inr (inl refl)
kind-cases follow_up = inr (inr refl)

invite-Inv :
    (t : ℕ) (a : Account) (r : Row)
    → r.message.kind ≡ invite
    → HasUniqueIds a
    → IsWithinCaps t a
    → HasRoom t a r
    → Inv (record { now = t; account = mark_sent t r.message none a; sending = none })
unfolding mark_sent sent_today sent_this_week count_company_invites_today
invite-Inv t a r kind u k h = rw kind (record {
  ids = record {
    unique = λ id.
        let same =
          count-map-same (has_id id) (update_prospect (set_invited t) r.message.prospect_id)
            a.prospects (invite_keeps_id t r.message.prospect_id id) in
        rw same (u.unique id);
    free = λ id le.
        let same =
          count-map-same (has_id id) (update_prospect (set_invited t) r.message.prospect_id)
            a.prospects (invite_keeps_id t r.message.prospect_id id) in
        rw same (u.free id le);
  };
  caps = record {
    today =
        let more = count_invited_le (invited_within day_ms t) t a r u h in
        let room : sent_today t a < 15 = h.today in omega (arith, more, room);
    week =
        let more = count_invited_le (invited_within week_ms t) t a r u h in
        let room : sent_this_week t a < 60 = h.week in omega (arith, more, room);
    company = λ c. company_le c t a r u k h;
  };
  room = tt;
})

asked-IsQuiet :
    (t : ℕ) (m : MessageRow) (a : Account)
    → (m.kind ≡ ask) ⊎ (m.kind ≡ follow_up)
    → IsQuiet a (mark_sent t m none a)
unfolding mark_sent
asked-IsQuiet t m a kind =
    map-IsQuiet a _ (update_prospect (set_asked t) m.prospect_id)
      (update-IsGentle _ m.prospect_id
        (record { id = λ p. refl; target = λ p. refl; invited = λ p. refl }))
      (elim kind [ inl e ↦ rw e | inr e ↦ rw e ]) (elim kind [ inl e ↦ rw e | inr e ↦ rw e ])
      (elim kind [ inl e ↦ rw e | inr e ↦ rw e ])

mark_sent-Inv :
    (t : ℕ) (a : Account) (r : Row) (error : Option String)
    → Inv (record { now = t; account = a; sending = some r })
    → Inv (record { now = t; account = mark_sent t r.message error a; sending = none })
mark_sent-Inv t a r (some why) v =
    Inv-quiet t a _ none (failed-IsQuiet t r.message why a) (Inv-idle t a (some r) v)
mark_sent-Inv t a r none v = elim (kind-cases r.message.kind) [
  | inl kind ↦ invite-Inv t a r kind v.ids v.caps v.room
  | inr kind ↦ Inv-quiet t a _ none (asked-IsQuiet t r.message a kind) (Inv-idle t a (some r) v)
]

trip_breaker-IsQuiet : (t : ℕ) (a : Account) → IsQuiet a (trip_breaker t a)
unfolding trip_breaker
trip_breaker-IsQuiet t a = same-IsQuiet a _ refl refl refl

module _ (format_hour : ℕ → String → Option ℕ) (compose : Prospect → String × String) where
  pick-Inv :
      (t : ℕ) (a : Account) (r : Row)
      → next_sendable format_hour t a ≡ message r
      → Inv (record { now = t; account = a; sending = none })
      → Inv (record { now = t; account = a; sending = some r })
  pick-Inv t a r e v =
      let (s, scheduled, on, cleared, from, to) = next_sendable-IsCleared format_hour t a r e in
      record {
        ids = v.ids;
        caps = v.caps;
        room = record {
          today = cleared.today;
          week = cleared.week;
          company = cleared.company;
          prospect = r.prospect;
          found = cleared.joined.prospect_found;
          employer = cleared.joined.company_found;
        };
      }

  Step-Inv : {v w : World} → Step format_hour compose v w → Inv v → Inv w
  Step-Inv (wait t u a s le) v = record {
    ids = v.ids;
    caps = IsWithinCaps-wait t u a le v.caps;
    room = Room-wait t u a s le v.room;
  }
  Step-Inv (pick t a r e) v = pick-Inv t a r e v
  Step-Inv (record_outcome t a r error) v = mark_sent-Inv t a r error v
  Step-Inv (checkpoint t a s) v = Inv-quiet t a _ none (trip_breaker-IsQuiet t a) (Inv-idle t a s v)
  Step-Inv (trip t a s) v = Inv-quiet t a _ s (trip_breaker-IsQuiet t a) v
  Step-Inv (give_up t a s) v = Inv-idle t a s v
  Step-Inv (approve t a s ids) v = Inv-quiet t a _ s (approve_messages-IsQuiet t ids a) v
  Step-Inv (edit t a s id body) v = Inv-quiet t a _ s (edit_message-IsQuiet id body a) v
  Step-Inv (discover t a s target found) v =
      Inv-quiet t a _ s (discover_prospects-IsQuiet compose target found a) v
  Step-Inv (withdraw t a s id) v = Inv-quiet t a _ s (mark_withdrawn-IsQuiet id a) v
  Step-Inv (change_settings t a s schedule) v =
      Inv-quiet t a _ s (same-IsQuiet a (record a { schedule = schedule }) refl refl refl) v

  Reach-Inv : (start w : World) → Reach format_hour compose start w → Inv start → Inv w
  Reach-Inv start w here v = v
  Reach-Inv start w (next r s) v = Step-Inv s (Reach-Inv start _ r v)

  -- From an account with no prospects and a worker that holds no message, every state that waiting,
  -- sending, checkpoints, approvals, edits, discoveries, withdrawals and changed settings reach has
  -- at most 15 invitations in the last day, 60 in the last week and 5 to any one company in the last
  -- day.
  pub Reach-IsWithinCaps :
      (t : ℕ) (a : Account) (w : World)
      → a.prospects ≡ []
      → Reach format_hour compose (record { now = t; account = a; sending = none }) w
      → IsWithinCaps w.now w.account
  unfolding sent_today sent_this_week count_company_invites_today
  Reach-IsWithinCaps t a w empty r =
      (Reach-Inv (record { now = t; account = a; sending = none }) w r
        (record {
          ids = record { unique = λ id. rw empty (omega arith); free = λ id le. rw empty };
          caps = record {
            today = rw empty (omega arith);
            week = rw empty (omega arith);
            company = λ c. rw empty (omega arith);
          };
          room = tt;
        })).caps
