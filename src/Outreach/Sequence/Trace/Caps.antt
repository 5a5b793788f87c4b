-- ===== src/Outreach/Sequence/Trace/Caps.antt =====
-- The caps of src/outreach/limits.ts hold in every state that the outreach can reach.
use Prim.Native.String.{String}
use job_hunters_api.Common.{ℕ, ◌≤◌, ◌<◌, ◌≡◌, true, Option, none, some, find, count_mono, arith}
use job_hunters_api.Outreach.Sequence.{
  Account, ProspectRow, Row, has_id, invited_within, invited_at_company, company_of, day_ms,
  week_ms, sent_today, sent_this_week, count_company_invites_today,
}
use job_hunters_api.Outreach.Sequence.Trace.{World}
use job_hunters_api.Outreach.Sequence.Trace.Quiet.{HasUniqueIds, IsQuiet}

-- The three caps at an instant.
pub record IsWithinCaps (now : ℕ) (a : Account) : Type 0 where
  pub today : sent_today now a ≤ 15
  pub week : sent_this_week now a ≤ 60
  pub company : (c : String) → count_company_invites_today c now a ≤ 5

-- There is room for the message that the worker holds.
pub record HasRoom (now : ℕ) (a : Account) (r : Row) : Type 0 where
  pub today : sent_today now a < 15
  pub week : sent_this_week now a < 60
  pub company : count_company_invites_today r.company now a < 5
  pub prospect : ProspectRow
  pub found : find (has_id r.message.prospect_id) a.prospects ≡ some prospect
  pub employer : company_of a.targets prospect.target_id ≡ some r.company

abbrev Room : ℕ → Account → Option Row → Type 0
Room now a none = Unit
Room now a (some r) = HasRoom now a r

pub record Inv (w : World) : Type 0 where
  pub ids : HasUniqueIds w.account
  pub caps : IsWithinCaps w.now w.account
  pub room : Room w.now w.account w.sending

-- As time passes, invitations only leave the spans.
within_later :
    (span t u : ℕ)
    → t ≤ u
    → (p : ProspectRow) → invited_within span u p ≡ true
    → invited_within span t p ≡ true
within_later span t u le p h = ground arith

company_later :
    (c : String) (t u : ℕ) (a : Account)
    → t ≤ u
    → (p : ProspectRow) → invited_at_company c u a.targets p ≡ true
    → invited_at_company c t a.targets p ≡ true
company_later c t u a le p h = ground (arith, within_later day_ms t u le p)

sent_today_later : (t u : ℕ) (a : Account) → t ≤ u → sent_today u a ≤ sent_today t a
unfolding sent_today
sent_today_later t u a le =
    count_mono (invited_within day_ms u) (invited_within day_ms t) a.prospects
      (within_later day_ms t u le)

sent_this_week_later : (t u : ℕ) (a : Account) → t ≤ u → sent_this_week u a ≤ sent_this_week t a
unfolding sent_this_week
sent_this_week_later t u a le =
    count_mono (invited_within week_ms u) (invited_within week_ms t) a.prospects
      (within_later week_ms t u le)

company_count_later :
    (c : String) (t u : ℕ) (a : Account)
    → t ≤ u
    → count_company_invites_today c u a ≤ count_company_invites_today c t a
unfolding count_company_invites_today
company_count_later c t u a le =
    count_mono (invited_at_company c u a.targets) (invited_at_company c t a.targets) a.prospects
      (company_later c t u a le)

pub Room-wait : (t u : ℕ) (a : Account) (s : Option Row) → t ≤ u → Room t a s → Room u a s
Room-wait t u a none le h = tt
Room-wait t u a (some r) le h = record {
  today = omega (arith, sent_today_later t u a le, h.today);
  week = omega (arith, sent_this_week_later t u a le, h.week);
  company = omega (arith, company_count_later r.company t u a le, h.company);
  prospect = h.prospect;
  found = h.found;
  employer = h.employer;
}

pub IsWithinCaps-wait : (t u : ℕ) (a : Account) → t ≤ u → IsWithinCaps t a → IsWithinCaps u a
IsWithinCaps-wait t u a le h = record {
  today = omega (arith, sent_today_later t u a le, h.today);
  week = omega (arith, sent_this_week_later t u a le, h.week);
  company = λ c. omega (arith, company_count_later c t u a le, h.company c);
}

quiet_today : (a b : Account) → IsQuiet a b → (t : ℕ) → sent_today t b ≡ sent_today t a
unfolding sent_today
quiet_today a b q t = q.within day_ms t

quiet_week : (a b : Account) → IsQuiet a b → (t : ℕ) → sent_this_week t b ≡ sent_this_week t a
unfolding sent_this_week
quiet_week a b q t = q.within week_ms t

quiet_company :
    (a b : Account)
    → IsQuiet a b
    → (c : String) (t : ℕ) → count_company_invites_today c t b ≡ count_company_invites_today c t a
unfolding count_company_invites_today
quiet_company a b q c t = rw q.targets (q.company c t)

Room-quiet : (t : ℕ) (a b : Account) (s : Option Row) → IsQuiet a b → Room t a s → Room t b s
Room-quiet t a b none q h = tt
Room-quiet t a b (some r) q h =
    let (p, found, target) = q.found r.message.prospect_id h.prospect h.found in
    record {
      today = rw (quiet_today a b q t) h.today;
      week = rw (quiet_week a b q t) h.week;
      company = rw (quiet_company a b q r.company t) h.company;
      prospect = p;
      found = found;
      employer = rw (q.targets, target) h.employer;
    }

pub Inv-quiet :
    (t : ℕ) (a b : Account) (s : Option Row)
    → IsQuiet a b
    → Inv (record { now = t; account = a; sending = s })
    → Inv (record { now = t; account = b; sending = s })
Inv-quiet t a b s q v = record {
  ids = q.ids v.ids;
  caps = record {
    today = rw (quiet_today a b q t) v.caps.today;
    week = rw (quiet_week a b q t) v.caps.week;
    company = λ c. rw (quiet_company a b q c t) (v.caps.company c);
  };
  room = Room-quiet t a b s q v.room;
}

pub Inv-idle :
    (t : ℕ) (a : Account) (s : Option Row)
    → Inv (record { now = t; account = a; sending = s })
    → Inv (record { now = t; account = a; sending = none })
Inv-idle t a s v = record { ids = v.ids; caps = v.caps; room = tt }
