-- ===== src/Outreach/Sequence/Trace.antt =====
-- The outreach of one user as a step relation: the sending worker of src/runner.ts, the requests of
-- src/modules/outreach/routes.ts and the discovery of src/outreach/sequence.ts, in any interleaving.
--
-- The worker sends one message at a time (queue concurrency 1 and the user's lock), in two steps
-- between which anything else may happen: it picks a message by `nextSendable`, and later records
-- the outcome by `markSent`. `sending` is the message that it holds meanwhile.
-- A checkpoint that the sending meets ends it; one that the search for prospects meets trips the
-- breaker and leaves the message that is held.
pub mod Quiet
pub mod Discovery
pub mod Caps
pub mod Safety
use Prim.Native.String.{String}
use job_hunters_api.Common.{ℕ, ◌≤◌, ◌≡◌, Bool, Option, none, some, List}
use job_hunters_api.Outreach.Rank.{Prospect}
use job_hunters_api.Outreach.Sequence.{Account, Schedule, Row, message, next_sendable, trip_breaker}
use job_hunters_api.Outreach.Sequence.Changes.{
  mark_sent, mark_withdrawn, approve_messages, edit_message, discover_prospects,
}

pub record World : Type 0 where
  pub now : ℕ
  pub account : Account
  pub sending : Option Row

module _ (format_hour : ℕ → String → Option ℕ) (compose : Prospect → String × String) where
  pub data Step : World → World → Type 0 where
    wait :
        (t u : ℕ) (a : Account) (s : Option Row)
        → t ≤ u
        → Step
            (record { now = t; account = a; sending = s })
            (record { now = u; account = a; sending = s })
    pick :
        (t : ℕ) (a : Account) (r : Row)
        → next_sendable format_hour t a ≡ message r
        → Step
            (record { now = t; account = a; sending = none })
            (record { now = t; account = a; sending = some r })
    record_outcome :
        (t : ℕ) (a : Account) (r : Row) (error : Option String)
        → Step
            (record { now = t; account = a; sending = some r })
            (record { now = t; account = mark_sent t r.message error a; sending = none })
    checkpoint :
        (t : ℕ) (a : Account) (s : Option Row)
        → Step
            (record { now = t; account = a; sending = s })
            (record { now = t; account = trip_breaker t a; sending = none })
    trip :
        (t : ℕ) (a : Account) (s : Option Row)
        → Step
            (record { now = t; account = a; sending = s })
            (record { now = t; account = trip_breaker t a; sending = s })
    give_up :
        (t : ℕ) (a : Account) (s : Option Row)
        → Step
            (record { now = t; account = a; sending = s })
            (record { now = t; account = a; sending = none })
    approve :
        (t : ℕ) (a : Account) (s : Option Row) (ids : List ℕ)
        → Step
            (record { now = t; account = a; sending = s })
            (record { now = t; account = approve_messages t ids a; sending = s })
    edit :
        (t : ℕ) (a : Account) (s : Option Row) (id : ℕ) (body : String)
        → Step
            (record { now = t; account = a; sending = s })
            (record { now = t; account = edit_message id body a; sending = s })
    discover :
        (t : ℕ) (a : Account) (s : Option Row) (target_id : ℕ) (found : List Prospect)
        → Step
            (record { now = t; account = a; sending = s })
            (record {
              now = t;
              account = discover_prospects compose target_id found a;
              sending = s;
            })
    withdraw :
        (t : ℕ) (a : Account) (s : Option Row) (id : ℕ)
        → Step
            (record { now = t; account = a; sending = s })
            (record { now = t; account = mark_withdrawn id a; sending = s })
    change_settings :
        (t : ℕ) (a : Account) (s : Option Row) (schedule : Option Schedule)
        → Step
            (record { now = t; account = a; sending = s })
            (record { now = t; account = record a { schedule = schedule }; sending = s })

  pub data Reach (start : World) : World → Type 0 where
    here : Reach start start
    next : {v w : World} → Reach start v → Step v w → Reach start w
