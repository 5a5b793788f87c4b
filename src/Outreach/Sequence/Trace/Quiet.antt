-- ===== src/Outreach/Sequence/Trace/Quiet.antt =====
-- The operations of src/outreach/sequence.ts that send no invitation leave every count of
-- invitations as it was.
use Prim.Native.String.{String}
use job_hunters_api.Common.{ℕ, ◌≤◌, ◌≡◌, refl, some, List, map, find, count, arith}
use job_hunters_api.Outreach.Sequence.{
  Account, ProspectRow, MessageRow, has_id, invited_within, invited_at_company,
}
use job_hunters_api.Outreach.Sequence.Changes.{
  update_prospect, mark_sent, mark_withdrawn, approve_messages, approve_prospect, edit_message,
  updated_prospects,
}
use job_hunters_api.Outreach.Sequence.Counting.{count-map-same, find-map-same}

-- Ids are unique, and those from `next_id` on are free.
pub record HasUniqueIds (a : Account) : Type 0 where
  pub unique : (id : ℕ) → count (has_id id) a.prospects ≤ 1
  pub free : (id : ℕ) → a.next_id ≤ id → count (has_id id) a.prospects ≡ 0

-- `b` is `a` with no invitation more or less.
pub record IsQuiet (a b : Account) : Type 0 where
  pub ids : HasUniqueIds a → HasUniqueIds b
  pub targets : b.targets ≡ a.targets
  pub within :
      (span now : ℕ)
      → count (invited_within span now) b.prospects ≡ count (invited_within span now) a.prospects
  pub company :
      (c : String) (now : ℕ)
      → count (invited_at_company c now a.targets) b.prospects
        ≡ count (invited_at_company c now a.targets) a.prospects
  pub found :
      (id : ℕ) (p : ProspectRow)
      → find (has_id id) a.prospects ≡ some p
      → (q : ProspectRow) × (find (has_id id) b.prospects ≡ some q) × (q.target_id ≡ p.target_id)

-- A change of rows that keeps what the counts and the joins read.
pub record IsGentle (g : ProspectRow → ProspectRow) : Type 0 where
  pub id : (p : ProspectRow) → (g p).id ≡ p.id
  pub target : (p : ProspectRow) → (g p).target_id ≡ p.target_id
  pub invited : (p : ProspectRow) → (g p).invited_at ≡ p.invited_at

same_within :
    (g : ProspectRow → ProspectRow)
    → IsGentle g
    → (span now : ℕ) (p : ProspectRow) → invited_within span now (g p) ≡ invited_within span now p
same_within g k span now p = rw (k.invited p)

same_company :
    (g : ProspectRow → ProspectRow)
    → IsGentle g
    → (a : Account) (c : String) (now : ℕ) (p : ProspectRow)
    → invited_at_company c now a.targets (g p) ≡ invited_at_company c now a.targets p
same_company g k a c now p = rw (k.invited p, k.target p)

same_id :
    (g : ProspectRow → ProspectRow)
    → IsGentle g
    → (id : ℕ) (p : ProspectRow) → has_id id (g p) ≡ has_id id p
same_id g k id p = rw (k.id p)

-- A gentle change of every row is quiet.
pub map-IsQuiet :
    (a b : Account) (g : ProspectRow → ProspectRow)
    → IsGentle g
    → b.prospects ≡ map g a.prospects
    → b.targets ≡ a.targets
    → b.next_id ≡ a.next_id
    → IsQuiet a b
map-IsQuiet a b g k ps ts n = record {
  ids = λ h. record {
    unique =
        λ id. rw ps (rw (count-map-same (has_id id) g a.prospects (same_id g k id)) (h.unique id));
    free = λ id le.
        rw ps (
          rw (count-map-same (has_id id) g a.prospects (same_id g k id)) (h.free id (rw (← n) le)));
  };
  targets = ts;
  within = λ span now.
      rw ps (count-map-same (invited_within span now) g a.prospects (same_within g k span now));
  company = λ c now. rw ps (
      count-map-same (invited_at_company c now a.targets) g a.prospects (same_company g k a c now));
  found = λ id p e. (g p, rw ps (find-map-same id g a.prospects k.id e), k.target p);
}

-- A change that touches no prospect is quiet.
pub same-IsQuiet :
    (a b : Account)
    → b.prospects ≡ a.prospects
    → b.targets ≡ a.targets
    → b.next_id ≡ a.next_id
    → IsQuiet a b
same-IsQuiet a b ps ts n = record {
  ids = λ h. record {
    unique = λ id. rw ps (h.unique id);
    free = λ id le. rw ps (h.free id (rw (← n) le));
  };
  targets = ts;
  within = λ span now. rw ps;
  company = λ c now. rw ps;
  found = λ id p e. (p, rw ps e, refl);
}

pub update-IsGentle :
    (f : ProspectRow → ProspectRow) (id : ℕ) → IsGentle f → IsGentle (update_prospect f id)
update-IsGentle f id k = record {
  id = λ p. ground (arith, k.id p);
  target = λ p. ground (arith, k.target p);
  invited = λ p. ground (arith, k.invited p);
}

approve-IsGentle : (ids : List ℕ) → IsGentle (approve_prospect ids)
approve-IsGentle ids = record {
  id = λ p. ground arith;
  target = λ p. ground arith;
  invited = λ p. ground arith;
}

pub approve_messages-IsQuiet :
    (now : ℕ) (ids : List ℕ) (a : Account) → IsQuiet a (approve_messages now ids a)
unfolding approve_messages
approve_messages-IsQuiet now ids a =
    map-IsQuiet a _ (approve_prospect (updated_prospects ids a.messages)) (approve-IsGentle _) refl
      refl refl

pub edit_message-IsQuiet :
    (id : ℕ) (body : String) (a : Account) → IsQuiet a (edit_message id body a)
unfolding edit_message
edit_message-IsQuiet id body a = same-IsQuiet a _ refl refl refl

pub mark_withdrawn-IsQuiet : (id : ℕ) (a : Account) → IsQuiet a (mark_withdrawn id a)
unfolding mark_withdrawn
mark_withdrawn-IsQuiet id a =
    map-IsQuiet a _ _
      (update-IsGentle _ id (record { id = λ p. refl; target = λ p. refl; invited = λ p. refl }))
      refl refl refl

pub failed-IsQuiet :
    (now : ℕ) (m : MessageRow) (error : String) (a : Account)
    → IsQuiet a (mark_sent now m (some error) a)
unfolding mark_sent
failed-IsQuiet now m error a =
    map-IsQuiet a _ _
      (update-IsGentle _ m.prospect_id
        (record { id = λ p. refl; target = λ p. refl; invited = λ p. refl }))
      refl refl refl
