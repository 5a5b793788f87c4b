-- ===== src/Outreach/Sequence/Changes.antt =====
-- What changes the rows of src/outreach/sequence.ts and src/modules/outreach/routes.ts: sending,
-- withdrawing, approving, editing and discovering.
use Prim.Native.String.{String}
use text.Mathlib.Text.{◌==◌ as str_eq}
use job_hunters_api.Common.{
  ℕ, ◌+◌, ◌==◌, Bool, true, false, not, ◌&&◌, Option, none, some, List, [], ◌∷◌, ◌++◌, map, any,
  filter, if◌then◌else◌,
}
use job_hunters_api.Outreach.Rank.{
  Prospect, RankedProspect, rank_prospects, max_per_company, worth_contacting, is_first_degree,
}
use job_hunters_api.Outreach.Sequence.{
  ProspectState, MessageKind, ProspectRow, MessageRow, Account, is_some, has_id, drafted, approved,
  invited, accepted, asked, withdrawn, send_failed, withdrawn_unaccepted, invite, ask,
}

-- `update outreach_prospects set … where id = …`.
abbrev pub update_prospect : (ProspectRow → ProspectRow) → ℕ → ProspectRow → ProspectRow
update_prospect f id p = if has_id id p then f p else p

abbrev update_message : (MessageRow → MessageRow) → ℕ → MessageRow → MessageRow
update_message f id m = if m.id == id then f m else m

abbrev pub set_invited : ℕ → ProspectRow → ProspectRow
set_invited now p = record p { state = invited; invited_at = some now }

abbrev pub set_asked : ℕ → ProspectRow → ProspectRow
set_asked now p = record p { state = asked; asked_at = some now }

abbrev advance : ℕ → MessageRow → Account → Account
advance now m a = elim m.kind [
  | invite ↦ record a {
    prospects = map (update_prospect (set_invited now) m.prospect_id) a.prospects;
    health = record (a.health) {
      invites_today = a.health.invites_today + 1;
      invites_7d = a.health.invites_7d + 1;
    };
  }
  | _ ↦ record a { prospects = map (update_prospect (set_asked now) m.prospect_id) a.prospects }
]

-- `outcome` is `none` where the send went, and the error where it did not.
unfoldable pub mark_sent : ℕ → MessageRow → Option String → Account → Account
mark_sent now m none a = advance now m (record a {
  messages = map (update_message (λ r. record r { sent_at = some now }) m.id) a.messages;
})
mark_sent now m (some error) a = record a {
  prospects =
      map (update_prospect (λ p. record p { outcome = some (send_failed error) }) m.prospect_id)
        a.prospects;
}

unfoldable pub mark_withdrawn : ℕ → Account → Account
mark_withdrawn prospect_id a = record a {
  prospects =
      map
        (update_prospect (λ p. record p { state = withdrawn; outcome = some withdrawn_unaccepted })
          prospect_id)
        a.prospects;
}

abbrev mem_id : ℕ → List ℕ → Bool
mem_id id = any (λ other. other == id)

abbrev approve_if : ℕ → List ℕ → MessageRow → MessageRow
approve_if now ids m =
    if mem_id m.id ids && not (is_some m.approved_at)
    then record m { approved_at = some now }
    else m

abbrev pub updated_prospects : List ℕ → List MessageRow → List ℕ
updated_prospects ids ms =
    map (λ m. m.prospect_id) (filter (λ m. mem_id m.id ids && not (is_some m.approved_at)) ms)

abbrev is_drafted : ProspectState → Bool
is_drafted drafted = true
is_drafted _ = false

abbrev pub approve_prospect : List ℕ → ProspectRow → ProspectRow
approve_prospect ids p =
    if mem_id p.id ids && is_drafted p.state then record p { state = approved } else p

-- `POST /messages/approve`.
unfoldable pub approve_messages : ℕ → List ℕ → Account → Account
approve_messages now ids a = record a {
  messages = map (approve_if now ids) a.messages;
  prospects = map (approve_prospect (updated_prospects ids a.messages)) a.prospects;
}

abbrev pub edit_if : ℕ → String → MessageRow → MessageRow
edit_if id body m =
    if m.id == id && not (is_some m.sent_at)
    then record m { body = body; approved_at = none }
    else m

-- `PUT /messages/:id`; where no unsent row has the id, nothing changes and the answer is an error.
unfoldable pub edit_message : ℕ → String → Account → Account
edit_message id body a = record a { messages = map (edit_if id body) a.messages }

-- The state that a stored prospect ends in: no invitation is needed for a first-degree contact.
abbrev first_state : RankedProspect → ProspectState
first_state r = if is_first_degree r.relationship then accepted else drafted

abbrev pub is_known : ℕ → String → List ProspectRow → Bool
is_known target_id url = any (λ p. p.target_id == target_id && str_eq p.profile_url url)

module _ (compose : Prospect → String × String) where
  abbrev pub new_prospect : ℕ → ℕ → RankedProspect → ProspectRow
  new_prospect id target_id r = record {
    id = id;
    target_id = target_id;
    profile_url = r.profile_url;
    score = r.score;
    state = first_state r;
    invited_at = none;
    asked_at = none;
    outcome = none;
  }

  abbrev new_message : ℕ → ℕ → MessageKind → String → MessageRow
  new_message id prospect_id kind body = record {
    id = id;
    prospect_id = prospect_id;
    kind = kind;
    body = body;
    approved_at = none;
    sent_at = none;
  }

  abbrev pub insert_prospect : ℕ → RankedProspect → Account → Account
  insert_prospect target_id r a = record a {
    prospects = a.prospects ++ new_prospect a.next_id target_id r ∷ [];
    messages =
        a.messages
        ++ (new_message (a.next_id + 1) a.next_id invite (compose r.prospect).0
            ∷ new_message (a.next_id + 2) a.next_id ask (compose r.prospect).1
            ∷ []);
    next_id = a.next_id + 3;
  }

  -- The loop over the ranked prospects; one that the target has already is skipped.
  unfoldable pub store_prospects : ℕ → List RankedProspect → Account → Account
  store_prospects target_id [] a = a
  store_prospects target_id (r ∷ ranked) a =
      store_prospects target_id ranked
        (if is_known target_id r.profile_url a.prospects then a else insert_prospect target_id r a)

  unfoldable pub discover_prospects : ℕ → List Prospect → Account → Account
  unfolding store_prospects
  discover_prospects target_id candidates a =
      store_prospects target_id
        (filter worth_contacting (rank_prospects candidates max_per_company)) a
