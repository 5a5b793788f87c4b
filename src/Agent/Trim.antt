-- ===== src/Agent/Trim.antt =====
-- What `trim` of src/agent/loop.ts leaves of a conversation: every reply of a tool keeps the call
-- that it answers, since the model's service refuses a reply without one.
use job_hunters_api.Common.{
  ℕ, zero, suc, ◌+◌, ◌-◌, ◌≤◌, ◌≡◌, refl, ◌∙◌, Bool, true, false, Bool-cases, inl, inr, ◌&&◌, List,
  [], ◌∷◌, length, drop, get_elem?, arith, ◌==◌, leb, ltb,
}
use job_hunters_api.Agent.{
  Message, rules, goal, called, replied, role, is_tool, is_tool_at, walk_back, trim,
}

abbrev pub is_reply : Message → Bool
is_reply m = is_tool (role m)

abbrev is_call : ℕ → Message → Bool
is_call id (called call content) = call.id == id
is_call id _ = false

-- Whether a message may follow another: a reply follows its own call.
abbrev may_follow : Message → Message → Bool
may_follow before (replied id ok text) = is_call id before
may_follow before _ = true

abbrev pub IsPaired : Message → List Message → Type 0
IsPaired before [] = Unit
IsPaired before (m ∷ messages) = (may_follow before m ≡ true) × IsPaired m messages

-- A conversation of the agent: the rules and the goal, and every reply behind its call.
abbrev pub IsConversation : List Message → Type 0
IsConversation (rules ∷ goal ∷ messages) = IsPaired goal messages
IsConversation _ = ⊥

pub may_follow_any : (before m : Message) → is_reply m ≡ false → may_follow before m ≡ true
may_follow_any before m h = ground arith

-- No reply follows a reply.
reply_after_reply :
    (before m : Message) → is_reply before ≡ true → may_follow before m ≡ true → is_reply m ≡ false
reply_after_reply before m h k = ground arith

drop-IsPaired :
    (before other : Message) (messages : List Message) (n : ℕ)
    → IsPaired before messages
    → is_tool_at (get_elem? messages n) ≡ false
    → IsPaired other (drop n messages)
drop-IsPaired before other [] zero h cut = tt
drop-IsPaired before other [] (suc n) h cut = tt
drop-IsPaired before other (m ∷ messages) zero (h, k) cut = (may_follow_any other m cut, k)
drop-IsPaired before other (m ∷ messages) (suc n) (h, k) cut =
    drop-IsPaired m other messages n k cut

no_two_replies :
    (before : Message) (messages : List Message) (n : ℕ)
    → IsPaired before messages
    → is_tool_at (get_elem? messages (suc n)) ≡ true
    → is_tool_at (get_elem? messages n) ≡ false
no_two_replies before [] n h reply = refl
no_two_replies before (m ∷ []) zero h reply = cc
no_two_replies before (m ∷ next ∷ messages) zero (h, (k, l)) reply =
    elim (Bool-cases (is_reply m)) [
      | inl earlier ↦ cc (reply_after_reply m next earlier k)
      | inr fine ↦ fine
    ]
no_two_replies before (m ∷ messages) (suc n) (h, k) reply = no_two_replies m messages n k reply

-- Where the walk back ends: at 2 or later, and on no reply unless at 2.
walk_back_bounds :
    (messages : List Message) (start : ℕ)
    → 2 ≤ start
    → (2 ≤ walk_back messages start)
      × (is_tool_at (get_elem? messages (walk_back messages start)) ≡ true
          → walk_back messages start ≡ 2)
unfolding walk_back
walk_back_bounds messages zero two = absurd (omega arith)
walk_back_bounds messages (suc start) two =
    elim (Bool-cases (ltb 2 (suc start) && is_tool_at (get_elem? messages (suc start)))) [
      | inl back ↦ rw back (walk_back_bounds messages start (ground arith))
      | inr stay ↦ rw stay (omega arith, λ reply. ground arith)
    ]

-- One reply is walked over at most.
walk_back-ge :
    (before : Message) (messages : List Message) (start : ℕ)
    → IsPaired before messages
    → start ≤ walk_back messages start + 1
unfolding walk_back
walk_back-ge before messages zero h = omega arith
walk_back-ge before messages (suc zero) h = ground arith
walk_back-ge before messages (suc (suc start)) h =
    elim (Bool-cases
      (ltb 2 (suc (suc start)) && is_tool_at (get_elem? messages (suc (suc start))))) [
        | inr stay ↦ rw stay (omega arith)
        | inl back ↦
            let fine = no_two_replies before messages (suc start) h (ground arith) in
            rw (back, walk_back) (rw fine (ground arith))
      ]

length-drop : (n : ℕ) (messages : List Message) → length (drop n messages) ≡ length messages - n
length-drop zero messages = omega arith
length-drop (suc n) [] = omega arith
length-drop (suc n) (m ∷ messages) = length-drop n messages ∙ omega arith

goal_before :
    (messages : List Message) → IsPaired goal messages → is_tool_at (get_elem? messages 0) ≡ false
goal_before [] h = refl
goal_before (m ∷ messages) (h, k) = ground arith

cut-IsPaired :
    (messages : List Message) (start : ℕ)
    → IsPaired goal messages
    → 2 ≤ start
    → (is_tool_at (get_elem? (rules ∷ goal ∷ messages) start) ≡ true → start ≡ 2)
    → IsPaired goal (drop start (rules ∷ goal ∷ messages))
cut-IsPaired messages zero h two only = absurd (omega arith)
cut-IsPaired messages (suc zero) h two only = absurd (omega arith)
cut-IsPaired messages (suc (suc start)) h two only =
    drop-IsPaired goal goal messages start h
      (elim (Bool-cases (is_tool_at (get_elem? messages start))) [
        | inr fine ↦ fine
        | inl reply ↦ rw (suc_two start (only reply)) (goal_before messages h)
      ])
  where
    suc_two : (start : ℕ) → suc (suc start) ≡ 2 → start ≡ 0
    suc_two start h = omega arith

-- What is sent of a conversation is a conversation again, the rules and the goal first and every
-- reply of a tool behind the call that it answers, and holds `keep + 3` messages at most.
pub trim-IsConversation :
    (messages : List Message) (keep : ℕ)
    → IsConversation messages
    → IsConversation (trim messages keep) × (length (trim messages keep) ≤ keep + 3)
unfolding trim
trim-IsConversation (rules ∷ goal ∷ messages) keep h =
    elim (Bool-cases (leb (length (rules ∷ goal ∷ messages)) (keep + 2))) [
      | inl short ↦ rw short (h, ground arith)
      | inr long ↦
          let start = length (rules ∷ goal ∷ messages) - keep in
          let (two, only) = walk_back_bounds (rules ∷ goal ∷ messages) start (ground arith) in
          let near = walk_back-ge rules (rules ∷ goal ∷ messages) start (refl, (refl, h)) in
          let size =
            length-drop (walk_back (rules ∷ goal ∷ messages) start) (rules ∷ goal ∷ messages) in
          rw long (
            cut-IsPaired messages (walk_back (rules ∷ goal ∷ messages) start) h two only,
            bound (length (rules ∷ goal ∷ messages)) keep _ _ near size,
          )
    ]
  where
    bound : (n k w rest : ℕ) → n - k ≤ w + 1 → rest ≡ n - w → suc (suc rest) ≤ k + 3
    bound n k w rest near size = omega arith
trim-IsConversation _ keep h = absurd h
