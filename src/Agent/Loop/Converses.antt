-- ===== src/Agent/Loop/Converses.antt =====
-- The conversation that the loop of `runAgent` in src/agent/loop.ts keeps.
use Prim.Native.String.{String}
use text.Mathlib.Text.{◌==◌ as str_eq}
use job_hunters_api.Common.{
  ℕ, ◌≡◌, refl, sym, subst, Bool, false, Bool-cases, inl, inr, ◌&&◌, ◌||◌, List, [], ◌∷◌, ◌++◌,
  arith, ltb, leb,
}
use job_hunters_api.Agent.{
  Observation, Call, Message, rules, goal, not_a_tool_call, unreadable, model_failed, prose, page,
  called, replied, not_done_yet, AgentRunResult,
}
use job_hunters_api.Agent.Trim.{may_follow_any, is_reply, IsPaired, IsConversation}
use job_hunters_api.Agent.Loop.{
  World, Run, Outcome, pass, shown, needs_picture, fingerprint, repeats, is_empty_text,
  after_action,
}
use job_hunters_api.Agent.Loop.Rule.{Keeps, pass-Keeps, action-Keeps, at_step, counted_run}
use job_hunters_api.Agent.Loop.Fields.{counted_run-messages}

IsPaired-append :
    (before m : Message) (messages : List Message)
    → is_reply m ≡ false
    → IsPaired before messages
    → IsPaired before (messages ++ m ∷ [])
IsPaired-append before m [] h k = (may_follow_any before m h, tt)
IsPaired-append before m (next ∷ messages) h (a, b) = (a, IsPaired-append next m messages h b)

IsPaired-exchange :
    (before : Message) (call : Call) (content text : String) (ok : Bool) (messages : List Message)
    → IsPaired before messages
    → IsPaired before ((messages ++ called call content ∷ []) ++ replied call.id ok text ∷ [])
IsPaired-exchange before call content text ok [] h = (refl, (ground arith, tt))
IsPaired-exchange before call content text ok (next ∷ messages) (a, b) =
    (a, IsPaired-exchange next call content text ok messages b)

IsConversation-append :
    (m : Message) (messages : List Message)
    → is_reply m ≡ false
    → IsConversation messages
    → IsConversation (messages ++ m ∷ [])
IsConversation-append m (rules ∷ goal ∷ messages) h k = IsPaired-append goal m messages h k
IsConversation-append m _ h k = absurd k

IsConversation-exchange :
    (call : Call) (content text : String) (ok : Bool) (messages : List Message)
    → IsConversation messages
    → IsConversation ((messages ++ called call content ∷ []) ++ replied call.id ok text ∷ [])
IsConversation-exchange call content text ok (rules ∷ goal ∷ messages) k =
    IsPaired-exchange goal call content text ok messages k
IsConversation-exchange call content text ok _ k = absurd k

module _ (decimal : ℕ → String) (error_key : String → String) (recovery : ℕ) (w : World) where
  abbrev pub Converses : ℕ → Run → Type 0
  Converses step r = IsConversation r.messages

  abbrev pub Anything : AgentRunResult → Type 0
  Anything result = Unit

  pub shown-IsConversation :
      (step : ℕ) (o : Observation) (r : Run)
      → IsConversation r.messages
      → IsConversation (shown decimal error_key recovery w step o r).messages
  shown-IsConversation step o r h =
      let with_picture = IsConversation-append (page o (w.screenshot step)) r.messages refl h in
      let without = IsConversation-append (page o false) r.messages refl h in
      elim (Bool-cases (
        r.want_picture
        || needs_picture o
            (str_eq (fingerprint decimal error_key recovery o) r.previous && ltb 0 step))) [
              | inl e ↦ rw e with_picture
              | inr e ↦ rw e without
            ]

  action-IsConversation :
      (step : ℕ) (o : Observation) (r s : Run) (call : Call) (content : String) (outcome : Outcome)
      → IsConversation s.messages
      → Keeps decimal error_key recovery w Converses Anything step
          (after_action decimal error_key recovery call content outcome o s)
  action-IsConversation step o r s call content outcome h =
      let counted = counted_run decimal error_key recovery w call content outcome o s in
      let told : IsConversation counted.messages =
        subst IsConversation
          (sym (counted_run-messages decimal error_key recovery w call content outcome o s))
          (IsConversation-exchange call content outcome.message outcome.ok s.messages h) in
      action-Keeps decimal error_key recovery w Converses Anything step r call content outcome o s
        (λ note. tt) (λ unfinished. told)
        (λ left. IsConversation-append (not_done_yet left) counted.messages refl told)
        (λ report given fine. tt)

  pub pass-IsConversation :
      (step : ℕ) (r : Run)
      → IsConversation r.messages
      → Keeps decimal error_key recovery w Converses Anything step
          (pass decimal error_key recovery w step r)
  pass-IsConversation step r h =
      let read = at_step decimal error_key recovery w step r in
      let same =
        λ (o : Observation) (s : Run) (is : s ≡ shown decimal error_key recovery w step o read).
          subst (λ q. IsConversation q.messages) (sym is) (shown-IsConversation step o read h) in
      pass-Keeps decimal error_key recovery w Converses Anything step r (λ late. tt)
        (λ text.
          elim (Bool-cases (
            leb recovery (
              repeats decimal error_key recovery (error_key text) r.last_observe_error
                r.repeated_observe_errors))) [
                  | inl e ↦ rw e tt
                  | inr e ↦ rw e (IsConversation-append (unreadable _ text) r.messages refl h)
                ])
        (λ o s text is.
          elim (Bool-cases (
            leb recovery (
              repeats decimal error_key recovery (error_key text) s.last_model_error
                s.repeated_model_errors))) [
                  | inl e ↦ rw e tt
                  | inr e ↦
                      rw e
                        (IsConversation-append (model_failed _ text) s.messages refl (same o s is))
                ])
        (λ o s content is. elim (Bool-cases (ltb 0 step && is_empty_text content)) [
          | inl e ↦ rw e tt
          | inr e ↦ rw e (
              IsConversation-append not_a_tool_call (s.messages ++ prose content ∷ []) refl
                (IsConversation-append (prose content) s.messages refl (same o s is)))
        ])
        (λ o s call content is t.
          action-IsConversation step o r _ call content (w.act step o call) (same o s is))
