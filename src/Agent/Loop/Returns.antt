-- ===== src/Agent/Loop/Returns.antt =====
-- The model of `runAgent` in src/agent/loop.ts is sent conversations only.
use Prim.Native.String.{String}
use job_hunters_api.Common.{
  ℕ, zero, suc, ◌≤◌, ◌≡◌, refl, ap, ◌∙◌, Bool-cases, inl, inr, none, some, List, length,
}
use job_hunters_api.Agent.{Message, trim}
use job_hunters_api.Agent.Trim.{IsConversation, trim-IsConversation}
use job_hunters_api.Agent.Loop.{
  World, Run, Turn, continue, break, thrown, Thought, Observed, seen, not_seen, started, pass,
  passes, run_agent, report_of, shown, after_thought, after_observation,
}
use job_hunters_api.Agent.Loop.Rule.{Keeps, at_step}
use job_hunters_api.Agent.Loop.Converses.{
  Converses, Anything, shown-IsConversation, pass-IsConversation,
}

module _ (decimal : ℕ → String) (error_key : String → String) (recovery : ℕ) (w : World) where
  -- The same page and tools with another model.
  module _ (other : ℕ → List Message → Thought) where
    abbrev pub with_model : World
    with_model = record w { think = other }

    -- The models agree on the conversations of 17 messages at most.
    abbrev Agrees : Type 0
    Agrees =
        (n : ℕ) (messages : List Message)
        → IsConversation messages
        → length messages ≤ 17
        → w.think n messages ≡ other n messages

    observation-same :
        (step : ℕ) (page : Observed) (r : Run)
        → Agrees
        → IsConversation r.messages
        → after_observation decimal error_key recovery w step page r
          ≡ after_observation decimal error_key recovery with_model step page r
    observation-same step (not_seen text) r agree h = refl
    observation-same step (seen o) r agree h =
        let s = shown decimal error_key recovery w step o r in
        let (talk, few) =
          trim-IsConversation s.messages 14
            (shown-IsConversation decimal error_key recovery w step o r h) in
        ap (λ t. after_thought decimal error_key recovery w step o t s)
          (agree step (trim s.messages 14) talk few)

    pass-same :
        (step : ℕ) (r : Run)
        → Agrees
        → IsConversation r.messages
        → pass decimal error_key recovery w step r
          ≡ pass decimal error_key recovery with_model step r
    unfolding pass
    pass-same step r agree h = elim (Bool-cases (w.is_late step)) [
      | inl e ↦ rw e refl
      | inr e ↦ rw e (
          observation-same step (w.observe step) (at_step decimal error_key recovery w step r) agree
            h)
    ]

    turn-same :
        (left step : ℕ) (t : Turn)
        → ((s : Run)
            → IsConversation s.messages
            → passes decimal error_key recovery w left (suc step) s
              ≡ passes decimal error_key recovery with_model left (suc step) s)
        → Keeps decimal error_key recovery w
            (Converses decimal error_key recovery w)
            (Anything decimal error_key recovery w)
            step
            t
        → elim t [
          | continue s ↦ passes decimal error_key recovery w left (suc step) s
          | break because s ↦ some (report_of decimal error_key recovery w because s)
          | thrown ↦ none
        ]
          ≡ elim t [
            | continue s ↦ passes decimal error_key recovery with_model left (suc step) s
            | break because s ↦ some (report_of decimal error_key recovery with_model because s)
            | thrown ↦ none
          ]
    turn-same left step (continue s) next k = next s k
    turn-same left step (break because s) next k = refl
    turn-same left step thrown next k = refl

    passes-same :
        (left step : ℕ) (r : Run)
        → Agrees
        → IsConversation r.messages
        → passes decimal error_key recovery w left step r
          ≡ passes decimal error_key recovery with_model left step r
    unfolding passes
    passes-same zero step r agree h = refl
    passes-same (suc left) step r agree h =
        turn-same left step (pass decimal error_key recovery w step r)
          (λ s. passes-same left (suc step) s agree)
          (pass-IsConversation decimal error_key recovery w step r h)
        ∙ ap
            (λ t. elim t [
              | continue s ↦ passes decimal error_key recovery with_model left (suc step) s
              | break because s ↦ some (report_of decimal error_key recovery with_model because s)
              | thrown ↦ none
            ])
            (pass-same step r agree h)

    -- A model is sent conversations only, the rules and the goal first and every reply of a tool behind
    -- its call, and of 17 messages at most: whatever it would answer to any other list makes no
    -- difference to the run.
    pub run_agent-same :
        (limit : ℕ)
        → Agrees
        → run_agent decimal error_key recovery w limit
          ≡ run_agent decimal error_key recovery with_model limit
    unfolding run_agent
    run_agent-same limit agree = passes-same limit 0 started agree tt
