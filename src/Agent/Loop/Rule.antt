-- ===== src/Agent/Loop/Rule.antt =====
-- A rule for the loop of `runAgent` in src/agent/loop.ts: what every pass keeps, the result has.
use Prim.Native.String.{String}
use text.Mathlib.Text.{◌==◌ as str_eq}
use job_hunters_api.Common.{
  ℕ, zero, suc, ◌+◌, ◌<◌, ◌≡◌, refl, subst, true, false, Bool-cases, inl, inr, Option, none, some,
  arith, not, ◌&&◌, ◌||◌, leb, ltb,
}
use job_hunters_api.Agent.{
  Observation, Call, max_steps, done, error, AgentReport, AgentRunResult, Note, deadline_reached,
  called, replied, not_done_yet, trim,
}
use job_hunters_api.Agent.Loop.{
  World, Run, Turn, continue, break, thrown, Thought, service_down, failed, answered, Observed,
  seen, not_seen, Outcome, with_note, pass, passes, report_of, after_unreadable,
  after_model_failure, after_prose, after_action, after_thought, after_observation, shown,
  counted_error, note_filled, finish_if, push,
}

-- What holds of every result.
abbrev pub Always : (AgentRunResult → Type 0) → Option AgentRunResult → Type 0
Always Q none = Unit
Always Q (some result) = Q result

module _ (decimal : ℕ → String) (error_key : String → String) (recovery : ℕ) (w : World) where
  -- What a pass keeps, and what the result of its end has.
  abbrev pub Keeps : (ℕ → Run → Type 0) → (AgentRunResult → Type 0) → ℕ → Turn → Type 0
  Keeps P Q step (continue s) = P (suc step) s
  Keeps P Q step (break because s) = Q (report_of decimal error_key recovery w because s)
  Keeps P Q step thrown = Unit

  pub turn-Always :
      (P : ℕ → Run → Type 0) (Q : AgentRunResult → Type 0) (left step : ℕ) (t : Turn)
      → ((s : Run)
          → P (suc step) s
          → Always Q (passes decimal error_key recovery w left (suc step) s))
      → Keeps P Q step t
      → Always Q (elim t [
        | continue s ↦ passes decimal error_key recovery w left (suc step) s
        | break because s ↦ some (report_of decimal error_key recovery w because s)
        | thrown ↦ none
      ])
  turn-Always P Q left step (continue s) next k = next s k
  turn-Always P Q left step (break because s) next k = k
  turn-Always P Q left step thrown next k = tt

  pub passes-Always :
      (P : ℕ → Run → Type 0) (Q : AgentRunResult → Type 0) (left step : ℕ) (r : Run)
      → ((n : ℕ) (s : Run)
          → n < left + step
          → P n s
          → Keeps P Q n (pass decimal error_key recovery w n s))
      → ((s : Run) → P (left + step) s → Q (report_of decimal error_key recovery w max_steps s))
      → P step r
      → Always Q (passes decimal error_key recovery w left step r)
  unfolding passes
  passes-Always P Q zero step r keep end h = end r (subst (λ n. P n r) (zero_left step) h)
    where
      zero_left : (n : ℕ) → n ≡ 0 + n
      zero_left n = omega arith
  passes-Always P Q (suc left) step r keep end h =
      turn-Always P Q left step (pass decimal error_key recovery w step r)
        (λ s.
          passes-Always P Q left (suc step) s
            (λ n t below. keep n t (rw (← suc_right left step) below))
            (λ t p. end t (subst (λ n. P n t) (suc_right left step) p)))
        (keep step r (omega arith) h)
    where
      suc_right : (a b : ℕ) → a + suc b ≡ suc a + b
      suc_right a b = omega arith

  abbrev pub at_step : ℕ → Run → Run
  at_step step r = record r { steps = suc step }

  abbrev pub thought_of : Run → Run
  thought_of r = record r { last_model_error = ""; repeated_model_errors = 0 }

  -- What an action leaves before its end is looked at.
  abbrev pub counted_run : Call → String → Outcome → Observation → Run → Run
  counted_run call content outcome o r = counted_error decimal error_key recovery call outcome (
      push (replied call.id outcome.ok outcome.message) (
        push (called call content) (
          note_filled decimal error_key recovery call outcome o
            (record r { want_picture = r.want_picture || str_eq call.name "screenshot" }))))

  -- The ways of a pass, one by one.
  module _ (P : ℕ → Run → Type 0) (Q : AgentRunResult → Type 0) (step : ℕ) (r : Run) where
    thought-Keeps :
        (o : Observation) (t : Thought) (s : Run)
        → ((text : String)
            → t ≡ failed text
            → Keeps P Q step (after_model_failure decimal error_key recovery text s))
        → ((content : String)
            → t ≡ answered none content
            → Keeps P Q step (after_prose decimal error_key recovery step content (thought_of s)))
        → ((call : Call) (content : String)
            → t ≡ answered (some call) content
            → Keeps P Q step (
                after_action decimal error_key recovery call content
                  (w.act step o call)
                  o
                  (thought_of s)))
        → Keeps P Q step (after_thought decimal error_key recovery w step o t s)
    thought-Keeps o service_down s model prose action = tt
    thought-Keeps o (failed text) s model prose action = model text refl
    thought-Keeps o (answered none content) s model prose action = prose content refl
    thought-Keeps o (answered (some call) content) s model prose action = action call content refl

    observed-Keeps :
        (seen_page : Observed)
        → ((text : String)
            → Keeps P Q step (after_unreadable decimal error_key recovery text (at_step step r)))
        → ((o : Observation) (s : Run)
            → s ≡ shown decimal error_key recovery w step o (at_step step r)
            → Keeps P Q step (
                after_thought decimal error_key recovery w step o
                  (w.think step (trim s.messages 14))
                  s))
        → Keeps P Q step
            (after_observation decimal error_key recovery w step seen_page (at_step step r))
    observed-Keeps (not_seen text) unread page = unread text
    observed-Keeps (seen o) unread page =
        page o (shown decimal error_key recovery w step o (at_step step r)) refl

    pub pass-Keeps :
        (w.is_late step ≡ true
          → Q (report_of decimal error_key recovery w max_steps (with_note deadline_reached r)))
        → ((text : String)
            → Keeps P Q step (after_unreadable decimal error_key recovery text (at_step step r)))
        → ((o : Observation) (s : Run) (text : String)
            → s ≡ shown decimal error_key recovery w step o (at_step step r)
            → Keeps P Q step (after_model_failure decimal error_key recovery text s))
        → ((o : Observation) (s : Run) (content : String)
            → s ≡ shown decimal error_key recovery w step o (at_step step r)
            → Keeps P Q step (after_prose decimal error_key recovery step content (thought_of s)))
        → ((o : Observation) (s : Run) (call : Call) (content : String)
            → s ≡ shown decimal error_key recovery w step o (at_step step r)
            → w.think step (trim s.messages 14) ≡ answered (some call) content
            → Keeps P Q step (
                after_action decimal error_key recovery call content
                  (w.act step o call)
                  o
                  (thought_of s)))
        → Keeps P Q step (pass decimal error_key recovery w step r)
    unfolding pass
    pass-Keeps late unread model prose action = elim (Bool-cases (w.is_late step)) [
      | inl e ↦ rw e (late e)
      | inr e ↦ rw e (
          observed-Keeps (w.observe step) unread (λ o s is.
            thought-Keeps o (w.think step (trim s.messages 14)) s (λ text t. model o s text is)
              (λ content t. prose o s content is) (λ call content t. action o s call content is t)))
    ]

    -- The ways of an action, with the run that the counts leave.
    pub action-Keeps :
        (call : Call) (content : String) (outcome : Outcome) (o : Observation) (s : Run)
        → ((note : Note)
            → Q (
                report_of decimal error_key recovery w error
                  (with_note note (counted_run call content outcome o s))))
        → (outcome.finished ≡ none → P (suc step) (counted_run call content outcome o s))
        → ((left : ℕ)
            → P (suc step) (push (not_done_yet left) (counted_run call content outcome o s)))
        → ((report : AgentReport)
            → outcome.finished ≡ some report
            → (ltb 0 s.repeated_tool_errors
                && ltb 0 (counted_run call content outcome o s).repeated_tool_errors)
              ≡ false
            → Q (
                report_of decimal error_key recovery w done
                  (record (counted_run call content outcome o s) { report = report })))
        → Keeps P Q step (after_action decimal error_key recovery call content outcome o s)
    action-Keeps call content outcome o s failed_again unfinished refused finished =
        elim (Bool-cases (
          not outcome.ok
          && leb recovery (counted_run call content outcome o s).repeated_tool_errors)) [
            | inl e ↦ rw e (failed_again _)
            | inr e ↦ rw e (finish outcome.finished refl)
          ]
      where
        finish :
            (f : Option AgentReport)
            → outcome.finished ≡ f
            → Keeps P Q step (
                finish_if decimal error_key recovery f
                  (ltb 0 s.repeated_tool_errors)
                  (counted_run call content outcome o s))
        finish none is = unfinished is
        finish (some report) is =
            elim (Bool-cases (
              ltb 0 s.repeated_tool_errors
              && ltb 0 (counted_run call content outcome o s).repeated_tool_errors)) [
                | inl e ↦ rw e (refused _)
                | inr e ↦ rw e (finished report is e)
              ]
