-- ===== src/Agent/Loop/Fields.antt =====
-- Which variables of `runAgent` in src/agent/loop.ts an observation and an action leave alone.
use Prim.Native.String.{String}
use text.Mathlib.Text.{◌==◌ as str_eq}
use job_hunters_api.Common.{
  ℕ, ◌<◌, ◌≡◌, refl, true, Bool-cases, inl, inr, ◌&&◌, ◌||◌, [], ◌∷◌, ◌++◌, arith, ltb,
}
use job_hunters_api.Agent.{Observation, Call, called, replied}
use job_hunters_api.Agent.Loop.{Run, Outcome, World, shown, note_filled, needs_picture, fingerprint}
use job_hunters_api.Agent.Loop.Rule.{counted_run}

module _ (decimal : ℕ → String) (error_key : String → String) (recovery : ℕ) (w : World) where
  -- A field of a run that the conversation, the page and the pictures are no part of.
  module _ {A : Type 0} (field : Run → A) where
    pub shown-field :
        (step : ℕ) (o : Observation) (r : Run)
        → ((q : Run)
            → q.steps ≡ r.steps
            → q.report ≡ r.report
            → q.observed ≡ r.observed
            → q.repeated_tool_errors ≡ r.repeated_tool_errors
            → field q ≡ field r)
        → field (shown decimal error_key recovery w step o r) ≡ field r
    shown-field step o r same =
        elim (Bool-cases (
          r.want_picture
          || needs_picture o
              (str_eq (fingerprint decimal error_key recovery o) r.previous && ltb 0 step))) [
                | inl e ↦ rw e (same _ refl refl refl refl)
                | inr e ↦ rw e (same _ refl refl refl refl)
              ]

  pub counted_run-steps :
      (call : Call) (content : String) (outcome : Outcome) (o : Observation) (r : Run)
      → (counted_run decimal error_key recovery w call content outcome o r).steps ≡ r.steps
  counted_run-steps call content outcome o r = ground arith

  pub counted_run-report :
      (call : Call) (content : String) (outcome : Outcome) (o : Observation) (r : Run)
      → (counted_run decimal error_key recovery w call content outcome o r).report ≡ r.report
  counted_run-report call content outcome o r = ground arith

  -- Behind a failed action, a failure or a report of the model leaves a failure counted.
  pub counted_run-repeated :
      (call : Call) (content : String) (outcome : Outcome) (o : Observation) (r : Run)
      → str_eq call.name "done" ≡ true
      → 0 < r.repeated_tool_errors
      → 0 < (counted_run decimal error_key recovery w call content outcome o r).repeated_tool_errors
  counted_run-repeated call content outcome o r is h = ground arith

  pub counted_run-observed :
      (call : Call) (content : String) (outcome : Outcome) (o : Observation) (r : Run)
      → (counted_run decimal error_key recovery w call content outcome o r).observed
        ≡ (note_filled decimal error_key recovery call outcome o r).observed
  counted_run-observed call content outcome o r = ground arith

  pub counted_run-messages :
      (call : Call) (content : String) (outcome : Outcome) (o : Observation) (r : Run)
      → (counted_run decimal error_key recovery w call content outcome o r).messages
        ≡ (r.messages ++ called call content ∷ [])
          ++ replied call.id outcome.ok outcome.message ∷ []
  counted_run-messages call content outcome o r = ground arith
