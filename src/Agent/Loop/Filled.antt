-- ===== src/Agent/Loop/Filled.antt =====
-- The fields that `runAgent` of src/agent/loop.ts saw filled stay in its result.
use Prim.Native.String.{String}
use text.Mathlib.TextEquality.{eq_iff}
use job_hunters_api.Common.{
  ℕ, suc, ◌≡◌, refl, ap, ◌∙◌, true, false, Bool-cases, inl, inr, ◌&&◌, Option, none, some, List, [],
  ◌∷◌, length, arith, ltb,
}
use job_hunters_api.Agent.{
  Observation, Call, StoppedBecause, max_steps, error, done, AgentRunResult, trim, includes_text,
  finalize_agent_report, deadline_reached,
}
use job_hunters_api.Agent.Report.{includes_text-append, includes_text-add_observed}
use job_hunters_api.Agent.Loop.{
  World, Run, Outcome, seen, answered, pass, passes, report_of, shown, is_filling, label_of,
  observe_label, note_filled, after_action, with_note,
}
use job_hunters_api.Agent.Loop.Rule.{
  Always, Keeps, turn-Always, passes-Always, pass-Keeps, action-Keeps, thought_of, at_step,
  counted_run,
}
use job_hunters_api.Agent.Loop.Fields.{shown-field, counted_run-observed}

has_length :
    (text : String) (texts : List String)
    → includes_text text texts ≡ true
    → ltb 0 (length texts) ≡ true
has_length text [] h = absurd (ground arith)
has_length text (x ∷ texts) h = ground arith

observe_label-keeps :
    (label : String) (found : Option String) (observed : List String)
    → includes_text label observed ≡ true
    → includes_text label (observe_label found observed) ≡ true
observe_label-keeps label none observed h = h
observe_label-keeps label (some other) observed h =
    let appended = includes_text-append label observed (other ∷ []) in ground arith

observe_label-adds :
    (label : String) (observed : List String)
    → includes_text label (observe_label (some label) observed) ≡ true
observe_label-adds label observed =
    let appended = includes_text-append label observed (label ∷ []) in
    let same = (eq_iff label label).1 refl in ground arith

module _ (decimal : ℕ → String) (error_key : String → String) (recovery : ℕ) (w : World)
    (label : String) where
  abbrev Observes : ℕ → Run → Type 0
  Observes step r = includes_text label r.observed ≡ true

  -- The result names the field, and says that a form was reached.
  abbrev IsKept : AgentRunResult → Type 0
  IsKept result =
      (includes_text label result.report.filled ≡ true) × (result.report.reached_form ≡ true)

  report_of-IsKept :
      (because : StoppedBecause) (r : Run)
      → includes_text label r.observed ≡ true
      → IsKept (report_of decimal error_key recovery w because r)
  unfolding finalize_agent_report
  report_of-IsKept because r h =
      let all = includes_text-add_observed label r.report.filled r.observed in
      let some_field = has_length label r.observed h in (ground arith, ground arith)

  note_filled-keeps :
      (call : Call) (outcome : Outcome) (o : Observation) (r : Run)
      → includes_text label r.observed ≡ true
      → includes_text label (note_filled decimal error_key recovery call outcome o r).observed
        ≡ true
  note_filled-keeps call outcome o r h = elim (Bool-cases (outcome.ok && is_filling call.name)) [
    | inl e ↦ rw e (observe_label-keeps label (label_of call.ref o.elements) r.observed h)
    | inr e ↦ rw e h
  ]

  action-IsKept :
      (step : ℕ) (r s : Run) (call : Call) (content : String) (o : Observation)
      → includes_text label
          (note_filled decimal error_key recovery call (w.act step o call) o s).observed
        ≡ true
      → Keeps decimal error_key recovery w Observes IsKept step
          (after_action decimal error_key recovery call content (w.act step o call) o s)
  action-IsKept step r s call content o h =
      let outcome = w.act step o call in
      let counted = counted_run decimal error_key recovery w call content outcome o s in
      let kept =
        ap (includes_text label)
          (counted_run-observed decimal error_key recovery w call content outcome o s)
        ∙ h in
      action-Keeps decimal error_key recovery w Observes IsKept step r call content outcome o s
        (λ note. report_of-IsKept error (with_note note counted) kept) (λ unfinished. kept)
        (λ left. kept)
        (λ report given fine. report_of-IsKept done (record counted { report = report }) kept)

  pass-IsKept :
      (step : ℕ) (r : Run)
      → Observes step r
      → Keeps decimal error_key recovery w Observes IsKept step
          (pass decimal error_key recovery w step r)
  unfolding finalize_agent_report
  pass-IsKept step r h =
      let read = at_step decimal error_key recovery w step r in
      let same =
        λ (o : Observation) (s : Run) (is : s ≡ shown decimal error_key recovery w step o read).
          ap (λ q. includes_text label q.observed) is
          ∙ shown-field decimal error_key recovery w (λ q. includes_text label q.observed) step o
              read (λ q a b c d. ap (includes_text label) c)
          ∙ h in
      pass-Keeps decimal error_key recovery w Observes IsKept step r
        (λ late. report_of-IsKept max_steps (with_note deadline_reached r) h)
        (λ text. let (a, b) = report_of-IsKept max_steps r h in ground arith)
        (λ o s text is.
          let kept = same o s is in let (a, b) = report_of-IsKept max_steps s kept in ground arith)
        (λ o s content is.
          let kept = same o s is in let (a, b) = report_of-IsKept max_steps s kept in ground arith)
        (λ o s call content is t. action-IsKept step r _ call content o (
          note_filled-keeps call (w.act step o call) o (thought_of decimal error_key recovery w s)
            (same o s is)))

  filling-IsKept :
      (step : ℕ) (r : Run) (o : Observation) (call : Call) (content : String)
      → w.is_late step ≡ false
      → w.observe step ≡ seen o
      → w.think step (
          trim
            (shown decimal error_key recovery w step o
              (at_step decimal error_key recovery w step r)).messages
            14)
        ≡ answered (some call) content
      → (w.act step o call).ok ≡ true
      → is_filling call.name ≡ true
      → label_of call.ref o.elements ≡ some label
      → Keeps decimal error_key recovery w Observes IsKept step
          (pass decimal error_key recovery w step r)
  unfolding pass
  filling-IsKept step r o call content early page thought ok filling named =
      let s =
        shown decimal error_key recovery w step o (at_step decimal error_key recovery w step r) in
      rw (early, page, thought)
        (action-IsKept step r (thought_of decimal error_key recovery w s) call content o
          (rw (ok, filling, named) (observe_label-adds label s.observed)))

  -- When a `fill`, `select` or `upload` of an element with this label succeeds in a step that has not
  -- reached the deadline, whatever the run does from there and however it ends, its result lists the
  -- label among the filled fields and says that a form was reached.
  passes-IsKept :
      (left step : ℕ) (r : Run) (o : Observation) (call : Call) (content : String)
      → w.is_late step ≡ false
      → w.observe step ≡ seen o
      → w.think step (
          trim
            (shown decimal error_key recovery w step o
              (at_step decimal error_key recovery w step r)).messages
            14)
        ≡ answered (some call) content
      → (w.act step o call).ok ≡ true
      → is_filling call.name ≡ true
      → label_of call.ref o.elements ≡ some label
      → Always IsKept (passes decimal error_key recovery w (suc left) step r)
  unfolding passes
  passes-IsKept left step r o call content early page thought ok filling named =
      turn-Always decimal error_key recovery w Observes IsKept left step
        (pass decimal error_key recovery w step r)
        (λ t.
          passes-Always decimal error_key recovery w Observes IsKept left (suc step) t
            (λ n q below. pass-IsKept n q) (λ q. report_of-IsKept max_steps q))
        (filling-IsKept step r o call content early page thought ok filling named)
