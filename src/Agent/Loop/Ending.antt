-- ===== src/Agent/Loop/Ending.antt =====
-- How `runAgent` of src/agent/loop.ts ends: within its steps, with a submission that a tool reported,
-- and not done behind a failed action.
use Prim.Native.String.{String}
use text.Mathlib.Text.{◌==◌ as str_eq}
use job_hunters_api.Common.{
  ℕ, suc, ◌≤◌, ◌<◌, ◌≡◌, refl, ap, ◌∙◌, inl, inr, Bool, true, false, ◌&&◌, ◌||◌, ◌⊎◌, some, List,
  arith, ltb,
}
use job_hunters_api.Agent.{
  Observation, Call, Message, is_done, AgentReport, AgentRunResult, finalize_agent_report,
}
use job_hunters_api.Agent.Loop.{
  World, Run, answered, started, pass, passes, run_agent, shown, after_action,
}
use job_hunters_api.Agent.Loop.Rule.{
  Always, Keeps, passes-Always, pass-Keeps, action-Keeps, thought_of, at_step, counted_run,
}
use job_hunters_api.Agent.Loop.Fields.{
  shown-field, counted_run-steps, counted_run-report, counted_run-repeated,
}

no_claim : (sent : Bool) → sent ≡ false → (sent || false) ≡ false
no_claim sent unsent = ground arith

both_counted {ℓ} : {A : Type ℓ} (m n : ℕ) → 0 < m → 0 < n → (ltb 0 m && ltb 0 n) ≡ false → A
both_counted m n a b fine = absurd (ground arith)

module _ (decimal : ℕ → String) (error_key : String → String) (recovery : ℕ) (w : World) where
  -- The report says that it is the agent's own and submitted nothing, and the steps that were counted
  -- are at most the passes that were made.
  abbrev IsOpen : ℕ → Run → Type 0
  IsOpen step r = (r.steps ≤ step) × (r.report.submitted ≡ false)

  -- A report that a tool gave in this run.
  abbrev IsGiven : ℕ → AgentReport → Type 0
  IsGiven limit report =
      (step : ℕ) × ((o : Observation) × ((call : Call) × ((step < limit)
            × ((w.act step o call).finished ≡ some report))))

  -- What a result may claim.
  abbrev pub IsHonest : ℕ → AgentRunResult → Type 0
  IsHonest limit result =
      (result.steps ≤ limit)
      × (((result.report.submitted || result.can_submit) ≡ false)
          ⊎ ((is_done result.stopped_because ≡ true)
              × ((report : AgentReport) × (IsGiven limit report
                    × (result.report.submitted ≡ report.submitted)))))

  shown-IsOpen :
      (step : ℕ) (o : Observation) (r s : Run)
      → s ≡ shown decimal error_key recovery w step o (at_step decimal error_key recovery w step r)
      → r.report.submitted ≡ false
      → IsOpen (suc step) s
  shown-IsOpen step o r s is unsent =
      let read = at_step decimal error_key recovery w step r in
      let steps : s.steps ≡ suc step =
        ap (λ q. q.steps) is
        ∙ shown-field decimal error_key recovery w (λ q. q.steps) step o read (λ q a b c d. a) in
      let told : s.report.submitted ≡ false =
        ap (λ q. q.report.submitted) is
        ∙ shown-field decimal error_key recovery w (λ q. q.report.submitted) step o read
            (λ q a b c d. ap (λ report. report.submitted) b)
        ∙ unsent in
      (omega arith, told)

  action-IsHonest :
      (limit step : ℕ) (o : Observation) (s : Run) (call : Call) (content : String)
      → step < limit
      → IsOpen (suc step) s
      → Keeps decimal error_key recovery w IsOpen
          (IsHonest limit)
          step
          (after_action decimal error_key recovery call content (w.act step o call) o s)
  unfolding finalize_agent_report
  action-IsHonest limit step o s call content below (few, unsent) =
      let outcome = w.act step o call in
      let steps = counted_run-steps decimal error_key recovery w call content outcome o s in
      let told = counted_run-report decimal error_key recovery w call content outcome o s in
      let counted = counted_run decimal error_key recovery w call content outcome o s in
      let kept : counted.report.submitted ≡ false = ap (λ report. report.submitted) told ∙ unsent in
      action-Keeps decimal error_key recovery w IsOpen (IsHonest limit) step s call content outcome
        o s (λ note. (rw steps (omega arith), inl (no_claim counted.report.submitted kept)))
        (λ unfinished. (rw steps few, kept)) (λ left. (rw steps few, kept))
        (λ report is fine.
          (rw steps (omega arith), inr (refl, (report, ((step, (o, (call, (below, is)))), refl)))))

  pass-IsHonest :
      (limit step : ℕ) (r : Run)
      → step < limit
      → IsOpen step r
      → Keeps decimal error_key recovery w IsOpen
          (IsHonest limit)
          step
          (pass decimal error_key recovery w step r)
  unfolding finalize_agent_report
  pass-IsHonest limit step r below (few, unsent) =
      pass-Keeps decimal error_key recovery w IsOpen (IsHonest limit) step r
        (λ late. (omega arith, inl (ground arith))) (λ text. ground arith)
        (λ o s text is. let (a, b) = shown-IsOpen step o r s is unsent in ground arith)
        (λ o s content is. let (a, b) = shown-IsOpen step o r s is unsent in ground arith)
        (λ o s call content is t.
          action-IsHonest limit step o _ call content below (shown-IsOpen step o r s is unsent))

  -- Whatever the page, the model and the tools do, the result counts `max_steps` steps at most, and a
  -- result that reports a submission or allows one was stopped by `done`, with a report that a tool
  -- gave in one of the steps and that says the same of the submission.
  pub run_agent-IsHonest :
      (limit : ℕ) → Always (IsHonest limit) (run_agent decimal error_key recovery w limit)
  unfolding run_agent finalize_agent_report
  run_agent-IsHonest limit =
      passes-Always decimal error_key recovery w IsOpen (IsHonest limit) limit 0 started
        (λ n s below h. pass-IsHonest limit n s (omega arith) h)
        (λ s h. let (a, b) = h in ground arith) (omega arith, refl)

  -- A failed action is counted.
  abbrev HasFailure : ℕ → Run → Type 0
  HasFailure step r = 0 < r.repeated_tool_errors

  abbrev IsNotDone : AgentRunResult → Type 0
  IsNotDone result = is_done result.stopped_because ≡ false

  pass-HasFailure :
      (step : ℕ) (r : Run)
      → ((n : ℕ) (messages : List Message) (call : Call) (content : String)
          → w.think n messages ≡ answered (some call) content
          → str_eq call.name "done" ≡ true)
      → HasFailure step r
      → Keeps decimal error_key recovery w HasFailure IsNotDone step
          (pass decimal error_key recovery w step r)
  unfolding finalize_agent_report
  pass-HasFailure step r only h =
      let read = at_step decimal error_key recovery w step r in
      let same =
        λ (o : Observation) (s : Run) (is : s ≡ shown decimal error_key recovery w step o read).
          ap (λ q. q.repeated_tool_errors) is
          ∙ shown-field decimal error_key recovery w (λ q. q.repeated_tool_errors) step o read
              (λ q a b c d. d) in
      pass-Keeps decimal error_key recovery w HasFailure IsNotDone step r (λ late. refl)
        (λ text. ground arith) (λ o s text is. let e = same o s is in ground arith)
        (λ o s content is. let e = same o s is in ground arith)
        (λ o s call content is t.
          let failed =
            counted_run-repeated decimal error_key recovery w call content (w.act step o call) o
              (thought_of decimal error_key recovery w s) (only step _ call content t)
              (rw (same o s is) h) in
          action-Keeps decimal error_key recovery w HasFailure IsNotDone step s call content
            (w.act step o call) o _ (λ note. refl) (λ unfinished. failed) (λ left. failed)
            (λ report given fine. both_counted _ _ (rw (same o s is) h) failed fine))

  -- From a pass on that finds a failed action counted, a model whose every tool call is `done` never ends
  -- the run by it: the result is not `done` and allows no submission, whatever the tools answer.
  passes-IsNotDone :
      (left step : ℕ) (r : Run)
      → ((n : ℕ) (messages : List Message) (call : Call) (content : String)
          → w.think n messages ≡ answered (some call) content
          → str_eq call.name "done" ≡ true)
      → 0 < r.repeated_tool_errors
      → Always IsNotDone (passes decimal error_key recovery w left step r)
  unfolding finalize_agent_report
  passes-IsNotDone left step r only h =
      passes-Always decimal error_key recovery w HasFailure IsNotDone left step r
        (λ n s below k. pass-HasFailure n s only k) (λ s k. refl) h
