-- ===== src/Agent/Loop.antt =====
-- The loop of `runAgent` in src/agent/loop.ts, without the callback `onStep` and the reload of a page
-- that could not be read.
pub mod Rule
pub mod Fields
pub mod Ending
pub mod Filled
pub mod Converses
pub mod Returns
use Prim.Native.String.{String}
use Prim.Native.String
use text.Mathlib.Text.{◌==◌ as str_eq}
use job_hunters_api.Common.{
  ℕ, zero, suc, ◌+◌, ◌-◌, ◌==◌, Bool, true, false, not, ◌&&◌, ◌||◌, Option, none, some, List, [],
  ◌∷◌, ◌++◌, any, find, length, ltb, leb, if◌then◌else◌,
}
use job_hunters_api.Agent.{
  Element, Observation, Call, Message, rules, goal, not_a_tool_call, unreadable, model_failed, page,
  prose, called, replied, not_done_yet, Note, no_action, deadline_reached, stopped_answering,
  page_unreadable, model_error, same_action_failed, AgentReport, StoppedBecause, done, max_steps,
  error, AgentRunResult, trim, includes_text, finalize_agent_report,
}

pub data Observed : Type 0 where
  seen : Observation → Observed
  not_seen : (error : String) → Observed

pub data Thought : Type 0 where
  service_down : Thought
  failed : (error : String) → Thought
  answered : Option Call → (content : String) → Thought

pub record Outcome : Type 0 where
  pub ok : Bool
  pub message : String
  pub finished : Option AgentReport

pub record World : Type 0 where
  pub is_late : ℕ → Bool  -- `Date.now() >= deadlineAt`
  pub observe : ℕ → Observed
  pub screenshot : ℕ → Bool
  pub think : ℕ → List Message → Thought
  pub act : ℕ → Observation → Call → Outcome

-- The variables of the loop.
pub record Run : Type 0 where
  pub messages : List Message
  pub report : AgentReport
  pub observed : List String
  pub want_picture : Bool
  pub previous : String
  pub steps : ℕ
  pub last_tool_error : String
  pub repeated_tool_errors : ℕ
  pub last_observe_error : String
  pub repeated_observe_errors : ℕ
  pub last_model_error : String
  pub repeated_model_errors : ℕ

abbrev no_report : AgentReport
no_report = record {
  reached_form = false;
  submitted = false;
  filled = [];
  blocked = [];
  note = no_action;
}

abbrev pub started : Run
started = record {
  messages = rules ∷ goal ∷ [];
  report = no_report;
  observed = [];
  want_picture = false;
  previous = "";
  steps = 0;
  last_tool_error = "";
  repeated_tool_errors = 0;
  last_observe_error = "";
  repeated_observe_errors = 0;
  last_model_error = "";
  repeated_model_errors = 0;
}

abbrev pub push : Message → Run → Run
push m r = record r { messages = r.messages ++ m ∷ [] }

abbrev pub with_note : Note → Run → Run
with_note note r = record r { report = record (r.report) { note = note } }

-- How a pass of the loop ends: `continue` and falling through, `break`, or a thrown error.
pub data Turn : Type 0 where
  continue : Run → Turn
  break : StoppedBecause → Run → Turn
  thrown : Turn

abbrev pub is_empty_text : String → Bool
is_empty_text text = str_eq text ""

-- `needsPicture`.
abbrev pub needs_picture : Observation → Bool → Bool
needs_picture o changed_nothing = (length o.elements == 0) || changed_nothing

abbrev pub is_filling : String → Bool
is_filling name = includes_text name ("fill" ∷ "select" ∷ "upload" ∷ [])

abbrev pub label_of : Option ℕ → List Element → Option String
label_of none elements = none
label_of (some ref) [] = none
label_of (some ref) (e ∷ elements) =
    if e.ref == ref then some e.label else label_of (some ref) elements

abbrev pub observe_label : Option String → List String → List String
observe_label none observed = observed
observe_label (some label) observed =
    if includes_text label observed then observed else observed ++ label ∷ []

module _ (decimal : ℕ → String) (error_key : String → String) (recovery : ℕ) where
  abbrev element_text : Element → String
  element_text e = String.◌++◌ (decimal e.ref) (String.◌++◌ e.label e.value)

  abbrev fingerprint_of : List Element → String
  fingerprint_of [] = ""
  fingerprint_of (e ∷ []) = element_text e
  fingerprint_of (e ∷ f ∷ elements) =
      String.◌++◌ (element_text e) (String.◌++◌ "," (fingerprint_of (f ∷ elements)))

  abbrev pub fingerprint : Observation → String
  fingerprint o = String.◌++◌ o.url (String.◌++◌ "|" (fingerprint_of o.elements))

  -- `key === last ? repeated + 1 : 1`.
  abbrev pub repeats : String → String → ℕ → ℕ
  repeats key last repeated = if str_eq key last then repeated + 1 else 1

  -- The page could not be read; it is reloaded.
  abbrev pub after_unreadable : String → Run → Turn
  after_unreadable text r =
      let key = error_key text in
      let n = repeats key r.last_observe_error r.repeated_observe_errors in
      let counted = record r { last_observe_error = key; repeated_observe_errors = n } in
      if leb recovery n
      then break error (with_note (page_unreadable n) counted)
      else continue (push (unreadable n text) counted)

  abbrev pub after_model_failure : String → Run → Turn
  after_model_failure text r =
      let key = error_key text in
      let n = repeats key r.last_model_error r.repeated_model_errors in
      let counted = record r { last_model_error = key; repeated_model_errors = n } in
      if leb recovery n
      then break error (with_note (model_error n text) counted)
      else continue (push (model_failed n text) counted)

  abbrev pub after_prose : ℕ → String → Run → Turn
  after_prose step content r =
      let told = push not_a_tool_call (push (prose content) r) in
      if ltb 0 step && is_empty_text content
      then break error (with_note stopped_answering told)
      else continue told

  -- A refusal counts, a success of anything but `done` clears the count.
  abbrev pub counted_error : Call → Outcome → Run → Run
  counted_error call outcome r =
      if not outcome.ok
      then record r {
        last_tool_error = error_key outcome.message;
        repeated_tool_errors =
            repeats (error_key outcome.message) r.last_tool_error r.repeated_tool_errors;
      }
      else if not (str_eq call.name "done")
      then record r { last_tool_error = ""; repeated_tool_errors = 0 }
      else r

  abbrev pub finish_if : Option AgentReport → Bool → Run → Turn
  finish_if none had_error r = continue r
  finish_if (some report) had_error r =
      if had_error && ltb 0 r.repeated_tool_errors
      then continue (push (not_done_yet (recovery - r.repeated_tool_errors)) r)
      else break done (record r { report = report })

  abbrev pub note_filled : Call → Outcome → Observation → Run → Run
  note_filled call outcome o r =
      if outcome.ok && is_filling call.name
      then record r { observed = observe_label (label_of call.ref o.elements) r.observed }
      else r

  abbrev pub after_action : Call → String → Outcome → Observation → Run → Turn
  after_action call content outcome o r =
      let pictured = record r { want_picture = r.want_picture || str_eq call.name "screenshot" } in
      let noted = note_filled call outcome o pictured in
      let told =
        push (replied call.id outcome.ok outcome.message) (push (called call content) noted) in
      let counted = counted_error call outcome told in
      if not outcome.ok && leb recovery counted.repeated_tool_errors
      then break error
          (with_note (same_action_failed counted.repeated_tool_errors outcome.message) counted)
      else finish_if outcome.finished (ltb 0 r.repeated_tool_errors) counted

  module _ (w : World) where
    abbrev pub after_thought : ℕ → Observation → Thought → Run → Turn
    after_thought step o service_down r = thrown
    after_thought step o (failed text) r = after_model_failure text r
    after_thought step o (answered none content) r =
        after_prose step content (record r { last_model_error = ""; repeated_model_errors = 0 })
    after_thought step o (answered (some call) content) r =
        after_action call content (w.act step o call) o
          (record r { last_model_error = ""; repeated_model_errors = 0 })

    -- What the model is shown of the page.
    abbrev pub shown : ℕ → Observation → Run → Run
    shown step o r =
        let unchanged = str_eq (fingerprint o) r.previous in
        let read = record r {
          last_observe_error = "";
          repeated_observe_errors = 0;
          previous = fingerprint o;
        } in
        if r.want_picture || needs_picture o (unchanged && ltb 0 step)
        then push (page o (w.screenshot step)) (record read { want_picture = false })
        else push (page o false) read

    abbrev pub after_observation : ℕ → Observed → Run → Turn
    after_observation step (not_seen text) r = after_unreadable text r
    after_observation step (seen o) r =
        let s = shown step o r in after_thought step o (w.think step (trim s.messages 14)) s

    pub pass : ℕ → Run → Turn
    pass step r =
        if w.is_late step
        then break max_steps (with_note deadline_reached r)
        else after_observation step (w.observe step) (record r { steps = suc step })

    abbrev pub report_of : StoppedBecause → Run → AgentRunResult
    report_of because r = finalize_agent_report r.report r.observed r.steps because

    -- The passes that are left, from `step` on. `none` is the error of the model's service.
    pub passes : (left step : ℕ) → Run → Option AgentRunResult
    passes zero step r = some (report_of max_steps r)
    passes (suc left) step r = elim (pass step r) [
      | continue s ↦ passes left (suc step) s
      | break because s ↦ some (report_of because s)
      | thrown ↦ none
    ]

    unfoldable pub run_agent : (max_steps : ℕ) → Option AgentRunResult
    unfolding passes pass
    run_agent limit = passes limit 0 started
