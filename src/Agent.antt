-- ===== src/Agent.antt =====
-- src/agent/loop.ts: the agent that fills a form, one observation, one tool call and one action at a
-- time.
--
-- The page, the model and the tools answer through `World`, step by step; the model's answer also
-- depends on the conversation that it is sent. A thrown error of a tool is its refusal. `error_key`
-- is the normalisation by regular expressions, `decimal` prints a number, and `recovery` is
-- `APPLY_RECOVERY_ATTEMPTS`. A text of the conversation is a constructor with what it prints. The
-- timeouts of `withDeadline` are errors that the page, the model or a tool gives.
pub mod Loop
pub mod Trim
pub mod Report
use Prim.Native.String.{String}
use text.Mathlib.Text.{◌==◌ as str_eq}
use job_hunters_api.Common.{
  ℕ, zero, suc, ◌+◌, ◌-◌, ◌==◌, Bool, true, false, not, ◌&&◌, ◌||◌, Option, none, some, List, [],
  ◌∷◌, ◌++◌, any, length, take, drop, get_elem?, ltb, leb, if◌then◌else◌,
}

pub record Element : Type 0 where
  pub ref : ℕ
  pub label : String
  pub value : String

pub record Observation : Type 0 where
  pub url : String
  pub elements : List Element

-- A tool call, with `Number(args.ref)` where it is a number.
pub record Call : Type 0 where
  pub id : ℕ
  pub name : String
  pub ref : Option ℕ

pub data Role : Type 0 where
  system user assistant tool : Role

pub data Message : Type 0 where
  rules goal not_a_tool_call : Message
  unreadable model_failed : (attempt : ℕ) → String → Message
  page : Observation → (picture : Bool) → Message
  prose : String → Message
  called : Call → String → Message
  replied : (call_id : ℕ) → (ok : Bool) → String → Message
  not_done_yet : (attempts_left : ℕ) → Message

abbrev pub role : Message → Role
role rules = system
role (prose content) = assistant
role (called call content) = assistant
role (replied id ok message) = tool
role _ = user

abbrev pub is_tool : Role → Bool
is_tool tool = true
is_tool _ = false

-- The `note` of a report, with what it prints.
pub data Note : Type 0 where
  no_action deadline_reached stopped_answering : Note
  page_unreadable : ℕ → Note
  model_error same_action_failed : ℕ → String → Note
  own : String → Note
  out_of_steps : (steps fields : ℕ) → Note

abbrev is_no_action : Note → Bool
is_no_action no_action = true
is_no_action (own text) = str_eq text "The agent took no action."
is_no_action _ = false

pub record AgentReport : Type 0 where
  pub reached_form : Bool
  pub submitted : Bool
  pub filled : List String
  pub blocked : List String
  pub note : Note

pub data StoppedBecause : Type 0 where
  done max_steps error : StoppedBecause

abbrev pub is_done : StoppedBecause → Bool
is_done done = true
is_done _ = false

abbrev is_max_steps : StoppedBecause → Bool
is_max_steps max_steps = true
is_max_steps _ = false

pub record AgentRunResult : Type 0 where
  pub report : AgentReport
  pub steps : ℕ
  pub stopped_because : StoppedBecause
  pub can_submit : Bool

abbrev pub is_tool_at : Option Message → Bool
is_tool_at none = false
is_tool_at (some m) = is_tool (role m)

-- The walk back of `trim`, while the message at `start` is a tool's; at 2 it stops.
pub walk_back : List Message → ℕ → ℕ
walk_back messages zero = zero
walk_back messages (suc start) =
    let before = walk_back messages start in
    if ltb 2 (suc start) && is_tool_at (get_elem? messages (suc start)) then before else suc start

unfoldable pub trim : List Message → ℕ → List Message
unfolding walk_back
trim messages keep =
    if leb (length messages) (keep + 2)
    then messages
    else take 2 messages ++ drop (walk_back messages (length messages - keep)) messages

-- `list.includes(text)`.
abbrev pub includes_text : String → List String → Bool
includes_text text texts = any (λ other. str_eq other text) texts

-- The loop that adds what was observed and not reported.
pub add_observed : List String → List String → List String
add_observed filled [] = filled
add_observed filled (label ∷ observed) =
    add_observed (if includes_text label filled then filled else filled ++ label ∷ []) observed

abbrev final_note : AgentReport → List String → ℕ → StoppedBecause → Note
final_note report observed steps stopped_because =
    if is_max_steps stopped_because && is_no_action report.note
    then out_of_steps steps (length observed)
    else report.note

unfoldable pub finalize_agent_report :
    AgentReport → List String → ℕ → StoppedBecause → AgentRunResult
unfolding add_observed
finalize_agent_report report observed steps stopped_because =
    let reached_form = report.reached_form || ltb 0 (length observed) in
    record {
      report = record report {
        reached_form = reached_form;
        note = final_note report observed steps stopped_because;
        filled = add_observed report.filled observed;
      };
      steps = steps;
      stopped_because = stopped_because;
      can_submit = is_done stopped_because && reached_form;
    }
