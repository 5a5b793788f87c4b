-- ===== src/Examples/Agent.antt =====
-- Concrete runs of the agent.
use Prim.Native.String.{String}
use job_hunters_api.Common.{ℕ, zero, suc, ◌≡◌, refl, true, false, none, some, List, [], ◌∷◌}
use job_hunters_api.Agent.{
  Element, Observation, Call, Message, rules, goal, not_a_tool_call, called, replied, AgentReport,
  own, trim,
}
use job_hunters_api.Agent.Loop.{World, Outcome, seen, Thought, service_down, answered, run_agent}
use job_hunters_api.Agent.Trim.{IsConversation}
use job_hunters_api.Agent.Loop.Rule.{Always}
use job_hunters_api.Agent.Loop.Ending.{IsHonest, run_agent-IsHonest}
use job_hunters_api.Agent.Loop.Returns.{with_model, run_agent-same}

abbrev long_talk : List Message
long_talk =
    rules
    ∷ goal
    ∷ called (record { id = 1; name = "click"; ref = some 2 }) ""
    ∷ replied 1 true "OK"
    ∷ called (record { id = 2; name = "fill"; ref = some 3 }) ""
    ∷ replied 2 true "OK"
    ∷ not_a_tool_call
    ∷ []

-- The cut falls on a reply, and takes its call along.
trim_test :
    trim long_talk 2
    ≡ rules
      ∷ goal
      ∷ called (record { id = 2; name = "fill"; ref = some 3 }) ""
      ∷ replied 2 true "OK"
      ∷ not_a_tool_call
      ∷ []
unfolding trim
trim_test = refl

abbrev email : Element
email = record { ref = 1; label = "Email"; value = "" }

abbrev form : Observation
form = record { url = "https://jobs.example/1"; elements = email ∷ [] }

abbrev fill_email : Call
fill_email = record { id = 1; name = "fill"; ref = some 1 }

abbrev say_done : Call
say_done = record { id = 2; name = "done"; ref = none }

abbrev sent_report : AgentReport
sent_report = record {
  reached_form = true;
  submitted = true;
  filled = "Name" ∷ [];
  blocked = [];
  note = own "Sent.";
}

abbrev choose : ℕ → Thought
choose zero = answered (some fill_email) ""
choose (suc n) = answered (some say_done) ""

abbrev perform : ℕ → Outcome
perform zero = record { ok = true; message = "filled"; finished = none }
perform (suc n) = record { ok = true; message = "done"; finished = some sent_report }

abbrev world : World
world = record {
  is_late = λ step. false;
  observe = λ step. seen form;
  screenshot = λ step. true;
  think = λ step messages. choose step;
  act = λ step o call. perform step;
}

abbrev print : ℕ → String
print n = "1"

abbrev same_key : String → String
same_key text = text

run_agent-IsHonest_example :
    Always (IsHonest print same_key 3 world 5) (run_agent print same_key 3 world 5)
run_agent-IsHonest_example = run_agent-IsHonest print same_key 3 world 5

-- A model that fails where it is sent no message at all.
abbrev fragile : ℕ → List Message → Thought
fragile step [] = service_down
fragile step (m ∷ messages) = choose step

fragile-Agrees :
    (step : ℕ) (messages : List Message)
    → IsConversation messages
    → choose step ≡ fragile step messages
fragile-Agrees step [] h = absurd h
fragile-Agrees step (m ∷ messages) h = refl

run_agent-same_example :
    run_agent print same_key 3 world 5
    ≡ run_agent print same_key 3 (with_model print same_key 3 world fragile) 5
run_agent-same_example =
    run_agent-same print same_key 3 world fragile 5
      (λ n messages h few. fragile-Agrees n messages h)
