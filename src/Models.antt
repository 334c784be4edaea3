-- ===== src/Models.antt =====
-- src/multi_bot_agentic/models.py: the data that the runtime's parts exchange.
use Prim.Native.String.{◌++◌}
use multi_bot_agentic.Prelude.{
  ℕ, String, Bool, Option, none, some, List, [], ◌∷◌, map, ◌==◌, string_eq, if◌then◌else◌,
}
use multi_bot_agentic.Json.{Json, Payload, str, arr, obj, null, items_of, fields_of}

pub data RunState : Type 0 where
  created observing deciding acting succeeded failed cancelled : RunState

-- `state.value`
unfoldable pub state_value : RunState → String
state_value created = "created"
state_value observing = "observing"
state_value deciding = "deciding"
state_value acting = "acting"
state_value succeeded = "succeeded"
state_value failed = "failed"
state_value cancelled = "cancelled"

-- `RunState(text)`: the member with that value, or none where Python raises a `ValueError`.
unfoldable pub state_of_value : String → Option RunState
state_of_value s =
    if s == "created"
    then some created
    else if s == "observing"
    then some observing
    else if s == "deciding"
    then some deciding
    else if s == "acting"
    then some acting
    else if s == "succeeded"
    then some succeeded
    else if s == "failed"
    then some failed
    else if s == "cancelled"
    then some cancelled
    else none

pub data EventType : Type 0 where
  run_created state_transition observation decision action_requested action_result : EventType
  run_completed run_failed run_cancelled checkpoint : EventType

unfoldable pub event_value : EventType → String
event_value run_created = "run_created"
event_value state_transition = "state_transition"
event_value observation = "observation"
event_value decision = "decision"
event_value action_requested = "action_requested"
event_value action_result = "action_result"
event_value run_completed = "run_completed"
event_value run_failed = "run_failed"
event_value run_cancelled = "run_cancelled"
event_value checkpoint = "checkpoint"

pub record Observation : Type 0 where
  pub source : String
  pub content : String
  pub metadata : Payload
  pub observation_id : String

unfoldable pub observation_to_dict : Observation → Payload
observation_to_dict o =
    ("observation_id", str o.observation_id)
    ∷ ("source", str o.source)
    ∷ ("content", str o.content)
    ∷ ("metadata", obj (fields_of o.metadata))
    ∷ []

pub record RationaleTrace : Type 0 where
  pub rule_id : String
  pub observations_used : List String
  pub rejected_actions : List String
  pub explanation : String

unfoldable pub rationale_to_dict : RationaleTrace → Payload
rationale_to_dict r =
    ("rule_id", str r.rule_id)
    ∷ ("observations_used", arr (items_of (map str r.observations_used)))
    ∷ ("rejected_actions", arr (items_of (map str r.rejected_actions)))
    ∷ ("explanation", str r.explanation)
    ∷ []

pub data DecisionAction : Type 0 where
  call_llm call_tool handoff finish fail cancel : DecisionAction

unfoldable pub action_value : DecisionAction → String
action_value call_llm = "call_llm"
action_value call_tool = "call_tool"
action_value handoff = "handoff"
action_value finish = "finish"
action_value fail = "fail"
action_value cancel = "cancel"

pub record Decision : Type 0 where
  pub action : DecisionAction
  pub target : Option String
  pub payload : Payload
  pub rationale : RationaleTrace

-- An optional text as a JSON value.
abbrev pub opt_str : Option String → Json
opt_str none = null
opt_str (some s) = str s

unfoldable pub decision_to_dict : Decision → Payload
unfolding rationale_to_dict action_value
decision_to_dict d =
    ("action", str (action_value d.action))
    ∷ ("target", opt_str d.target)
    ∷ ("payload", obj (fields_of d.payload))
    ∷ ("rationale", obj (fields_of (rationale_to_dict d.rationale)))
    ∷ []

pub record ToolSpec : Type 0 where
  pub name : String
  pub description : String
  pub input_schema : Payload

pub record ModelRequest : Type 0 where
  pub goal : String
  pub observations : List Observation
  pub max_output_chars : ℕ
  pub tools : List ToolSpec

pub record ModelOutput : Type 0 where
  pub provider : String
  pub text : String
  pub raw : Payload

-- The identifier is the one that `uuid4` draws for the new observation.
unfoldable pub output_to_observation : ModelOutput → String → Observation
output_to_observation out uuid = record {
  source = "llm:" ++ out.provider;
  content = out.text;
  metadata = out.raw;
  observation_id = uuid;
}

pub record ToolInvocation : Type 0 where
  pub tool_name : String
  pub arguments : Payload

pub record ToolResult : Type 0 where
  pub tool_name : String
  pub success : Bool
  pub content : String
  pub metadata : Payload

unfoldable pub result_to_observation : ToolResult → String → Observation
result_to_observation r uuid = record {
  source = "tool:" ++ r.tool_name;
  content = r.content;
  metadata = r.metadata;
  observation_id = uuid;
}
