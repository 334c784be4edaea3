-- ===== src/Decision.antt =====
-- src/multi_bot_agentic/decision.py: the rules that pick the next action. The model's text is one
-- observation among others; only these rules turn it into an action.
mod Requests
pub mod Rules
pub mod Directive
pub mod Tests
pub use Requests.*
unfoldable pub use Requests.{parse_request, latest_by_prefix}
use Prim.Native.String.{◌++◌}
use multi_bot_agentic.Prelude.{
  ℕ, ◌+◌, String, Bool, Option, none, some, List, [], ◌∷◌, map, last?, contains, leb, string_eq,
  if◌then◌else◌,
}
use multi_bot_agentic.Prelude.Dict.{Dict, has_key}
use multi_bot_agentic.Prelude.Text.{strip, starts_with, remove_prefix}
use multi_bot_agentic.Exn.{Result, ok, err, other_error}
use multi_bot_agentic.Json.{str}
use multi_bot_agentic.Models.{
  Observation, Decision, DecisionAction, RationaleTrace, call_llm, call_tool, handoff, finish, fail,
  cancel,
}
use multi_bot_agentic.Bots.{BotSpec}
use multi_bot_agentic.Safety.{SafetyPolicy}

-- One decision with its payload of a single text and its rationale.
abbrev pub decided :
    DecisionAction
    → Option String
    → String
    → String
    → String
    → List String
    → List String
    → String
    → Decision
decided action target key value rule used rejected explanation = record {
  action = action;
  target = target;
  payload = (key, str value) ∷ [];
  rationale = record {
    rule_id = rule;
    observations_used = used;
    rejected_actions = rejected;
    explanation = explanation;
  };
}

pub record Engine : Type 0 where
  pub provider_name : String
  pub bots : Dict String BotSpec

unfoldable pub cancel_decision : Decision
cancel_decision =
    decided cancel none "reason" "cancellation file exists" "safety.cancel-file" []
      ("call_llm" ∷ "call_tool" ∷ "finish" ∷ []) "Cancellation file exists before the next action."

-- `content.removeprefix("DONE:").strip()`
unfoldable pub answer_of : Observation → String
unfolding strip remove_prefix
answer_of o = strip (remove_prefix o.content "DONE:")

unfoldable pub budget_decision : Observation → Decision
unfolding answer_of
budget_decision o =
    decided finish none "answer" (answer_of o) "model.done-or-budget" (o.observation_id ∷ [])
      ("call_llm" ∷ "call_tool" ∷ [])
      "The step budget is exhausted, so the run finishes with the latest observation."

-- A decision to ask the provider again.
abbrev pub ask : Engine → String → String → List String → List String → String → Decision
ask g reason rule used rejected explanation =
    decided call_llm (some g.provider_name) "reason" reason rule used rejected explanation

-- The latest model output starts with `TOOL:`.
unfoldable pub decide_tool : Engine → SafetyPolicy → Observation → Decision
unfolding parse_request
decide_tool g policy o = elim (parse_request o.content) [
  | none ↦
      ask g "malformed tool request" "model.malformed-tool-request" (o.observation_id ∷ [])
        ("finish" ∷ "call_tool" ∷ [])
        "The latest provider output requested a tool without a valid payload."
  | some (tool_name, text) ↦
      if contains tool_name policy.allowed_tools
      then decided call_tool (some tool_name) "text" text "model.requested-tool"
          (o.observation_id ∷ []) ("finish" ∷ "call_llm" ∷ [])
          "The latest model output requested an allowlisted tool action."
      else ask g ("requested tool is not allowlisted: " ++ tool_name)
          "model.disallowed-tool-request" (o.observation_id ∷ []) ("finish" ∷ "call_tool" ∷ [])
          "The provider requested a tool outside the safety allowlist, so the run asks for a corrected action instead of failing."
]

-- The latest model output starts with `HANDOFF:`.
unfoldable pub decide_handoff : Engine → Observation → Decision
unfolding parse_request
decide_handoff g o = elim (parse_request o.content) [
  | none ↦
      ask g "malformed handoff request" "model.malformed-handoff-request" (o.observation_id ∷ [])
        ("finish" ∷ "call_tool" ∷ "handoff" ∷ [])
        "The provider requested a handoff without a valid bot id and summary."
  | some (bot_id, summary) ↦
      if has_key bot_id g.bots
      then decided handoff (some bot_id) "summary" summary "model.requested-handoff"
          (o.observation_id ∷ []) ("finish" ∷ "call_tool" ∷ "call_llm" ∷ [])
          "The latest model output requested a handoff to a registered bot."
      else decided fail none "reason" ("unknown bot for handoff: " ++ bot_id)
          "model.unknown-handoff-bot" (o.observation_id ∷ [])
          ("finish" ∷ "call_tool" ∷ "handoff" ∷ "call_llm" ∷ [])
          "The provider requested a handoff to an unregistered bot."
]

-- The latest model output decides.
unfoldable pub decide_output : Engine → SafetyPolicy → Observation → Decision
unfolding decide_tool decide_handoff answer_of starts_with
decide_output g policy o =
    if starts_with o.content "TOOL:"
    then decide_tool g policy o
    else if starts_with o.content "HANDOFF:"
    then decide_handoff g o
    else if starts_with o.content "DONE:"
    then decided finish none "answer" (answer_of o) "model.done-or-budget" (o.observation_id ∷ [])
        ("call_llm" ∷ "call_tool" ∷ [])
        "The model indicated completion or the step budget is exhausted."
    else ask g "need another provider turn" "model.needs-followup" (o.observation_id ∷ [])
        ("finish" ∷ "call_tool" ∷ [])
        "The latest provider output is neither a tool request nor a final answer."

-- The rules after the cancellation and budget rules: `latest` is the last observation.
unfoldable pub decide_latest : Engine → SafetyPolicy → List Observation → Observation → Decision
unfolding decide_output starts_with latest_by_prefix
decide_latest g policy observations latest =
    if starts_with latest.source "tool:"
    then ask g "tool result needs model synthesis" "tool.result-needs-synthesis"
        (latest.observation_id ∷ []) ("call_tool" ∷ "finish" ∷ [])
        "The latest observation is a tool result, so the provider must consume it."
    else if starts_with latest.source "handoff:"
    then ask g "handoff summary needs model continuation" "handoff.needs-continuation"
        (latest.observation_id ∷ []) ("call_tool" ∷ "finish" ∷ "handoff" ∷ [])
        "A bot handoff occurred, so the provider must continue under the new bot scope."
    else elim (latest_by_prefix observations "llm:") [
      | none ↦
          ask g "no model output observed yet" "observe.no-model-output"
            (map (λ o. o.observation_id) observations) ("call_tool" ∷ "finish" ∷ [])
            "The run has a user goal but no provider output, so it must ask a model."
      | some o ↦ decide_output g policy o
    ]

-- `cancelled` is the answer of `policy.is_cancelled()` at this call. `observations[-1]` raises an
-- `IndexError` on an empty tuple, and `step >= max_steps - 1` is `max_steps <= step + 1`.
unfoldable pub decide : Engine → Bool → List Observation → ℕ → SafetyPolicy → Result Decision
unfolding decide_latest cancel_decision budget_decision
decide g cancelled observations step policy =
    if cancelled then ok cancel_decision else elim (last? observations) [
      | none ↦ err (other_error "tuple index out of range")
      | some latest ↦
          if leb policy.max_steps (step + 1)
          then ok (budget_decision latest)
          else ok (decide_latest g policy observations latest)
    ]
