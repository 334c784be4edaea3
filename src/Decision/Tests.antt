-- ===== src/Decision/Tests.antt =====
-- A model that asks for an allowlisted tool.
use Prim.Native.String.{◌++◌}
use multi_bot_agentic.Prelude.{none, some, [], List, ◌∷◌, ◌≡◌, refl, false}
use multi_bot_agentic.Prelude.Text.{strip}
use multi_bot_agentic.Models.{Observation, Decision, call_tool}
use multi_bot_agentic.Safety.{SafetyPolicy}
use multi_bot_agentic.Decision.{Engine, decide, decided, parse_request}
use multi_bot_agentic.Decision.Rules.{IsJustified, decide-IsJustified}
use multi_bot_agentic.Decision.Directive.{parse_request-directive}

abbrev engine : Engine
engine = record { provider_name = "scripted"; bots = [] }

abbrev policy : SafetyPolicy
policy = record {
  max_steps = 5;
  timeout_ms = 1000;
  max_prompt_chars = 100;
  allowed_tools = "calculator" ∷ [];
  cancellation_file = none;
}

abbrev observations : List Observation
observations =
    record { source = "user"; content = "add"; metadata = []; observation_id = "o1" }
    ∷ record {
      source = "llm:scripted";
      content = "TOOL:calculator:1+1";
      metadata = [];
      observation_id = "o2";
    }
    ∷ []

abbrev calls_calculator : Decision
calls_calculator =
    decided call_tool (some "calculator") "text" "1+1" "model.requested-tool" ("o2" ∷ [])
      ("finish" ∷ "call_llm" ∷ []) "The latest model output requested an allowlisted tool action."

decide-IsJustified_example : IsJustified engine false observations 1 policy calls_calculator
unfolding decide
decide-IsJustified_example =
    decide-IsJustified engine false observations 1 policy calls_calculator refl

parse_request-directive_example :
    parse_request ("TOOL" ++ (":" ++ (" sum " ++ (":" ++ "1:1")))) ≡ some (strip " sum ", "1:1")
unfolding strip
parse_request-directive_example =
    parse_request-directive "TOOL" " sum " "1:1" (refl, (refl, (refl, (refl, tt))))
      (refl, (refl, (refl, (refl, (refl, tt))))) refl refl
