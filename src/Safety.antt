-- ===== src/Safety.antt =====
-- src/multi_bot_agentic/safety.py: the limits that a run is checked against.
use Prim.Native.String.{◌++◌, count}
use multi_bot_agentic.Prelude.{
  ℕ, String, Bool, List, contains, string_eq, not, leb, ltb, Option, none, some, false,
}
use multi_bot_agentic.Prelude.Text.{strip, is_empty, show_nat}
use multi_bot_agentic.Exn.{Result, safety_error, raise_if, ◌>>◌}

-- `timeout_seconds` is a float that the runtime only hands on; it is kept in milliseconds.
pub record SafetyPolicy : Type 0 where
  pub max_steps : ℕ
  pub timeout_ms : ℕ
  pub max_prompt_chars : ℕ
  pub allowed_tools : List String
  pub cancellation_file : Option String

unfoldable pub validate_goal : SafetyPolicy → String → Result (Unit {0})
validate_goal p goal = do
  raise_if (is_empty (strip goal)) (safety_error "goal must be non-empty")
  raise_if (ltb p.max_prompt_chars (count goal))
      (safety_error ("goal exceeds max_prompt_chars=" ++ show_nat p.max_prompt_chars))

unfoldable pub validate_step : SafetyPolicy → ℕ → Result (Unit {0})
validate_step p step =
    raise_if (leb p.max_steps step)
      (safety_error ("run exceeded max_steps=" ++ show_nat p.max_steps))

unfoldable pub validate_tool : SafetyPolicy → String → Result (Unit {0})
validate_tool p tool_name =
    raise_if (not (contains tool_name p.allowed_tools))
      (safety_error ("tool is not allowed: " ++ tool_name))

-- `exists` answers for the file at the moment of the call.
unfoldable pub is_cancelled : SafetyPolicy → (String → Bool) → Bool
is_cancelled p exists = elim p.cancellation_file [ none ↦ false | some path ↦ exists path ]
