-- ===== src/Decision/Requests.antt =====
-- decision.py: `_parse_tool_request` and `_parse_handoff_request`, which are one function, and
-- `_latest_observation_by_prefix`.
use multi_bot_agentic.Prelude.{String, Option, none, some, List, [], ◌∷◌, ◌||◌, if◌then◌else◌}
use multi_bot_agentic.Prelude.Text.{strip, is_empty, starts_with}
use multi_bot_agentic.Prelude.Split.{split_max}
use multi_bot_agentic.Models.{Observation}

-- The three parts of the directive, or none. The name is stripped, the text is not.
unfoldable pub checked_parts : List String → Option (String × String)
unfolding strip
checked_parts (_ ∷ name ∷ text ∷ []) =
    if is_empty (strip name) || is_empty (strip text) then none else some (strip name, text)
checked_parts _ = none

unfoldable pub parse_request : String → Option (String × String)
unfolding checked_parts split_max
parse_request content = checked_parts (split_max b':' 2 content)

-- `reversed(observations)` is scanned: the last match wins.
unfoldable pub latest_by_prefix : List Observation → String → Option Observation
unfolding starts_with
latest_by_prefix [] prefix = none
latest_by_prefix (o ∷ os) prefix = elim (latest_by_prefix os prefix) [
  | some found ↦ some found
  | none ↦ if starts_with o.source prefix then some o else none
]
