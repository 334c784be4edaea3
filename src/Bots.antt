-- ===== src/Bots.antt =====
-- src/multi_bot_agentic/bots.py: registered bots and their tool scopes.
use multi_bot_agentic.Prelude.{String, Bool, List, [], ◌∷◌, true, false}
use multi_bot_agentic.Prelude.Text.{strip, is_empty}
use multi_bot_agentic.Exn.{Result, ok, value_error, raise_if, ◌>>◌}

pub record BotSpec : Type 0 where
  pub bot_id : String
  pub name : String
  pub allowed_tools : List String
  pub description : String

-- `not values`
abbrev pub none_in : List String → Bool
none_in [] = true
none_in (x ∷ xs) = false

-- `__post_init__`: a bot is built only if this passes.
unfoldable pub post_init : BotSpec → Result BotSpec
post_init b = do
  raise_if (is_empty (strip b.bot_id)) (value_error "bot_id must be non-empty")
  raise_if (is_empty (strip b.name)) (value_error "name must be non-empty")
  raise_if (none_in b.allowed_tools) (value_error "allowed_tools must be non-empty")
  ok b
