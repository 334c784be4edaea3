-- ===== src/Guards/Idempotency.antt =====
-- src/multi_bot_agentic/tool_idempotency_cache.py: results of tool calls, kept for a retry.
pub mod Cached
use Prim.Native.String.{◌++◌}
use multi_bot_agentic.Prelude.{String, Bool, Option, none, some, string_eq, if◌then◌else◌}
use multi_bot_agentic.Prelude.Text.{is_empty}
use multi_bot_agentic.Prelude.Dict.{Dict, lookup, insert, erase, has_key}
use multi_bot_agentic.Exn.{Result, ok, err}
use multi_bot_agentic.Json.{Json, Payload}
use multi_bot_agentic.Guards.{Outcome, require_id, with_id, mapping_of}

pub record ToolCacheEntry : Type 0 where
  pub cache_key : String
  pub tool_name : String
  pub args : Payload
  pub result : Json
  pub cached_at_iso : String

-- `_entries`
abbrev pub ToolCallIdempotencyCache : Type 0
ToolCallIdempotencyCache = Dict String ToolCacheEntry

-- What the cache takes from Python: `json.dumps` with its arguments there, and the hexadecimal digest.
pub record Hashing : Type 0 where
  pub canonical : Payload → String
  pub sha256 : String → String

-- A method body that checks the arguments after the name.
unfoldable pub with_args {ℓ} :
    {A : Type ℓ}
    → Result Payload
    → ToolCallIdempotencyCache
    → (Payload → Outcome ToolCallIdempotencyCache A)
    → Outcome ToolCallIdempotencyCache A
with_args (ok args) q body = body args
with_args (err e) q body = (err e, q)

module _ (h : Hashing) where
  unfoldable pub make_key : String → Payload → String
  make_key tool_name args = h.sha256 (tool_name ++ ("\0" ++ h.canonical args))

  unfoldable pub entry_of : String → Payload → Json → String → Option String → ToolCacheEntry
  unfolding make_key
  entry_of name copied result utcnow cached_at_iso = record {
    cache_key = make_key name copied;
    tool_name = name;
    args = copied;
    result = result;
    cached_at_iso = elim cached_at_iso [
      | none ↦ utcnow
      | some at ↦ if is_empty at then utcnow else at
    ];
  }

  unfoldable pub put :
      ToolCallIdempotencyCache
      → String
      → Json
      → Json
      → String
      → Option String
      → Outcome ToolCallIdempotencyCache ToolCacheEntry
  unfolding entry_of make_key insert mapping_of with_args
  put q tool_name args result utcnow cached_at_iso =
      with_id (require_id tool_name "tool_name") q λ name. with_args (mapping_of args) q λ copied. (
        ok (entry_of name copied result utcnow cached_at_iso),
        insert (make_key name copied) (entry_of name copied result utcnow cached_at_iso) q,
      )

  unfoldable pub get :
      ToolCallIdempotencyCache
      → String
      → Json
      → Outcome ToolCallIdempotencyCache (Option ToolCacheEntry)
  unfolding make_key lookup mapping_of with_args
  get q tool_name args =
      with_id (require_id tool_name "tool_name") q
        λ name. with_args (mapping_of args) q λ copied. (ok (lookup (make_key name copied) q), q)

  unfoldable pub invalidate :
      ToolCallIdempotencyCache → String → Json → Outcome ToolCallIdempotencyCache Bool
  unfolding make_key erase lookup mapping_of with_args
  invalidate q tool_name args = with_id (require_id tool_name "tool_name") q λ name.
      with_args (mapping_of args) q
        λ copied. (ok (has_key (make_key name copied) q), erase (make_key name copied) q)
