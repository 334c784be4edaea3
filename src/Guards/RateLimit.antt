-- ===== src/Guards/RateLimit.antt =====
-- src/multi_bot_agentic/tool_runner.py: tools behind a sliding window of calls, one for each tool.
-- Times are milliseconds; `clock` is the injected clock, its argument the number of readings made
-- before. What a tool answers may depend on every execution before it.
pub mod Buckets
pub mod Windows
pub mod Waits
use Prim.Native.String.{◌++◌ as join}
use multi_bot_agentic.Prelude.{
  ℕ, ◌+◌, ◌-◌, String, none, some, List, [], ◌∷◌, ◌++◌, leb, ltb, length, string_eq, if◌then◌else◌,
}
use multi_bot_agentic.Prelude.Dict.{Dict, lookup, insert, get_or}
use multi_bot_agentic.Exn.{Exn, Result, ok, err, value_error, key_error, raise_if, ◌>>◌}
use multi_bot_agentic.Models.{ToolInvocation, ToolResult}

pub record RateLimitExceeded : Type 0 where
  pub tool_name : String
  pub limit : ℕ
  pub window : ℕ
  pub retry_after : ℕ

-- An execution that a tool was given, with the reading of the clock that let it through.
pub record Execution : Type 0 where
  pub tool_name : String
  pub at : ℕ

abbrev pub ToolAdapter : Type 0
ToolAdapter = List Execution → ToolInvocation → Result ToolResult

-- `executed`, the newest first, is no attribute: it stands for what the tools have seen.
pub record RateLimitedToolRunner : Type 0 where
  pub tools : Dict String ToolAdapter
  pub max_calls : ℕ
  pub window : ℕ
  pub clock : ℕ → ℕ
  pub readings : ℕ
  pub hits : Dict String (List ℕ)
  pub executed : List Execution

unfoldable pub init : Dict String ToolAdapter → ℕ → ℕ → (ℕ → ℕ) → Result RateLimitedToolRunner
init tools max_calls window clock = do
  raise_if (ltb max_calls 1) (value_error "max_calls must be >= 1")
  raise_if (leb window 0) (value_error "window_seconds must be > 0")
  ok (record {
    tools = tools;
    max_calls = max_calls;
    window = window;
    clock = clock;
    readings = 0;
    hits = [];
    executed = [];
  })

-- The reading that the next call of the clock gives.
abbrev pub now : RateLimitedToolRunner → ℕ
now r = r.clock r.readings

-- `while bucket and bucket[0] < cutoff: bucket.popleft()`, the cutoff being `now - window`.
unfoldable pub prune : ℕ → ℕ → List ℕ → List ℕ
prune window now [] = []
prune window now (t ∷ bucket) =
    let rest = prune window now bucket in if ltb (t + window) now then rest else t ∷ bucket

-- The tool's bucket once what is out of the window is dropped.
unfoldable pub bucket : RateLimitedToolRunner → String → List ℕ
unfolding prune lookup
bucket r name = prune r.window (now r) (get_or name [] r.hits)

-- The object after a reading of the clock, with the tool's bucket written.
abbrev pub stored : String → List ℕ → RateLimitedToolRunner → RateLimitedToolRunner
stored name b r = record r { readings = r.readings + 1; hits = insert name b r.hits }

-- What `execute` ends in: the tool's result or the exception that came out of it, the `KeyError` of
-- an unknown tool, or the `RateLimitExceededError` with its details.
pub data Reply : Type 0 where
  executed : Result ToolResult → Reply
  unknown_tool : Exn → Reply
  limited : RateLimitExceeded → Reply

-- `max(0.0, window - (now - bucket[0]))`; a full bucket is not empty.
abbrev pub wait_left : ℕ → ℕ → List ℕ → ℕ
wait_left window now [] = window
wait_left window now (t ∷ b) = t + window - now

-- The end of `execute`, on the pruned bucket.
unfoldable pub give :
    RateLimitedToolRunner → ToolInvocation → ToolAdapter → List ℕ → Reply × RateLimitedToolRunner
unfolding insert
give r i tool b =
    if leb r.max_calls (length b)
    then (
      limited (record {
        tool_name = i.tool_name;
        limit = r.max_calls;
        window = r.window;
        retry_after = wait_left r.window (now r) b;
      }),
      stored i.tool_name b r,
    )
    else (
      executed (tool r.executed i),
      record (stored i.tool_name (b ++ now r ∷ []) r) {
        executed = record { tool_name = i.tool_name; at = now r } ∷ r.executed;
      },
    )

unfoldable pub execute : RateLimitedToolRunner → ToolInvocation → Reply × RateLimitedToolRunner
unfolding lookup bucket give
execute r i = elim (lookup i.tool_name r.tools) [
  | none ↦ (unknown_tool (key_error (join "unknown tool: " i.tool_name)), r)
  | some tool ↦ give r i tool (bucket r i.tool_name)
]

unfoldable pub remaining : RateLimitedToolRunner → String → ℕ × RateLimitedToolRunner
unfolding bucket insert
remaining r name = let b = bucket r name in (r.max_calls - length b, stored name b r)
