-- ===== src/Guards/ToolTests.antt =====
-- The guards around tool calls, at concrete calls.
use multi_bot_agentic.Prelude.{
  ℕ, ◌*◌, ◌≡◌, ◌≢◌, refl, true, List, [], ◌∷◌, leb, ltb, nat_beq, arith, string_eq, if◌then◌else◌,
}
use multi_bot_agentic.Prelude.Text.{strip}
use multi_bot_agentic.Exn.{Result, ok, err, other_error}
use multi_bot_agentic.Json.{Conversions}
use multi_bot_agentic.Models.{ToolInvocation, ToolResult}
use multi_bot_agentic.Guards.RateLimit
use multi_bot_agentic.Guards.RateLimit.{RateLimitedToolRunner, limited}
use multi_bot_agentic.Guards.RateLimit.Buckets
use multi_bot_agentic.Guards.RateLimit.Windows
use multi_bot_agentic.Guards.RateLimit.Waits.{execute-refused_again}
use multi_bot_agentic.Guards.Retry
use multi_bot_agentic.Guards.Retry.Attempts.{Ends, run-Ends}
use multi_bot_agentic.Guards.Approval
use multi_bot_agentic.Guards.Approval.{
  HitlApprovalGate, ApprovalRequest, approved, rejected, pending,
}
use multi_bot_agentic.Guards.Approval.Steps
use multi_bot_agentic.Guards.Approval.Final

abbrev invocation : ToolInvocation
invocation = record { tool_name = "search"; arguments = [] }

abbrev found : Result ToolResult
found = ok (record { tool_name = "search"; success = true; content = "found"; metadata = [] })

-- Two calls in 50 milliseconds; the clock goes on by 10 at each reading.
abbrev limiter : RateLimitedToolRunner
limiter = record {
  tools = ("search", λ _ _. found) ∷ [];
  max_calls = 2;
  window = 50;
  clock = λ n. n * 10;
  readings = 0;
  hits = [];
  executed = [];
}

limiter-init : RateLimit.init (("search", λ _ _. found) ∷ []) 2 50 (λ n. n * 10) ≡ ok limiter
unfolding RateLimit.init
limiter-init = refl

abbrev searches : List Windows.Call
searches =
    Windows.executes invocation
    ∷ Windows.executes invocation
    ∷ Windows.asks "search"
    ∷ Windows.executes invocation
    ∷ Windows.executes invocation
    ∷ Windows.asks "fetch"
    ∷ Windows.executes invocation
    ∷ []

-- The third and fourth executions are refused, the fifth is let through.
searches-executed :
    Buckets.times "search" (Windows.calls searches limiter).executed ≡ 60 ∷ 10 ∷ 0 ∷ []
unfolding Windows.calls Windows.call RateLimit.execute RateLimit.remaining
searches-executed = refl

calls-Spaced_example :
    Buckets.Spaced 2 50 (Buckets.times "search" (Windows.calls searches limiter).executed)
calls-Spaced_example =
    Windows.calls-Spaced 2 50 (("search", λ _ _. found) ∷ []) (λ n. n * 10) limiter searches
      "search" (λ i. omega arith) limiter-init

-- Two calls are in the window; the clock reads 20, and then 50.
abbrev full : RateLimitedToolRunner
full = record limiter {
  clock = λ n. if nat_beq n 0 then 20 else 50;
  hits = ("search", 0 ∷ 10 ∷ []) ∷ [];
}

abbrev refusal : RateLimit.RateLimitExceeded
refusal = record { tool_name = "search"; limit = 2; window = 50; retry_after = 30 }

full-refused : (RateLimit.execute full invocation).0 ≡ limited refusal
unfolding RateLimit.execute
full-refused = refl

full-waited : RateLimit.now (RateLimit.execute full invocation).1 ≡ 50
unfolding RateLimit.execute
full-waited = refl

execute-refused_again_example :
    (RateLimit.execute (RateLimit.execute full invocation).1 invocation).0
    ≡ limited (record refusal { retry_after = 0 })
execute-refused_again_example =
    execute-refused_again full invocation refusal (omega arith) full-refused full-waited

-- Numbers in place of floats, and a generator that draws the whole delay.
abbrev numbers : Retry.Floats
numbers = record {
  Float = ℕ;
  zero_float = 0;
  one_float = 1;
  le = leb;
  lt = ltb;
  times = λ a b. a * b;
  power = λ a n. if ltb 9 n then err (other_error "OverflowError") else ok (a * n);
  minimum = λ a b. if leb a b then a else b;
  round_to_6 = λ a. a;
  uniform = λ i a. a;
}

abbrev three_attempts : Retry.ToolRetryBackoffPolicy numbers
three_attempts = record {
  max_attempts = 3;
  base_seconds = 1;
  multiplier = 2;
  max_seconds = 30;
  jitter = true;
  draws = 0;
}

-- The first call fails.
abbrev flaky : ℕ → Result ℕ
flaky n = if nat_beq n 0 then err (other_error "timeout") else ok 7

flaky-run : (Retry.run numbers flaky three_attempts).0 ≡ ok 7
unfolding Retry.run
flaky-run = refl

run-Ends_example : Ends numbers flaky 2 0 3 (Retry.run numbers flaky three_attempts)
run-Ends_example = run-Ends numbers flaky three_attempts (omega arith)

abbrev py : Conversions
py = record {
  show_container = λ _. "";
  int_of_text = λ _. err (other_error "int");
  dict_of_other = λ _. err (other_error "dict");
}

abbrev gate : HitlApprovalGate
gate = record { files = []; tools_requiring_approval = "deploy" ∷ [] }

gate-init : Approval.init [] ("deploy" ∷ []) ≡ ok gate
unfolding Approval.init
gate-init = refl

abbrev asked : List Steps.Call
asked = Steps.requests "u1" "r1" "deploy" "now" ∷ []

abbrev settled : List Steps.Call
settled = Steps.requests "u1" "r1" "deploy" "now" ∷ Steps.resolves "u1" approved ∷ []

abbrev later : List Steps.Call
later = Steps.requests "u2" "r1" "deploy" "again" ∷ Steps.resolves "u1" rejected ∷ []

abbrev approval : ApprovalRequest
approval = record {
  request_id = "u1";
  run_id = "r1";
  tool_name = "deploy";
  payload = "now";
  status = approved;
}

settled-read : Approval.read py (Steps.calls py settled gate) "u1" ≡ ok approval
unfolding Steps.calls Approval.request Approval.resolve Approval.read
settled-read = refl

u2-ne-u1 : strip "u2" ≢ strip "u1"
unfolding strip
u2-ne-u1 h = cc h

decided-read_example :
    Approval.read py (Steps.calls py later (Steps.calls py settled gate)) "u1" ≡ ok approval
decided-read_example =
    Final.decided-read py ("deploy" ∷ []) gate settled later "u1" approval gate-init settled-read
      (λ e. cc e) (u2-ne-u1, (tt, tt))

asked-resolved : (Approval.resolve py "u1" approved (Steps.calls py asked gate)).0 ≡ ok approval
unfolding Steps.calls Approval.request Approval.resolve
asked-resolved = refl

resolve-read_example :
    (approved ≢ pending)
    × (approved ≡ approved)
    × (Approval.read py (Steps.calls py asked gate) "u1"
        ≡ ok (record approval { status = pending }))
    × (Approval.read py (Approval.resolve py "u1" approved (Steps.calls py asked gate)).1 "u1"
        ≡ ok approval)
resolve-read_example =
    Final.resolve-read py ("deploy" ∷ []) gate asked "u1" approved approval gate-init asked-resolved
