-- ===== src/Guards/GateTests.antt =====
-- The barrier, the idempotency cache, the permissions, the blackboard and the fan-out, at concrete calls.
use Prim.Native.String.{◌++◌}
use multi_bot_agentic.Prelude.{
  ℕ, ◌<◌, ◌==◌, nat_eq, if◌then◌else◌, contains, arith, ◌≡◌, ◌↔◌, ◌⊎◌, true, false, String, refl,
  none, List, [], ◌∷◌, string_eq,
}
use multi_bot_agentic.Prelude.Text.{strip}
use multi_bot_agentic.Exn.{Exn, Result, ok, err}
use multi_bot_agentic.Json.{str, obj, end, to_fields}
use multi_bot_agentic.Guards.{mapping_of, require_id}
use multi_bot_agentic.Guards.Barrier
use multi_bot_agentic.Guards.Barrier.{FanInBarrierGate, status_of}
use multi_bot_agentic.Guards.Barrier.Gathered
use multi_bot_agentic.Guards.Barrier.Gathered.{Gathers, calls-Gathers, arrives, resets}
use multi_bot_agentic.Guards.Permission
use multi_bot_agentic.Guards.Permission.{ToolPermissionResult, allowed}
use multi_bot_agentic.Guards.Permission.Granted
use multi_bot_agentic.Guards.Permission.Granted.{grants, revokes, has_grant}
use multi_bot_agentic.Guards.Permission.Checks.{check-allowed}
use multi_bot_agentic.Guards.Idempotency
use multi_bot_agentic.Guards.Idempotency.{Hashing, make_key}
use multi_bot_agentic.Guards.Idempotency.Cached
use multi_bot_agentic.Guards.Idempotency.Cached.{
  get-last_put, key_of, last_put, puts, gets, invalidates,
}
use multi_bot_agentic.Guards.FanOut
use multi_bot_agentic.Guards.FanOut.{FanOutTask, FanOutResult, ParallelFanOut}
use multi_bot_agentic.Guards.FanOut.Ordered.{Answered, run_in_order}
use multi_bot_agentic.Guards.Blackboard
use multi_bot_agentic.Guards.Blackboard.{SharedBlackboard}
use multi_bot_agentic.Guards.Blackboard.Sizes
use multi_bot_agentic.Guards.Blackboard.Sizes.{IsWithin, stores, deletes, calls-IsWithin}

abbrev gate : FanInBarrierGate
gate = record { required = 2; mode = "hard"; arrived = [] }

-- The last call first.
abbrev arrivals : List Gathered.Call
arrivals =
    arrives "plan" " b "
    ∷ arrives "plan" "a"
    ∷ resets "plan"
    ∷ arrives "plan" "c"
    ∷ arrives "x" "a"
    ∷ []

calls-Gathers_example :
    Gathers 2 "hard" "plan" arrivals (status_of (Gathered.calls arrivals gate) "plan")
unfolding Barrier.init
calls-Gathers_example = calls-Gathers 2 "hard" gate arrivals "plan" refl

-- A digest that is not one.
abbrev hashing : Hashing
hashing = record { canonical = λ args. "{}"; sha256 = λ s. "#" ++ s }

abbrev uses : List Cached.Call
uses =
    gets "search" (obj end)
    ∷ invalidates "fetch" (obj end)
    ∷ puts " search " (obj end) (str "found") "now" none
    ∷ []

get-last_put_example :
    (Idempotency.get hashing (Cached.calls hashing uses []) "search" (obj end)).0
    ≡ ok (last_put hashing (key_of hashing "search" []) uses)
unfolding strip mapping_of to_fields require_id
get-last_put_example = get-last_put hashing uses "search" "search" (obj end) [] refl refl

-- The last call first; the bot may call what it likes by default.
abbrev shrinking : List Granted.Call
shrinking = revokes "writer" "search" ∷ grants "writer" " search " ∷ []

abbrev by_default : ToolPermissionResult
by_default = record {
  bot_id = "writer";
  tool_name = "search";
  decision = allowed;
  reason = "default allow (no grants recorded)";
}

check-allowed_example : (by_default.decision ≡ allowed) ↔ (
    (has_grant "writer" "search" shrinking ≡ true)
    ⊎ ((false ≡ false) × ((x : String) → has_grant "writer" x shrinking ≡ false)))
unfolding strip require_id Permission.check Permission.init Granted.calls
check-allowed_example =
    check-allowed shrinking false "writer" "search" "writer" "search" by_default refl refl refl

abbrev board : SharedBlackboard
board = record { max_keys = 1; max_value_chars = 4; entries = [] }

abbrev writes : List Sizes.Call
writes =
    stores "plan" "go" none
    ∷ stores "plan" "too long" none
    ∷ stores "other" "go" none
    ∷ stores " plan" "stop" none
    ∷ deletes "other"
    ∷ []

calls-IsWithin_example : IsWithin 1 4 (Sizes.calls writes board)
unfolding Blackboard.init
calls-IsWithin_example = calls-IsWithin 1 4 board writes refl

abbrev task : String → FanOutTask
task id = record { task_id = id; goal = "answer"; bot_id = none }

abbrev answered : String → FanOutResult
answered id = record { task_id = id; success = true; answer = "yes"; error = none }

-- Fails on the second task.
abbrev worker : FanOutTask → Result FanOutResult
worker t = if t.task_id == "b" then err (Exn.value_error "") else ok (answered t.task_id)

abbrev pool : ParallelFanOut
pool = record { max_workers = 2; max_tasks = 3 }

both_complete : (j : ℕ) → j < 2 → contains j (1 ∷ 0 ∷ []) ≡ true
both_complete j h = ground (arith, h)

run_in_order_example :
    (rs : List FanOutResult) × (FanOut.run
        (λ e. "ValueError")
        worker
        pool
        (task "a" ∷ task "b" ∷ [])
        (1 ∷ 0 ∷ [])
      ≡ ok rs)
    × Answered (λ e. "ValueError") worker (task "a" ∷ task "b" ∷ []) rs
run_in_order_example =
    run_in_order (λ e. "ValueError") worker pool (task "a" ∷ task "b" ∷ []) (1 ∷ 0 ∷ [])
      (omega arith) both_complete
