-- ===== src/Guards.antt =====
-- The guards around tool and model calls (src/multi_bot_agentic/circuit_breaker.py and its
-- neighbours): each is a class that its caller drives, and a method is a function from the object
-- before the call to the result and the object after it.
pub mod CircuitBreaker
pub mod ToolCallQuota
pub mod TokenBudget
pub mod WriteLease
pub mod DeadLetters
pub mod Compactor
pub mod Concurrency
pub mod BotVote
pub mod RateLimit
pub mod Retry
pub mod Approval
pub mod Barrier
pub mod Idempotency
pub mod Permission
pub mod Blackboard
pub mod FanOut
pub mod Tests
pub mod QueueTests
pub mod ToolTests
pub mod GateTests
use Prim.Native.String.{◌++◌}
use multi_bot_agentic.Prelude.{String, if◌then◌else◌}
use multi_bot_agentic.Prelude.Text.{strip, is_empty}
use multi_bot_agentic.Exn.{Result, ok, err, value_error, type_error}
use multi_bot_agentic.Json.{Json, Payload, obj, to_fields}

-- What a method call leaves: its result or the exception it raises, and the object.
abbrev pub Outcome {ℓ κ} : Type ℓ → Type κ → Type (ℓ ⊔ κ)
Outcome S A = Result A × S

-- `_require_id`, `_require_session` and `_require_nonempty`, which are one function.
unfoldable pub require_id : String → String → Result String
unfolding strip
require_id value label =
    if is_empty (strip value)
    then err (value_error (label ++ " must be non-empty"))
    else ok (strip value)

-- A method body that first checks an identifier: it raises and changes nothing, or goes on.
unfoldable pub with_id {ℓ κ} :
    {S : Type ℓ} {A : Type κ} → Result String → S → (String → Outcome S A) → Outcome S A
with_id (ok id) s body = body id
with_id (err e) s body = (err e, s)

-- `dict(args)`, or the `TypeError` for what is no mapping.
unfoldable pub mapping_of : Json → Result Payload
mapping_of (obj fields) = ok (to_fields fields)
mapping_of _ = err (type_error "args must be a mapping")

-- The object that a method call leaves has a property, whether the call returns or raises.
pub record Leaves {ℓ κ μ} {S : Type ℓ} {A : Type κ} (P : S → Type μ) (x : Outcome S A)
    : Type μ where
  pub holds : P x.1

pub with_id-Leaves {ℓ κ μ} :
    {S : Type ℓ} {A : Type κ} {P : S → Type μ} (r : Result String) (s : S)
    (body : String → Outcome S A)
    → P s
    → ((id : String) → Leaves P (body id))
    → Leaves P (with_id r s body)
unfolding with_id
with_id-Leaves (ok id) s body h k = k id
with_id-Leaves (err e) s body h k = record { holds = h }

-- The result is a value and no exception.
abbrev pub IsOk {ℓ} : {A : Type ℓ} → Result A → Type 0
IsOk (ok a) = Unit
IsOk (err e) = ⊥
