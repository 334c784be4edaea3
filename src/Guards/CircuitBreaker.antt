-- ===== src/Guards/CircuitBreaker.antt =====
-- src/multi_bot_agentic/circuit_breaker.py: one failure counter per tool. Times are milliseconds;
-- `clock` is the injected clock, its argument the number of readings made before.
pub mod States
pub mod Threshold
use multi_bot_agentic.Prelude.{
  ℕ, ◌+◌, ◌-◌, String, Bool, true, Option, none, some, [], leb, ltb, ◌||◌, string_eq, if◌then◌else◌,
}
use multi_bot_agentic.Prelude.Dict.{Dict, lookup, insert}
use multi_bot_agentic.Exn.{Result, ok, err, value_error, raise_if, ◌>>◌}

-- `CLOSED`, `OPEN` and `HALF_OPEN`.
pub data CircuitState : Type 0 where
  closed opened half_open : CircuitState

pub record CircuitOpenInfo : Type 0 where
  pub tool_name : String
  pub failure_count : ℕ
  pub cooldown : ℕ
  pub retry_after : ℕ

pub record ToolBreaker : Type 0 where
  pub state : CircuitState
  pub failure_count : ℕ
  pub opened_at : Option ℕ

-- `_ToolBreaker()`
unfoldable pub fresh : ToolBreaker
fresh = record { state = closed; failure_count = 0; opened_at = none }

pub record ToolCircuitBreaker : Type 0 where
  pub failure_threshold : ℕ
  pub cooldown : ℕ
  pub clock : ℕ → ℕ
  pub readings : ℕ
  pub tools : Dict String ToolBreaker

unfoldable pub init : ℕ → ℕ → (ℕ → ℕ) → Result ToolCircuitBreaker
init failure_threshold cooldown clock = do
  raise_if (ltb failure_threshold 1) (value_error "failure_threshold must be >= 1")
  raise_if (leb cooldown 0) (value_error "cooldown_seconds must be > 0")
  ok (record {
    failure_threshold = failure_threshold;
    cooldown = cooldown;
    clock = clock;
    readings = 0;
    tools = [];
  })

-- The reading that the next call of the clock gives.
abbrev pub now : ToolCircuitBreaker → ℕ
now c = c.clock c.readings

abbrev pub ticked : ToolCircuitBreaker → ToolCircuitBreaker
ticked c = record c { readings = c.readings + 1 }

-- `setdefault(tool_name, _ToolBreaker())`: the breaker; every caller writes it back.
unfoldable pub breaker : ToolCircuitBreaker → String → ToolBreaker
unfolding lookup fresh
breaker c tool_name = elim (lookup tool_name c.tools) [ none ↦ fresh | some b ↦ b ]

-- The object with the tool's breaker written.
abbrev pub store : String → ToolBreaker → ToolCircuitBreaker → ToolCircuitBreaker
store tool_name b c = record c { tools = insert tool_name b c.tools }

-- `_maybe_transition_to_half_open`: `now - opened_at >= cooldown`, without a negative difference.
unfoldable pub maybe_transition_to_half_open :
    ToolCircuitBreaker → ToolBreaker → ToolBreaker × ToolCircuitBreaker
maybe_transition_to_half_open c b = elim b.state [
  | closed ↦ (b, c)
  | half_open ↦ (b, c)
  | opened ↦ elim b.opened_at [
    | none ↦ (b, c)
    | some opened_at ↦
        if leb (opened_at + c.cooldown) (now c)
        then (record b { state = half_open }, ticked c)
        else (b, ticked c)
  ]
]

-- `state`: a tool that was never seen gets no entry.
unfoldable pub state : ToolCircuitBreaker → String → CircuitState × ToolCircuitBreaker
unfolding lookup insert maybe_transition_to_half_open
state c tool_name = elim (lookup tool_name c.tools) [
  | none ↦ (closed, c)
  | some b ↦ let r = maybe_transition_to_half_open c b in (r.0.state, store tool_name r.0 r.1)
]

-- What `allow` answers: true, or the `CircuitOpenError` with its details.
pub data Permission : Type 0 where
  allowed : Permission
  circuit_open : CircuitOpenInfo → Permission

-- The end of `allow`, once the breaker may have moved to half-open. The wait left is
-- `max(0, cooldown - (now - opened_at))`.
unfoldable pub answer : ToolCircuitBreaker → String → ToolBreaker → Permission × ToolCircuitBreaker
answer c tool_name b = elim b.state [
  | closed ↦ (allowed, c)
  | half_open ↦ (allowed, c)
  | opened ↦
      let opened_at : ℕ = elim b.opened_at [ none ↦ now c | some t ↦ t ] in
      (
        circuit_open (record {
          tool_name = tool_name;
          failure_count = b.failure_count;
          cooldown = c.cooldown;
          retry_after = opened_at + c.cooldown - now c;
        }),
        ticked c,
      )
]

unfoldable pub allow : ToolCircuitBreaker → String → Permission × ToolCircuitBreaker
unfolding breaker insert maybe_transition_to_half_open answer
allow c tool_name =
    let r = maybe_transition_to_half_open c (breaker c tool_name) in
    answer (store tool_name r.0 r.1) tool_name r.0

-- `breaker.state is CircuitState.HALF_OPEN`
abbrev pub is_half_open : CircuitState → Bool
is_half_open half_open = true
is_half_open _ = Bool.false

unfoldable pub record_failure : ToolCircuitBreaker → String → ToolCircuitBreaker
unfolding breaker insert
record_failure c tool_name =
    let b = breaker c tool_name in
    let failures = b.failure_count + 1 in
    if is_half_open b.state || leb c.failure_threshold failures
    then ticked (
        store tool_name
          (record { state = opened; failure_count = failures; opened_at = some (now c) }) c)
    else store tool_name (record b { failure_count = failures }) c

unfoldable pub record_success : ToolCircuitBreaker → String → ToolCircuitBreaker
unfolding insert fresh
record_success c tool_name = store tool_name fresh c
