-- ===== src/Guards/CircuitBreaker/States.antt =====
-- circuit_breaker.py: the states that a tool's breaker can be in, and when its circuit lets calls
-- through.
use multi_bot_agentic.Prelude.{
  ℕ, ◌+◌, ◌≤◌, ◌<◌, String, Bool, true, false, none, some, [], leb, ltb, ◌||◌, string_eq,
  if◌then◌else◌, ◌≡◌, refl, sym, subst, ◌⊎◌, ◌↔◌, Option-cases, arith, ◌==◌, List, ◌∷◌, Bool-cases,
  inl, inr,
}
use multi_bot_agentic.Prelude.Dict.{lookup, lookup-insert}
use multi_bot_agentic.Exn.{ok, OnOk, OnOk-ok}
use multi_bot_agentic.Guards.CircuitBreaker.{
  closed, opened, half_open, ToolBreaker, ToolCircuitBreaker, fresh, init, is_half_open, breaker,
  store, ticked, now, state, allow, answer, allowed, maybe_transition_to_half_open, record_failure,
  record_success,
}

-- What a breaker's fields are in each state, for a threshold.
abbrev pub IsSound : ℕ → ToolBreaker → Type 0
IsSound k b = elim b.state [
  | closed ↦ (b.failure_count < k) × (b.opened_at ≡ none)
  | opened ↦ (k ≤ b.failure_count) × ((t : ℕ) × (b.opened_at ≡ some t))
  | half_open ↦ (k ≤ b.failure_count) × ((t : ℕ) × (b.opened_at ≡ some t))
]

-- Every tool's breaker is sound.
abbrev pub IsWellFormed : ToolCircuitBreaker → Type 0
IsWellFormed c =
    (1 ≤ c.failure_threshold) × ((t : String) → IsSound c.failure_threshold (breaker c t))

pub breaker-store :
    (c : ToolCircuitBreaker) (s t : String) (b : ToolBreaker)
    → breaker (store s b c) t ≡ (if s == t then b else breaker c t)
unfolding breaker
breaker-store c s t b = ground (arith, lookup-insert s t b c.tools)

-- Writing a sound breaker keeps every breaker sound.
store-IsWellFormed :
    (c : ToolCircuitBreaker) (s : String) (b : ToolBreaker)
    → IsWellFormed c
    → IsSound c.failure_threshold b
    → IsWellFormed (store s b c)
store-IsWellFormed c s b h k = (h.0, λ t. rw (breaker-store c s t b) (if-Sound (s == t) t))
  where
    if-Sound : (x : Bool) (t : String) → IsSound c.failure_threshold (if x then b else breaker c t)
    if-Sound true t = k
    if-Sound false t = h.1 t

maybe-IsSound :
    (c : ToolCircuitBreaker) (b : ToolBreaker)
    → IsSound c.failure_threshold b
    → IsSound c.failure_threshold (maybe_transition_to_half_open c b).0
unfolding maybe_transition_to_half_open
maybe-IsSound c b h = ground arith

ticks-same :
    (c : ToolCircuitBreaker) (b : ToolBreaker)
    → (maybe_transition_to_half_open c b).1.failure_threshold ≡ c.failure_threshold
unfolding maybe_transition_to_half_open
ticks-same c b = ground arith

-- A method call on the breaker of one tool.
pub data Call : Type 0 where
  asks_state asks fails succeeds : String → Call

unfoldable pub call : Call → ToolCircuitBreaker → ToolCircuitBreaker
call (asks_state t) c = (state c t).1
call (asks t) c = (allow c t).1
call (fails t) c = record_failure c t
call (succeeds t) c = record_success c t

-- The calls in the order they are made.
unfoldable pub calls : List Call → ToolCircuitBreaker → ToolCircuitBreaker
calls [] c = c
calls (x ∷ xs) c = calls xs (call x c)

fresh-IsSound : (k : ℕ) → 1 ≤ k → IsSound k fresh
unfolding fresh
fresh-IsSound k h = (omega arith, refl)

record_failure-IsWellFormed :
    (c : ToolCircuitBreaker) (t : String) → IsWellFormed c → IsWellFormed (record_failure c t)
unfolding record_failure
record_failure-IsWellFormed c t h =
    elim (Bool-cases (
      is_half_open (breaker c t).state
      || leb c.failure_threshold ((breaker c t).failure_count + 1))) [
        | inl e ↦ rw e (store-IsWellFormed c t _ h (ground (arith, e, h.1 t), (now c, refl)))
        | inr e ↦ rw e (store-IsWellFormed c t _ h (ground (arith, e, h.1 t)))
      ]

-- The clock is read or it is not.
pub maybe-ticks :
    (c : ToolCircuitBreaker) (b : ToolBreaker)
    → ((maybe_transition_to_half_open c b).1 ≡ c)
      ⊎ ((maybe_transition_to_half_open c b).1 ≡ ticked c)
unfolding maybe_transition_to_half_open
maybe-ticks c b = ground arith

pub answer-ticks :
    (c : ToolCircuitBreaker) (t : String) (b : ToolBreaker)
    → ((answer c t b).1 ≡ c) ⊎ ((answer c t b).1 ≡ ticked c)
unfolding answer
answer-ticks c t b = ground arith

ticks-IsWellFormed :
    (c d : ToolCircuitBreaker) → (d ≡ c) ⊎ (d ≡ ticked c) → IsWellFormed c → IsWellFormed d
unfolding breaker
ticks-IsWellFormed c d (inl e) h = subst IsWellFormed (sym e) h
ticks-IsWellFormed c d (inr e) h = subst IsWellFormed (sym e) h

probed-IsWellFormed :
    (c : ToolCircuitBreaker) (t : String) (b : ToolBreaker)
    → IsWellFormed c
    → IsSound c.failure_threshold b
    → IsWellFormed
        (store t (maybe_transition_to_half_open c b).0 (maybe_transition_to_half_open c b).1)
probed-IsWellFormed c t b h k =
    store-IsWellFormed _ t _ (ticks-IsWellFormed c _ (maybe-ticks c b) h)
      (rw (ticks-same c b) (maybe-IsSound c b k))

state-IsWellFormed :
    (c : ToolCircuitBreaker) (t : String) → IsWellFormed c → IsWellFormed (state c t).1
unfolding state breaker
state-IsWellFormed c t h = elim (Option-cases (lookup t c.tools)) [
  | inl e ↦ rw (e, state) h
  | inr (b, e) ↦ rw (e, state) (probed-IsWellFormed c t b h (found b e))
]
  where
    found : (b : ToolBreaker) → lookup t c.tools ≡ some b → IsSound c.failure_threshold b
    found b e =
        subst (λ x. IsSound c.failure_threshold (elim x [ none ↦ fresh | some y ↦ y ])) e (h.1 t)

allow-IsWellFormed :
    (c : ToolCircuitBreaker) (t : String) → IsWellFormed c → IsWellFormed (allow c t).1
unfolding allow
allow-IsWellFormed c t h =
    ticks-IsWellFormed _ _ (answer-ticks _ t (maybe_transition_to_half_open c (breaker c t)).0)
      (probed-IsWellFormed c t _ h (h.1 t))

call-IsWellFormed : (x : Call) (c : ToolCircuitBreaker) → IsWellFormed c → IsWellFormed (call x c)
unfolding call record_success
call-IsWellFormed (asks_state t) c h = state-IsWellFormed c t h
call-IsWellFormed (asks t) c h = allow-IsWellFormed c t h
call-IsWellFormed (fails t) c h = record_failure-IsWellFormed c t h
call-IsWellFormed (succeeds t) c h = store-IsWellFormed c t fresh h (fresh-IsSound _ h.0)

calls-keeps : (xs : List Call) (c : ToolCircuitBreaker) → IsWellFormed c → IsWellFormed (calls xs c)
unfolding calls
calls-keeps [] c h = h
calls-keeps (x ∷ xs) c h = calls-keeps xs (call x c) (call-IsWellFormed x c h)

init-IsWellFormed :
    (k cooldown : ℕ) (clock : ℕ → ℕ) (c : ToolCircuitBreaker)
    → init k cooldown clock ≡ ok c
    → IsWellFormed c
unfolding init breaker
init-IsWellFormed k cooldown clock c =
    OnOk-ok IsWellFormed _ c (made (Bool-cases (ltb k 1)) (Bool-cases (leb cooldown 0)))
  where
    made :
        (ltb k 1 ≡ true) ⊎ (ltb k 1 ≡ false)
        → (leb cooldown 0 ≡ true) ⊎ (leb cooldown 0 ≡ false)
        → OnOk IsWellFormed (init k cooldown clock)
    made (inl e) _ = rw e tt
    made (inr e) (inl f) = rw (e, f) tt
    made (inr e) (inr f) = rw (e, f) (ground (arith, e), λ t. fresh-IsSound k (ground (arith, e)))

-- Whatever calls are made on a new circuit breaker, in any order, every tool's breaker stays sound:
-- a closed circuit has fewer failures than the threshold and no opening time, and an open or
-- half-open one has at least the threshold's failures and the time at which it was opened.
pub calls-IsWellFormed :
    (k cooldown : ℕ) (clock : ℕ → ℕ) (c : ToolCircuitBreaker) (xs : List Call)
    → init k cooldown clock ≡ ok c
    → IsWellFormed (calls xs c)
calls-IsWellFormed k cooldown clock c xs e =
    calls-keeps xs c (init-IsWellFormed k cooldown clock c e)

-- When the circuit lets a call through: it is not open, or its cooldown has passed.
abbrev pub Lets : ToolCircuitBreaker → ToolBreaker → Type 0
Lets c b = elim b.state [
  | closed ↦ Unit
  | half_open ↦ Unit
  | opened ↦ (t : ℕ) × (b.opened_at ≡ some t) × (t + c.cooldown ≤ now c)
]

answer-allowed :
    (c d : ToolCircuitBreaker) (t : String) (b : ToolBreaker)
    → (answer d t (maybe_transition_to_half_open c b).0).0 ≡ allowed ↔ Lets c b
unfolding answer maybe_transition_to_half_open
answer-allowed c d t b = ground arith

-- `allow` lets a call through exactly when the tool's circuit is closed or half-open, or open with
-- its cooldown passed at the clock's next reading; else it raises.
pub allow-allowed :
    (c : ToolCircuitBreaker) (t : String) → ((allow c t).0 ≡ allowed) ↔ Lets c (breaker c t)
unfolding allow
allow-allowed c t = answer-allowed c _ t (breaker c t)
