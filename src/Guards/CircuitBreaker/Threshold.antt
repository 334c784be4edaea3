-- ===== src/Guards/CircuitBreaker/Threshold.antt =====
-- circuit_breaker.py: the failures of one tool open its circuit at the threshold, and no other's.
use multi_bot_agentic.Prelude.{
  ℕ, zero, suc, ◌+◌, ◌≤◌, ◌<◌, String, false, some, leb, ◌||◌, string_eq, if◌then◌else◌, ◌≡◌, refl,
  arith, ◌==◌, eq_refl, Bool-cases, inl, inr, ◌⊎◌, sym, subst, ◌∙◌, Option-cases,
}
use multi_bot_agentic.Prelude.Dict.{lookup}
use multi_bot_agentic.Guards.CircuitBreaker.{
  closed, opened, ToolBreaker, ToolCircuitBreaker, fresh, is_half_open, breaker, store, ticked,
  state, allow, maybe_transition_to_half_open, record_failure, record_success, now,
}
use multi_bot_agentic.Guards.CircuitBreaker.States.{
  Call, asks_state, asks, fails, succeeds, call, breaker-store, maybe-ticks, answer-ticks,
}

-- The tool fails `n` times in a row.
unfoldable pub failures : ℕ → ToolCircuitBreaker → String → ToolCircuitBreaker
failures zero c t = c
failures (suc n) c t = record_failure (failures n c t) t

-- After `n` failures in a row: closed below the threshold, else open.
abbrev Counts : ℕ → ℕ → ToolBreaker → Type 0
Counts k n b =
    (b.failure_count ≡ n) × (((n < k) × (b.state ≡ closed)) ⊎ ((k ≤ n) × (b.state ≡ opened)))

record_failure-threshold :
    (c : ToolCircuitBreaker) (t : String)
    → (record_failure c t).failure_threshold ≡ c.failure_threshold
unfolding record_failure
record_failure-threshold c t = ground arith

-- The breaker that a failure leaves.
abbrev failed : ToolCircuitBreaker → ToolBreaker → ToolBreaker
failed c b =
    if is_half_open b.state || leb c.failure_threshold (b.failure_count + 1)
    then record { state = opened; failure_count = b.failure_count + 1; opened_at = some (now c) }
    else record b { failure_count = b.failure_count + 1 }

breaker-ticked : (c : ToolCircuitBreaker) (t : String) → breaker (ticked c) t ≡ breaker c t
unfolding breaker
breaker-ticked c t = refl

breaker-record_failure :
    (c : ToolCircuitBreaker) (s t : String)
    → breaker (record_failure c s) t ≡ (if s == t then failed c (breaker c s) else breaker c t)
unfolding record_failure
breaker-record_failure c s t =
    elim (Bool-cases (
      is_half_open (breaker c s).state
      || leb c.failure_threshold ((breaker c s).failure_count + 1))) [
        | inl e ↦ rw e (
            breaker-ticked
              (store s
                (record {
                  state = opened;
                  failure_count = (breaker c s).failure_count + 1;
                  opened_at = some (now c);
                })
                c)
              t
            ∙ breaker-store c s t _)
        | inr e ↦ rw e (breaker-store c s t _)
      ]

failed-Counts :
    (c : ToolCircuitBreaker) (n : ℕ) (b : ToolBreaker)
    → Counts c.failure_threshold n b
    → Counts c.failure_threshold (suc n) (failed c b)
failed-Counts c n b h = ground arith

record_failure-Counts :
    (c : ToolCircuitBreaker) (t : String) (n : ℕ)
    → Counts c.failure_threshold n (breaker c t)
    → Counts c.failure_threshold (suc n) (breaker (record_failure c t) t)
record_failure-Counts c t n h =
    rw (breaker-record_failure c t t, eq_refl t) (failed-Counts c n (breaker c t) h)

failures-threshold :
    (n : ℕ) (c : ToolCircuitBreaker) (t : String)
    → (failures n c t).failure_threshold ≡ c.failure_threshold
unfolding failures
failures-threshold zero c t = refl
failures-threshold (suc n) c t = record_failure-threshold _ t ∙ failures-threshold n c t

failures-Counts :
    (n : ℕ) (c : ToolCircuitBreaker) (t : String)
    → 1 ≤ c.failure_threshold
    → breaker c t ≡ fresh
    → Counts c.failure_threshold n (breaker (failures n c t) t)
unfolding failures fresh
failures-Counts zero c t h e = rw e (refl, inl (h, refl))
failures-Counts (suc n) c t h e =
    subst (λ k. Counts k (suc n) (breaker (record_failure (failures n c t) t) t))
      (failures-threshold n c t)
      (record_failure-Counts (failures n c t) t n (
        subst (λ k. Counts k n (breaker (failures n c t) t)) (sym (failures-threshold n c t))
          (failures-Counts n c t h e)))

-- With a threshold of at least 1, a tool whose circuit is as new has it opened by the failure that
-- reaches the threshold and by none before it: after `n` failures in a row the circuit is open when
-- the threshold is at most `n`, and else closed.
pub failures-opened :
    (n : ℕ) (c : ToolCircuitBreaker) (t : String)
    → 1 ≤ c.failure_threshold
    → breaker c t ≡ fresh
    → ((n < c.failure_threshold) × ((breaker (failures n c t) t).state ≡ closed))
      ⊎ ((c.failure_threshold ≤ n) × ((breaker (failures n c t) t).state ≡ opened))
failures-opened n c t h e = (failures-Counts n c t h e).1

-- The tool that a call is about.
abbrev pub tool_of : Call → String
tool_of (asks_state t) = t
tool_of (asks t) = t
tool_of (fails t) = t
tool_of (succeeds t) = t

ticks-breaker :
    (c d : ToolCircuitBreaker) (t : String) → (d ≡ c) ⊎ (d ≡ ticked c) → breaker d t ≡ breaker c t
ticks-breaker c d t (inl e) = rw e refl
ticks-breaker c d t (inr e) = rw e (breaker-ticked c t)

probed-breaker :
    (c : ToolCircuitBreaker) (s t : String) (b : ToolBreaker)
    → (s == t) ≡ false
    → breaker
        (store s (maybe_transition_to_half_open c b).0 (maybe_transition_to_half_open c b).1)
        t
      ≡ breaker c t
probed-breaker c s t b e = breaker-store _ s t _ ∙ rw e (ticks-breaker c _ t (maybe-ticks c b))

state-breaker :
    (c : ToolCircuitBreaker) (s t : String)
    → (s == t) ≡ false
    → breaker (state c s).1 t ≡ breaker c t
unfolding state
state-breaker c s t e = elim (Option-cases (lookup s c.tools)) [
  | inl f ↦ rw (f, state) refl
  | inr (b, f) ↦ rw (f, state) (probed-breaker c s t b e)
]

-- A call about one tool, be it a question, a failure or a success, leaves every other tool's
-- breaker as it was.
pub call-breaker :
    (x : Call) (c : ToolCircuitBreaker) (t : String)
    → (tool_of x == t) ≡ false
    → breaker (call x c) t ≡ breaker c t
unfolding call allow record_success
call-breaker (asks_state s) c t e = state-breaker c s t e
call-breaker (asks s) c t e =
    ticks-breaker _ _ t (answer-ticks _ s (maybe_transition_to_half_open c (breaker c s)).0)
    ∙ probed-breaker c s t (breaker c s) e
call-breaker (fails s) c t e = breaker-record_failure c s t ∙ rw e refl
call-breaker (succeeds s) c t e = breaker-store c s t fresh ∙ rw e refl
