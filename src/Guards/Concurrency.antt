-- ===== src/Guards/Concurrency.antt =====
-- src/multi_bot_agentic/concurrency_limiter.py: a cap on the tool calls in flight. The condition's
-- lock makes each method one step, except that a waiting `acquire` gives the lock up in `wait`: the
-- other threads' calls then come between. Times are milliseconds.
pub mod Bounds
use multi_bot_agentic.Prelude.{
  ℕ, ◌+◌, ◌-◌, Bool, true, false, Option, none, some, List, [], ◌∷◌, ltb, leb, ◌&&◌, if◌then◌else◌,
}
use multi_bot_agentic.Exn.{Result, ok, err, value_error, runtime_error, raise_if, ◌>>◌}
use multi_bot_agentic.Json.{ℤ, pos, negsuc}
use multi_bot_agentic.Guards.{Outcome}

pub record ConcurrencySnapshot : Type 0 where
  pub in_flight : ℕ
  pub effective_limit : ℕ
  pub error_streak : ℕ

pub record AdaptiveConcurrencyLimiter : Type 0 where
  pub max_in_flight : ℕ
  pub min_in_flight : ℕ
  pub adaptive : Bool
  pub effective_limit : ℕ
  pub in_flight : ℕ
  pub error_streak : ℕ

unfoldable pub init : ℕ → ℕ → Bool → Result AdaptiveConcurrencyLimiter
init max_in_flight min_in_flight adaptive = do
  raise_if (ltb max_in_flight 1) (value_error "max_in_flight must be >= 1")
  raise_if (ltb min_in_flight 1) (value_error "min_in_flight must be >= 1")
  raise_if (ltb max_in_flight min_in_flight) (value_error "min_in_flight must be <= max_in_flight")
  ok (record {
    max_in_flight = max_in_flight;
    min_in_flight = min_in_flight;
    adaptive = adaptive;
    effective_limit = max_in_flight;
    in_flight = 0;
    error_streak = 0;
  })

-- `self._in_flight >= self._effective_limit`
abbrev pub is_full : AdaptiveConcurrencyLimiter → Bool
is_full l = leb l.effective_limit l.in_flight

-- `self._in_flight += 1`
abbrev pub enter : AdaptiveConcurrencyLimiter → AdaptiveConcurrencyLimiter
enter l = record l { in_flight = l.in_flight + 1 }

-- `release`, after its check.
unfoldable pub leave : AdaptiveConcurrencyLimiter → Bool → AdaptiveConcurrencyLimiter
leave l true = record l {
  in_flight = l.in_flight - 1;
  error_streak = 0;
  effective_limit =
      if l.adaptive && ltb l.effective_limit l.max_in_flight
      then l.effective_limit + 1
      else l.effective_limit;
}
leave l false = record l {
  in_flight = l.in_flight - 1;
  error_streak = l.error_streak + 1;
  effective_limit =
      if l.adaptive && ltb l.min_in_flight l.effective_limit
      then l.effective_limit - 1
      else l.effective_limit;
}

unfoldable pub release :
    AdaptiveConcurrencyLimiter → Bool → Outcome AdaptiveConcurrencyLimiter (Unit {0})
unfolding leave
release l success =
    if leb l.in_flight 0
    then (err (runtime_error "release called with nothing in flight"), l)
    else (ok tt, leave l success)

unfoldable pub snapshot : AdaptiveConcurrencyLimiter → ConcurrencySnapshot
snapshot l = record {
  in_flight = l.in_flight;
  effective_limit = l.effective_limit;
  error_streak = l.error_streak;
}

-- One round of a waiting loop: the clock's reading before `wait`, what the other threads' calls make
-- of the object while the lock is given up, and what `wait` answers.
pub record Round : Type 0 where
  pub reading : ℕ
  pub others : AdaptiveConcurrencyLimiter → AdaptiveConcurrencyLimiter
  pub notified : Bool

-- A deadline has passed: `deadline_at - monotonic() <= 0`.
abbrev pub is_past : Option ℕ → ℕ → Bool
is_past none reading = false
is_past (some deadline_at) reading = leb deadline_at reading

-- The loop goes on after `wait`: without a deadline always, else if it was notified.
abbrev pub goes_on : Option ℕ → Bool → Bool
goes_on none notified = true
goes_on (some deadline_at) notified = notified

-- The two `while` loops, one with a deadline and one without. The answer is none while the rounds
-- given have not ended the wait.
unfoldable pub wait_for_slot :
    Option ℕ → List Round → AdaptiveConcurrencyLimiter → Option Bool × AdaptiveConcurrencyLimiter
wait_for_slot deadline [] l = if is_full l then (none, l) else (some true, enter l)
wait_for_slot deadline (r ∷ rs) l =
    let rest = wait_for_slot deadline rs (r.others l) in
    if is_full l
    then (if is_past deadline r.reading
        then (some false, l)
        else if goes_on deadline r.notified
        then rest
        else (some false, r.others l))
    else (some true, enter l)

-- `acquire`, after the check of `timeout`; `start` is the clock's reading that the deadline counts
-- from.
unfoldable pub take_slot :
    AdaptiveConcurrencyLimiter
    → Bool
    → Option ℕ
    → ℕ
    → List Round
    → Option Bool × AdaptiveConcurrencyLimiter
unfolding wait_for_slot
take_slot l false timeout start rounds = if is_full l then (some false, l) else (some true, enter l)
take_slot l true none start rounds = wait_for_slot none rounds l
take_slot l true (some timeout) start rounds = wait_for_slot (some (start + timeout)) rounds l

unfoldable pub acquire :
    AdaptiveConcurrencyLimiter
    → Bool
    → Option ℤ
    → ℕ
    → List Round
    → Outcome AdaptiveConcurrencyLimiter (Option Bool)
unfolding take_slot
acquire l blocking (some (negsuc _)) start rounds = (err (value_error "timeout must be >= 0"), l)
acquire l blocking (some (pos timeout)) start rounds =
    let r = take_slot l blocking (some timeout) start rounds in (ok r.0, r.1)
acquire l blocking none start rounds =
    let r = take_slot l blocking none start rounds in (ok r.0, r.1)
