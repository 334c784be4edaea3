-- ===== src/Guards/Retry.antt =====
-- src/multi_bot_agentic/retry_backoff.py: retries with a growing, jittered delay. Python's floats and
-- the random generator are the parameter `py`; the function that is retried is given by what each of
-- its calls does, the first one being number 0, and a sleep returns.
pub mod Delays
pub mod Attempts
use multi_bot_agentic.Prelude.{
  ℕ, zero, suc, ◌+◌, ◌-◌, Bool, true, false, List, [], ◌∷◌, ◌++◌, leb, ltb, if◌then◌else◌,
}
use multi_bot_agentic.Exn.{Exn, Result, ok, err, value_error, other_error, raise_if, ◌>>◌}

-- What the delays need of floats. `power` is `**`, which raises `OverflowError` where the result is too
-- large; `uniform i x` is the generator's draw number `i` from [0, x].
pub record Floats : Type 1 where
  pub Float : Type 0
  pub zero_float : Float
  pub one_float : Float
  pub le : Float → Float → Bool
  pub lt : Float → Float → Bool
  pub times : Float → Float → Float
  pub power : Float → ℕ → Result Float
  pub minimum : Float → Float → Float
  pub round_to_6 : Float → Float
  pub uniform : ℕ → Float → Float

module _ (py : Floats) where
  open py use {Float, zero_float, one_float, le, lt, times, power, minimum, round_to_6, uniform}

  pub record RetryDecision : Type 0 where
    pub attempt : ℕ
    pub should_retry : Bool
    pub sleep_seconds : Float

  -- `draws` counts what the generator has given.
  pub record ToolRetryBackoffPolicy : Type 0 where
    pub max_attempts : ℕ
    pub base_seconds : Float
    pub multiplier : Float
    pub max_seconds : Float
    pub jitter : Bool
    pub draws : ℕ

  unfoldable pub init : ℕ → Float → Float → Float → Bool → Result ToolRetryBackoffPolicy
  init max_attempts base_seconds multiplier max_seconds jitter = do
    raise_if (ltb max_attempts 1) (value_error "max_attempts must be >= 1")
    raise_if (le base_seconds zero_float) (value_error "base_seconds must be > 0")
    raise_if (lt multiplier one_float) (value_error "multiplier must be >= 1")
    raise_if (le max_seconds zero_float) (value_error "max_seconds must be > 0")
    ok (record {
      max_attempts = max_attempts;
      base_seconds = base_seconds;
      multiplier = multiplier;
      max_seconds = max_seconds;
      jitter = jitter;
      draws = 0;
    })

  -- The delay before jitter and rounding, if the power is computed.
  abbrev pub raw : ToolRetryBackoffPolicy → Float → Float
  raw p grown = minimum p.max_seconds (times p.base_seconds grown)

  abbrev pub retry_after : ℕ → Float → RetryDecision
  retry_after attempt sleep = record {
    attempt = attempt;
    should_retry = true;
    sleep_seconds = round_to_6 sleep;
  }

  -- The end of `next_delay`, for `multiplier ** (attempt - 1)`.
  unfoldable pub delay_after :
      ℕ → ToolRetryBackoffPolicy → Result Float → Result RetryDecision × ToolRetryBackoffPolicy
  delay_after attempt p (err raised) = (err raised, p)
  delay_after attempt p (ok grown) =
      if p.jitter
      then (
        ok (retry_after attempt (uniform p.draws (raw p grown))),
        record p { draws = p.draws + 1 },
      )
      else (ok (retry_after attempt (raw p grown)), p)

  unfoldable pub next_delay :
      ℕ → ToolRetryBackoffPolicy → Result RetryDecision × ToolRetryBackoffPolicy
  unfolding delay_after
  next_delay attempt p =
      if ltb attempt 1
      then (err (value_error "attempt must be a positive int"), p)
      else if leb p.max_attempts attempt
      then (ok (record { attempt = attempt; should_retry = false; sleep_seconds = zero_float }), p)
      else delay_after attempt p (power p.multiplier (attempt - 1))

  -- What a run of the policy has done: the calls of the function, and the sleeps, the first one first.
  pub record Progress : Type 0 where
    pub policy : ToolRetryBackoffPolicy
    pub calls : ℕ
    pub slept : List Float

  abbrev pub called : Progress → Progress
  called s = record s { calls = s.calls + 1 }

  module _ {A : Type 0} (fn : ℕ → Result A) where
    -- The `except` block: `go_on` is the rest of the loop.
    unfoldable pub failed :
        ℕ → Exn → (Progress → Result A × Progress) → Progress → Result A × Progress
    unfolding next_delay
    failed attempt e go_on s =
        let (decision, policy) = next_delay attempt s.policy in
        elim decision [
          | err raised ↦ (err raised, record s { policy = policy })
          | ok d ↦
              if d.should_retry
              then go_on (record s { policy = policy; slept = s.slept ++ d.sleep_seconds ∷ [] })
              else (err e, record s { policy = policy })
        ]

    -- The rounds of the loop that are left, from an attempt on; the `assert` and `raise` after it.
    unfoldable pub attempts : ℕ → ℕ → Result A → Progress → Result A × Progress
    unfolding failed
    attempts zero attempt last s = (last, s)
    attempts (suc left) attempt last s = elim (fn s.calls) [
      | ok a ↦ (ok a, called s)
      | err e ↦ failed attempt e (attempts left (attempt + 1) (err e)) (called s)
    ]

    unfoldable pub run : ToolRetryBackoffPolicy → Result A × Progress
    unfolding attempts
    run p =
        attempts p.max_attempts 1 (err (other_error "AssertionError"))
          (record { policy = p; calls = 0; slept = [] })
