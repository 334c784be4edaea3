-- ===== src/Guards/Retry/Delays.antt =====
-- retry_backoff.py: what follows a failed call, by its delay.
use multi_bot_agentic.Prelude.{
  ℕ, ◌+◌, ◌-◌, ◌≤◌, ◌<◌, ◌≡◌, refl, ap, ◌∙◌, [], ◌∷◌, ◌++◌, length, length-append, leb, arith,
  if◌then◌else◌, ◌⊎◌, inl, inr, Bool-cases,
}
use multi_bot_agentic.Exn.{Exn, Result, Result-cases, ok, err}
use multi_bot_agentic.Guards.Retry.{
  Floats, RetryDecision, ToolRetryBackoffPolicy, Progress, next_delay, delay_after, retry_after,
  raw, failed,
}

module _ (py : Floats) {A : Type 0} (fn : ℕ → Result A) where
  open py use {Float, power, uniform, round_to_6}

  -- The policy after a delay that was computed, and the sleep.
  abbrev drawn : ToolRetryBackoffPolicy py → ToolRetryBackoffPolicy py
  drawn p = if p.jitter then record p { draws = p.draws + 1 } else p

  abbrev slept_after : Float → Progress py → Progress py
  slept_after grown s =
      let p = s.policy in
      record s {
        policy = drawn p;
        slept =
            s.slept
            ++ round_to_6 (if p.jitter then uniform p.draws (raw py p grown) else raw py p grown)
              ∷ [];
      }

  -- A failed call ends the run, with its exception or with that of the delay, or the run goes on.
  abbrev pub Stops : ℕ → Exn → (Progress py → Result A × Progress py) → Progress py → Type 0
  Stops attempt e go_on s =
      (s.policy.max_attempts ≤ attempt) × (failed py fn attempt e go_on s ≡ (err e, s))

  abbrev pub Breaks : ℕ → Exn → (Progress py → Result A × Progress py) → Progress py → Type 0
  Breaks attempt e go_on s =
      (attempt < s.policy.max_attempts)
      × ((x : Exn) × (power s.policy.multiplier (attempt - 1) ≡ err x)
          × (failed py fn attempt e go_on s ≡ (err x, s)))

  abbrev pub GoesOn : ℕ → Exn → (Progress py → Result A × Progress py) → Progress py → Type 0
  GoesOn attempt e go_on s =
      (attempt < s.policy.max_attempts)
      × ((t : Progress py) × (failed py fn attempt e go_on s ≡ go_on t)
          × (t.policy.max_attempts ≡ s.policy.max_attempts)
          × (t.policy.multiplier ≡ s.policy.multiplier)
          × (t.calls ≡ s.calls)
          × (length t.slept ≡ length s.slept + 1))

  next_delay_more :
      (attempt : ℕ) (p : ToolRetryBackoffPolicy py)
      → 1 ≤ attempt
      → attempt < p.max_attempts
      → next_delay py attempt p ≡ delay_after py attempt p (power p.multiplier (attempt - 1))
  unfolding next_delay
  next_delay_more attempt p h more = ground arith

  -- The delay before rounding.
  abbrev sleep_of : Float → ToolRetryBackoffPolicy py → Float
  sleep_of grown p = if p.jitter then uniform p.draws (raw py p grown) else raw py p grown

  delay_after_ok :
      (attempt : ℕ) (p : ToolRetryBackoffPolicy py) (grown : Float)
      → delay_after py attempt p (ok grown)
        ≡ (ok (retry_after py attempt (sleep_of grown p)), drawn p)
  unfolding delay_after
  delay_after_ok attempt p grown = elim (Bool-cases p.jitter) [
    | inl h ↦ rw h refl
    | inr h ↦ rw h refl
  ]

  abbrev Delayed : Type 0
  Delayed = Result (RetryDecision py) × ToolRetryBackoffPolicy py

  failed_stop :
      (attempt : ℕ) (e : Exn) (go_on : Progress py → Result A × Progress py) (s : Progress py)
      → 1 ≤ attempt
      → s.policy.max_attempts ≤ attempt
      → failed py fn attempt e go_on s ≡ (err e, s)
  unfolding failed next_delay
  failed_stop attempt e go_on s h stop = ground arith

  failed_break :
      (attempt : ℕ) (e : Exn) (go_on : Progress py → Result A × Progress py) (s : Progress py)
      (x : Exn)
      → next_delay py attempt s.policy ≡ (err x, s.policy)
      → failed py fn attempt e go_on s ≡ (err x, s)
  unfolding failed
  failed_break attempt e go_on s x bad =
      rw (bad, failed) (ap (λ (d : Delayed). (err x, record s { policy = d.1 })) bad)

  failed_go :
      (attempt : ℕ) (e : Exn) (go_on : Progress py → Result A × Progress py) (s : Progress py)
      (g : Float)
      → next_delay py attempt s.policy
        ≡ (ok (retry_after py attempt (sleep_of g s.policy)), drawn s.policy)
      → failed py fn attempt e go_on s ≡ go_on (slept_after g s)
  unfolding failed
  failed_go attempt e go_on s g good =
      rw (good, failed)
        (ap
          (λ (d : Delayed).
            go_on
              (record s { policy = d.1; slept = s.slept ++ round_to_6 (sleep_of g s.policy) ∷ [] }))
          good)

  drawn-max_attempts : (p : ToolRetryBackoffPolicy py) → (drawn p).max_attempts ≡ p.max_attempts
  drawn-max_attempts p = ground arith

  drawn-multiplier : (p : ToolRetryBackoffPolicy py) → (drawn p).multiplier ≡ p.multiplier
  drawn-multiplier p = ground arith

  broken :
      (attempt : ℕ) (p : ToolRetryBackoffPolicy py) (r : Result Float) (x : Exn)
      → r ≡ err x
      → delay_after py attempt p r ≡ (err x, p)
  unfolding delay_after
  broken attempt p r x e = rw e refl

  pub failed_cases :
      (attempt : ℕ) (e : Exn) (go_on : Progress py → Result A × Progress py) (s : Progress py)
      → 1 ≤ attempt
      → Stops attempt e go_on s ⊎ (Breaks attempt e go_on s ⊎ GoesOn attempt e go_on s)
  failed_cases attempt e go_on s h = elim (Bool-cases (leb s.policy.max_attempts attempt)) [
    | inl stop ↦ inl (ground arith, failed_stop attempt e go_on s h (ground arith))
    | inr further ↦
        let more : attempt < s.policy.max_attempts = ground arith in
        let delayed = next_delay_more attempt s.policy h more in
        elim (Result-cases (power s.policy.multiplier (attempt - 1))) [
          | inl (x, bad) ↦ inr (
              inl (
                more,
                (
                  x,
                  bad,
                  failed_break attempt e go_on s x (delayed ∙ broken attempt s.policy _ x bad),
                ),
              ))
          | inr (g, good) ↦ inr (
              inr (
                more,
                (
                  slept_after g s,
                  failed_go attempt e go_on s g (
                      delayed
                      ∙ ap (delay_after py attempt s.policy) good
                      ∙ delay_after_ok attempt s.policy g),
                  drawn-max_attempts s.policy,
                  drawn-multiplier s.policy,
                  refl,
                  length-append s.slept _,
                ),
              ))
        ]
  ]
