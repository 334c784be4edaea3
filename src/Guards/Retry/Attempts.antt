-- ===== src/Guards/Retry/Attempts.antt =====
-- retry_backoff.py: which calls of the function a run makes, and what it ends in.
use multi_bot_agentic.Prelude.{
  ℕ, zero, suc, ◌+◌, ◌-◌, ◌≤◌, ◌<◌, ◌≡◌, refl, sym, ap, subst, ◌∙◌, length, arith, ◌⊎◌, inl, inr,
}
use multi_bot_agentic.Exn.{Exn, Result, Result-cases, ok, err}
use multi_bot_agentic.Guards.Retry.{
  Floats, ToolRetryBackoffPolicy, Progress, called, failed, attempts, run,
}
use multi_bot_agentic.Guards.Retry.Delays.{failed_cases}

module _ (py : Floats) {A : Type 0} (fn : ℕ → Result A) where
  open py use {Float, power, uniform, round_to_6}

  abbrev pub IsErr : Result A → Type 0
  IsErr r = (e : Exn) × (r ≡ err e)

  -- The `j` calls from number `c` on fail.
  abbrev pub Fail : ℕ → ℕ → Type 0
  Fail c zero = Unit
  Fail c (suc j) = IsErr (fn c) × Fail (c + 1) j

  -- Of the `left` calls from number `c` on, the one that is the first to succeed ends the run.
  abbrev pub Succeeds : ℕ → ℕ → Result A × Progress py → Type 0
  Succeeds c left (r, s) =
      (j : ℕ) × (j < left)
      × Fail c j
      × (r ≡ fn (c + j))
      × ((a : A) × (r ≡ ok a))
      × (s.calls ≡ c + j + 1)
      × (length s.slept ≡ c + j)

  -- All of them fail, and the run ends in what the last one raised.
  abbrev pub Exhausts : ℕ → ℕ → Result A × Progress py → Type 0
  Exhausts c left (r, s) =
      Fail c left × (r ≡ fn (c + left - 1)) × (s.calls ≡ c + left) × (length s.slept ≡ c + left - 1)

  -- A call fails that is not the last of them, and the delay after it cannot be computed: the run ends
  -- in what `**` raises for the multiplier `m`, and makes no other call.
  abbrev pub Overflows : Float → ℕ → ℕ → Result A × Progress py → Type 0
  Overflows m c left (r, s) =
      (j : ℕ) × (suc j < left)
      × Fail c (suc j)
      × ((e : Exn) × (power m (c + j) ≡ err e) × (r ≡ err e))
      × (s.calls ≡ c + j + 1)
      × (length s.slept ≡ c + j)

  abbrev pub Ends : Float → ℕ → ℕ → Result A × Progress py → Type 0
  Ends m c left out = Succeeds c left out ⊎ (Exhausts c left out ⊎ Overflows m c left out)

  -- A failed call before.
  Ends-after :
      (m : Float) (c left : ℕ) (out : Result A × Progress py)
      → IsErr (fn c)
      → Ends m (c + 1) left out
      → 1 ≤ left
      → Ends m c (suc left) out
  Ends-after m c left (r, s) h (inl (j, few, fails, same, good, calls, slept)) k =
      inl (
        suc j,
        ground arith,
        (h, fails),
        same ∙ ap fn (omega arith),
        good,
        omega arith,
        omega arith,
      )
  Ends-after m c left (r, s) h (inr (inl (fails, same, calls, slept))) k =
      inr (inl ((h, fails), same ∙ ap fn (omega arith), omega arith, omega arith))
  Ends-after m c left (r, s) h (inr (inr (j, few, fails, (e, bad, same), calls, slept))) k = inr (
      inr (
        suc j,
        omega (arith, few),
        (h, fails),
        (e, ap (power m) (omega arith) ∙ bad, same),
        omega (arith, calls),
        omega (arith, slept),
      ))

  attempts_ok :
      (left attempt : ℕ) (last : Result A) (s : Progress py) (x : A)
      → fn s.calls ≡ ok x
      → attempts py fn (suc left) attempt last s ≡ (ok x, called py s)
  unfolding attempts
  attempts_ok left attempt last s x e = rw (e, attempts)

  attempts_err :
      (left attempt : ℕ) (last : Result A) (s : Progress py) (x : Exn)
      → fn s.calls ≡ err x
      → attempts py fn (suc left) attempt last s
        ≡ failed py fn attempt x (attempts py fn left (attempt + 1) (err x)) (called py s)
  unfolding attempts
  attempts_err left attempt last s x e = rw (e, attempts)

  attempts-Ends :
      (m : Float) (left attempt : ℕ) (last : Result A) (s : Progress py)
      → 1 ≤ left
      → attempt ≡ s.calls + 1
      → s.policy.max_attempts ≡ s.calls + left
      → s.policy.multiplier ≡ m
      → length s.slept ≡ s.calls
      → Ends m s.calls left (attempts py fn left attempt last s)
  attempts-Ends m zero attempt last s h a n f l = absurd (omega arith)
  attempts-Ends m (suc left) attempt last s h a n f l = elim (Result-cases (fn s.calls)) [
    | inr (x, e) ↦
        subst (Ends m s.calls (suc left)) (sym (attempts_ok left attempt last s x e)) (
          inl
            (0, omega arith, tt, sym e ∙ ap fn (omega arith), (x, refl), omega arith, omega arith))
    | inl (x, e) ↦
        subst (Ends m s.calls (suc left)) (sym (attempts_err left attempt last s x e))
          (elim (failed_cases py fn attempt x (attempts py fn left (attempt + 1) (err x))
            (called py s) (omega arith)) [
              | inl (stop, q) ↦
                  subst (Ends m s.calls (suc left)) (sym q) (last_fails x e (ground arith))
              | inr (inl (more, (y, bad, q))) ↦
                  subst (Ends m s.calls (suc left)) (sym q) (breaks x y e (ground arith) bad)
              | inr (inr (more, (t, q, mt, ft, ct, lt))) ↦
                  subst (Ends m s.calls (suc left)) (sym q) (
                    Ends-after m s.calls left (attempts py fn left (attempt + 1) (err x) t) (x, e)
                      (subst (λ c. Ends m c left (attempts py fn left (attempt + 1) (err x) t)) ct
                        (attempts-Ends m left (attempt + 1) (err x) t (ground arith) (ground arith)
                          (ground arith) (ft ∙ f) (ground arith)))
                      (ground arith))
            ])
  ]
    where
      last_fails :
          (x : Exn) → fn s.calls ≡ err x → left ≡ 0 → Ends m s.calls (suc left) (err x, called py s)
      last_fails x e z =
          rw z (inr (inl (((x, e), tt), sym e ∙ ap fn (omega arith), omega arith, omega arith)))

      breaks :
          (x y : Exn)
          → fn s.calls ≡ err x
          → 1 ≤ left
          → power s.policy.multiplier (attempt - 1) ≡ err y
          → Ends m s.calls (suc left) (err y, called py s)
      breaks x y e k bad = inr (
          inr (
            0,
            omega (arith, k),
            ((x, e), tt),
            (
              y,
              ap (λ z. power z (s.calls + 0)) (sym f)
                  ∙ ap (power s.policy.multiplier) (omega (arith, a))
                  ∙ bad,
              refl,
            ),
            omega arith,
            omega (arith, l),
          ))

  -- A run of a policy that allows at least one attempt, where `n` is the number it allows, ends in one
  -- of three ways. The function is called up to its first success, which is one of its first `n`
  -- calls, and its value is returned. Or its first `n` calls all fail, no other is made, and the
  -- exception of the last one is raised. Or a call that fails is not the last of the `n`, all calls
  -- before it failed too, and the multiplier's power for the delay after it raises: then no other call
  -- is made, and what the power raised is raised. There is one sleep fewer than there are calls.
  pub run-Ends :
      (p : ToolRetryBackoffPolicy py)
      → 1 ≤ p.max_attempts
      → Ends p.multiplier 0 p.max_attempts (run py fn p)
  unfolding run
  run-Ends p h =
      attempts-Ends p.multiplier p.max_attempts 1 _ _ h (omega arith) (omega arith) refl
        (omega arith)
