-- ===== src/Runner/Budget.antt =====
-- The step budget: the pass at the last step never goes on, so the loop always ends by a decision,
-- a cancellation or an error, and never by running out of its range.
use multi_bot_agentic.Prelude.{
  ℕ, zero, suc, ◌+◌, ◌-◌, ◌≤◌, ◌<◌, String, ◌≡◌, refl, ◌≢◌, Bool, true, false, Option, none, some,
  List, last?, leb, arith, Option-cases, inl, inr,
}
use multi_bot_agentic.Exn.{Result, ok, err}
use multi_bot_agentic.Json.{Conversions}
use multi_bot_agentic.Models.{Observation, Decision, DecisionAction, RunState}
use multi_bot_agentic.Models
use multi_bot_agentic.Lifecycle.{is_terminal}
use multi_bot_agentic.Safety.{SafetyPolicy}
use multi_bot_agentic.Decision.{Engine, decide}
use multi_bot_agentic.Runner.{
  AgentRunner, History, Exec, RunResult, Pass, ended, again, pass, passes, follow,
  observe_and_decide, decide_now, transition, pure, ◌>>=◌, is_cancelled, go_on,
}
use multi_bot_agentic.Runner.State
use multi_bot_agentic.Runner.Rules.{
  Ends, Runs, Runs-bind, Keeps, Keeps-Runs-bind, Keeps-gets, Keeps-lift, Runs-if,
}
use multi_bot_agentic.Runner.LoopRules.{LoopRules}
use multi_bot_agentic.Runner.Invariant.{After, transition-Keeps, log_observations-Keeps, pass-Runs}
use multi_bot_agentic.Runner.Frame.{FrameRules, FrameRules-loop, Holds}

le→leb : (m n : ℕ) → m ≤ n → leb m n ≡ true
le→leb m n h = ground arith

Keeps-Runs_lem : (P : State.World → Type 0) (m : Exec RunResult) → Runs P m (λ _ w. P w) → Keeps P m
Keeps-Runs_lem P m k = record { at = λ w h. kept (m w) (k.at w h) }
  where
    kept : (x : Result RunResult × State.World) → Ends (λ _ v. P v) (λ _ v. P v) x → P x.1
    kept (ok r, v) h = h
    kept (err e, v) h = h

-- The policy's budget is `k`.
abbrev HasBudget : ℕ → SafetyPolicy → Option String → History → Type 0
HasBudget k p b h = p.max_steps ≡ k

module _ (py : Conversions) (a : AgentRunner) (run_id goal : String) (k : ℕ) where
  HasBudget-rules : FrameRules a (HasBudget k)
  HasBudget-rules = record {
    quiet = λ q p b h e x. x;
    asks = λ q t p b h x. x;
    runs = λ n i p b h c x. x;
    enters = λ n bot p b h e x. x;
  }

  abbrev I : State.World → Type 0
  I = Holds (HasBudget k)

  loop_rules : LoopRules py a run_id I (λ _ w. I w)
  loop_rules = FrameRules-loop py a run_id (HasBudget k) HasBudget-rules

  -- A decision that ends the run.
  abbrev IsLast : DecisionAction → Type 0
  IsLast Models.finish = Unit
  IsLast Models.cancel = Unit
  IsLast _ = ⊥

  abbrev LastResult : Result Decision → Type 0
  LastResult (ok d) = IsLast d.action
  LastResult (err e) = Unit

  decide-LastResult :
      (g : Engine) (stop : Bool) (os : List Observation) (step : ℕ) (p : SafetyPolicy)
      → p.max_steps ≤ step + 1
      → LastResult (decide g stop os step p)
  unfolding decide
  decide-LastResult g true os step p h = tt
  decide-LastResult g false os step p h = elim (Option-cases (last? os)) [
    | inl e ↦ rw (e, decide) tt
    | inr (o, e) ↦ rw (e, decide) (rw (le→leb p.max_steps (step + 1) h) tt)
  ]

  -- After the last pass no further pass follows.
  abbrev Stops : Pass → State.World → Type 0
  Stops (ended r) w = Unit
  Stops (again os) w = ⊥

  ending-Stops : (m : Exec RunResult) → Keeps I m → Runs I (m >>= λ r. pure (ended r)) Stops
  unfolding pure
  ending-Stops m h = Keeps-Runs-bind {R = Stops} _ _ h (λ r. record { at = λ v q. tt })

  follow-Stops :
      (step : ℕ) (os : List Observation) (d : Decision) (c : DecisionAction)
      → IsLast c
      → Runs I (follow py a run_id goal step os d c) Stops
  unfolding follow
  follow-Stops step os d Models.finish h =
      ending-Stops _ (Keeps-Runs_lem _ _ (loop_rules.succeeds _ _))
  follow-Stops step os d Models.cancel h =
      ending-Stops _ (Keeps-Runs_lem _ _ (loop_rules.cancels _ _))
  follow-Stops step os d Models.call_llm h = absurd h
  follow-Stops step os d Models.call_tool h = absurd h
  follow-Stops step os d Models.handoff h = absurd h
  follow-Stops step os d Models.fail h = absurd h

  decide_now-IsLast :
      (step : ℕ) (os : List Observation)
      → k ≤ step + 1
      → Runs I (decide_now py a run_id goal step os) (λ d w. IsLast d.action × I w)
  unfolding decide_now ◌>>=◌ is_cancelled
  decide_now-IsLast step os h = record {
    at = λ w b. decided _ _ b (decide-LastResult _ _ os step w.policy (omega (arith, b)));
  }
    where
      decided :
          (r : Result Decision) (w : State.World)
          → I w
          → LastResult r
          → Ends (λ d v. IsLast d.action × I v) (λ _ v. I v) (r, w)
      decided (ok d) w b l = (l, b)
      decided (err e) w b l = b

  observe_and_decide-Stops :
      (step : ℕ) (os : List Observation)
      → k ≤ step + 1
      → Runs I (observe_and_decide py a run_id goal step os) Stops
  unfolding observe_and_decide is_terminal
  observe_and_decide-Stops step os h =
      Keeps-Runs-bind {R = Stops} _ _ (move_to Models.observing refl) λ _.
        Keeps-Runs-bind {R = Stops} _ _
          (log_observations-Keeps py a run_id goal I (λ _ w. I w) loop_rules os)
          λ _. Keeps-Runs-bind {R = Stops} _ _ (move_to Models.deciding refl) λ _.
            Runs-bind {Q = λ d w. IsLast d.action × I w} {R = Stops} _ _
              (decide_now-IsLast step os h)
              λ d v q.
                (Keeps-Runs-bind {R = Stops} _ _ (Keeps-gets _) λ st.
                    Keeps-Runs-bind {R = Stops} _ _ (loop_rules.logs _ _ _ refl)
                      λ _. follow-Stops step os d d.action q.0).at
                  v q.1
    where
      move_to :
          (s : RunState)
          → is_terminal (record { state = s }) ≡ false
          → Keeps I (transition py a run_id s)
      move_to s e = transition-Keeps py a run_id goal I (λ _ w. I w) loop_rules s e

  pass-Stops :
      (step : ℕ) (os : List Observation)
      → k ≤ step + 1
      → Runs I (pass py a run_id goal step os) Stops
  unfolding pass
  pass-Stops step os h = Keeps-Runs-bind {R = Stops} _ _ (Keeps-gets _) λ policy.
      Keeps-Runs-bind {R = Stops} _ _ (Keeps-lift _) λ _.
        Keeps-Runs-bind {R = Stops} _ _ loop_rules.stats λ stop.
          Runs-if stop _ _ (ending-Stops _ (Keeps-Runs_lem _ _ (loop_rules.cancels _ _)))
            (observe_and_decide-Stops step os h)

  abbrev ResultGiven : Option RunResult → State.World → Type 0
  ResultGiven none w = ⊥
  ResultGiven (some r) w = Unit

  passes-ResultGiven :
      (n step : ℕ) (os : List Observation)
      → k ≤ step + suc n
      → Runs I (passes py a run_id goal (suc n) step os) ResultGiven
  unfolding passes pure
  passes-ResultGiven zero step os h =
      Runs-bind {Q = Stops} {R = ResultGiven} _ _ (pass-Stops step os (omega arith)) last
    where
      last :
          (p : Pass) (v : State.World)
          → Stops p v
          → Ends ResultGiven
              (λ _ u. I u)
              (go_on py a run_id goal (λ more. passes py a run_id goal zero (step + 1) more) p v)
      last (ended r) v q = tt
      last (again more) v q = absurd q
  passes-ResultGiven (suc n) step os h =
      Runs-bind {Q = After py a run_id goal I (λ _ w. I w) loop_rules} {R = ResultGiven} _ _
        (pass-Runs py a run_id goal I (λ _ w. I w) loop_rules step os)
        (next (λ more. passes-ResultGiven n (step + 1) more (omega arith)))
    where
      next :
          ((more : List Observation)
            → Runs I (passes py a run_id goal (suc n) (step + 1) more) ResultGiven)
          → (p : Pass) (v : State.World) → After py a run_id goal I (λ _ w. I w) loop_rules p v
          → Ends ResultGiven
              (λ _ u. I u)
              (go_on py a run_id goal (λ more. passes py a run_id goal (suc n) (step + 1) more) p v)
      next ih (ended r) v q = tt
      next ih (again more) v q = (ih more).at v q

-- Started below the budget, the loop's range is never used up without a result: the pass at the
-- last step finishes, is cancelled or raises. The line after the loop, which fails the run because
-- its step budget is exhausted, is reached only by a run that starts at or past its budget.
pub passes-ne-none :
    (py : Conversions) (a : AgentRunner) (run_id goal : String) (start : ℕ) (os : List Observation)
    (w : State.World)
    → start < w.policy.max_steps
    → (passes py a run_id goal (w.policy.max_steps - start) start os w).0 ≢ ok none
passes-ne-none py a run_id goal start os w h =
    let left : w.policy.max_steps - start ≡ suc (w.policy.max_steps - start - 1) = omega arith in
    rw left (
      given (passes py a run_id goal (suc (w.policy.max_steps - start - 1)) start os w) (
        (passes-ResultGiven py a run_id goal w.policy.max_steps (w.policy.max_steps - start - 1)
            start os (omega arith)).at
          w refl))
  where
    given :
        (x : Result (Option RunResult) × State.World)
        → Ends
            (ResultGiven py a run_id goal w.policy.max_steps)
            (λ _ v. Holds (HasBudget w.policy.max_steps) v)
            x
        → x.0 ≢ ok none
    given (ok none, v) h e = h
    given (ok (some r), v) h e = cc
    given (err x, v) h e = cc
