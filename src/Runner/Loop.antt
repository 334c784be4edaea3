-- ===== src/Runner/Loop.antt =====
-- runner.py: `AgentRunner._run_loop`.
use multi_bot_agentic.Prelude.{
  ℕ, zero, suc, ◌+◌, ◌-◌, String, Bool, true, false, Option, none, some, List, [], ◌∷◌, ◌++◌,
  if◌then◌else◌,
}
use multi_bot_agentic.Exn.{Exn, Result, ok, err, message}
use multi_bot_agentic.Json.{pos, Conversions, str}
use multi_bot_agentic.Models.{
  RunState, observing, deciding, acting, EventType, observation as observation_event,
  decision as decision_event, Observation, Decision, DecisionAction, call_llm, call_tool,
  observation_to_dict, decision_to_dict,
}
use multi_bot_agentic.Models
use multi_bot_agentic.Safety.{validate_step}
use multi_bot_agentic.Decision.{Engine, decide}
use multi_bot_agentic.Checkpoint.{to_payload, get}
use multi_bot_agentic.Json.{to_str}
use multi_bot_agentic.Runner.State.{
  AgentRunner, Exec, pure, raise, lift, gets, ◌>>=◌, ◌>>◌, log_event, is_cancelled,
}
use multi_bot_agentic.Runner.Actions.{RunResult, transition, succeed, cancel, fail, handoff, act}

-- Whether `except (InvalidTransitionError, SafetyError, OSError, RuntimeError, ValueError)` takes it.
unfoldable pub is_caught : Exn → Bool
is_caught (Exn.key_error m) = false
is_caught (Exn.type_error m) = false
is_caught (Exn.other_error m) = false
is_caught _ = true

-- One pass of the loop's body returns from the method, or goes on with more observations.
pub data Pass : Type 0 where
  ended : RunResult → Pass
  again : List Observation → Pass

module _ (py : Conversions) (a : AgentRunner) (run_id goal : String) where
  -- `self.decision_engine`
  abbrev pub engine : Engine
  engine = record { provider_name = a.provider_name; bots = a.bots }

  unfoldable pub log_observations : List Observation → Exec (Unit {0})
  log_observations [] = pure tt
  log_observations (o ∷ os) = do
    state ← gets (λ w. w.machine.state)
    log_event a run_id state observation_event (observation_to_dict o)
    log_observations os

  -- `self.decision_engine.decide(observations, step, self.safety_policy)`
  unfoldable pub decide_now : ℕ → List Observation → Exec Decision
  decide_now step observations = do
    policy ← gets (λ w. w.policy)
    stop ← is_cancelled a
    lift (decide engine stop observations step policy)

  -- The snapshot that `save_checkpoint` takes after a step.
  unfoldable pub save_step : ℕ → List Observation → Exec (Unit {0})
  save_step step observations = do
    state ← gets (λ w. w.machine.state)
    bot ← gets (λ w. w.active_bot_id)
    log_event a run_id state Models.checkpoint (
        to_payload (record {
          run_id = run_id;
          goal = goal;
          step = pos (step + 1);
          state = state;
          observations = observations;
          active_bot_id = bot;
        }))

  -- `_handoff` or `_act`, the checkpoint, and the next pass.
  unfoldable pub perform : ℕ → List Observation → Decision → Exec Pass
  perform step observations d = do
    transition py a run_id acting
    state ← gets (λ w. w.machine.state)
    new_observation ← elim d.action as (λ _. Exec Observation) [
      | Models.handoff ↦ handoff py a run_id state d
      | _ ↦ act py a run_id state goal observations d
    ]
    save_step step (observations ++ new_observation ∷ [])
    pure (again (observations ++ new_observation ∷ []))

  -- What the decision's action leads to.
  unfoldable pub follow : ℕ → List Observation → Decision → DecisionAction → Exec Pass
  follow step observations d Models.finish = do
    r ← succeed py a run_id (pos (step + 1)) d
    pure (ended r)
  follow step observations d Models.cancel = do
    r ← cancel py a run_id (pos (step + 1)) (to_str py (get "reason" (str "cancelled") d.payload))
    pure (ended r)
  follow step observations d Models.fail = do
    r ← fail py a run_id (pos (step + 1)) (to_str py (get "reason" (str "failed") d.payload))
    pure (ended r)
  follow step observations d other = perform step observations d

  -- The pass after the check for cancellation.
  unfoldable pub observe_and_decide : ℕ → List Observation → Exec Pass
  observe_and_decide step observations = do
    transition py a run_id observing
    log_observations observations
    transition py a run_id deciding
    d ← decide_now step observations
    state ← gets (λ w. w.machine.state)
    log_event a run_id state decision_event (decision_to_dict d)
    follow step observations d d.action

  unfoldable pub pass : ℕ → List Observation → Exec Pass
  pass step observations = do
    policy ← gets (λ w. w.policy)
    lift (validate_step policy step)
    stop ← is_cancelled a
    (if stop
        then cancel py a run_id (pos step) "cancellation requested" >>= (λ r. pure (ended r))
        else observe_and_decide step observations)

  -- What the loop does after a pass.
  abbrev pub go_on : (List Observation → Exec (Option RunResult)) → Pass → Exec (Option RunResult)
  go_on rest (ended r) = pure (some r)
  go_on rest (again observations) = rest observations

  -- `for step in range(…)`, by the number of passes that the range still holds.
  unfoldable pub passes : ℕ → ℕ → List Observation → Exec (Option RunResult)
  passes zero step observations = pure none
  passes (suc n) step observations =
      pass step observations >>= go_on (λ more. passes n (step + 1) more)

  -- The end of `_run_loop`, given how the `try` block ended.
  unfoldable pub conclude : Result (Option RunResult) → Exec RunResult
  conclude (ok (some r)) = pure r
  conclude (ok none) = do
    budget ← gets (λ w. w.policy.max_steps)
    fail py a run_id (pos budget) "step budget exhausted"
  conclude (err e) =
      if is_caught e
      then (gets (λ w. w.policy.max_steps) >>= λ budget. fail py a run_id (pos budget) (message e))
      else raise e

  unfoldable pub run_loop : ℕ → List Observation → Exec RunResult
  run_loop start_step observations w =
      let (r, w') = passes (w.policy.max_steps - start_step) start_step observations w in
      conclude r w'
