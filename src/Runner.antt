-- ===== src/Runner.antt =====
-- src/multi_bot_agentic/runner.py: `AgentRunner`, with its constructor, `run` and `resume`.
mod State
mod Actions
mod Loop
pub mod Rules
pub mod LoopRules
pub mod Invariant
pub mod Recorded
pub mod Outcome
pub mod Resume
pub mod Frame
pub mod Scope
pub mod Budget
pub mod Saving
pub mod Tests
pub use State.*
unfoldable pub use State.{pure, raise, lift, gets, modify, ◌>>=◌, log_event, uuid, is_cancelled}
pub use Actions.*
unfoldable pub use Actions.{
  move, transition, finish_with, succeed, cancel, fail, target_bot, handoff, visible_tool_specs,
  ask_provider, run_tool, act_llm, find_tool, invoke, act_tool, act_on, act,
}
pub use Loop.*
unfoldable pub use Loop.{
  is_caught, log_observations, decide_now, save_step, perform, follow, observe_and_decide, pass,
  passes, conclude, run_loop,
}
use Prim.Native.String.{◌++◌}
use multi_bot_agentic.Prelude.{
  ℕ, String, Bool, true, false, Option, none, some, List, [], ◌∷◌, if◌then◌else◌, ◌==◌, string_eq,
}
use multi_bot_agentic.Prelude.Dict.{Dict, lookup}
use multi_bot_agentic.Prelude.Text.{strip, is_empty}
use multi_bot_agentic.Exn.{Exn, Result, ok, err, value_error, raise_if}
use multi_bot_agentic.Json.{ℤ, pos, negsuc, Json, Conversions, bool, int, str, null, to_str}
use multi_bot_agentic.Models.{
  RunState, created, succeeded, failed, cancelled, event_value, run_created, run_completed,
  run_failed, run_cancelled, Observation,
}
use multi_bot_agentic.Bots.{BotSpec}
use multi_bot_agentic.Safety.{SafetyPolicy, validate_goal}
use multi_bot_agentic.EventLog.{EventRecord, EventLog, list_events}
use multi_bot_agentic.Checkpoint.{CheckpointSnapshot, load_latest_checkpoint, get}

-- `__init__`: the world of a new runner. A given active bot must be registered and sets the scope.
unfoldable pub init : AgentRunner → SafetyPolicy → EventLog → Option String → Result World
init a policy log none = ok (record {
  log = log;
  history = [];
  policy = policy;
  active_bot_id = none;
  machine = record { state = created };
})
init a policy log (some b) = elim (lookup b a.bots) [
  | none ↦ err (value_error ("active_bot_id is not registered: " ++ b))
  | some bot ↦ ok (record {
    log = log;
    history = [];
    policy = record policy { allowed_tools = bot.allowed_tools };
    active_bot_id = some b;
    machine = record { state = created };
  })
]

-- `_TERMINAL_EVENT_STATES.get(event_type)`
unfoldable pub terminal_event_state : String → Option RunState
terminal_event_state t =
    if t == event_value run_completed
    then some succeeded
    else if t == event_value run_failed
    then some failed
    else if t == event_value run_cancelled
    then some cancelled
    else none

-- The latest terminal event with its state.
unfoldable pub latest_terminal :
    Option (EventRecord × RunState) → List EventRecord → Option (EventRecord × RunState)
latest_terminal found [] = found
latest_terminal found (e ∷ es) =
    latest_terminal
      (elim (terminal_event_state e.event_type) [ none ↦ found | some s ↦ some (e, s) ]) es

-- `steps if isinstance(steps, int) else 0`: Python's booleans are integers.
unfoldable pub steps_of : Json → ℤ
steps_of (int n) = n
steps_of (bool true) = pos 1
steps_of _ = pos 0

abbrev pub outcome_key : RunState → String
outcome_key succeeded = "answer"
outcome_key _ = "reason"

unfoldable pub recorded_outcome : Conversions → EventLog → String → Option RunResult
recorded_outcome py log run_id = elim (latest_terminal none (list_events log run_id)) [
  | none ↦ none
  | some (e, s) ↦ some (record {
    run_id = run_id;
    state = s;
    answer = to_str py (get (outcome_key s) (str "") e.payload);
    steps = steps_of (get "steps" null e.payload);
    already_finished = true;
  })
]

-- `max(0, step)`
abbrev pub clamp : ℤ → ℕ
clamp (pos n) = n
clamp (negsuc n) = 0

-- `not observations`
abbrev pub no_observations : List Observation → Bool
no_observations [] = true
no_observations (o ∷ os) = false

module _ (py : Conversions) (a : AgentRunner) where
  abbrev pub run_as : String → String → Exec RunResult
  run_as goal run_id = do
    modify (λ w. record w { machine = record { state = created } })
    first ← uuid a
    log_event a run_id created run_created
        (("goal", str goal) ∷ ("provider", str a.provider_name) ∷ [])
    run_loop py a run_id goal 0
        (record { source = "user"; content = goal; metadata = []; observation_id = first } ∷ [])

  -- `run_id or str(uuid4())`
  abbrev pub selected_run_id : Option String → Exec String
  selected_run_id none = uuid a
  selected_run_id (some r) = if is_empty r then uuid a else pure r

  unfoldable pub run : String → Option String → Exec RunResult
  run goal run_id = do
    policy ← gets (λ w. w.policy)
    lift (validate_goal policy goal)
    selected ← selected_run_id run_id
    run_as goal selected

  -- The bot in force at the checkpoint is entered again.
  unfoldable pub restore_bot : Option String → Exec (Unit {0})
  restore_bot none = pure tt
  restore_bot (some b) = elim (lookup b a.bots) as (λ _. Exec (Unit {0})) [
    | none ↦ raise (value_error ("checkpoint active bot is not registered: " ++ b))
    | some bot ↦ modify (enter_bot bot)
  ]

  -- `resume` past the check for a recorded outcome, with the snapshot that was loaded.
  unfoldable pub resume_from : String → CheckpointSnapshot → Exec RunResult
  resume_from run_id s = do
    lift (
        raise_if (is_empty (strip s.goal))
          (value_error ("checkpoint for run_id=" ++ (run_id ++ " is missing a goal"))))
    lift (
        raise_if (no_observations s.observations)
          (value_error ("checkpoint for run_id=" ++ (run_id ++ " has no observations"))))
    policy ← gets (λ w. w.policy)
    lift (validate_goal policy s.goal)
    restore_bot s.active_bot_id
    modify (λ w. record w { machine = record { state = created } })
    run_loop py a run_id s.goal (clamp s.step) s.observations

  -- `draw` gives the identifiers that loading draws for observations that were stored without.
  unfoldable pub resume : (ℕ → ℕ → String) → String → Exec RunResult
  resume draw run_id w = elim (recorded_outcome py w.log run_id) [
    | some outcome ↦ (ok outcome, w)
    | none ↦ elim (load_latest_checkpoint py draw w.log run_id) [
      | err e ↦ (err e, w)
      | ok none ↦ (err (value_error ("no checkpoint found for run_id=" ++ run_id)), w)
      | ok (some s) ↦ resume_from run_id s w
    ]
  ]
