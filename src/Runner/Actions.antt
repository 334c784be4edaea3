-- ===== src/Runner/Actions.antt =====
-- runner.py: the private methods of `AgentRunner` that a step of the loop calls.
use Prim.Native.String.{◌++◌}
use multi_bot_agentic.Prelude.Text.{text_le}
use multi_bot_agentic.Prelude.{
  ℕ, String, Bool, false, Option, none, some, List, [], ◌∷◌, map, contains, keep, string_eq, ◌&&◌,
  if◌then◌else◌,
}
use multi_bot_agentic.Prelude.Dict.{lookup, has_key}
use multi_bot_agentic.Prelude.Sort.{sort_by}
use multi_bot_agentic.Exn.{Result, ok, err, value_error}
use multi_bot_agentic.Json.{ℤ, Conversions, bool, int, str, arr, obj, items_of, fields_of, to_str}
use multi_bot_agentic.Models.{
  RunState, succeeded, failed, cancelled, EventType, state_transition, action_requested,
  action_result, run_completed, run_failed, run_cancelled, Observation, Decision, DecisionAction,
  call_llm, call_tool, decision_to_dict, state_value, opt_str, ToolSpec, ModelRequest, ModelOutput,
  ToolInvocation, ToolResult, output_to_observation, result_to_observation, action_value,
}
use multi_bot_agentic.Bots.{BotSpec}
use multi_bot_agentic.Lifecycle.{transition_to, is_terminal}
use multi_bot_agentic.Safety.{validate_tool}
use multi_bot_agentic.Checkpoint.{get}
use multi_bot_agentic.Runner.State.{
  AgentRunner, World, Exec, ToolAdapter, complete, execute, pure, raise, lift, gets, modify, ◌>>=◌,
  ◌>>◌, log_event, uuid,
}

pub record RunResult : Type 0 where
  pub run_id : String
  pub state : RunState
  pub answer : String
  pub steps : ℤ
  pub already_finished : Bool

-- `state_machine.transition_to(next_state)` on the run's machine.
unfoldable pub move : RunState → Exec (RunState × RunState)
move next w = let (r, m) = transition_to w.machine next in (r, record w { machine = m })

-- `replace(self.safety_policy, allowed_tools=bot.allowed_tools)`, with `self.active_bot_id`.
abbrev pub enter_bot : BotSpec → World → World
enter_bot b w = record w {
  active_bot_id = some b.bot_id;
  policy = record w.policy { allowed_tools = b.allowed_tools };
}

module _ (py : Conversions) (a : AgentRunner) (run_id : String) where
  unfoldable pub transition : RunState → Exec (Unit {0})
  transition next = do
    (previous, current) ← move next
    log_event a run_id current state_transition
        (("from", str (state_value previous)) ∷ ("to", str (state_value current)) ∷ [])

  -- The end of `_succeed`, `_cancel` and `_fail`: the terminal event and the result.
  unfoldable pub finish_with : EventType → String → ℤ → String → Exec RunResult
  finish_with ty key steps text = do
    state ← gets (λ w. w.machine.state)
    log_event a run_id state ty ((key, str text) ∷ ("steps", int steps) ∷ [])
    state' ← gets (λ w. w.machine.state)
    pure (record {
      run_id = run_id;
      state = state';
      answer = text;
      steps = steps;
      already_finished = false;
    })

  unfoldable pub succeed : ℤ → Decision → Exec RunResult
  succeed steps decision = do
    transition succeeded
    finish_with run_completed "answer" steps (to_str py (get "answer" (str "") decision.payload))

  unfoldable pub cancel : ℤ → String → Exec RunResult
  cancel steps reason = do transition cancelled; finish_with run_cancelled "reason" steps reason

  unfoldable pub fail : ℤ → String → Exec RunResult
  fail steps reason = do
    ended ← gets (λ w. is_terminal w.machine)
    (if ended then pure tt else transition failed)
    finish_with run_failed "reason" steps reason

  -- The bot that the decision names, or the `ValueError` of `_handoff`.
  unfoldable pub target_bot : Option String → Result BotSpec
  target_bot none = err (value_error "handoff decision requires a target bot id")
  target_bot (some b) = elim (lookup b a.bots) [
    | none ↦ err (value_error ("handoff target bot is not registered: " ++ b))
    | some bot ↦ ok bot
  ]

  unfoldable pub handoff : RunState → Decision → Exec Observation
  handoff state decision = do
    bot ← lift (target_bot decision.target)
    previous ← gets (λ w. w.active_bot_id)
    modify (enter_bot bot)
    let summary = to_str py (get "summary" (str "") decision.payload)
    log_event a run_id state action_result (
        ("kind", str "handoff")
        ∷ ("from_bot", opt_str previous)
        ∷ ("to_bot", str bot.bot_id)
        ∷ ("summary", str summary)
        ∷ ("allowed_tools", arr (items_of (map str (sort_by text_le bot.allowed_tools))))
        ∷ [])
    id ← uuid a
    pure (record {
      source = "handoff:" ++ bot.bot_id;
      content = "HANDED_OFF:" ++ (bot.bot_id ++ (":" ++ summary));
      metadata =
          ("from_bot", opt_str previous)
          ∷ ("to_bot", str bot.bot_id)
          ∷ ("summary", str summary)
          ∷ [];
      observation_id = id;
    })

  -- The advertised tools that are allowed now and registered.
  unfoldable pub visible_tool_specs : World → List ToolSpec
  visible_tool_specs w =
      keep (λ s. contains s.name w.policy.allowed_tools && has_key s.name a.tools) a.tool_specs

  -- `self.provider.complete(request, timeout_seconds=…)`
  unfoldable pub ask_provider : ModelRequest → ℕ → Exec ModelOutput
  ask_provider request timeout w = (
    a.outside.answer w.history request timeout,
    record w { history = complete request timeout ∷ w.history },
  )

  -- `tool.execute(invocation)`
  unfoldable pub run_tool : String → ToolAdapter → ToolInvocation → Exec ToolResult
  run_tool name tool invocation w =
      (tool w.history invocation, record w { history = execute name invocation ∷ w.history })

  unfoldable pub act_llm : RunState → String → List Observation → Exec Observation
  act_llm state goal observations = do
    tools ← gets visible_tool_specs
    timeout ← gets (λ w. w.policy.timeout_ms)
    output ←
        ask_provider
          (record {
            goal = goal;
            observations = observations;
            max_output_chars = 2000;
            tools = tools;
          })
          timeout
    id ← uuid a
    log_event a run_id state action_result (
        ("kind", str "llm")
        ∷ ("output", str output.text)
        ∷ ("metadata", obj (fields_of output.raw))
        ∷ [])
    pure (output_to_observation output id)

  unfoldable pub find_tool : String → Result ToolAdapter
  find_tool name = elim (lookup name a.tools) [
    | none ↦ err (value_error ("tool is not registered: " ++ name))
    | some t ↦ ok t
  ]

  -- The call of an allowed and registered tool.
  unfoldable pub invoke : RunState → String → ToolAdapter → Decision → Exec Observation
  invoke state name tool decision = do
    result ← run_tool name tool (record { tool_name = name; arguments = decision.payload })
    log_event a run_id state action_result (
        ("kind", str "tool")
        ∷ ("tool", str result.tool_name)
        ∷ ("ok", bool result.success)
        ∷ ("content", str result.content)
        ∷ ("metadata", obj (fields_of result.metadata))
        ∷ [])
    id ← uuid a
    pure (result_to_observation result id)

  unfoldable pub act_tool : RunState → String → Decision → Exec Observation
  act_tool state name decision = do
    policy ← gets (λ w. w.policy)
    lift (validate_tool policy name)
    tool ← lift (find_tool name)
    invoke state name tool decision

  -- The branch of `_act` that the decision's action selects.
  unfoldable pub act_on :
      RunState → String → List Observation → Decision → DecisionAction → Exec Observation
  act_on state goal observations decision call_llm = act_llm state goal observations
  act_on state goal observations decision call_tool = elim decision.target [
    | none ↦ raise (value_error "tool decision requires a target")
    | some name ↦ act_tool state name decision
  ]
  act_on state goal observations decision other =
      raise (value_error ("unsupported action for _act: " ++ action_value other))

  unfoldable pub act : RunState → String → List Observation → Decision → Exec Observation
  act state goal observations decision = do
    log_event a run_id state action_requested (decision_to_dict decision)
    act_on state goal observations decision decision.action
