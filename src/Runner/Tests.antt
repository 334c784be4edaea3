-- ===== src/Runner/Tests.antt =====
-- A runner with a scripted provider and one tool: the provider asks for the tool, and once the tool
-- has run it answers.
use multi_bot_agentic.Prelude.{
  ℕ, String, ◌≡◌, refl, List, inl, eq_iff, ◌≢◌, Bool, true, false, Option, none, some, [], ◌∷◌,
  if◌then◌else◌, All, string_eq, length, ◌==◌, arith, subst,
}
use multi_bot_agentic.Prelude.Dict.{lookup}
use multi_bot_agentic.Prelude.Text.{show_nat}
use multi_bot_agentic.Exn.{Result, ok, err, other_error}
use multi_bot_agentic.Json.{Conversions, pos}
use multi_bot_agentic.Models.{
  Observation, succeeded, created, ModelRequest, ModelOutput, ToolInvocation, ToolResult,
  output_to_observation, result_to_observation,
}
use multi_bot_agentic.Bots.{BotSpec}
use multi_bot_agentic.EventLog.Sequence.{empty-IsWellFormed}
use multi_bot_agentic.Runner.{
  AgentRunner, Outside, Pass, again, RunResult, History, execute, resume, is_caught,
  latest_terminal, ◌>>=◌, is_cancelled, run, move, transition, finish_with, succeed, ask_provider,
  run_tool, act_llm, find_tool, invoke, act_tool, act_on, act, log_observations, decide_now,
  save_step, perform, follow, observe_and_decide, pass, passes, conclude, run_loop, log_event, uuid,
}
use multi_bot_agentic.Runner.Rules.{Ends}
use multi_bot_agentic.Runner.Recorded.{IsOpen, IsClosed, IsUnfinished}
use multi_bot_agentic.Runner.Outcome.{run_loop-recorded}
use multi_bot_agentic.Runner.Resume.{RunEnds, run_ends, resume-run}
use multi_bot_agentic.Runner.Scope.{executed, run_loop-executes_scoped}
use multi_bot_agentic.Runner.Budget.{passes-ne-none}
use multi_bot_agentic.Runner.Saving.{Loads}
use multi_bot_agentic.Runner.Saving.Pass.{Saved, pass-Saved}
use multi_bot_agentic.Runner.Saving.Resumed.{restarted, resume-pass}
use multi_bot_agentic.EventLog.{list_events}
use multi_bot_agentic.Checkpoint.{load_latest_checkpoint}
use multi_bot_agentic.Lifecycle.{transition_to, is_terminal}
use multi_bot_agentic.Safety.{validate_goal, validate_step, validate_tool}
use multi_bot_agentic.Decision.{decide}
use multi_bot_agentic.Runner.State

abbrev py : Conversions
py = record {
  show_container = λ _. "";
  int_of_text = λ _. err (other_error "int");
  dict_of_other = λ _. err (other_error "dict");
}

-- A tool has been executed.
abbrev has_run : History → Bool
has_run [] = false
has_run (execute n i ∷ h) = true
has_run (_ ∷ h) = has_run h

abbrev answer : History → ModelRequest → ℕ → Result ModelOutput
answer h q t = ok (record {
  provider = "scripted";
  text = if has_run h then "DONE:it is 2" else "TOOL:calculator:1+1";
  raw = [];
})

abbrev outside : Outside
outside = record {
  exists = λ _ _. false;
  now = λ _. "now";
  draw = λ h. show_nat (length h);
  answer = answer;
}

abbrev calculator : History → ToolInvocation → Result ToolResult
calculator h i =
    ok (record { tool_name = "calculator"; success = true; content = "2"; metadata = [] })

abbrev analyst : BotSpec
analyst = record {
  bot_id = "analyst";
  name = "Analyst";
  allowed_tools = "calculator" ∷ [];
  description = "";
}

abbrev runner : AgentRunner
runner = record {
  outside = outside;
  provider_name = "scripted";
  tools = ("calculator", calculator) ∷ [];
  bots = ("analyst", analyst) ∷ [];
  tool_specs = [];
}

abbrev world : State.World
world = record {
  log = [];
  history = [];
  policy = record {
    max_steps = 5;
    timeout_ms = 1000;
    max_prompt_chars = 100;
    allowed_tools = "calculator" ∷ [];
    cancellation_file = none;
  };
  active_bot_id = none;
  machine = record { state = created };
}

abbrev expected : RunResult
expected = record {
  run_id = "r1";
  state = succeeded;
  answer = "it is 2";
  steps = pos 4;
  already_finished = false;
}

-- The run asks the model, calls the tool, lets the model read its result, and succeeds at step 4.
run-scripted :
    run py runner "add" (some "r1") world ≡ (ok expected, (run py runner "add" (some "r1") world).1)
unfolding run move transition finish_with succeed ask_provider run_tool act_llm find_tool invoke
    act_tool act_on act log_observations decide_now save_step perform follow observe_and_decide pass
    passes conclude run_loop log_event uuid ◌>>=◌ is_cancelled load_latest_checkpoint
    output_to_observation result_to_observation transition_to validate_goal validate_step
    validate_tool decide multi_bot_agentic.Safety.is_cancelled
run-scripted = refl

world-IsUnfinished : IsUnfinished "r1" world.log
unfolding list_events latest_terminal
world-IsUnfinished = refl

world-IsOpen : IsOpen "r1" world
unfolding is_terminal
world-IsOpen = record {
  well_formed = empty-IsWellFormed;
  unfinished = world-IsUnfinished;
  live = refl;
}

abbrev question : Observation
question = record { source = "user"; content = "add"; metadata = []; observation_id = "0" }

run_ends_example : RunEnds py runner "add" "r1" world (run py runner "add" (some "r1") world)
run_ends_example = run_ends py runner "add" "r1" world refl empty-IsWellFormed world-IsUnfinished

run_loop-recorded_example :
    Ends
      (IsClosed py "r1")
      (λ e v. (is_caught e ≡ false) × IsOpen "r1" v)
      (run_loop py runner "r1" "add" 0 (question ∷ []) world)
run_loop-recorded_example =
    run_loop-recorded py runner "r1" "add" 0 (question ∷ []) world world-IsOpen

resume-run_example :
    resume py runner (λ i j. "") "r1" (run py runner "add" (some "r1") world).1
    ≡ (ok (record expected { already_finished = true }), (run py runner "add" (some "r1") world).1)
resume-run_example =
    resume-run py runner (λ i j. "") "add" "r1" expected world
      (run py runner "add" (some "r1") world).1 refl empty-IsWellFormed world-IsUnfinished
      run-scripted

-- Each registered bot may use the calculator only.
abbrev UsesCalculator : Option BotSpec → Type 0
UsesCalculator none = Unit
UsesCalculator (some bot) = All (λ n. n ≡ "calculator") bot.allowed_tools

bots-calculator :
    (k : String) (bot : BotSpec) → lookup k runner.bots ≡ some bot → UsesCalculator (some bot)
unfolding lookup
bots-calculator k bot e = subst UsesCalculator e (found ("analyst" == k))
  where
    found : (b : Bool) → UsesCalculator (if b then some analyst else none)
    found true = (refl, tt)
    found false = tt

run_loop-executes_scoped_example :
    let v = (run_loop py runner "r1" "add" 0 (question ∷ []) world).1 in
    All (λ n. n ≡ "calculator") (executed v.history)
    × All (λ n. n ≡ "calculator") v.policy.allowed_tools
run_loop-executes_scoped_example =
    run_loop-executes_scoped py runner "r1" (λ n. n ≡ "calculator") "add" 0 (question ∷ []) world
      (refl, tt) bots-calculator tt

passes-ne-none_example : (passes py runner "r1" "add" 5 0 (question ∷ []) world).0 ≢ ok none
passes-ne-none_example = passes-ne-none py runner "r1" "add" 0 (question ∷ []) world (omega arith)

-- The scripted runner, which draws the same identifier each time.
abbrev named_runner : AgentRunner
named_runner = record runner { outside = record outside { draw = λ _. "id" } }

world-Loads : Loads py (λ i j. "") "r1" world
unfolding load_latest_checkpoint
world-Loads = record { well_formed = empty-IsWellFormed; earlier = none; loaded = refl }

pass-Saved_example :
    Ends
      (Saved py named_runner (λ i j. "") "r1" "add" 0)
      (λ _ v. Loads py (λ i j. "") "r1" v)
      (pass py named_runner "r1" "add" 0 (question ∷ []) world)
pass-Saved_example =
    pass-Saved py named_runner (λ i j. "") "r1" "add" (λ h. refl) 0 (question ∷ []) world (refl, tt)
      world-Loads

-- The observations with which a pass goes on.
abbrev observed : Result Pass → List Observation
observed (ok (again os)) = os
observed _ = []

abbrev first_pass : Result Pass × State.World
first_pass = pass py named_runner "r1" "add" 0 (question ∷ []) world

first_pass-again : first_pass ≡ (ok (again (observed first_pass.0)), first_pass.1)
unfolding run move transition finish_with succeed ask_provider run_tool act_llm find_tool invoke
    act_tool act_on act log_observations decide_now save_step perform follow observe_and_decide pass
    log_event uuid ◌>>=◌ is_cancelled output_to_observation result_to_observation transition_to
    validate_goal validate_step validate_tool decide multi_bot_agentic.Safety.is_cancelled
first_pass-again = refl

-- A new process of the same runner, over the log that the pass has left.
abbrev reborn : State.World
reborn = record world { log = first_pass.1.log }

reborn-init :
    multi_bot_agentic.Runner.init named_runner world.policy first_pass.1.log none ≡ ok reborn
unfolding multi_bot_agentic.Runner.init
reborn-init = refl

bots-keyed : (k : String) (bot : BotSpec) → lookup k named_runner.bots ≡ some bot → bot.bot_id ≡ k
unfolding lookup
bots-keyed k bot e = ground (arith, e, eq_iff "analyst" k)

goal-valid : validate_goal world.policy "add" ≡ ok tt
unfolding validate_goal multi_bot_agentic.Prelude.Text.strip
goal-valid = refl

resume-pass_example :
    resume py named_runner (λ i j. "") "r1" reborn
    ≡ run_loop py named_runner "r1" "add" 1 (observed first_pass.0) (restarted first_pass.1)
resume-pass_example =
    resume-pass py named_runner bots-keyed world.policy none (λ i j. "") "r1" "add" 0
      (question ∷ []) (observed first_pass.0) world first_pass.1 reborn (λ h. refl)
      (inl (refl, refl)) world-IsOpen world-Loads (refl, tt) first_pass-again reborn-init goal-valid
