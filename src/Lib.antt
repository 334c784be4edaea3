-- ===== src/Lib.antt =====
-- multi-bot-agentic: a verification development for the agent runtime in src/multi_bot_agentic.
--
-- The program drives one agent run at a time through Observe, Decide and Act. `AgentRunner` asks the
-- decision engine what to do with the observations so far; the engine's rules, and never the model's
-- text itself, pick an action; the runner executes it under a safety policy, writes every step to an
-- append-only event log, and saves a checkpoint after each step, from which a run that was killed is
-- resumed. Around tools and models stand guards that a caller drives: counters, breakers, leases.
--
-- The files, each with the Python module of src/multi_bot_agentic that it models:
--   Exn            the exceptions, as values of a `Result`
--   Json           JSON values and Python's conversions of them, for payloads
--   Models         models.py: run states, event types, observations, decisions, requests, results
--   Bots           bots.py: registered bots
--   Lifecycle      lifecycle.py: the run's state machine (`transition_to`, `is_terminal`);
--                  Lifecycle/Paths states what its accepted calls can reach
--   Safety         safety.py: `validate_goal`, `validate_step`, `validate_tool`, `is_cancelled`
--   Decision       decision.py: `decide` and its rules; Decision/Requests: the directive parsers;
--                  Decision/Rules and Decision/Directive: what a decision rests on
--   EventLog       event_log.py: `append` and `list_events`; EventLog/Sequence: the numbering
--   Checkpoint     checkpoint.py: `save_checkpoint` and `load_latest_checkpoint`;
--                  Checkpoint/RoundTrip: what is saved is loaded
--   Runner         runner.py: `__init__`, `run`, `resume` and `recorded_outcome`; Runner/State: what
--                  a run reads and changes; Runner/Actions: the private methods; Runner/Loop:
--                  `_run_loop`. Rules, LoopRules, Invariant and Frame hold the rules that carry a
--                  property through the loop, for Recorded, Outcome, Resume, Scope, Budget, Saving
--   Guards         circuit_breaker.py (CircuitBreaker), tool_call_quota.py (ToolCallQuota),
--                  session_token_budget.py (TokenBudget), blackboard_write_lease.py (WriteLease),
--                  dead_letter_tool_queue.py (DeadLetters), event_compactor.py (Compactor),
--                  concurrency_limiter.py (Concurrency), bot_vote.py (BotVote), tool_runner.py
--                  (RateLimit), retry_backoff.py (Retry), approval.py (Approval), fanin_barrier.py
--                  (Barrier), tool_idempotency_cache.py (Idempotency), tool_permission.py (Permission),
--                  blackboard.py (Blackboard) and fanout.py (FanOut), each with modules for its
--                  theorems
--   Advisors       the band advisors, of which Orchestration, Planning, SharedState and Tooling
--                  name one class for each module, such as planner_step_budget_band.py; Bands is
--                  their common text, Numbers what it needs of floats
--   Tools          tools/json_patch_apply.py (JsonPatch): Pointer, Values, Operations and Execute
--                  are its functions; Places, Writes and Changes lead to Effects, what a change does
--                  to the document; Printing is about pointers, Runs and Succeeds about `execute`
--   Prelude        lists, dicts, texts and tests that these share
--   */Tests        concrete runs and calls
--
-- How the code is read:
--   - A runner's method is a function from the world (the log, the policy and bot in force, the state
--     machine, the history of requests) to a result or an exception, with the world after it: what was
--     written before a raise stays written. A guard's method is the same with the guard's object.
--   - The outside, which is the provider, the tools, the clock, the cancellation file and `uuid4`, is
--     given by functions of the history of all requests made before, so that each answer may depend on
--     everything asked. A tool and a provider return or raise and do not touch the runner.
--   - A payload is held as the value that `json.loads` gives back for what was dumped. Floats in JSON
--     are left out. SQLite's own errors are not modelled; a row is what an INSERT made it.
--   - What `str`, `int` and `dict` give on values that the runtime itself never stores where they are
--     called is the parameter `py`; a loaded observation without an identifier gets `draw`'s.
--   - `step` and `max_steps` are numbers from 0 up: the loop runs over `range(start, max_steps)`, which
--     is empty for a negative bound too. Times are milliseconds.
--   - The step loop recurses on the number of steps left in its range, so that it needs no fuel.
--   - A wait of the concurrency limiter is a list of rounds: what the other threads make of the object
--     while the lock is given up, and what the wait answers.
--   - A fan-out is given by the order in which its tasks complete; a worker's call does the same at
--     any time.
--   - `str.lower` and `repr`, which read the Unicode tables, are parameters of the guards.
--   - Floats are a parameter where a module calculates with them or compares them: `Numbers` for the
--     advisors, whose laws are those of comparisons and of short literals, and `Floats` for the delays
--     of retries, whose power may raise `OverflowError`. The function that is retried is what each of
--     its calls does; the settings are floats as annotated, and a sleep returns.
--   - A JSON document of a tool is a tree, since the tool copies what it puts in; `deepcopy` is taken
--     to succeed at every depth. A write in place is a function to the document after it. `loads` and
--     `dumps` are parameters of the tool.
--   - The approval directory is a dict from a file's stem to a JSON document or to a text that is
--     none. `json.loads` gives back what `json.dumps` was given.
--
-- Not modelled: the command line and the configuration; the provider adapters (llm/), the MCP client
-- (mcp/), the other tools (tools/) and the evaluation harness (eval/), which are I/O or stand alone; the
-- prompt text of a tool's signature; reading and writing a file in the compactor; and the
-- other single-signal advisors and further guards, which the runtime does not call.
mod Prelude
pub mod Exn
pub mod Json
pub mod Models
pub mod Bots
pub mod Lifecycle
pub mod Safety
pub mod Decision
pub mod EventLog
pub mod Checkpoint
pub mod Runner
pub mod Guards
pub mod Advisors
pub mod Tools
