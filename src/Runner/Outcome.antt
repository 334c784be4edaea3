-- ===== src/Runner/Outcome.antt =====
-- How a run ends, and what its log says of it afterwards.
use multi_bot_agentic.Prelude.{
  ℕ, String, ◌≡◌, refl, sym, ap, ◌∙◌, true, false, none, some, List, [], ◌∷◌, inl, inr, arith,
}
use multi_bot_agentic.Prelude.Dict.{lookup}
use multi_bot_agentic.Json.{ℤ, Conversions, Payload, int, str, null, to_str}
use multi_bot_agentic.Models.{
  RunState, EventType, Observation, Decision, ModelRequest, ToolInvocation, succeeded, failed,
  cancelled, run_completed, run_failed, run_cancelled,
}
use multi_bot_agentic.Lifecycle.{is_terminal, transition_to}
use multi_bot_agentic.Lifecycle.Paths.{machine, transition_to-cases}
use multi_bot_agentic.Bots.{BotSpec}
use multi_bot_agentic.Checkpoint.{get}
use multi_bot_agentic.EventLog.{EventLog, append, new_record}
use multi_bot_agentic.EventLog.Sequence.{IsWellFormed, append-IsWellFormed}
use multi_bot_agentic.Runner.{
  AgentRunner, RunResult, log_event, uuid, is_cancelled, move, transition, finish_with, succeed,
  cancel, fail, act_tool, ask_provider, run_tool, invoke, ToolAdapter, modify, enter_bot, gets,
  ◌>>=◌, outcome_key, recorded_outcome, steps_of, run_loop, is_caught,
}
use multi_bot_agentic.Runner.State
use multi_bot_agentic.Runner.Rules.{
  Ends, Ends-bind, Runs, Keeps, Keeps-bind, Keeps-pure, Keeps-gets, Keeps-lift,
}
use multi_bot_agentic.Runner.LoopRules.{LoopRules, ends_run}
use multi_bot_agentic.Runner.Invariant.{run_loop-Ends}
use multi_bot_agentic.Runner.Recorded.{
  append-IsUnfinished, latest_terminal-append_end, end_state-terminal, end_state, IsOpen, IsClosed,
}

module _ (py : Conversions) (a : AgentRunner) (run_id : String) where
  -- The machine is in a terminal state, and the log is still open.
  record IsEnding (s : RunState) (w : State.World) : Type 0 where
    well_formed : IsWellFormed w.log
    state : w.machine.state ≡ s

  -- The outcome that a terminal event of the state `s` records.
  abbrev outcome : ℤ → String → RunState → RunResult
  outcome steps text s = record {
    run_id = run_id;
    state = s;
    answer = text;
    steps = steps;
    already_finished = true;
  }

  abbrev end_payload : RunState → ℤ → String → Payload
  end_payload s steps text = (outcome_key s, str text) ∷ ("steps", int steps) ∷ []

  recorded_outcome-append :
      (s : RunState) (log : EventLog) (st : RunState) (ty : EventType) (steps : ℤ) (text t : String)
      → IsWellFormed log
      → end_state ty ≡ some s
      → recorded_outcome py (append log run_id st ty (end_payload s steps text) t) run_id
        ≡ some (outcome steps text s)
  unfolding recorded_outcome new_record get lookup to_str steps_of
  recorded_outcome-append s log st ty steps text t w e =
      rw
        (
          latest_terminal-append_end log run_id st ty (end_payload s steps text) t s w e,
          recorded_outcome,
        )
        (read s)
    where
      read :
          (k : RunState)
          → some (record (outcome steps text s) {
            answer = to_str py (get (outcome_key k) (str "") (end_payload k steps text));
            steps = steps_of (get "steps" null (end_payload k steps text));
          })
            ≡ some (outcome steps text s)
      read succeeded = refl
      read _ = refl

  finish_with-IsClosed :
      (s : RunState) (ty : EventType) (steps : ℤ) (text : String) (w : State.World)
      → end_state ty ≡ some s
      → IsEnding s w
      → Ends
          (IsClosed py run_id)
          (λ _ v. IsOpen run_id v)
          (finish_with py a run_id ty (outcome_key s) steps text w)
  unfolding finish_with ◌>>=◌ log_event
  finish_with-IsClosed s ty steps text w e h = record {
    well_formed = append-IsWellFormed _ _ _ _ _ _ h.well_formed;
    recorded =
        recorded_outcome-append s w.log w.machine.state ty steps text (a.outside.now w.history)
          h.well_formed e
        ∙ ap (λ x. some (outcome steps text x)) (sym h.state);
    ended = rw (ap (λ x. is_terminal (machine x)) h.state) (end_state-terminal ty s e);
    reached = refl;
    named = refl;
    fresh = refl;
  }

  move-IsOpen :
      (next : RunState) → is_terminal (machine next) ≡ false → Keeps (IsOpen run_id) (move next)
  unfolding move transition_to
  move-IsOpen next h = record { at = λ w o. ground arith }

  pub log_event-IsOpen :
      (st : RunState) (ty : EventType) (p : Payload)
      → ends_run ty ≡ false
      → Keeps (IsOpen run_id) (log_event a run_id st ty p)
  unfolding log_event
  log_event-IsOpen st ty p h = record {
    at = λ w o. record {
      well_formed = append-IsWellFormed _ _ _ _ _ _ o.well_formed;
      unfinished = append-IsUnfinished _ _ _ _ _ _ o.well_formed (not_end ty h) o.unfinished;
      live = o.live;
    };
  }
    where
      not_end : (k : EventType) → ends_run k ≡ false → end_state k ≡ none
      not_end run_completed e = cc
      not_end run_failed e = cc
      not_end run_cancelled e = cc
      not_end _ e = refl

  transition-IsEnding :
      (s : RunState) (w : State.World)
      → IsOpen run_id w
      → Ends (λ _ v. IsEnding s v) (λ _ v. IsOpen run_id v) (transition py a run_id s w)
  unfolding transition ◌>>=◌ move log_event
  transition-IsEnding s w o = elim (transition_to-cases w.machine s) [
    | inl e ↦
        rw e (record { well_formed = append-IsWellFormed _ _ _ _ _ _ o.well_formed; state = refl })
    | inr (x, e) ↦ rw e o
  ]

  -- The last transition and the terminal event.
  ending-IsClosed :
      (s : RunState) (ty : EventType) (steps : ℤ) (text : String) (w : State.World)
      → end_state ty ≡ some s
      → IsOpen run_id w
      → Ends
          (IsClosed py run_id)
          (λ _ v. IsOpen run_id v)
          ((transition py a run_id s >>= λ _. finish_with py a run_id ty (outcome_key s) steps text)
            w)
  ending-IsClosed s ty steps text w e o =
      Ends-bind (λ _ v. IsEnding s v) (IsClosed py run_id) (λ _ v. IsOpen run_id v) _ _ w
        (transition-IsEnding s w o) (λ _ v h. finish_with-IsClosed s ty steps text v e h)

  fail-IsClosed :
      (steps : ℤ) (reason : String)
      → Runs (IsOpen run_id) (fail py a run_id steps reason) (IsClosed py run_id)
  unfolding fail
  fail-IsClosed steps reason = record {
    at = λ w o.
        Ends-bind (λ b v. (b ≡ false) × IsOpen run_id v) (IsClosed py run_id)
          (λ _ v. IsOpen run_id v) _ _ w (unfold gets in (o.live, o))
          (λ b v h. rw h.0 (ending-IsClosed failed run_failed steps reason v refl h.1));
  }

  cancel-IsClosed :
      (steps : ℤ) (reason : String)
      → Runs (IsOpen run_id) (cancel py a run_id steps reason) (IsClosed py run_id)
  unfolding cancel
  cancel-IsClosed steps reason = record {
    at = λ w o. ending-IsClosed cancelled run_cancelled steps reason w refl o;
  }

  succeed-IsClosed :
      (steps : ℤ) (d : Decision)
      → Runs (IsOpen run_id) (succeed py a run_id steps d) (IsClosed py run_id)
  unfolding succeed
  succeed-IsClosed steps d = record {
    at = λ w o. ending-IsClosed succeeded run_completed steps _ w refl o;
  }

  pub uuid-IsOpen : Keeps (IsOpen run_id) (uuid a)
  unfolding uuid
  uuid-IsOpen = record {
    at = λ w o. record { well_formed = o.well_formed; unfinished = o.unfinished; live = o.live };
  }

  is_cancelled-IsOpen : Keeps (IsOpen run_id) (is_cancelled a)
  unfolding is_cancelled
  is_cancelled-IsOpen = record {
    at = λ w o. record { well_formed = o.well_formed; unfinished = o.unfinished; live = o.live };
  }

  enter_bot-IsOpen : (bot : BotSpec) → Keeps (IsOpen run_id) (modify (enter_bot bot))
  unfolding modify
  enter_bot-IsOpen bot = record {
    at = λ w o. record { well_formed = o.well_formed; unfinished = o.unfinished; live = o.live };
  }

  ask_provider-IsOpen :
      (q : ModelRequest) (timeout : ℕ) → Keeps (IsOpen run_id) (ask_provider py a run_id q timeout)
  unfolding ask_provider
  ask_provider-IsOpen q timeout = record {
    at = λ w o. record { well_formed = o.well_formed; unfinished = o.unfinished; live = o.live };
  }

  run_tool-IsOpen :
      (name : String) (tool : ToolAdapter) (i : ToolInvocation)
      → Keeps (IsOpen run_id) (run_tool py a run_id name tool i)
  unfolding run_tool
  run_tool-IsOpen name tool i = record {
    at = λ w o. record { well_formed = o.well_formed; unfinished = o.unfinished; live = o.live };
  }

  invoke-IsOpen :
      (st : RunState) (name : String) (tool : ToolAdapter) (d : Decision)
      → Keeps (IsOpen run_id) (invoke py a run_id st name tool d)
  unfolding invoke
  invoke-IsOpen st name tool d = Keeps-bind _ _ (run_tool-IsOpen name tool _) λ result.
      Keeps-bind _ _ (log_event-IsOpen _ _ _ refl)
        λ _. Keeps-bind _ _ uuid-IsOpen λ id. Keeps-pure _

  act_tool-IsOpen :
      (st : RunState) (name : String) (d : Decision)
      → Keeps (IsOpen run_id) (act_tool py a run_id st name d)
  unfolding act_tool
  act_tool-IsOpen st name d = Keeps-bind _ _ (Keeps-gets _) λ policy.
      Keeps-bind _ _ (Keeps-lift _)
        λ _. Keeps-bind _ _ (Keeps-lift _) λ tool. invoke-IsOpen st name tool d

  pub IsOpen-rules : LoopRules py a run_id (IsOpen run_id) (IsClosed py run_id)
  IsOpen-rules = record {
    logs = log_event-IsOpen;
    draws = uuid-IsOpen;
    stats = is_cancelled-IsOpen;
    moves = move-IsOpen;
    enters = λ b bot e. enter_bot-IsOpen bot;
    asks = ask_provider-IsOpen;
    tools = act_tool-IsOpen;
    succeeds = succeed-IsClosed;
    cancels = cancel-IsClosed;
    fails = fail-IsClosed;
  }

  -- Started on an open run, the loop ends in one of two ways. It returns a result: then the machine
  -- is terminal, and the log's recorded outcome of the run is this result, marked as finished
  -- before. Or it raises what its handler does not catch: then the log holds no terminal event of the run, and the machine is not
  -- terminal. In both the log is well-formed.
  pub run_loop-recorded :
      (goal : String) (start : ℕ) (os : List Observation) (w : State.World)
      → IsOpen run_id w
      → Ends
          (IsClosed py run_id)
          (λ e v. (is_caught e ≡ false) × IsOpen run_id v)
          (run_loop py a run_id goal start os w)
  run_loop-recorded goal start os w o =
      run_loop-Ends py a run_id goal (IsOpen run_id) (IsClosed py run_id) IsOpen-rules start os w o
