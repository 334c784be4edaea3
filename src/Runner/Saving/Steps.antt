-- ===== src/Runner/Saving/Steps.antt =====
-- runner.py: the methods that a pass calls keep the run's checkpoint loadable, and the observations
-- that they make have identifiers.
use multi_bot_agentic.Prelude.{
  ℕ, String, ◌≡◌, ◌≢◌, refl, false, Option, none, some, List, [], ◌∷◌, ◌∙◌, sym, subst,
}
use multi_bot_agentic.Prelude.Text.{is_empty}
use multi_bot_agentic.Exn.{Exn, ok}
use multi_bot_agentic.Json.{ℤ, Conversions, Payload}
use multi_bot_agentic.Models.{
  RunState, EventType, checkpoint, Observation, Decision, DecisionAction, ModelRequest,
  ToolInvocation, output_to_observation, result_to_observation,
}
use multi_bot_agentic.Models
use multi_bot_agentic.Bots.{BotSpec}
use multi_bot_agentic.Checkpoint.{load_latest_checkpoint}
use multi_bot_agentic.EventLog.Sequence.{IsWellFormed, append-IsWellFormed}
use multi_bot_agentic.Checkpoint.RoundTrip.{HasId, load-append}
use multi_bot_agentic.Runner.{
  AgentRunner, History, ToolAdapter, Exec, pure, raise, modify, ◌>>=◌, log_event, uuid,
  is_cancelled, move, transition, finish_with, succeed, cancel, fail, enter_bot, handoff,
  ask_provider, run_tool, act_llm, act_tool, invoke, act_on, act, log_observations, decide_now,
}
use multi_bot_agentic.Runner.State
use multi_bot_agentic.Runner.Rules.{
  Runs, Keeps, Runs-bind, Keeps-Runs-bind, Keeps-bind, Keeps-pure, Keeps-gets, Keeps-lift, Keeps-if,
}
use multi_bot_agentic.Runner.Saving.{Loads}

module _ (py : Conversions) (a : AgentRunner) (draw : ℕ → ℕ → String) (run_id : String) where
  abbrev L : State.World → Type 0
  L = Loads py draw run_id

  -- What leaves the log as it is.
  log-same : {A : Type 0} (m : Exec A) → ((w : State.World) → (m w).1.log ≡ w.log) → Keeps L m
  log-same m h = record {
    at = λ w l. record {
      well_formed = subst IsWellFormed (sym (h w)) l.well_formed;
      earlier = l.earlier;
      loaded =
          subst (λ g. load_latest_checkpoint py draw g run_id ≡ ok l.earlier) (sym (h w)) l.loaded;
    };
  }

  pub log_event-Loads :
      (st : RunState) (ty : EventType) (p : Payload)
      → ty ≢ checkpoint
      → Keeps L (log_event a run_id st ty p)
  unfolding log_event
  log_event-Loads st ty p h = record {
    at = λ w l. record {
      well_formed = append-IsWellFormed _ _ _ _ _ _ l.well_formed;
      earlier = l.earlier;
      loaded = load-append py draw w.log _ run_id st ty p l.well_formed h ∙ l.loaded;
    };
  }

  uuid-Loads : Keeps L (uuid a)
  unfolding uuid
  uuid-Loads = log-same _ (λ w. refl)

  pub is_cancelled-Loads : Keeps L (is_cancelled a)
  unfolding is_cancelled
  is_cancelled-Loads = log-same _ (λ w. refl)

  move-Loads : (s : RunState) → Keeps L (move s)
  unfolding move
  move-Loads s = log-same _ (λ w. refl)

  enter_bot-Loads : (bot : BotSpec) → Keeps L (modify (enter_bot bot))
  unfolding modify
  enter_bot-Loads bot = log-same _ (λ w. refl)

  ask_provider-Loads : (q : ModelRequest) (t : ℕ) → Keeps L (ask_provider py a run_id q t)
  unfolding ask_provider
  ask_provider-Loads q t = log-same _ (λ w. refl)

  run_tool-Loads :
      (n : String) (tool : ToolAdapter) (i : ToolInvocation)
      → Keeps L (run_tool py a run_id n tool i)
  unfolding run_tool
  run_tool-Loads n tool i = log-same _ (λ w. refl)

  pub transition-Loads : (s : RunState) → Keeps L (transition py a run_id s)
  unfolding transition
  transition-Loads s = Keeps-bind _ _ (move-Loads s) λ p. log_event-Loads _ _ _ (λ e. cc)

  pub finish_with-Loads :
      (ty : EventType) (key : String) (steps : ℤ) (text : String)
      → ty ≢ checkpoint
      → Keeps L (finish_with py a run_id ty key steps text)
  unfolding finish_with
  finish_with-Loads ty key steps text h = Keeps-bind _ _ (Keeps-gets _) λ st.
      Keeps-bind _ _ (log_event-Loads _ _ _ h)
        λ _. Keeps-bind _ _ (Keeps-gets _) λ st'. Keeps-pure _

  pub succeed-Loads : (steps : ℤ) (d : Decision) → Keeps L (succeed py a run_id steps d)
  unfolding succeed
  succeed-Loads steps d =
      Keeps-bind _ _ (transition-Loads _) λ _. finish_with-Loads _ _ _ _ (λ e. cc)

  pub cancel-Loads : (steps : ℤ) (reason : String) → Keeps L (cancel py a run_id steps reason)
  unfolding cancel
  cancel-Loads steps reason =
      Keeps-bind _ _ (transition-Loads _) λ _. finish_with-Loads _ _ _ _ (λ e. cc)

  pub fail-Loads : (steps : ℤ) (reason : String) → Keeps L (fail py a run_id steps reason)
  unfolding fail
  fail-Loads steps reason = Keeps-bind _ _ (Keeps-gets _) λ b.
      Keeps-bind _ _ (Keeps-if b _ _ (Keeps-pure _) (transition-Loads _))
        λ _. finish_with-Loads _ _ _ _ (λ e. cc)

  pub log_observations-Loads :
      (goal : String) (os : List Observation) → Keeps L (log_observations py a run_id goal os)
  unfolding log_observations
  log_observations-Loads goal [] = Keeps-pure _
  log_observations-Loads goal (o ∷ os) =
      Keeps-bind _ _ (Keeps-gets _)
        λ st. Keeps-bind _ _ (log_event-Loads _ _ _ (λ e. cc)) λ _. log_observations-Loads goal os

  pub decide_now-Loads :
      (goal : String) (step : ℕ) (os : List Observation)
      → Keeps L (decide_now py a run_id goal step os)
  unfolding decide_now
  decide_now-Loads goal step os =
      Keeps-bind _ _ (Keeps-gets _) λ policy. Keeps-bind _ _ is_cancelled-Loads λ stop. Keeps-lift _

  -- Every identifier that is drawn is a text that is not empty.
  abbrev pub DrawsIds : Type 0
  DrawsIds = (h : History) → is_empty (a.outside.draw h) ≡ false

  -- An observation that has an identifier, and a log that loads.
  abbrev pub IsNew : Observation → State.World → Type 0
  IsNew o w = HasId o × L w

  uuid-Runs : DrawsIds → Runs L (uuid a) (λ id w. (is_empty id ≡ false) × L w)
  unfolding uuid
  uuid-Runs h = record { at = λ w l. (h w.history, uuid-Loads.at w l) }

  -- The observation that takes the drawn identifier.
  drawn-Runs :
      (make : String → Observation)
      → ((id : String) → (make id).observation_id ≡ id)
      → DrawsIds
      → Runs L (uuid a >>= λ id. pure (make id)) IsNew
  drawn-Runs make same h =
      Runs-bind {Q = λ id w. (is_empty id ≡ false) × L w} {R = IsNew} _ _ (uuid-Runs h)
        (λ id w q. unfold pure in (rw (same id) q.0, q.1))

  pub handoff-IsNew :
      DrawsIds → (st : RunState) (d : Decision) → Runs L (handoff py a run_id st d) IsNew
  unfolding handoff
  handoff-IsNew h st d = Keeps-Runs-bind {R = IsNew} _ _ (Keeps-lift _) λ bot.
      Keeps-Runs-bind {R = IsNew} _ _ (Keeps-gets _) λ previous.
        Keeps-Runs-bind {R = IsNew} _ _ (enter_bot-Loads bot) λ _.
          Keeps-Runs-bind {R = IsNew} _ _ (log_event-Loads _ _ _ (λ e. cc))
            λ _. drawn-Runs _ (λ id. refl) h

  -- The observation is logged and returned.
  logged-IsNew :
      (st : RunState) (ty : EventType) (p : Payload)
      → ty ≢ checkpoint
      → (o : Observation) → HasId o
      → Runs L (log_event a run_id st ty p >>= λ _. pure o) IsNew
  unfolding pure
  logged-IsNew st ty p h o id =
      Keeps-Runs-bind {R = IsNew} _ _ (log_event-Loads st ty p h)
        λ _. record { at = λ w l. (id, l) }

  act_llm-IsNew :
      DrawsIds
      → (st : RunState) (goal : String) (os : List Observation)
      → Runs L (act_llm py a run_id st goal os) IsNew
  unfolding act_llm output_to_observation
  act_llm-IsNew h st goal os = Keeps-Runs-bind {R = IsNew} _ _ (Keeps-gets _) λ tools.
      Keeps-Runs-bind {R = IsNew} _ _ (Keeps-gets _) λ timeout.
        Keeps-Runs-bind {R = IsNew} _ _ (ask_provider-Loads _ _) λ output.
          Runs-bind {Q = λ id w. (is_empty id ≡ false) × L w} {R = IsNew} _ _ (uuid-Runs h)
            λ id v q. (logged-IsNew _ _ _ (λ e. cc) _ q.0).at v q.1

  invoke-IsNew :
      DrawsIds
      → (st : RunState) (n : String) (tool : ToolAdapter) (d : Decision)
      → Runs L (invoke py a run_id st n tool d) IsNew
  unfolding invoke result_to_observation
  invoke-IsNew h st n tool d = Keeps-Runs-bind {R = IsNew} _ _ (run_tool-Loads _ _ _) λ result.
      Keeps-Runs-bind {R = IsNew} _ _ (log_event-Loads _ _ _ (λ e. cc))
        λ _. drawn-Runs _ (λ id. refl) h

  act_tool-IsNew :
      DrawsIds
      → (st : RunState) (n : String) (d : Decision) → Runs L (act_tool py a run_id st n d) IsNew
  unfolding act_tool
  act_tool-IsNew h st n d = Keeps-Runs-bind {R = IsNew} _ _ (Keeps-gets _) λ policy.
      Keeps-Runs-bind {R = IsNew} _ _ (Keeps-lift _)
        λ _. Keeps-Runs-bind {R = IsNew} _ _ (Keeps-lift _) λ tool. invoke-IsNew h st n tool d

  raise-IsNew : (e : Exn) → Runs L (raise e) IsNew
  unfolding raise
  raise-IsNew e = record { at = λ w l. l }

  act_on-IsNew :
      DrawsIds
      → (st : RunState) (goal : String) (os : List Observation) (d : Decision) (c : DecisionAction)
      → Runs L (act_on py a run_id st goal os d c) IsNew
  unfolding act_on
  act_on-IsNew h st goal os d Models.call_llm = act_llm-IsNew h st goal os
  act_on-IsNew h st goal os d Models.call_tool = target d.target
    where
      target :
          (o : Option String)
          → Runs L
              (elim o as (λ _. Exec Observation) [
                | none ↦ raise (Exn.value_error "tool decision requires a target")
                | some name ↦ act_tool py a run_id st name d
              ])
              IsNew
      target none = raise-IsNew _
      target (some name) = act_tool-IsNew h st name d
  act_on-IsNew h st goal os d _ = raise-IsNew _

  pub act-IsNew :
      DrawsIds
      → (st : RunState) (goal : String) (os : List Observation) (d : Decision)
      → Runs L (act py a run_id st goal os d) IsNew
  unfolding act
  act-IsNew h st goal os d =
      Keeps-Runs-bind {R = IsNew} _ _ (log_event-Loads _ _ _ (λ e. cc))
        λ _. act_on-IsNew h st goal os d d.action
