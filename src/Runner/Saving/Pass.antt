-- ===== src/Runner/Saving/Pass.antt =====
-- runner.py: what a pass of `_run_loop` that goes on has saved.
use multi_bot_agentic.Prelude.{
  ℕ, ◌+◌, String, ◌≡◌, some, List, [], ◌∷◌, ◌++◌, All, All-append, false, refl,
}
use multi_bot_agentic.Exn.{ok}
use multi_bot_agentic.Json.{Conversions, pos}
use multi_bot_agentic.Models.{
  RunState, observing, deciding, acting, Observation, Decision, DecisionAction,
}
use multi_bot_agentic.Models
use multi_bot_agentic.EventLog.Sequence.{append-IsWellFormed}
use multi_bot_agentic.Checkpoint.{
  CheckpointSnapshot, to_payload, load_latest_checkpoint, save_checkpoint,
}
use multi_bot_agentic.Checkpoint.RoundTrip.{HasId, load-save_checkpoint}
use multi_bot_agentic.Runner.{
  AgentRunner, RunResult, no_observations, Exec, Pass, ended, again, pure, ◌>>=◌, log_event,
  save_step, perform, follow, observe_and_decide, pass, handoff, act,
}
use multi_bot_agentic.Runner.State
use multi_bot_agentic.Runner.Rules.{
  Ends, Runs, Keeps, Runs-bind, Keeps-Runs-bind, Keeps-gets, Keeps-lift, Runs-if,
}
use multi_bot_agentic.Runner.Saving.{Loads}
use multi_bot_agentic.Runner.Saving.Steps.{
  DrawsIds, IsNew, transition-Loads, log_event-Loads, log_observations-Loads, decide_now-Loads,
  succeed-Loads, cancel-Loads, fail-Loads, is_cancelled-Loads, handoff-IsNew, act-IsNew,
}

module _ (py : Conversions) (a : AgentRunner) (draw : ℕ → ℕ → String) (run_id goal : String) where
  abbrev L : State.World → Type 0
  L = Loads py draw run_id

  -- What the loop goes on with after the step `step`, in the world `w`.
  abbrev pub snapshot_of : ℕ → List Observation → State.World → CheckpointSnapshot
  snapshot_of step os w = record {
    run_id = run_id;
    goal = goal;
    step = pos (step + 1);
    state = w.machine.state;
    observations = os;
    active_bot_id = w.active_bot_id;
  }

  -- After a pass: if the loop goes on, the log's latest checkpoint is what it goes on with.
  abbrev pub Saved : ℕ → Pass → State.World → Type 0
  Saved step (ended r) w = L w
  Saved step (again os) w =
      (no_observations os ≡ false)
      × All HasId os
      × L w
      × (load_latest_checkpoint py draw w.log run_id ≡ ok (some (snapshot_of step os w)))

  no_observations-append :
      (os : List Observation) (o : Observation) → no_observations (os ++ o ∷ []) ≡ false
  no_observations-append [] o = refl
  no_observations-append (x ∷ os) o = refl

  save_step-Saved :
      (step : ℕ) (os : List Observation)
      → no_observations os ≡ false
      → All HasId os
      → Runs L (save_step py a run_id goal step os >>= λ _. pure (again os)) (Saved step)
  unfolding save_step ◌>>=◌ log_event save_checkpoint
  save_step-Saved step os n h = record {
    at = λ w l.
        let s =
          load-save_checkpoint py draw w.log (a.outside.now w.history) (snapshot_of step os w)
            l.earlier l.well_formed h l.loaded in
        (
          n,
          h,
          record {
            well_formed =
                append-IsWellFormed w.log run_id w.machine.state Models.checkpoint
                  (to_payload (snapshot_of step os w)) (a.outside.now w.history) l.well_formed;
            earlier = some (snapshot_of step os w);
            loaded = s;
          },
          s,
        );
  }

  perform-Saved :
      DrawsIds py a draw run_id
      → (step : ℕ) (os : List Observation) (d : Decision) → All HasId os
      → Runs L (perform py a run_id goal step os d) (Saved step)
  unfolding perform
  perform-Saved ids step os d h =
      Keeps-Runs-bind {R = Saved step} _ _ (transition-Loads py a draw run_id acting) λ _.
        Keeps-Runs-bind {R = Saved step} _ _ (Keeps-gets _) λ st.
          Runs-bind {Q = IsNew py a draw run_id} {R = Saved step} _ _ (action st d.action) λ o v q.
            (save_step-Saved step (os ++ o ∷ []) (no_observations-append os o)
                (All-append HasId os (o ∷ []) h (q.0, tt))).at
              v q.1
    where
      action :
          (st : RunState) (c : DecisionAction)
          → Runs L
              (elim c as (λ _. Exec Observation) [
                | Models.handoff ↦ handoff py a run_id st d
                | _ ↦ act py a run_id st goal os d
              ])
              (IsNew py a draw run_id)
      action st Models.handoff = handoff-IsNew py a draw run_id ids st d
      action st _ = act-IsNew py a draw run_id ids st goal os d

  ending-Saved :
      (step : ℕ) (m : Exec RunResult) → Keeps L m → Runs L (m >>= λ r. pure (ended r)) (Saved step)
  unfolding pure
  ending-Saved step m k = Keeps-Runs-bind {R = Saved step} _ _ k (λ r. record { at = λ w l. l })

  follow-Saved :
      DrawsIds py a draw run_id
      → (step : ℕ) (os : List Observation) (d : Decision) (c : DecisionAction) → All HasId os
      → Runs L (follow py a run_id goal step os d c) (Saved step)
  unfolding follow
  follow-Saved ids step os d Models.finish h =
      ending-Saved step _ (succeed-Loads py a draw run_id _ _)
  follow-Saved ids step os d Models.cancel h =
      ending-Saved step _ (cancel-Loads py a draw run_id _ _)
  follow-Saved ids step os d Models.fail h = ending-Saved step _ (fail-Loads py a draw run_id _ _)
  follow-Saved ids step os d _ h = perform-Saved ids step os d h

  observe_and_decide-Saved :
      DrawsIds py a draw run_id
      → (step : ℕ) (os : List Observation) → All HasId os
      → Runs L (observe_and_decide py a run_id goal step os) (Saved step)
  unfolding observe_and_decide
  observe_and_decide-Saved ids step os h =
      Keeps-Runs-bind {R = Saved step} _ _ (transition-Loads py a draw run_id observing) λ _.
        Keeps-Runs-bind {R = Saved step} _ _ (log_observations-Loads py a draw run_id goal os) λ _.
          Keeps-Runs-bind {R = Saved step} _ _ (transition-Loads py a draw run_id deciding) λ _.
            Keeps-Runs-bind {R = Saved step} _ _ (decide_now-Loads py a draw run_id goal step os)
              λ d. Keeps-Runs-bind {R = Saved step} _ _ (Keeps-gets _) λ st.
                Keeps-Runs-bind {R = Saved step} _ _
                  (log_event-Loads py a draw run_id _ _ _ (λ e. cc))
                  λ _. follow-Saved ids step os d d.action h

  pass-Runs :
      DrawsIds py a draw run_id
      → (step : ℕ) (os : List Observation) → All HasId os
      → Runs L (pass py a run_id goal step os) (Saved step)
  unfolding pass
  pass-Runs ids step os h = Keeps-Runs-bind {R = Saved step} _ _ (Keeps-gets _) λ policy.
      Keeps-Runs-bind {R = Saved step} _ _ (Keeps-lift _) λ _.
        Keeps-Runs-bind {R = Saved step} _ _ (is_cancelled-Loads py a draw run_id) λ stop.
          Runs-if stop _ _ (ending-Saved step _ (cancel-Loads py a draw run_id _ _))
            (observe_and_decide-Saved ids step os h)

  -- Started with observations that have identifiers, on a well-formed log from which the run's
  -- checkpoint loads, and with identifiers drawn that are not empty, a pass that goes on leaves a log
  -- whose latest checkpoint is exactly what the next pass is given: the goal, the step after this
  -- one, the observations, and the state and the active bot at the pass's end. There is an
  -- observation, and all have identifiers again. However a pass ends, an exception included, the log
  -- stays well-formed and the run's checkpoint still loads.
  pub pass-Saved :
      DrawsIds py a draw run_id
      → (step : ℕ) (os : List Observation) (w : State.World) → All HasId os
      → Loads py draw run_id w
      → Ends (Saved step) (λ _ v. Loads py draw run_id v) (pass py a run_id goal step os w)
  pass-Saved ids step os w h l = (pass-Runs ids step os h).at w l
