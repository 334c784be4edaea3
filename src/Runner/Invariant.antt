-- ===== src/Runner/Invariant.antt =====
-- The invariant rule of the loop: what each primitive of the runner keeps, the whole loop keeps.
use multi_bot_agentic.Prelude.{
  ℕ, zero, suc, ◌+◌, ◌-◌, String, ◌≡◌, refl, Bool, true, false, Option, none, some, List, [], ◌∷◌,
  string_eq, if◌then◌else◌,
}
use Prim.Native.String.{◌++◌}
use multi_bot_agentic.Prelude.Dict.{lookup}
use multi_bot_agentic.Exn.{Exn, Result, ok, err, message}
use multi_bot_agentic.Json.{pos, Conversions}
use multi_bot_agentic.Models.{
  RunState, EventType, Observation, Decision, DecisionAction, ModelRequest, succeeded, failed,
  cancelled, observing, deciding, acting, run_completed, run_failed, run_cancelled,
}
use multi_bot_agentic.Models
use multi_bot_agentic.Lifecycle.{is_terminal}
use multi_bot_agentic.Lifecycle.Paths.{machine}
use multi_bot_agentic.Bots.{BotSpec}
use multi_bot_agentic.Runner.State.{AgentRunner, World, Exec, pure, lift, gets, raise, ◌>>=◌}
use multi_bot_agentic.Runner.Actions.{
  RunResult, transition, target_bot, fail, handoff, act_llm, act_tool, act_on, act,
}
use multi_bot_agentic.Runner.Loop.{
  Pass, ended, again, log_observations, decide_now, save_step, perform, follow, observe_and_decide,
  pass, go_on, passes, is_caught, conclude, run_loop,
}
use multi_bot_agentic.Runner.Rules.{
  Ends, Runs, Keeps, Runs-bind, Runs-if, Keeps-bind, Keeps-pure, Keeps-raise, Keeps-lift,
  Keeps-gets, Keeps-Runs-bind,
}
use multi_bot_agentic.Runner.LoopRules.{Ends-accepted, fail-accepted, LoopRules}

module _ (py : Conversions) (a : AgentRunner) (run_id goal : String) (I : World → Type 0)
    (Done : RunResult → World → Type 0) (rules : LoopRules py a run_id I Done) where
  pub transition-Keeps :
      (next : RunState) → is_terminal (machine next) ≡ false → Keeps I (transition py a run_id next)
  unfolding transition
  transition-Keeps next h = Keeps-bind _ _ (rules.moves next h) (λ p. rules.logs p.1 _ _ refl)

  target_bot-Keeps :
      (o : Option String) (f : BotSpec → Exec Observation)
      → ((b : String) (bot : BotSpec) → lookup b a.bots ≡ some bot → Keeps I (f bot))
      → Keeps I (lift (target_bot py a run_id o) >>= f)
  unfolding target_bot ◌>>=◌
  target_bot-Keeps none f k = record { at = λ w p. p }
  target_bot-Keeps (some b) f k = record {
    at = λ w p. found (lookup b a.bots) (λ bot e. (k b bot e).at w p) p;
  }
    where
      found :
          {w : World} (o : Option BotSpec)
          → ((bot : BotSpec) → o ≡ some bot → I (f bot w).1)
          → I w
          → I
              ((lift (elim o as (λ _. Result BotSpec) [
                | none ↦ err (Exn.value_error ("handoff target bot is not registered: " ++ b))
                | some bot ↦ ok bot
              ])
                  >>= f)
                w).1
      found none k p = p
      found (some bot) k p = k bot refl

  handoff-Keeps : (st : RunState) (d : Decision) → Keeps I (handoff py a run_id st d)
  unfolding handoff
  handoff-Keeps st d = target_bot-Keeps d.target _ λ b bot e.
      Keeps-bind _ _ (Keeps-gets _) λ previous. Keeps-bind _ _ (rules.enters b bot e) λ _.
        Keeps-bind _ _ (rules.logs _ _ _ refl) λ _. Keeps-bind _ _ rules.draws λ id. Keeps-pure _

  act_llm-Keeps : (st : RunState) (os : List Observation) → Keeps I (act_llm py a run_id st goal os)
  unfolding act_llm
  act_llm-Keeps st os = Keeps-bind _ _ (Keeps-gets _) λ tools.
      Keeps-bind _ _ (Keeps-gets _) λ timeout. Keeps-bind _ _ (rules.asks _ _) λ output.
        Keeps-bind _ _ rules.draws λ id. Keeps-bind _ _ (rules.logs _ _ _ refl) λ _. Keeps-pure _

  act_on-Keeps :
      (st : RunState) (os : List Observation) (d : Decision) (c : DecisionAction)
      → Keeps I (act_on py a run_id st goal os d c)
  unfolding act_on
  act_on-Keeps st os d Models.call_llm = act_llm-Keeps st os
  act_on-Keeps st os d Models.call_tool = target d.target
    where
      target :
          (o : Option String)
          → Keeps I (elim o as (λ _. Exec Observation) [
            | none ↦ raise (Exn.value_error "tool decision requires a target")
            | some name ↦ act_tool py a run_id st name d
          ])
      target none = Keeps-raise _
      target (some name) = rules.tools st name d
  act_on-Keeps st os d _ = Keeps-raise _

  act-Keeps :
      (st : RunState) (os : List Observation) (d : Decision)
      → Keeps I (act py a run_id st goal os d)
  unfolding act
  act-Keeps st os d = Keeps-bind _ _ (rules.logs _ _ _ refl) λ _. act_on-Keeps st os d d.action

  pub log_observations-Keeps :
      (os : List Observation) → Keeps I (log_observations py a run_id goal os)
  unfolding log_observations
  log_observations-Keeps [] = Keeps-pure _
  log_observations-Keeps (o ∷ os) =
      Keeps-bind _ _ (Keeps-gets _)
        λ st. Keeps-bind _ _ (rules.logs _ _ _ refl) λ _. log_observations-Keeps os

  decide_now-Keeps :
      (step : ℕ) (os : List Observation) → Keeps I (decide_now py a run_id goal step os)
  unfolding decide_now
  decide_now-Keeps step os =
      Keeps-bind _ _ (Keeps-gets _) λ policy. Keeps-bind _ _ rules.stats λ stop. Keeps-lift _

  save_step-Keeps :
      (step : ℕ) (os : List Observation) → Keeps I (save_step py a run_id goal step os)
  unfolding save_step
  save_step-Keeps step os =
      Keeps-bind _ _ (Keeps-gets _) λ st. Keeps-bind _ _ (Keeps-gets _) λ bot. rules.logs _ _ _ refl

  -- After a pass: the result of an ended run, or the invariant.
  abbrev pub After : Pass → World → Type 0
  After (ended r) w = Done r w
  After (again os) w = I w

  again-Runs : (os : List Observation) → Runs I (pure (again os)) After
  unfolding pure
  again-Runs os = record { at = λ w p. p }

  perform-Runs :
      (step : ℕ) (os : List Observation) (d : Decision)
      → Runs I (perform py a run_id goal step os d) After
  unfolding perform is_terminal
  perform-Runs step os d = Keeps-Runs-bind {R = After} _ _ (transition-Keeps acting refl) λ _.
      Keeps-Runs-bind {R = After} _ _ (Keeps-gets _) λ st.
        Keeps-Runs-bind {R = After} _ _ (action st d.action)
          λ new. Keeps-Runs-bind {R = After} _ _ (save_step-Keeps step _) λ _. again-Runs _
    where
      action :
          (st : RunState) (c : DecisionAction)
          → Keeps I (elim c as (λ _. Exec Observation) [
            | Models.handoff ↦ handoff py a run_id st d
            | _ ↦ act py a run_id st goal os d
          ])
      action st Models.handoff = handoff-Keeps st d
      action st _ = act-Keeps st os d

  pub ending-Runs : (m : Exec RunResult) → Runs I m Done → Runs I (m >>= λ r. pure (ended r)) After
  ending-Runs m h = Runs-bind {Q = Done} {R = After} _ _ h (λ r v q. unfold pure in q)

  follow-Runs :
      (step : ℕ) (os : List Observation) (d : Decision) (c : DecisionAction)
      → Runs I (follow py a run_id goal step os d c) After
  unfolding follow
  follow-Runs step os d Models.finish = ending-Runs _ (rules.succeeds _ _)
  follow-Runs step os d Models.cancel = ending-Runs _ (rules.cancels _ _)
  follow-Runs step os d Models.fail = ending-Runs _ (rules.fails _ _)
  follow-Runs step os d _ = perform-Runs step os d

  observe_and_decide-Runs :
      (step : ℕ) (os : List Observation)
      → Runs I (observe_and_decide py a run_id goal step os) After
  unfolding observe_and_decide is_terminal
  observe_and_decide-Runs step os =
      Keeps-Runs-bind {R = After} _ _ (transition-Keeps observing refl) λ _.
        Keeps-Runs-bind {R = After} _ _ (log_observations-Keeps os) λ _.
          Keeps-Runs-bind {R = After} _ _ (transition-Keeps deciding refl) λ _.
            Keeps-Runs-bind {R = After} _ _ (decide_now-Keeps step os) λ d.
              Keeps-Runs-bind {R = After} _ _ (Keeps-gets _) λ st.
                Keeps-Runs-bind {R = After} _ _ (rules.logs _ _ _ refl)
                  λ _. follow-Runs step os d d.action

  pub pass-Runs : (step : ℕ) (os : List Observation) → Runs I (pass py a run_id goal step os) After
  unfolding pass
  pass-Runs step os = Keeps-Runs-bind {R = After} _ _ (Keeps-gets _) λ policy.
      Keeps-Runs-bind {R = After} _ _ (Keeps-lift _) λ _.
        Keeps-Runs-bind {R = After} _ _ rules.stats λ stop.
          Runs-if stop _ _ (ending-Runs _ (rules.cancels _ _)) (observe_and_decide-Runs step os)

  abbrev pub Finished : Option RunResult → World → Type 0
  Finished none w = I w
  Finished (some r) w = Done r w

  pub passes-Runs :
      (n step : ℕ) (os : List Observation) → Runs I (passes py a run_id goal n step os) Finished
  unfolding passes
  passes-Runs zero step os = record { at = unfold pure in λ w p. p }
  passes-Runs (suc n) step os =
      Runs-bind {Q = After} {R = Finished} _ _ (pass-Runs step os)
        (next (λ more. passes-Runs n (step + 1) more))
    where
      next :
          ((more : List Observation) → Runs I (passes py a run_id goal n (step + 1) more) Finished)
          → (p : Pass) (v : World) → After p v
          → Ends Finished
              (λ _ u. I u)
              (go_on py a run_id goal (λ more. passes py a run_id goal n (step + 1) more) p v)
      next ih (ended r) v q = unfold pure in q
      next ih (again more) v q = (ih more).at v q

  failing-Ends :
      (f : World → ℕ) (reason : String) (w : World)
      → I w
      → Ends Done
          (λ e v. (is_caught e ≡ false) × I v)
          ((gets f >>= (λ budget. fail py a run_id (pos budget) reason)) w)
  unfolding ◌>>=◌
  failing-Ends f reason w h =
      Ends-accepted Done (λ _ v. I v) _ (fail py a run_id (pos (f w)) reason w)
        (fail-accepted py a run_id (pos (f w)) reason w) ((rules.fails (pos (f w)) reason).at w h)

  conclude-Ends :
      (r : Result (Option RunResult)) (w : World)
      → Ends Finished (λ _ v. I v) (r, w)
      → Ends Done (λ e v. (is_caught e ≡ false) × I v) (conclude py a run_id goal r w)
  unfolding conclude
  conclude-Ends (ok (some r)) w h = unfold pure in h
  conclude-Ends (ok none) w h = failing-Ends _ _ w h
  conclude-Ends (err e) w h = caught (is_caught e) refl
    where
      caught :
          (b : Bool)
          → is_caught e ≡ b
          → Ends Done
              (λ x v. (is_caught x ≡ false) × I v)
              ((if b
                  then gets (λ v. v.policy.max_steps)
                    >>= (λ budget. fail py a run_id (pos budget) (message e))
                  else raise e)
                w)
      caught true c = failing-Ends _ _ w h
      caught false c = unfold raise in (c, h)

  -- From `I`, the loop returns into `Done`, or it raises what its handler does not take, and `I`
  -- still holds.
  pub run_loop-Ends :
      (start : ℕ) (os : List Observation) (w : World)
      → I w
      → Ends Done (λ e v. (is_caught e ≡ false) × I v) (run_loop py a run_id goal start os w)
  unfolding run_loop
  run_loop-Ends start os w h =
      let (r, w') = passes py a run_id goal (w.policy.max_steps - start) start os w in
      conclude-Ends r w' ((passes-Runs (w.policy.max_steps - start) start os).at w h)
