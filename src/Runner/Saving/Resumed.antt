-- ===== src/Runner/Saving/Resumed.antt =====
-- runner.py: `resume` after a run was killed between two passes of the loop.
use multi_bot_agentic.Prelude.{
  ℕ, ◌+◌, String, ◌≡◌, refl, sym, ap, ◌∙◌, subst, false, Option, none, some, List, [], Option-cases,
  ◌⊎◌, inl, inr, All, string_eq, arith,
}
use multi_bot_agentic.Prelude.Dict.{lookup}
use multi_bot_agentic.Prelude.Text.{strip, is_empty}
use multi_bot_agentic.Exn.{ok}
use multi_bot_agentic.Json.{Conversions}
use multi_bot_agentic.Models.{Observation, created}
use multi_bot_agentic.Bots.{BotSpec}
use multi_bot_agentic.Safety.{SafetyPolicy, validate_goal}
use multi_bot_agentic.EventLog.{EventLog}
use multi_bot_agentic.Checkpoint.{CheckpointSnapshot, load_latest_checkpoint}
use multi_bot_agentic.Checkpoint.RoundTrip.{HasId}
use multi_bot_agentic.Runner.{
  AgentRunner, RunResult, History, again, pass, init, run_loop, resume, resume_from, restore_bot,
  recorded_outcome, no_observations, clamp, pure, modify, enter_bot, ◌>>=◌,
}
use multi_bot_agentic.Runner.State
use multi_bot_agentic.Runner.Rules.{Ends}
use multi_bot_agentic.Runner.LoopRules.{LoopRules}
use multi_bot_agentic.Runner.Invariant.{After, pass-Runs}
use multi_bot_agentic.Runner.Frame.{FrameRules, FrameRules-loop, Holds}
use multi_bot_agentic.Runner.Recorded.{IsOpen, IsClosed}
use multi_bot_agentic.Runner.Outcome.{IsOpen-rules}
use multi_bot_agentic.Runner.Saving.{Loads}
use multi_bot_agentic.Runner.Saving.Steps.{DrawsIds}
use multi_bot_agentic.Runner.Saving.Pass.{Saved, snapshot_of, pass-Saved}

-- The policy and the active bot are the constructor's, or those of a bot that was entered since.
abbrev pub InScope :
    AgentRunner → SafetyPolicy → Option String → SafetyPolicy → Option String → History → Type 0
InScope a policy active p b h =
    ((p ≡ policy) × (b ≡ active))
    ⊎ ((k : String) × ((bot : BotSpec) × (lookup k a.bots ≡ some bot)
          × (p ≡ record policy { allowed_tools = bot.allowed_tools })
          × (b ≡ some bot.bot_id)))

module _ (py : Conversions) (a : AgentRunner) (policy : SafetyPolicy) (active : Option String) where
  InScope-rules : FrameRules a (InScope a policy active)
  InScope-rules = record {
    quiet = λ q p b h e s. s;
    asks = λ q t p b h s. s;
    runs = λ n i p b h c s. s;
    enters = λ k bot p b h e s. entered k bot p b e s;
  }
    where
      entered :
          (k : String) (bot : BotSpec) (p : SafetyPolicy) (b : Option String)
          → lookup k a.bots ≡ some bot
          → ((p ≡ policy) × (b ≡ active))
            ⊎ ((k : String) × ((bot : BotSpec) × (lookup k a.bots ≡ some bot)
                  × (p ≡ record policy { allowed_tools = bot.allowed_tools })
                  × (b ≡ some bot.bot_id)))
          → InScope a policy active
              (record p { allowed_tools = bot.allowed_tools })
              (some bot.bot_id)
              []
      entered k bot p b e (inl (same, _)) = inr (k, (bot, e, ground (arith, same), refl))
      entered k bot p b e (inr (_, (_, _, same, _))) = inr (k, (bot, e, ground (arith, same), refl))

-- A new runner with the same arguments, over a log that may have grown.
init-bot :
    (a : AgentRunner) (policy : SafetyPolicy) (log : EventLog) (active : Option String)
    (u : State.World)
    → init a policy log active ≡ ok u
    → (u.log ≡ log) × (u.active_bot_id ≡ active) × (u.history ≡ [])
unfolding init lookup
init-bot a policy log none u e = ground arith
init-bot a policy log (some b) u e = ground arith

init-some :
    (a : AgentRunner) (policy : SafetyPolicy) (log : EventLog) (k : String) (u : State.World)
    → init a policy log (some k) ≡ ok u
    → (bot : BotSpec) × (lookup k a.bots ≡ some bot) × (u.policy.allowed_tools ≡ bot.allowed_tools)
unfolding init
init-some a policy log k u e = elim (Option-cases (lookup k a.bots)) [
  | inl none_found ↦ cc (rw (none_found, init) at e)
  | inr (bot, found) ↦ (bot, found, ground (arith, rw (found, init) at e))
]

-- The world with which the loop goes on after a kill: the log, policy and bot at the end of the last
-- pass, in a new process, whose machine is a new one and which has asked nothing.
abbrev pub restarted : State.World → State.World
restarted v = record v { history = []; machine = record { state = created } }

module _ (py : Conversions) (a : AgentRunner)
    (keyed : (k : String) (bot : BotSpec) → lookup k a.bots ≡ some bot → bot.bot_id ≡ k) where
  restore_some :
      (k : String) (bot : BotSpec) (u : State.World)
      → lookup k a.bots ≡ some bot
      → restore_bot py a (some k) u ≡ (ok tt, enter_bot bot u)
  unfolding restore_bot modify
  restore_some k bot u e = rw (e, restore_bot)

  restore_bot-InScope :
      (policy : SafetyPolicy) (log : EventLog) (active b : Option String) (u : State.World)
      (p : SafetyPolicy) (h : History)
      → init a policy log active ≡ ok u
      → InScope a u.policy u.active_bot_id p b h
      → restore_bot py a b u ≡ (ok tt, record u { policy = p; active_bot_id = b })
  unfolding restore_bot pure
  restore_bot-InScope policy log active b u p h made (inr (k, (bot, found, scope, named))) =
      rw (named, scope)
        (restore_some bot.bot_id bot u
          (subst (λ j. lookup j a.bots ≡ some bot) (sym (keyed k bot found)) found))
  restore_bot-InScope policy log none b u p h made (inl (scope, same)) =
      ground (arith, scope, same, init-bot a policy log none u made)
  restore_bot-InScope policy log (some k) b u p h made (inl (scope, same)) =
      let (bot, found, tools) = init-some a policy log k u made in
      ap (λ o. restore_bot py a o u) (same ∙ (init-bot a policy log (some k) u made).1)
      ∙ restore_some k bot u found
      ∙ ground (arith, scope, same, tools, init-bot a policy log (some k) u made, keyed k bot found)

  resume_from-run_loop :
      (run_id : String) (s : CheckpointSnapshot) (u v : State.World)
      → is_empty (strip s.goal) ≡ false
      → no_observations s.observations ≡ false
      → validate_goal u.policy s.goal ≡ ok tt
      → restore_bot py a s.active_bot_id u ≡ (ok tt, v)
      → resume_from py a run_id s u
        ≡ run_loop py a run_id s.goal
            (clamp s.step)
            s.observations
            (record v { machine = record { state = created } })
  unfolding resume_from ◌>>=◌
  resume_from-run_loop run_id s u v g o valid back = rw (g, o, valid, back) refl

  validate_goal-strip :
      (p : SafetyPolicy) (goal : String)
      → validate_goal p goal ≡ ok tt
      → is_empty (strip goal) ≡ false
  unfolding validate_goal
  validate_goal-strip p goal e = ground (arith, e)

  resume-load :
      (draw : ℕ → ℕ → String) (run_id : String) (s : CheckpointSnapshot) (u : State.World)
      → recorded_outcome py u.log run_id ≡ none
      → load_latest_checkpoint py draw u.log run_id ≡ ok (some s)
      → resume py a draw run_id u ≡ resume_from py a run_id s u
  unfolding resume
  resume-load draw run_id s u r l = rw (r, l, resume) refl

  unrecorded :
      (run_id : String) (v : State.World)
      → IsOpen run_id v
      → recorded_outcome py v.log run_id ≡ none
  unfolding recorded_outcome
  unrecorded run_id v o = rw (o.unfinished, recorded_outcome) refl

  -- What a pass that goes on keeps.
  after_pass :
      (I : State.World → Type 0) (Done : RunResult → State.World → Type 0) {run_id : String}
      → LoopRules py a run_id I Done
      → (goal : String) (step : ℕ) (os more : List Observation) (w v : State.World) → I w
      → pass py a run_id goal step os w ≡ (ok (again more), v)
      → I v
  after_pass I Done {run_id} rules goal step os more w v i e =
      subst (Ends (After py a run_id goal I Done rules) (λ _ x. I x)) e
        ((pass-Runs py a run_id goal I Done rules step os).at w i)

  -- Let every bot be registered under its own identifier, and let every identifier drawn be a text
  -- that is not empty. Take a run with a valid goal whose runner was built from `policy` and `active`
  -- and has since changed its scope by entering registered bots only; let the run be open, its
  -- checkpoint load, and its observations have identifiers. If a pass goes on, the process is killed
  -- after it, and a runner that is built from the same arguments over the log that is left resumes
  -- the run, then this is exactly the loop going on in the world that the pass has left, with the next
  -- step and the pass's observations, but for the state machine and the history of requests, which
  -- are new.
  pub resume-pass :
      (policy : SafetyPolicy) (active : Option String) (draw : ℕ → ℕ → String)
      (run_id goal : String) (step : ℕ) (os more : List Observation) (w v u : State.World)
      → DrawsIds py a draw run_id
      → InScope a u.policy u.active_bot_id w.policy w.active_bot_id w.history
      → IsOpen run_id w
      → Loads py draw run_id w
      → All HasId os
      → pass py a run_id goal step os w ≡ (ok (again more), v)
      → init a policy v.log active ≡ ok u
      → validate_goal u.policy goal ≡ ok tt
      → resume py a draw run_id u ≡ run_loop py a run_id goal (step + 1) more (restarted v)
  resume-pass policy active draw run_id goal step os more w v u ids scope live loads ids_of e made
        valid =
      let (some_left, _, _, loaded) =
        subst (Ends (Saved py a draw run_id goal step) (λ _ x. Loads py draw run_id x)) e
          (pass-Saved py a draw run_id goal ids step os w ids_of loads) in
      let still_open =
        after_pass (IsOpen run_id) (IsClosed py run_id) (IsOpen-rules py a run_id) goal step os more
          w v live e in
      let still_in_scope =
        after_pass (Holds (InScope a u.policy u.active_bot_id)) _
          (FrameRules-loop py a run_id _ (InScope-rules py a u.policy u.active_bot_id)) goal step os
          more w v scope e in
      let (same_log, _, new_history) = init-bot a policy v.log active u made in
      resume-load draw run_id (snapshot_of py a draw run_id goal step more v) u
        (rw same_log (unrecorded run_id v still_open)) (rw same_log loaded)
      ∙ resume_from-run_loop run_id (snapshot_of py a draw run_id goal step more v) u _
          (validate_goal-strip u.policy goal valid) some_left valid
          (restore_bot-InScope policy v.log active v.active_bot_id u v.policy v.history made
            still_in_scope)
      ∙ ap (run_loop py a run_id goal (step + 1) more) (ground (arith, same_log, new_history))
