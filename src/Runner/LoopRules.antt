-- ===== src/Runner/LoopRules.antt =====
-- What a loop keeps: the rules of its steps, from which the loop's own follow.
use multi_bot_agentic.Prelude.{
  ℕ, String, ◌≡◌, refl, Bool, true, false, some, Bool-cases, inl, inr, string_eq,
}
use multi_bot_agentic.Prelude.Dict.{lookup}
use multi_bot_agentic.Exn.{Exn, Result, ok, err}
use multi_bot_agentic.Json.{ℤ, Conversions, Payload}
use multi_bot_agentic.Models.{
  RunState, EventType, Decision, ModelRequest, run_completed, run_failed, run_cancelled,
}
use multi_bot_agentic.Lifecycle.{is_terminal}
use multi_bot_agentic.Lifecycle.Paths.{machine, accepted, transition_to_abort}
use multi_bot_agentic.Bots.{BotSpec}
use multi_bot_agentic.Runner.State.{
  AgentRunner, World, modify, ◌>>=◌, log_event, uuid, is_cancelled,
}
use multi_bot_agentic.Runner.Actions.{
  RunResult, move, enter_bot, transition, succeed, cancel, fail, ask_provider, act_tool,
  finish_with,
}
use multi_bot_agentic.Runner.Rules.{Ends, Runs, Keeps}

-- Whether an event type ends a run.
abbrev pub ends_run : EventType → Bool
ends_run run_completed = true
ends_run run_failed = true
ends_run run_cancelled = true
ends_run _ = false

pub Ends-accepted :
    {A : Type 0} (Q : A → World → Type 0) (E F : Exn → World → Type 0) (r : Result A × World)
    → accepted r.0 ≡ true
    → Ends Q E r
    → Ends Q F r
Ends-accepted Q E F (ok x, w) h q = q
Ends-accepted Q E F (err e, w) h q = cc

module _ (py : Conversions) (a : AgentRunner) (run_id : String) where
  -- A run that has not ended can be failed, and one that has is left alone: `_fail` never raises.
  pub fail-accepted :
      (steps : ℤ) (reason : String) (w : World)
      → accepted (fail py a run_id steps reason w).0 ≡ true
  unfolding fail ◌>>=◌ finish_with log_event transition move
  fail-accepted steps reason w = elim (Bool-cases (is_terminal w.machine)) [
    | inl e ↦ rw e refl
    | inr e ↦ rw e (rw ((transition_to_abort w.machine.state e).0) refl)
  ]

-- `I` holds while the run goes on, `Done` of its result when it has ended.
pub record LoopRules (py : Conversions) (a : AgentRunner) (run_id : String) (I : World → Type 0)
    (Done : RunResult → World → Type 0) : Type 0 where
  pub logs :
      (st : RunState) (ty : EventType) (p : Payload)
      → ends_run ty ≡ false
      → Keeps I (log_event a run_id st ty p)
  pub draws : Keeps I (uuid a)
  pub stats : Keeps I (is_cancelled a)
  pub moves : (next : RunState) → is_terminal (machine next) ≡ false → Keeps I (move next)
  pub enters :
      (b : String) (bot : BotSpec) → lookup b a.bots ≡ some bot → Keeps I (modify (enter_bot bot))
  pub asks : (q : ModelRequest) (timeout : ℕ) → Keeps I (ask_provider py a run_id q timeout)
  pub tools :
      (st : RunState) (name : String) (d : Decision) → Keeps I (act_tool py a run_id st name d)
  pub succeeds : (steps : ℤ) (d : Decision) → Runs I (succeed py a run_id steps d) Done
  pub cancels : (steps : ℤ) (reason : String) → Runs I (cancel py a run_id steps reason) Done
  pub fails : (steps : ℤ) (reason : String) → Runs I (fail py a run_id steps reason) Done
