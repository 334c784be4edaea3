-- ===== src/Runner/State.antt =====
-- What a run reads and changes: the log, the policy and bot in force, the run's state machine, and
-- the world outside the program. The outside is asked in a history of requests, the latest first;
-- each answer may depend on all that was asked before.
use multi_bot_agentic.Prelude.{ℕ, String, Bool, Option, List, ◌∷◌}
use multi_bot_agentic.Prelude.Dict.{Dict}
use multi_bot_agentic.Exn.{Exn, Result, ok, err}
use multi_bot_agentic.Json.{Payload}
use multi_bot_agentic.Models.{
  RunState, EventType, ModelRequest, ModelOutput, ToolSpec, ToolInvocation, ToolResult,
}
use multi_bot_agentic.Bots.{BotSpec}
use multi_bot_agentic.Lifecycle.{RunStateMachine}
use multi_bot_agentic.Safety.{SafetyPolicy, is_cancelled as cancelled_by}
use multi_bot_agentic.EventLog.{EventLog, append}

pub data Request : Type 0 where
  stat : String → Request
  clock uuid4 : Request
  complete : ModelRequest → ℕ → Request
  execute : String → ToolInvocation → Request

abbrev pub History : Type 0
History = List Request

-- A tool's `execute` (tools/base.py), registered under a name.
abbrev pub ToolAdapter : Type 0
ToolAdapter = History → ToolInvocation → Result ToolResult

-- The operating system, and the provider's `complete` (llm/base.py).
pub record Outside : Type 0 where
  pub exists : History → String → Bool
  pub now : History → String
  pub draw : History → String
  pub answer : History → ModelRequest → ℕ → Result ModelOutput

-- The fields of `AgentRunner` that no method changes.
pub record AgentRunner : Type 0 where
  pub outside : Outside
  pub provider_name : String
  pub tools : Dict String ToolAdapter
  pub bots : Dict String BotSpec
  pub tool_specs : List ToolSpec

pub record World : Type 0 where
  pub log : EventLog
  pub history : History
  pub policy : SafetyPolicy
  pub active_bot_id : Option String
  pub machine : RunStateMachine

-- A method: what was written before a raise stays written.
abbrev pub Exec : Type 0 → Type 0
Exec A = World → Result A × World

module _ {A : Type 0} where
  unfoldable pub pure : A → Exec A
  pure a w = (ok a, w)

  unfoldable pub raise : Exn → Exec A
  raise e w = (err e, w)

  unfoldable pub lift : Result A → Exec A
  lift r w = (r, w)

  unfoldable pub gets : (World → A) → Exec A
  gets f w = (ok (f w), w)

unfoldable pub modify : (World → World) → Exec (Unit {0})
modify f w = (ok tt, f w)

module _ {A B : Type 0} where
  abbrev pub continue : Result A → (A → Exec B) → Exec B
  continue (ok a) f w = f a w
  continue (err e) f w = (err e, w)

  infixl 10 ◌>>=◌ ◌>>◌
  -- Opening this opens `pure`, `raise`, `lift`, `gets` and `modify` too.
  unfoldable pub ◌>>=◌ : Exec A → (A → Exec B) → Exec B
  unfolding pure raise lift gets modify
  ◌>>=◌ m f w = let (r, w') = m w in continue r f w'

  abbrev pub ◌>>◌ : Exec A → Exec B → Exec B
  m >> k = m >>= λ _. k

module _ (a : AgentRunner) where
  -- `self.event_log.append(run_id, state, event_type, payload)`, with its reading of the clock.
  unfoldable pub log_event : String → RunState → EventType → Payload → Exec (Unit {0})
  log_event r st ty p w = (
    ok tt,
    record w {
      log = append w.log r st ty p (a.outside.now w.history);
      history = Request.clock ∷ w.history;
    },
  )

  unfoldable pub uuid : Exec String
  uuid w = (ok (a.outside.draw w.history), record w { history = Request.uuid4 ∷ w.history })

  -- `self.safety_policy.is_cancelled()`
  unfoldable pub is_cancelled : Exec Bool
  is_cancelled w = (
    ok (cancelled_by w.policy (a.outside.exists w.history)),
    record w {
      history = elim w.policy.cancellation_file [
        | Option.none ↦ w.history
        | Option.some path ↦ Request.stat path ∷ w.history
      ];
    },
  )
