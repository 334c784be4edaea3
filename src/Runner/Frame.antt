-- ===== src/Runner/Frame.antt =====
-- Invariants of the policy, the active bot and the requests to the outside: what the log and the
-- state machine do is nothing to them.
use multi_bot_agentic.Prelude.{
  ℕ, String, ◌≡◌, refl, Bool, true, false, Option, none, some, List, ◌∷◌, contains, string_eq,
  Bool-cases, inl, inr,
}
use multi_bot_agentic.Prelude.Dict.{lookup}
use multi_bot_agentic.Exn.{Result, ok, err}
use multi_bot_agentic.Json.{ℤ, Conversions, Payload}
use multi_bot_agentic.Models.{
  RunState, EventType, Observation, Decision, ModelRequest, ToolInvocation,
}
use multi_bot_agentic.Bots.{BotSpec}
use multi_bot_agentic.Safety.{SafetyPolicy, validate_tool}
use multi_bot_agentic.Runner.{
  AgentRunner, Exec, ToolAdapter, History, Request, stat, clock, uuid4, complete, execute,
  RunResult, log_event, uuid, is_cancelled, move, transition, finish_with, succeed, cancel, fail,
  act_tool, find_tool, invoke, ask_provider, run_tool, is_caught, modify, lift, ◌>>=◌, run_loop,
}
use multi_bot_agentic.Runner.State
use multi_bot_agentic.Runner.Rules.{
  Ends, Ends-Keeps, Runs, Keeps, Keeps-bind, Keeps-pure, Keeps-gets, Keeps-lift, Keeps-if,
}
use multi_bot_agentic.Runner.LoopRules.{LoopRules}
use multi_bot_agentic.Runner.Invariant.{run_loop-Ends}

-- A request that runs no action: the clock, an identifier, whether a file is there.
abbrev pub is_quiet : Request → Bool
is_quiet (stat path) = true
is_quiet clock = true
is_quiet uuid4 = true
is_quiet (complete q t) = false
is_quiet (execute n i) = false

pub record FrameRules (a : AgentRunner) (F : SafetyPolicy → Option String → History → Type 0)
    : Type 0 where
  pub quiet :
      (q : Request) (p : SafetyPolicy) (b : Option String) (h : History)
      → is_quiet q ≡ true
      → F p b h
      → F p b (q ∷ h)
  pub asks :
      (q : ModelRequest) (t : ℕ) (p : SafetyPolicy) (b : Option String) (h : History)
      → F p b h
      → F p b (complete q t ∷ h)
  pub runs :
      (n : String) (i : ToolInvocation) (p : SafetyPolicy) (b : Option String) (h : History)
      → contains n p.allowed_tools ≡ true
      → F p b h
      → F p b (execute n i ∷ h)
  pub enters :
      (k : String) (bot : BotSpec) (p : SafetyPolicy) (b : Option String) (h : History)
      → lookup k a.bots ≡ some bot
      → F p b h
      → F (record p { allowed_tools = bot.allowed_tools }) (some bot.bot_id) h

abbrev pub Holds : (SafetyPolicy → Option String → History → Type 0) → State.World → Type 0
Holds F w = F w.policy w.active_bot_id w.history

-- What every quiet request keeps, the methods that only log and ask quietly keep.
module _ (py : Conversions) (a : AgentRunner) (run_id : String)
    (F : SafetyPolicy → Option String → History → Type 0)
    (quiet : (q : Request) (p : SafetyPolicy) (b : Option String) (h : History)
      → is_quiet q ≡ true
      → F p b h
      → F p b (q ∷ h)) where
  log_event-Holds :
      (st : RunState) (ty : EventType) (p : Payload) → Keeps (Holds F) (log_event a run_id st ty p)
  unfolding log_event
  log_event-Holds st ty p = record { at = λ w h. quiet clock _ _ _ refl h }

  uuid-Holds : Keeps (Holds F) (uuid a)
  unfolding uuid
  uuid-Holds = record { at = λ w h. quiet uuid4 _ _ _ refl h }

  is_cancelled-Holds : Keeps (Holds F) (is_cancelled a)
  unfolding is_cancelled
  is_cancelled-Holds = record {
    at = λ w h. asked w.policy.cancellation_file w.policy w.active_bot_id w.history h;
  }
    where
      asked :
          (o : Option String) (p : SafetyPolicy) (b : Option String) (h : History)
          → F p b h
          → F p b (elim o as (λ _. History) [ none ↦ h | some path ↦ stat path ∷ h ])
      asked none p b h x = x
      asked (some path) p b h x = quiet (stat path) p b h refl x

  move-Holds : (next : RunState) → Keeps (Holds F) (move next)
  unfolding move
  move-Holds next = record { at = λ w h. h }

  transition-Holds : (next : RunState) → Keeps (Holds F) (transition py a run_id next)
  unfolding transition
  transition-Holds next = Keeps-bind _ _ (move-Holds next) λ p. log_event-Holds _ _ _

  finish_with-Holds :
      (ty : EventType) (key : String) (steps : ℤ) (text : String)
      → Keeps (Holds F) (finish_with py a run_id ty key steps text)
  unfolding finish_with
  finish_with-Holds ty key steps text = Keeps-bind _ _ (Keeps-gets _) λ st.
      Keeps-bind _ _ (log_event-Holds _ _ _) λ _. Keeps-bind _ _ (Keeps-gets _) λ st'. Keeps-pure _

  -- The request of the tool is `F`'s to keep.
  invoke-Holds :
      (st : RunState) (n : String) (tool : ToolAdapter) (d : Decision)
      → ((i : ToolInvocation) → Keeps (Holds F) (run_tool py a run_id n tool i))
      → Keeps (Holds F) (invoke py a run_id st n tool d)
  unfolding invoke
  invoke-Holds st n tool d k = Keeps-bind _ _ (k _) λ result.
      Keeps-bind _ _ (log_event-Holds _ _ _) λ _. Keeps-bind _ _ uuid-Holds λ id. Keeps-pure _

Runs_of_Keeps : (P : State.World → Type 0) (m : Exec RunResult) → Keeps P m → Runs P m (λ _ w. P w)
Runs_of_Keeps P m k = record { at = λ w h. let (r, v) = m w in Ends-Keeps P r v (k.at w h) }

module _ (py : Conversions) (a : AgentRunner) (run_id : String)
    (F : SafetyPolicy → Option String → History → Type 0) (rules : FrameRules a F) where
  -- `F`, where the tool `n` is allowed.
  abbrev Allows : String → SafetyPolicy → Option String → History → Type 0
  Allows n p b h = F p b h × (contains n p.allowed_tools ≡ true)

  run_tool-Allows :
      (n : String) (tool : ToolAdapter) (i : ToolInvocation)
      → Keeps (Holds (Allows n)) (run_tool py a run_id n tool i)
  unfolding run_tool
  run_tool-Allows n tool i = record {
    at = λ w h. (rules.runs n i w.policy w.active_bot_id w.history h.1 h.0, h.1);
  }

  -- The tool runs only after `validate_tool` has passed.
  act_tool-Holds :
      (st : RunState) (n : String) (d : Decision) → Keeps (Holds F) (act_tool py a run_id st n d)
  unfolding act_tool validate_tool ◌>>=◌
  act_tool-Holds st n d = record {
    at = λ w h. elim (Bool-cases (contains n w.policy.allowed_tools)) [
      | inl allowed ↦ rw allowed (run w (h, allowed)).0
      | inr refused ↦ rw refused h
    ];
  }
    where
      run :
          (w : State.World)
          → Holds (Allows n) w
          → Holds
              (Allows n)
              ((lift (find_tool py a run_id n) >>= λ tool. invoke py a run_id st n tool d) w).1
      run =
          (Keeps-bind _ _ (Keeps-lift (find_tool py a run_id n)) λ tool.
            invoke-Holds py a run_id (Allows n) (λ q p b h e x. (rules.quiet q p b h e x.0, x.1)) st
              n tool d (run_tool-Allows n tool)).at

  pub FrameRules-loop : LoopRules py a run_id (Holds F) (λ _ w. Holds F w)
  unfolding succeed cancel fail modify ask_provider
  FrameRules-loop = record {
    logs = λ st ty p _. log_event-Holds py a run_id F rules.quiet st ty p;
    draws = uuid-Holds py a run_id F rules.quiet;
    stats = is_cancelled-Holds py a run_id F rules.quiet;
    moves = λ next _. move-Holds py a run_id F rules.quiet next;
    enters = λ k bot e. record { at = λ w h. rules.enters k bot _ _ _ e h };
    asks = λ q t. record { at = λ w h. rules.asks q t _ _ _ h };
    tools = act_tool-Holds;
    succeeds = λ steps d. Runs_of_Keeps _ _ (last _ _ _ _ _);
    cancels = λ steps reason. Runs_of_Keeps _ _ (last _ _ _ _ _);
    fails = λ steps reason. Runs_of_Keeps _ _ (
        Keeps-bind _ _ (Keeps-gets _) λ e.
          Keeps-bind _ _
            (Keeps-if e _ _ (Keeps-pure _) (transition-Holds py a run_id F rules.quiet _))
            λ _. finish_with-Holds py a run_id F rules.quiet _ _ _ _);
  }
    where
      last :
          (s : RunState) (ty : EventType) (key : String) (steps : ℤ) (text : String)
          → Keeps
              (Holds F)
              (transition py a run_id s >>= λ _. finish_with py a run_id ty key steps text)
      last s ty key steps text =
          Keeps-bind _ _ (transition-Holds py a run_id F rules.quiet s)
            λ _. finish_with-Holds py a run_id F rules.quiet ty key steps text

  -- The loop keeps `F`, however it ends.
  pub run_loop-Holds :
      (goal : String) (start : ℕ) (os : List Observation) (w : State.World)
      → Holds F w
      → Holds F (run_loop py a run_id goal start os w).1
  run_loop-Holds goal start os w h =
      kept _
        (run_loop-Ends py a run_id goal (Holds F) (λ _ v. Holds F v) FrameRules-loop start os w h)
    where
      kept :
          (x : Result RunResult × State.World)
          → Ends (λ _ v. Holds F v) (λ e v. (is_caught e ≡ false) × Holds F v) x
          → Holds F x.1
      kept (ok r, v) h = h
      kept (err e, v) h = h.1
