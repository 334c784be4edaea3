-- ===== src/Runner/Scope.antt =====
-- Which tools a run can execute: only those that the policy at the start or a registered bot allows.
use multi_bot_agentic.Prelude.{
  ℕ, String, ◌≡◌, true, Option, some, List, [], ◌∷◌, All, contains, string_eq, eq_iff, ◌==◌,
  Bool-cases, inl, inr, subst,
}
use multi_bot_agentic.Prelude.Dict.{lookup}
use multi_bot_agentic.Json.{Conversions}
use multi_bot_agentic.Models.{Observation}
use multi_bot_agentic.Bots.{BotSpec}
use multi_bot_agentic.Safety.{SafetyPolicy}
use multi_bot_agentic.Runner.{
  AgentRunner, History, Request, stat, clock, uuid4, complete, execute, run_loop,
}
use multi_bot_agentic.Runner.State
use multi_bot_agentic.Runner.Frame.{FrameRules, is_quiet, run_loop-Holds}

-- The names of the tools that were executed, the latest first.
abbrev pub executed : History → List String
executed [] = []
executed (stat path ∷ h) = executed h
executed (clock ∷ h) = executed h
executed (uuid4 ∷ h) = executed h
executed (complete q t ∷ h) = executed h
executed (execute n i ∷ h) = n ∷ executed h

All-contains :
    (P : String → Type 0) (n : String) (xs : List String) → All P xs → contains n xs ≡ true → P n
All-contains P n [] h c = cc
All-contains P n (x ∷ xs) h c = elim (Bool-cases (x == n)) [
  | inl e ↦ subst P ((eq_iff x n).0 e) h.0
  | inr e ↦ All-contains P n xs h.1 (rw e at c)
]

module _ (py : Conversions) (a : AgentRunner) (run_id : String) (P : String → Type 0) where
  -- All that is allowed or was executed has `P`.
  abbrev Scoped : SafetyPolicy → Option String → History → Type 0
  Scoped p b h = All P p.allowed_tools × All P (executed h)

  Scoped-rules :
      ((k : String) (bot : BotSpec) → lookup k a.bots ≡ some bot → All P bot.allowed_tools)
      → FrameRules a Scoped
  Scoped-rules bots = record {
    quiet = quiet;
    asks = λ q t p b h s. s;
    runs = λ n i p b h c s. (s.0, (All-contains P n p.allowed_tools s.0 c, s.1));
    enters = λ k bot p b h e s. (bots k bot e, s.1);
  }
    where
      quiet :
          (q : Request) (p : SafetyPolicy) (b : Option String) (h : History)
          → is_quiet q ≡ true
          → Scoped p b h
          → Scoped p b (q ∷ h)
      quiet (stat path) p b h e s = s
      quiet clock p b h e s = s
      quiet uuid4 p b h e s = s
      quiet (complete q t) p b h e s = cc
      quiet (execute n i) p b h e s = cc

  -- Whatever the model answers and whatever handoffs it asks for: if `P` holds of the tools that
  -- the policy allows at the start, of those of each registered bot and of those executed before,
  -- then every tool executed up to the loop's end has `P`, and so has every tool that the policy
  -- allows at the end.
  pub run_loop-executes_scoped :
      (goal : String) (start : ℕ) (os : List Observation) (w : State.World)
      → All P w.policy.allowed_tools
      → ((k : String) (bot : BotSpec) → lookup k a.bots ≡ some bot → All P bot.allowed_tools)
      → All P (executed w.history)
      → let v = (run_loop py a run_id goal start os w).1 in
        All P (executed v.history) × All P v.policy.allowed_tools
  run_loop-executes_scoped goal start os w allowed bots before =
      let s =
        run_loop-Holds py a run_id Scoped (Scoped-rules bots) goal start os w (allowed, before) in
      (s.1, s.0)
