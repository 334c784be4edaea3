-- ===== src/Guards/RateLimit/Windows.antt =====
-- tool_runner.py: what the sliding window lets through, over any calls.
use multi_bot_agentic.Prelude.{
  ℕ, ◌+◌, ◌≤◌, ◌≡◌, refl, subst, String, Bool, true, false, List, [], ◌∷◌, ◌++◌, length, ltb, leb,
  arith, string_eq, ◌==◌, eq_iff, eq_refl, if-split, Option-cases, inl, inr,
}
use multi_bot_agentic.Prelude.Dict.{Dict, lookup, insert, get_or, get_or-insert}
use multi_bot_agentic.Exn.{ok, OnOk, OnOk-ok, raise_if, value_error, ◌>>◌}
use multi_bot_agentic.Models.{ToolInvocation}
use multi_bot_agentic.Guards.RateLimit
use multi_bot_agentic.Guards.RateLimit.{
  RateLimitedToolRunner, ToolAdapter, Execution, Reply, executed, init, prune, bucket, stored, give,
  execute, remaining,
}
use multi_bot_agentic.Guards.RateLimit.Buckets.{
  Spaced, times, Kept, Kept-empty, Kept-later, Kept-push, Kept-prune,
}

-- A call by the runner's client.
pub data Call : Type 0 where
  executes : ToolInvocation → Call
  asks : String → Call

unfoldable pub call : Call → RateLimitedToolRunner → RateLimitedToolRunner
call (executes i) r = (execute r i).1
call (asks name) r = (remaining r name).1

unfoldable pub calls : List Call → RateLimitedToolRunner → RateLimitedToolRunner
calls [] r = r
calls (c ∷ cs) r = calls cs (call c r)

-- Every tool's bucket is kept as its executions say.
record Follows (m window : ℕ) (r : RateLimitedToolRunner) : Type 0 where
  limit : r.max_calls ≡ m
  width : r.window ≡ window
  monotone : (i : ℕ) → r.clock i ≤ r.clock (i + 1)
  kept :
      (name : String)
      → Kept r.max_calls r.window (RateLimit.now r) (get_or name [] r.hits) (times name r.executed)

-- The same at a bucket that is written.
kept_insert :
    (m window t : ℕ) (key name : String) (b : List ℕ) (hits : Dict String (List ℕ))
    (calls : String → List ℕ)
    → Kept m window t b (calls key)
    → ((key == name) ≡ false → Kept m window t (get_or name [] hits) (calls name))
    → Kept m window t (get_or name [] (insert key b hits)) (calls name)
kept_insert m window t key name b hits calls here there = rw (get_or-insert key name b [] hits) (
    if-split (λ l. Kept m window t l (calls name)) (key == name) b (get_or name [] hits)
      (λ e. subst (λ k. Kept m window t b (calls k)) ((eq_iff key name).0 e) here) there)

module _ (m window : ℕ) (r : RateLimitedToolRunner) (f : Follows m window r) where
  -- What is kept when the clock has been read.
  later :
      (name : String) (b calls : List ℕ)
      → Kept r.max_calls r.window (RateLimit.now r) b calls
      → Kept r.max_calls r.window (r.clock (r.readings + 1)) b calls
  later name b calls k =
      Kept-later r.max_calls r.window (RateLimit.now r) (r.clock (r.readings + 1)) b calls
        (f.monotone r.readings) k

  bucket-Kept :
      (name : String)
      → Kept r.max_calls r.window (RateLimit.now r) (bucket r name) (times name r.executed)
  unfolding bucket
  bucket-Kept name =
      Kept-prune r.max_calls r.window (RateLimit.now r) (get_or name [] r.hits)
        (times name r.executed) (f.kept name)

  remaining-Follows : (key : String) → Follows m window (remaining r key).1
  unfolding remaining
  remaining-Follows key = record {
    limit = f.limit;
    width = f.width;
    monotone = f.monotone;
    kept = λ name.
        kept_insert r.max_calls r.window (r.clock (r.readings + 1)) key name (bucket r key) r.hits
          (λ n. times n r.executed)
          (later key (bucket r key) (times key r.executed) (bucket-Kept key))
          (λ _. later name (get_or name [] r.hits) (times name r.executed) (f.kept name));
  }

  give-Follows :
      (i : ToolInvocation) (tool : ToolAdapter)
      → Follows m window (give r i tool (bucket r i.tool_name)).1
  unfolding give
  give-Follows i tool =
      if-split (λ (x : Reply × RateLimitedToolRunner). Follows m window x.1)
        (leb r.max_calls (length (bucket r i.tool_name))) _ _
        (λ full. unfold remaining in remaining-Follows i.tool_name)
        λ free. record {
          limit = f.limit;
          width = f.width;
          monotone = f.monotone;
          kept = λ name.
              kept_insert r.max_calls r.window (r.clock (r.readings + 1)) i.tool_name name
                (bucket r i.tool_name ++ RateLimit.now r ∷ []) r.hits
                (λ n.
                  times n (record { tool_name = i.tool_name; at = RateLimit.now r } ∷ r.executed))
                (rw (eq_refl i.tool_name) (
                  later i.tool_name _ _ (
                    Kept-push r.max_calls r.window (RateLimit.now r) (bucket r i.tool_name)
                      (times i.tool_name r.executed) (ground arith) (bucket-Kept i.tool_name))))
                (λ e.
                  rw e (later name (get_or name [] r.hits) (times name r.executed) (f.kept name)));
        }

  execute-Follows : (i : ToolInvocation) → Follows m window (execute r i).1
  unfolding execute
  execute-Follows i = elim (Option-cases (lookup i.tool_name r.tools)) [
    | inl e ↦ rw (e, execute) f
    | inr (tool, e) ↦ rw (e, execute) (give-Follows i tool)
  ]

module _ (m window : ℕ) where
  call-Follows :
      (c : Call) (r : RateLimitedToolRunner) → Follows m window r → Follows m window (call c r)
  unfolding call
  call-Follows (executes i) r f = execute-Follows m window r f i
  call-Follows (asks name) r f = remaining-Follows m window r f name

  calls-Follows :
      (cs : List Call) (r : RateLimitedToolRunner)
      → Follows m window r
      → Follows m window (calls cs r)
  unfolding calls
  calls-Follows [] r f = f
  calls-Follows (c ∷ cs) r f = calls-Follows cs (call c r) (call-Follows c r f)

  init-Follows :
      (tools : Dict String ToolAdapter) (clock : ℕ → ℕ)
      → ((i : ℕ) → clock i ≤ clock (i + 1))
      → OnOk (Follows m window) (init tools m window clock)
  unfolding init lookup
  init-Follows tools clock h = made (ltb m 1) (leb window 0)
    where
      made :
          (few empty : Bool)
          → OnOk (Follows m window) (
              raise_if few (value_error "max_calls must be >= 1")
              >> (raise_if empty (value_error "window_seconds must be > 0")
                  >> ok (record {
                    tools = tools;
                    max_calls = m;
                    window = window;
                    clock = clock;
                    readings = 0;
                    hits = [];
                    executed = [];
                  })))
      made true empty = tt
      made false true = tt
      made false false = record {
        limit = refl;
        width = refl;
        monotone = h;
        kept = λ name. Kept-empty m window (clock 0);
      }

  Follows-Spaced :
      (name : String) (r : RateLimitedToolRunner)
      → Follows m window r
      → Spaced m window (times name r.executed)
  Follows-Spaced name r f =
      subst (λ k. Spaced k window (times name r.executed)) f.limit
        (subst (λ w. Spaced r.max_calls w (times name r.executed)) f.width (f.kept name).spaced)

  -- With a clock that does not go back, and through any calls of the runner: of the executions that a
  -- tool was given, each is more than the window after the one `max_calls` executions before it.
  pub calls-Spaced :
      (tools : Dict String ToolAdapter) (clock : ℕ → ℕ) (r : RateLimitedToolRunner) (cs : List Call)
      (name : String)
      → ((i : ℕ) → clock i ≤ clock (i + 1))
      → init tools m window clock ≡ ok r
      → Spaced m window (times name (calls cs r).executed)
  calls-Spaced tools clock r cs name h e =
      Follows-Spaced name (calls cs r)
        (calls-Follows cs r (OnOk-ok (Follows m window) _ r (init-Follows tools clock h) e))
