-- ===== src/Guards/RateLimit/Waits.antt =====
-- tool_runner.py: what the suggested wait of a refusal leads to.
use multi_bot_agentic.Prelude.{
  ℕ, ◌+◌, ◌≤◌, ◌≡◌, ◌≢◌, refl, sym, ap, ◌∙◌, none, some, List, [], ◌∷◌, length, ltb, arith,
  string_eq, eq_refl, if-split, Option-cases, inl, inr,
}
use multi_bot_agentic.Prelude.Dict.{lookup, get_or, get_or-insert}
use multi_bot_agentic.Models.{ToolInvocation}
use multi_bot_agentic.Guards.RateLimit
use multi_bot_agentic.Guards.RateLimit.{
  RateLimitExceeded, RateLimitedToolRunner, ToolAdapter, Reply, limited, prune, bucket, stored,
  wait_left, give, execute,
}

-- The oldest call of a bucket is still in the window.
abbrev IsRecent : ℕ → ℕ → List ℕ → Type 0
IsRecent window now [] = Unit
IsRecent window now (t ∷ b) = now ≤ t + window

prune-IsRecent : (window now : ℕ) (b : List ℕ) → IsRecent window now (prune window now b)
unfolding prune
prune-IsRecent window now [] = tt
prune-IsRecent window now (t ∷ b) =
    if-split (IsRecent window now) (ltb (t + window) now) (prune window now b) (t ∷ b)
      (λ _. prune-IsRecent window now b) (λ e. ground arith)

-- After exactly the wait that is left, nothing leaves the bucket, and no wait is left.
prune-wait_left :
    (window now : ℕ) (b : List ℕ)
    → IsRecent window now b
    → 1 ≤ length b
    → (prune window (now + wait_left window now b) b ≡ b)
      × (wait_left window (now + wait_left window now b) b ≡ 0)
unfolding prune
prune-wait_left window now [] h k = absurd (omega arith)
prune-wait_left window now (t ∷ b) h k = ground arith

module _ (r : RateLimitedToolRunner) (i : ToolInvocation) (info : RateLimitExceeded) where
  give_full :
      (tool : ToolAdapter) (b : List ℕ)
      → (give r i tool b).0 ≡ limited info
      → (r.max_calls ≤ length b)
        × ((give r i tool b).1 ≡ stored i.tool_name b r)
        × (info.retry_after ≡ wait_left r.window (RateLimit.now r) b)
        × (info.tool_name ≡ i.tool_name)
        × (info.limit ≡ r.max_calls)
        × (info.window ≡ r.window)
  unfolding give
  give_full tool b h = ground arith

  execute-give :
      (s : RateLimitedToolRunner) (tool : ToolAdapter)
      → lookup i.tool_name s.tools ≡ some tool
      → execute s i ≡ give s i tool (bucket s i.tool_name)
  unfolding execute give
  execute-give s tool e = rw (e, execute)

  execute-unknown : lookup i.tool_name r.tools ≡ none → (execute r i).0 ≢ limited info
  unfolding execute
  execute-unknown e h = cc (e, h)

  give-refused :
      (s : RateLimitedToolRunner) (tool : ToolAdapter) (b : List ℕ)
      → s.max_calls ≤ length b
      → (give s i tool b).0
        ≡ limited (record {
          tool_name = i.tool_name;
          limit = s.max_calls;
          window = s.window;
          retry_after = wait_left s.window (RateLimit.now s) b;
        })
  unfolding give
  give-refused s tool b h = ground arith

  -- The bucket that the next call finds, at a reading `later`.
  bucket-stored :
      (b : List ℕ) (later : ℕ)
      → r.clock (r.readings + 1) ≡ later
      → bucket (stored i.tool_name b r) i.tool_name ≡ prune r.window later b
  unfolding bucket
  bucket-stored b later e =
      rw (get_or-insert i.tool_name i.tool_name b [] r.hits, eq_refl i.tool_name, e) refl

  give-refused_again :
      (tool : ToolAdapter) (b : List ℕ)
      → IsRecent r.window (RateLimit.now r) b
      → 1 ≤ r.max_calls
      → lookup i.tool_name r.tools ≡ some tool
      → (give r i tool b).0 ≡ limited info
      → RateLimit.now (give r i tool b).1 ≡ RateLimit.now r + info.retry_after
      → (execute (give r i tool b).1 i).0 ≡ limited (record info { retry_after = 0 })
  give-refused_again tool b recent some_calls e h later =
      let (full, left, wait, name, limit, width) = give_full tool b h in
      let next = stored i.tool_name b r in
      let time : r.clock (r.readings + 1)
          ≡ RateLimit.now r + wait_left r.window (RateLimit.now r) b =
        ap (λ (v : RateLimitedToolRunner). v.clock v.readings) (sym left)
        ∙ later
        ∙ ap (λ t. RateLimit.now r + t) wait in
      let (same, none_left) = prune-wait_left r.window (RateLimit.now r) b recent (omega arith) in
      rw left (
        rw
          (
            execute-give next tool e,
            bucket-stored b (RateLimit.now r + wait_left r.window (RateLimit.now r) b) time,
            same,
            give-refused next tool b full,
          )
          (ground (arith, name, limit, width, time, none_left)))

  -- With a limit of at least one call: when a call is refused, and the next call of the same tool
  -- comes exactly the suggested `retry_after` later, then it is refused again, now with a wait of 0.
  pub execute-refused_again :
      1 ≤ r.max_calls
      → (execute r i).0 ≡ limited info
      → RateLimit.now (execute r i).1 ≡ RateLimit.now r + info.retry_after
      → (execute (execute r i).1 i).0 ≡ limited (record info { retry_after = 0 })
  execute-refused_again some_calls h later = elim (Option-cases (lookup i.tool_name r.tools)) [
    | inl e ↦ absurd (execute-unknown e h)
    | inr (tool, e) ↦
        let same = execute-give r tool e in
        let start = rw same at h in
        let time = rw same at later in
        rw same (
          give-refused_again tool (bucket r i.tool_name)
            (unfold bucket in
              prune-IsRecent r.window (RateLimit.now r) (get_or i.tool_name [] r.hits))
            some_calls e start time)
  ]
