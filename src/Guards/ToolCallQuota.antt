-- ===== src/Guards/ToolCallQuota.antt =====
-- src/multi_bot_agentic/tool_call_quota.py: a call counter per session and tool. `lower` and `repr`
-- are Python's `str.lower` and `repr`, which read the Unicode tables.
pub mod Cap
use Prim.Native.String.{◌++◌}
use multi_bot_agentic.Prelude.{
  ℕ, ◌+◌, ◌-◌, String, Bool, true, not, Option, none, some, List, [], ◌∷◌, map, keep, ltb, leb,
  ◌==◌, ◌&&◌, contains, string_eq, pair_eq, if◌then◌else◌,
}
use multi_bot_agentic.Prelude.Dict.{Dict, insert, erase, get_or, has_key}
use multi_bot_agentic.Prelude.Text.{strip, show_nat}
use multi_bot_agentic.Exn.{Result, ok, err, value_error, runtime_error, raise_if, ◌>>◌}
use multi_bot_agentic.Guards.{Outcome, require_id, with_id}

pub record ToolCallQuotaStatus : Type 0 where
  pub session_id : String
  pub tool_name : String
  pub call_count : ℕ
  pub max_calls : ℕ
  pub remaining : ℕ
  pub exhausted : Bool
  pub mode : String
  pub allowed : Bool

pub record ToolCallQuotaGuard : Type 0 where
  pub max_calls : ℕ
  pub mode : String
  pub counts : Dict (String × String) ℕ

-- `_VALID_MODES`
abbrev pub valid_modes : List String
valid_modes = "advisory" ∷ "hard" ∷ []

unfoldable pub init : (String → String) → ℕ → String → Result ToolCallQuotaGuard
unfolding strip
init lower max_calls mode = do
  raise_if (ltb max_calls 1) (value_error "max_calls must be >= 1")
  raise_if (not (contains (lower (strip mode)) valid_modes))
      (value_error "mode must be 'advisory' or 'hard'")
  ok (record { max_calls = max_calls; mode = lower (strip mode); counts = [] })

-- `self._counts.get(key, 0)`
abbrev pub count : ToolCallQuotaGuard → String × String → ℕ
count g key = get_or key 0 g.counts

-- `_status`
unfoldable pub status : ToolCallQuotaGuard → String → String → ToolCallQuotaStatus
status g session_id tool_name =
    let calls = count g (session_id, tool_name) in
    let exhausted = leb g.max_calls calls in
    record {
      session_id = session_id;
      tool_name = tool_name;
      call_count = calls;
      max_calls = g.max_calls;
      remaining = g.max_calls - calls;
      exhausted = exhausted;
      mode = g.mode;
      allowed = if g.mode == "advisory" then true else not exhausted;
    }

-- The body of `record`, on stripped identifiers.
unfoldable pub count_call :
    (String → String)
    → ToolCallQuotaGuard
    → String
    → String
    → Outcome ToolCallQuotaGuard ToolCallQuotaStatus
unfolding insert status
count_call repr g sid tool =
    let current = count g (sid, tool) in
    let after = record g { counts = insert (sid, tool) (current + 1) g.counts } in
    if g.mode == "hard" && leb g.max_calls current
    then (
      err (
          runtime_error (
            "tool call quota exhausted for session "
            ++ repr sid
            ++ " tool "
            ++ repr tool
            ++ ": "
            ++ show_nat current
            ++ "/"
            ++ show_nat g.max_calls)),
      g,
    )
    else (ok (status after sid tool), after)

-- `record`
unfoldable pub record_call :
    (String → String)
    → ToolCallQuotaGuard
    → String
    → String
    → Outcome ToolCallQuotaGuard ToolCallQuotaStatus
unfolding require_id count_call
record_call repr g session_id tool_name =
    with_id (require_id session_id "session_id") g
      λ sid. with_id (require_id tool_name "tool_name") g λ tool. count_call repr g sid tool

unfoldable pub check :
    ToolCallQuotaGuard → String → String → Outcome ToolCallQuotaGuard ToolCallQuotaStatus
unfolding require_id status
check g session_id tool_name =
    with_id (require_id session_id "session_id") g
      λ sid. with_id (require_id tool_name "tool_name") g λ tool. (ok (status g sid tool), g)

-- The keys of the session, in the dict's order.
abbrev pub keys_of : String → Dict (String × String) ℕ → List (String × String)
keys_of sid d = keep (λ key. key.0 == sid) (map (λ e. e.0) d)

-- `for key in keys: del self._counts[key]`
unfoldable pub delete_all :
    List (String × String) → Dict (String × String) ℕ → Dict (String × String) ℕ
unfolding erase
delete_all [] d = d
delete_all (key ∷ keys) d = delete_all keys (erase key d)

-- `bool(keys)`
abbrev pub any_of : {A : Type 0} → List A → Bool
any_of [] = Bool.false
any_of (_ ∷ _) = true

unfoldable pub reset : ToolCallQuotaGuard → String → Option String → Outcome ToolCallQuotaGuard Bool
unfolding require_id erase delete_all
reset g session_id (some tool_name) = with_id (require_id session_id "session_id") g λ sid.
    with_id (require_id tool_name "tool_name") g
      λ tool. (ok (has_key (sid, tool) g.counts), record g { counts = erase (sid, tool) g.counts })
reset g session_id none = with_id (require_id session_id "session_id") g λ sid. (
  ok (any_of (keys_of sid g.counts)),
  record g { counts = delete_all (keys_of sid g.counts) g.counts },
)
