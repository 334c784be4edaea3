-- ===== src/Guards/TokenBudget.antt =====
-- src/multi_bot_agentic/session_token_budget.py: the tokens that each session has used.
pub mod Totals
use multi_bot_agentic.Prelude.{
  ℕ, ◌+◌, ◌-◌, String, Bool, ◌||◌, [], ltb, leb, string_eq, if◌then◌else◌,
}
use multi_bot_agentic.Prelude.Dict.{Dict, insert, erase, get_or, has_key}
use multi_bot_agentic.Exn.{Result, ok, err, value_error, raise_if, ◌>>◌}
use multi_bot_agentic.Json.{ℤ, pos, negsuc}
use multi_bot_agentic.Guards.{Outcome, require_id, with_id}

-- The status's text: `ok`, `soft` or `hard`.
pub record SessionTokenBudgetStatus : Type 0 where
  pub session_id : String
  pub prompt_tokens : ℕ
  pub completion_tokens : ℕ
  pub total_tokens : ℕ
  pub soft_limit : ℕ
  pub hard_limit : ℕ
  pub status : String
  pub remaining_to_hard : ℕ

pub record SessionTokenBudgetLedger : Type 0 where
  pub soft_limit : ℕ
  pub hard_limit : ℕ
  pub prompt : Dict String ℕ
  pub completion : Dict String ℕ

unfoldable pub init : ℕ → ℕ → Result SessionTokenBudgetLedger
init soft_limit hard_limit = do
  raise_if (ltb soft_limit 1) (value_error "soft_limit must be >= 1")
  raise_if (ltb hard_limit 1) (value_error "hard_limit must be >= 1")
  raise_if (ltb hard_limit soft_limit) (value_error "soft_limit must be <= hard_limit")
  ok (record { soft_limit = soft_limit; hard_limit = hard_limit; prompt = []; completion = [] })

-- `total` of `_status`
abbrev pub total : SessionTokenBudgetLedger → String → ℕ
total g sid = get_or sid 0 g.prompt + get_or sid 0 g.completion

-- `_status`
unfoldable pub status_of : SessionTokenBudgetLedger → String → SessionTokenBudgetStatus
status_of g session_id = record {
  session_id = session_id;
  prompt_tokens = get_or session_id 0 g.prompt;
  completion_tokens = get_or session_id 0 g.completion;
  total_tokens = total g session_id;
  soft_limit = g.soft_limit;
  hard_limit = g.hard_limit;
  status =
      if leb g.hard_limit (total g session_id)
      then "hard"
      else if leb g.soft_limit (total g session_id)
      then "soft"
      else "ok";
  remaining_to_hard = g.hard_limit - total g session_id;
}

-- The body of `record`, on a stripped identifier and counts that are not negative.
unfoldable pub add_usage : SessionTokenBudgetLedger → String → ℕ → ℕ → SessionTokenBudgetLedger
unfolding insert
add_usage g sid prompt_tokens completion_tokens = record g {
  prompt = insert sid (get_or sid 0 g.prompt + prompt_tokens) g.prompt;
  completion = insert sid (get_or sid 0 g.completion + completion_tokens) g.completion;
}

-- `record`, after the check of the identifier.
unfoldable pub record_counts :
    SessionTokenBudgetLedger
    → String
    → ℤ
    → ℤ
    → Outcome SessionTokenBudgetLedger SessionTokenBudgetStatus
unfolding add_usage status_of
record_counts g sid (negsuc _) completion_tokens =
    (err (value_error "prompt_tokens must be >= 0"), g)
record_counts g sid (pos p) (negsuc _) = (err (value_error "completion_tokens must be >= 0"), g)
record_counts g sid (pos p) (pos c) =
    let after = add_usage g sid p c in (ok (status_of after sid), after)

-- `record`
unfoldable pub record_usage :
    SessionTokenBudgetLedger
    → String
    → ℤ
    → ℤ
    → Outcome SessionTokenBudgetLedger SessionTokenBudgetStatus
record_usage g session_id prompt_tokens completion_tokens =
    with_id (require_id session_id "session_id") g
      λ sid. record_counts g sid prompt_tokens completion_tokens

unfoldable pub check :
    SessionTokenBudgetLedger → String → Outcome SessionTokenBudgetLedger SessionTokenBudgetStatus
check g session_id = with_id (require_id session_id "session_id") g λ sid. (ok (status_of g sid), g)

unfoldable pub reset : SessionTokenBudgetLedger → String → Outcome SessionTokenBudgetLedger Bool
reset g session_id = with_id (require_id session_id "session_id") g λ sid. (
  ok (has_key sid g.prompt || has_key sid g.completion),
  record g { prompt = erase sid g.prompt; completion = erase sid g.completion },
)
