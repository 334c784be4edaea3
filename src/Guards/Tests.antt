-- ===== src/Guards/Tests.antt =====
-- The guards at concrete calls.
use multi_bot_agentic.Prelude.{
  ◌≤◌, ◌<◌, ◌≡◌, refl, none, List, [], ◌∷◌, ◌⊎◌, string_eq, arith, length, map, some, ◌*◌,
}
use multi_bot_agentic.Prelude.Text.{strip}
use multi_bot_agentic.Exn.{ok}
use multi_bot_agentic.Json.{pos}
use multi_bot_agentic.Guards.{require_id, with_id}
use multi_bot_agentic.Prelude.Dict.{lookup}
use multi_bot_agentic.Guards.BotVote
use multi_bot_agentic.Guards.BotVote.Majority
use multi_bot_agentic.Guards.CircuitBreaker
use multi_bot_agentic.Guards.CircuitBreaker.States
use multi_bot_agentic.Guards.CircuitBreaker.Threshold
use multi_bot_agentic.Guards.ToolCallQuota
use multi_bot_agentic.Guards.ToolCallQuota.Cap
use multi_bot_agentic.Guards.TokenBudget
use multi_bot_agentic.Guards.TokenBudget.Totals

-- Two failures open the circuit, for ten milliseconds; the clock goes up by one at each reading.
abbrev circuit : CircuitBreaker.ToolCircuitBreaker
circuit = record { failure_threshold = 2; cooldown = 10; clock = λ n. n; readings = 0; tools = [] }

circuit-init : CircuitBreaker.init 2 10 (λ n. n) ≡ ok circuit
unfolding CircuitBreaker.init
circuit-init = refl

abbrev circuit_calls : List States.Call
circuit_calls =
    States.fails "search"
    ∷ States.fails "search"
    ∷ States.asks "search"
    ∷ States.succeeds "fetch"
    ∷ []

calls-IsWellFormed_example : States.IsWellFormed (States.calls circuit_calls circuit)
calls-IsWellFormed_example =
    States.calls-IsWellFormed 2 10 (λ n. n) circuit circuit_calls circuit-init

circuit-fresh : CircuitBreaker.breaker circuit "search" ≡ CircuitBreaker.fresh
unfolding CircuitBreaker.breaker
circuit-fresh = refl

failures-opened_example :
    ((2 < 2)
      × ((CircuitBreaker.breaker (Threshold.failures 2 circuit "search") "search").state
          ≡ CircuitBreaker.closed))
    ⊎ ((2 ≤ 2)
        × ((CircuitBreaker.breaker (Threshold.failures 2 circuit "search") "search").state
            ≡ CircuitBreaker.opened))
failures-opened_example = Threshold.failures-opened 2 circuit "search" (omega arith) circuit-fresh

-- Two calls of each tool in a session.
abbrev quota : ToolCallQuota.ToolCallQuotaGuard
quota = record { max_calls = 2; mode = "hard"; counts = [] }

quota-init : ToolCallQuota.init (λ s. s) 2 "hard" ≡ ok quota
unfolding ToolCallQuota.init strip
quota-init = refl

abbrev quota_calls : List Cap.Call
quota_calls =
    Cap.records "s" "search"
    ∷ Cap.records "s" "search"
    ∷ Cap.records "s" "search"
    ∷ Cap.resets "s" none
    ∷ []

calls-IsCapped_example : Cap.IsCapped (Cap.calls (λ s. s) quota_calls quota)
calls-IsCapped_example =
    Cap.calls-IsCapped (λ s. s) (λ s. s) 2 "hard" quota quota_calls quota-init refl

quota-check :
    (ToolCallQuota.check quota "s" "search").0 ≡ ok (ToolCallQuota.status quota "s" "search")
unfolding ToolCallQuota.check with_id require_id
quota-check = refl

session-id : require_id "s" "session_id" ≡ ok "s"
unfolding require_id
session-id = refl

abbrev used_quota : ToolCallQuota.ToolCallQuotaGuard
used_quota = record { max_calls = 2; mode = "hard"; counts = (("s", "search"), 2) ∷ [] }

-- A soft limit of 10 tokens and a hard one of 20.
abbrev ledger : TokenBudget.SessionTokenBudgetLedger
ledger = record { soft_limit = 10; hard_limit = 20; prompt = []; completion = [] }

ledger-init : TokenBudget.init 10 20 ≡ ok ledger
unfolding TokenBudget.init
ledger-init = refl

abbrev usages : List Totals.Usage
usages =
    record { session_id = "s"; prompt_tokens = pos 8; completion_tokens = pos 4 }
    ∷ record { session_id = "t"; prompt_tokens = pos 9; completion_tokens = pos 9 }
    ∷ []

recorded-Says_example :
    Totals.Says 10 20
      (Totals.sum_of "s" usages)
      (TokenBudget.status_of (Totals.recorded usages ledger) "s")
recorded-Says_example = Totals.recorded-Says 10 20 ledger usages "s" ledger-init

-- Two bots of three agree.
abbrev poll : BotVote.BotVoteConsensusAggregator
poll = record { mode = "majority"; ballots = ("a", "yes") ∷ ("b", "no") ∷ ("c", "yes") ∷ [] }

yes-wins : (BotVote.aggregate poll).winner ≡ some "yes"
unfolding BotVote.aggregate lookup
yes-wins = refl

aggregate-majority_example :
    length poll.ballots < Majority.votes_for "yes" (map (λ e. e.1) poll.ballots) * 2
aggregate-majority_example = Majority.aggregate-majority poll "yes" refl yes-wins
