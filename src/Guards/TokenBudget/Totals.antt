-- ===== src/Guards/TokenBudget/Totals.antt =====
-- session_token_budget.py: what a session's status says of all its records.
use multi_bot_agentic.Prelude.{
  ℕ, ◌+◌, ◌≤◌, ◌<◌, String, true, false, List, [], ◌∷◌, leb, ◌==◌, eq_iff, string_eq, if◌then◌else◌,
  ◌≡◌, refl, subst, ◌∙◌, arith, ◌↔◌,
}
use multi_bot_agentic.Prelude.Dict.{Dict, lookup, insert, get_or, lookup-insert}
use multi_bot_agentic.Json.{ℤ, pos, negsuc}
use multi_bot_agentic.Guards.{require_id, with_id}
use multi_bot_agentic.Exn.{Result, ok, err, OnOk-ok}
use multi_bot_agentic.Guards.TokenBudget.{
  SessionTokenBudgetStatus, SessionTokenBudgetLedger, init, total, status_of, add_usage,
  record_counts, record_usage,
}

-- The arguments of a call of `record`.
pub record Usage : Type 0 where
  pub session_id : String
  pub prompt_tokens : ℤ
  pub completion_tokens : ℤ

-- `record` is called for each usage in order; a call that raises is caught.
unfoldable pub recorded : List Usage → SessionTokenBudgetLedger → SessionTokenBudgetLedger
recorded [] g = g
recorded (u ∷ us) g =
    recorded us (record_usage g u.session_id u.prompt_tokens u.completion_tokens).1

-- What a usage counts for a session: nothing if its identifier is blank or another's, or if a count
-- is negative.
abbrev pub tokens_for : String → Result String → ℤ → ℤ → ℕ
tokens_for sid (ok s) (pos p) (pos c) = if s == sid then p + c else 0
tokens_for sid (ok s) (pos p) (negsuc _) = 0
tokens_for sid (ok s) (negsuc _) _ = 0
tokens_for sid (err _) _ _ = 0

-- What the usages count for one session in all.
unfoldable pub sum_of : String → List Usage → ℕ
sum_of sid [] = 0
sum_of sid (u ∷ us) =
    tokens_for sid (require_id u.session_id "session_id") u.prompt_tokens u.completion_tokens
    + sum_of sid us

get_or-insert :
    (s t : String) (p : ℕ) (d : Dict String ℕ)
    → get_or t 0 (insert s (get_or s 0 d + p) d)
      ≡ (if s == t then get_or t 0 d + p else get_or t 0 d)
get_or-insert s t p d = ground (arith, lookup-insert s t (get_or s 0 d + p) d, eq_iff s t)

add_usage-total :
    (g : SessionTokenBudgetLedger) (s t : String) (p c : ℕ)
    → total (add_usage g s p c) t ≡ (if s == t then total g t + (p + c) else total g t)
unfolding add_usage
add_usage-total g s t p c =
    rw (get_or-insert s t p g.prompt, get_or-insert s t c g.completion) (ground arith)

-- What holds of every record call, by the cases of its checks.
abbrev Adds : SessionTokenBudgetLedger → String → ℕ → SessionTokenBudgetLedger → Type 0
Adds g t n after =
    (total after t ≡ total g t + n)
    × (after.soft_limit ≡ g.soft_limit)
    × (after.hard_limit ≡ g.hard_limit)

record_counts-Adds :
    (g : SessionTokenBudgetLedger) (t : String) (r : Result String) (p c : ℤ)
    → Adds g t (tokens_for t r p c) (with_id r g λ sid. record_counts g sid p c).1
unfolding with_id record_counts add_usage
record_counts-Adds g t (ok s) (pos p) (pos c) =
    (ground (arith, add_usage-total g s t p c), refl, refl)
record_counts-Adds g t (ok s) (pos p) (negsuc c) = (omega arith, refl, refl)
record_counts-Adds g t (ok s) (negsuc p) c = (omega arith, refl, refl)
record_counts-Adds g t (err e) p c = (omega arith, refl, refl)

recorded-Adds :
    (us : List Usage) (g : SessionTokenBudgetLedger) (t : String)
    → Adds g t (sum_of t us) (recorded us g)
unfolding recorded sum_of record_usage
recorded-Adds [] g t = (omega arith, refl, refl)
recorded-Adds (u ∷ us) g t =
    let one =
      record_counts-Adds g t (require_id u.session_id "session_id") u.prompt_tokens
        u.completion_tokens in
    let rest =
      recorded-Adds us (record_usage g u.session_id u.prompt_tokens u.completion_tokens).1 t in
    (omega (arith, one.0, rest.0), rest.1 ∙ one.1, rest.2 ∙ one.2)

init-Fresh :
    (soft hard : ℕ) (g : SessionTokenBudgetLedger) (t : String)
    → init soft hard ≡ ok g
    → (total g t ≡ 0) × (g.soft_limit ≡ soft) × (g.hard_limit ≡ hard) × (soft ≤ hard)
unfolding init lookup
init-Fresh soft hard g t =
    OnOk-ok (λ x. (total x t ≡ 0) × (x.soft_limit ≡ soft) × (x.hard_limit ≡ hard) × (soft ≤ hard)) _
      g (ground arith)

-- What the status of a session with `n` tokens in all says, for the two limits.
abbrev pub Says : ℕ → ℕ → ℕ → SessionTokenBudgetStatus → Type 0
Says soft hard n st =
    (st.total_tokens ≡ n)
    × (hard ≤ n → st.status ≡ "hard")
    × (soft ≤ n → n < hard → st.status ≡ "soft")
    × (n < soft → st.status ≡ "ok")
    × ((st.remaining_to_hard ≡ 0) ↔ (hard ≤ n))

le→leb : (m n : ℕ) → m ≤ n → leb m n ≡ true
le→leb m n h = ground arith

lt→leb : (m n : ℕ) → m < n → leb n m ≡ false
lt→leb m n h = ground arith

status_of-Says :
    (g : SessionTokenBudgetLedger) (t : String)
    → g.soft_limit ≤ g.hard_limit
    → Says g.soft_limit g.hard_limit (total g t) (status_of g t)
unfolding status_of
status_of-Says g t h = (
  refl,
  λ a. rw (le→leb g.hard_limit (total g t) a) refl,
  λ a b. rw (lt→leb (total g t) g.hard_limit b, le→leb g.soft_limit (total g t) a) refl,
  λ a.
      rw (lt→leb (total g t) g.hard_limit (omega (arith, a, h)), lt→leb (total g t) g.soft_limit a)
        refl,
  ground arith,
)

-- After any calls of `record` on a new ledger, the status of a session gives as its total what the
-- usages of that session alone add up to, a call that raises counting for nothing. The status is
-- `hard` from the hard limit on, which is also when no tokens remain, `soft` from the soft limit to
-- below the hard one, and `ok` below the soft limit.
pub recorded-Says :
    (soft hard : ℕ) (g : SessionTokenBudgetLedger) (us : List Usage) (t : String)
    → init soft hard ≡ ok g
    → Says soft hard (sum_of t us) (status_of (recorded us g) t)
recorded-Says soft hard g us t e =
    let new = init-Fresh soft hard g t e in
    let after = recorded-Adds us g t in
    let ends : total (recorded us g) t ≡ sum_of t us = omega (arith, after.0, new.0) in
    subst (λ h. Says soft h (sum_of t us) (status_of (recorded us g) t)) (after.2 ∙ new.2)
      (subst (λ l. Says l (recorded us g).hard_limit (sum_of t us) (status_of (recorded us g) t))
        (after.1 ∙ new.1)
        (subst
          (λ n.
            Says (recorded us g).soft_limit (recorded us g).hard_limit n
              (status_of (recorded us g) t))
          ends (status_of-Says (recorded us g) t (omega (arith, after, new)))))
