-- ===== src/Guards/ToolCallQuota/Cap.antt =====
-- tool_call_quota.py: a hard quota is a cap, `check` foretells `record`, and `reset` clears a
-- session and no other.
use multi_bot_agentic.Prelude.{
  ℕ, ◌+◌, ◌≤◌, String, true, not, Option, none, some, List, [], ◌∷◌, leb, ◌==◌, eq_iff, eq_refl,
  ◌&&◌, ◌||◌, contains, string_eq, pair_eq, if◌then◌else◌, ◌≡◌, refl, sym, ◌∙◌, arith, Bool-cases,
  inl, inr, ◌⊎◌, ◌↔◌,
}
use multi_bot_agentic.Prelude.Dict.{
  Dict, lookup, erase, get_or, has_key, lookup-insert, lookup-erase,
}
use multi_bot_agentic.Exn.{Result, ok, err, OnOk, OnOk-ok}
use multi_bot_agentic.Guards.{require_id, with_id, Leaves, with_id-Leaves, IsOk}
use multi_bot_agentic.Guards.ToolCallQuota.{
  ToolCallQuotaStatus, ToolCallQuotaGuard, count, status, init, count_call, record_call, check,
  keys_of, delete_all, reset,
}

-- No pair has more calls than the quota.
abbrev pub IsCapped : ToolCallQuotaGuard → Type 0
IsCapped g = (s t : String) → count g (s, t) ≤ g.max_calls

count_call-count :
    (repr : String → String) (g : ToolCallQuotaGuard) (s t : String) (k : String × String)
    → count (count_call repr g s t).1 k ≡ (
        if (g.mode == "hard" && leb g.max_calls (count g (s, t))) || not ((s, t) == k)
        then count g k
        else count g k + 1)
unfolding count_call
count_call-count repr g s t k =
    ground (arith, lookup-insert (s, t) k (count g (s, t) + 1) g.counts, eq_iff (s, t) k)

delete_all-lookup :
    (keys : List (String × String)) (d : Dict (String × String) ℕ) (k : String × String)
    → lookup k (delete_all keys d) ≡ (if contains k keys then none else lookup k d)
unfolding delete_all
delete_all-lookup [] d k = refl
delete_all-lookup (j ∷ keys) d k =
    rw (delete_all-lookup keys (erase j d) k) (ground (arith, lookup-erase j k d))

contains-keys_of :
    (sid : String) (d : Dict (String × String) ℕ) (k : String × String)
    → contains k (keys_of sid d) ≡ (k.0 == sid && has_key k d)
unfolding lookup
contains-keys_of sid [] k = ground arith
contains-keys_of sid ((j, n) ∷ d) k =
    ground (arith, eq_iff j k, eq_iff j.0 sid, eq_iff k.0 sid, contains-keys_of sid d k)

-- The counter after a session is deleted.
deleted-count :
    (sid : String) (d : Dict (String × String) ℕ) (k : String × String)
    → get_or k 0 (delete_all (keys_of sid d) d) ≡ (if k.0 == sid then 0 else get_or k 0 d)
deleted-count sid d k =
    ground (arith, delete_all-lookup (keys_of sid d) d k, contains-keys_of sid d k)

-- After a `reset` of a session with no tool named, for an identifier that is not blank, every tool's
-- counter of the stripped identifier's session reads 0 and every other counter reads as before.
pub reset-count :
    (g : ToolCallQuotaGuard) (session_id sid : String) (k : String × String)
    → require_id session_id "session_id" ≡ ok sid
    → count (reset g session_id none).1 k ≡ (if k.0 == sid then 0 else count g k)
unfolding reset with_id
reset-count g session_id sid k e = rw (e, with_id) (deleted-count sid g.counts k)

-- A method call that may change the counters.
pub data Call : Type 0 where
  records : String → String → Call
  resets : String → Option String → Call

unfoldable pub call : (String → String) → Call → ToolCallQuotaGuard → ToolCallQuotaGuard
call repr (records s t) g = (record_call repr g s t).1
call repr (resets s t) g = (reset g s t).1

unfoldable pub calls : (String → String) → List Call → ToolCallQuotaGuard → ToolCallQuotaGuard
calls repr [] g = g
calls repr (x ∷ xs) g = calls repr xs (call repr x g)

-- A hard quota's counters stay capped, and its mode and quota stay.
record IsHard (m : ℕ) (g : ToolCallQuotaGuard) : Type 0 where
  is_hard : g.mode ≡ "hard"
  quota : g.max_calls ≡ m
  capped : IsCapped g

count_call-mode :
    (repr : String → String) (g : ToolCallQuotaGuard) (s t : String)
    → (count_call repr g s t).1.mode ≡ g.mode
unfolding count_call
count_call-mode repr g s t = ground arith

count_call-max_calls :
    (repr : String → String) (g : ToolCallQuotaGuard) (s t : String)
    → (count_call repr g s t).1.max_calls ≡ g.max_calls
unfolding count_call
count_call-max_calls repr g s t = ground arith

-- The counter that a hard quota lets grow was below the cap.
grown-capped :
    (g : ToolCallQuotaGuard) (k j : String × String)
    → g.mode ≡ "hard"
    → ((i : String × String) → count g i ≤ g.max_calls)
    → (if (g.mode == "hard" && leb g.max_calls (count g k)) || not (k == j)
        then count g j
        else count g j + 1)
      ≤ g.max_calls
grown-capped g k j m h = elim (Bool-cases (k == j)) [
  | inl e ↦ same ((eq_iff k j).0 e)
  | inr e ↦ ground (arith, e, h j)
]
  where
    same :
        k ≡ j
        → (if (g.mode == "hard" && leb g.max_calls (count g k)) || not (k == j)
            then count g j
            else count g j + 1)
          ≤ g.max_calls
    same e = rw (sym e, m, eq_refl k) (ground (arith, h k))

count_call-IsHard :
    (repr : String → String) (m : ℕ) (g : ToolCallQuotaGuard) (s t : String)
    → IsHard m g
    → IsHard m (count_call repr g s t).1
count_call-IsHard repr m g s t h = record {
  is_hard = count_call-mode repr g s t ∙ h.is_hard;
  quota = count_call-max_calls repr g s t ∙ h.quota;
  capped = λ u v.
      rw (count_call-count repr g s t (u, v), count_call-max_calls repr g s t)
        (grown-capped g (s, t) (u, v) h.is_hard (λ i. h.capped i.0 i.1));
}

erased-IsHard :
    (m : ℕ) (g : ToolCallQuotaGuard) (k : String × String)
    → IsHard m g
    → IsHard m (record g { counts = erase k g.counts })
erased-IsHard m g k h = record {
  is_hard = h.is_hard;
  quota = h.quota;
  capped = λ u v. ground (arith, lookup-erase k (u, v) g.counts, h.capped u v);
}

deleted-IsHard :
    (m : ℕ) (g : ToolCallQuotaGuard) (s : String)
    → IsHard m g
    → IsHard m (record g { counts = delete_all (keys_of s g.counts) g.counts })
deleted-IsHard m g s h = record {
  is_hard = h.is_hard;
  quota = h.quota;
  capped = λ u v. ground (arith, deleted-count s g.counts (u, v), h.capped u v);
}

record_call-Leaves :
    (repr : String → String) (m : ℕ) (g : ToolCallQuotaGuard) (s t : String)
    → IsHard m g
    → Leaves (IsHard m) (record_call repr g s t)
unfolding record_call
record_call-Leaves repr m g s t h =
    with_id-Leaves _ g _ h
      λ sid. with_id-Leaves _ g _ h λ tool. record { holds = count_call-IsHard repr m g sid tool h }

reset-Leaves :
    (m : ℕ) (g : ToolCallQuotaGuard) (s : String) (t : Option String)
    → IsHard m g
    → Leaves (IsHard m) (reset g s t)
unfolding reset
reset-Leaves m g s none h =
    with_id-Leaves _ g _ h λ sid. record { holds = deleted-IsHard m g sid h }
reset-Leaves m g s (some t) h =
    with_id-Leaves _ g _ h
      λ sid. with_id-Leaves _ g _ h λ tool. record { holds = erased-IsHard m g (sid, tool) h }

call-IsHard :
    (repr : String → String) (m : ℕ) (x : Call) (g : ToolCallQuotaGuard)
    → IsHard m g
    → IsHard m (call repr x g)
unfolding call
call-IsHard repr m (records s t) g h = (record_call-Leaves repr m g s t h).holds
call-IsHard repr m (resets s t) g h = (reset-Leaves m g s t h).holds

calls-IsHard :
    (repr : String → String) (m : ℕ) (xs : List Call) (g : ToolCallQuotaGuard)
    → IsHard m g
    → IsHard m (calls repr xs g)
unfolding calls
calls-IsHard repr m [] g h = h
calls-IsHard repr m (x ∷ xs) g h = calls-IsHard repr m xs (call repr x g) (call-IsHard repr m x g h)

init-IsHard :
    (lower : String → String) (m : ℕ) (mode : String) (g : ToolCallQuotaGuard)
    → init lower m mode ≡ ok g
    → g.mode ≡ "hard"
    → IsHard m g
unfolding init lookup
init-IsHard lower m mode g e h = record { is_hard = h; quota = made.0; capped = made.1 }
  where
    made : (g.max_calls ≡ m) × IsCapped g
    made = OnOk-ok (λ x. (x.max_calls ≡ m) × IsCapped x) _ g (ground arith) e

-- In hard mode no pair of a session and a tool ever has more calls than the quota, whatever calls
-- are recorded and whatever counters are reset on a new guard.
pub calls-IsCapped :
    (lower repr : String → String) (m : ℕ) (mode : String) (g : ToolCallQuotaGuard) (xs : List Call)
    → init lower m mode ≡ ok g
    → g.mode ≡ "hard"
    → IsCapped (calls repr xs g)
calls-IsCapped lower repr m mode g xs e h =
    (calls-IsHard repr m xs g (init-IsHard lower m mode g e h)).capped

count_call-IsOk :
    (repr : String → String) (g : ToolCallQuotaGuard) (s t : String)
    → (g.mode ≡ "advisory") ⊎ (g.mode ≡ "hard")
    → ((status g s t).allowed ≡ true) ↔ IsOk (count_call repr g s t).0
unfolding status count_call
count_call-IsOk repr g s t (inl m) = rw m (ground arith)
count_call-IsOk repr g s t (inr m) = rw m (ground arith)

-- `check` foretells `record`: on a guard of either mode, where `check` returns a status and does not
-- raise, `record` of the same identifiers raises exactly when the status says that the next call is
-- not allowed.
pub check-record_call :
    (repr : String → String) (g : ToolCallQuotaGuard) (s t : String) (st : ToolCallQuotaStatus)
    → (g.mode ≡ "advisory") ⊎ (g.mode ≡ "hard")
    → (check g s t).0 ≡ ok st
    → (st.allowed ≡ true) ↔ IsOk (record_call repr g s t).0
unfolding check record_call with_id
check-record_call repr g s t st m =
    OnOk-ok (λ x. (x.allowed ≡ true) ↔ IsOk (record_call repr g s t).0) _ st
      (both (require_id s "session_id") (require_id t "tool_name"))
  where
    both :
        (a b : Result String)
        → OnOk
            (λ x.
              (x.allowed ≡ true)
              ↔ IsOk (with_id a g λ sid. with_id b g λ tool. count_call repr g sid tool).0)
            (with_id a g λ sid. with_id b g λ tool. (ok (status g sid tool), g)).0
    both (err x) b = tt
    both (ok sid) (err x) = tt
    both (ok sid) (ok tool) = count_call-IsOk repr g sid tool m
