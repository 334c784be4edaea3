-- ===== src/Guards/WriteLease.antt =====
-- src/multi_bot_agentic/blackboard_write_lease.py: exclusive, time-bounded write leases on keys.
-- Times are milliseconds; `stamp` is the `now` that the caller gives or the clock's answer.
pub mod Held
pub mod Exclusion
use multi_bot_agentic.Prelude.{
  ℕ, ◌+◌, String, Bool, true, false, not, Option, none, some, [], List, ◌∷◌, leb, contains, ◌==◌,
  ◌||◌, string_eq, if◌then◌else◌,
}
use multi_bot_agentic.Prelude.Dict.{Dict, lookup, insert, erase}
use multi_bot_agentic.Prelude.Text.{strip, is_empty}
use multi_bot_agentic.Exn.{Result, ok, err, value_error, raise_if, ◌>>◌}
use multi_bot_agentic.Guards.{Outcome, require_id, with_id}

pub record BlackboardLeaseStatus : Type 0 where
  pub key : String
  pub holder : Option String
  pub acquired : Bool
  pub expired : Bool
  pub allowed : Bool
  pub mode : String

pub record SharedBlackboardWriteLease : Type 0 where
  pub lease_ms : ℕ
  pub mode : String
  pub leases : Dict String (String × ℕ)

unfoldable pub init : ℕ → String → Result SharedBlackboardWriteLease
init lease_ms mode = do
  raise_if (leb lease_ms 0) (value_error "lease_seconds must be > 0")
  raise_if (not (contains mode ("advisory" ∷ "hard" ∷ [])))
      (value_error "mode must be 'advisory' or 'hard'")
  ok (record { lease_ms = lease_ms; mode = mode; leases = [] })

-- The status that `acquire` returns for one key and holder.
abbrev pub lease_status :
    SharedBlackboardWriteLease → String → String → Bool → Bool → Bool → BlackboardLeaseStatus
lease_status w k holder acquired expired allowed = record {
  key = k;
  holder = some holder;
  acquired = acquired;
  expired = expired;
  allowed = allowed;
  mode = w.mode;
}

-- The lease is written, from `stamp` on.
abbrev pub grant : SharedBlackboardWriteLease → String → String → ℕ → SharedBlackboardWriteLease
grant w k bid stamp = record w { leases = insert k (bid, stamp + w.lease_ms) w.leases }

-- `acquire`, on stripped identifiers and the current lease of the key. An expired lease is deleted
-- before the new one is written, which moves the key to the dict's end.
unfoldable pub take_lease :
    SharedBlackboardWriteLease
    → String
    → String
    → ℕ
    → Option (String × ℕ)
    → BlackboardLeaseStatus × SharedBlackboardWriteLease
unfolding insert erase
take_lease w k bid stamp none = (lease_status w k bid true false true, grant w k bid stamp)
take_lease w k bid stamp (some (holder, expires_at)) =
    if leb expires_at stamp
    then (
      lease_status w k bid true true true,
      grant (record w { leases = erase k w.leases }) k bid stamp,
    )
    else if holder == bid
    then (lease_status w k bid true false true, grant w k bid stamp)
    else (lease_status w k holder false false (w.mode == "advisory"), w)

unfoldable pub acquire :
    SharedBlackboardWriteLease
    → String
    → String
    → ℕ
    → Outcome SharedBlackboardWriteLease BlackboardLeaseStatus
acquire w key bot_id stamp = with_id (require_id key "key") w λ k.
    with_id (require_id bot_id "bot_id") w
      λ bid. let r = take_lease w k bid stamp (lookup k w.leases) in (ok r.0, r.1)

-- `release`, on stripped identifiers and the current lease of the key.
unfoldable pub drop_lease :
    SharedBlackboardWriteLease
    → String
    → String
    → Option (String × ℕ)
    → Bool × SharedBlackboardWriteLease
unfolding erase
drop_lease w k bid none = (false, w)
drop_lease w k bid (some (holder, expires_at)) =
    if not (holder == bid) then (false, w) else (true, record w { leases = erase k w.leases })

unfoldable pub release :
    SharedBlackboardWriteLease → String → String → Outcome SharedBlackboardWriteLease Bool
release w key bot_id =
    if is_empty (strip key) || is_empty (strip bot_id)
    then (err (value_error "key and bot_id must be non-empty"), w)
    else let r = drop_lease w (strip key) (strip bot_id) (lookup (strip key) w.leases) in
      (ok r.0, r.1)
