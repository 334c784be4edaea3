-- ===== src/Guards/QueueTests.antt =====
-- The guards that hold shared objects, at concrete calls: leases, dead letters, event lists, slots.
use multi_bot_agentic.Prelude.{
  suc, ◌≤◌, ◌<◌, ◌+◌, ◌-◌, ◌≡◌, refl, true, false, none, some, List, [], ◌∷◌, arith, length, take,
  drop, string_eq, All,
}
use multi_bot_agentic.Prelude.Dict.{lookup}
use multi_bot_agentic.Prelude.Text.{strip}
use multi_bot_agentic.Exn.{ok, err}
use multi_bot_agentic.Json.{Json, pos, obj, end, int, to_fields}
use multi_bot_agentic.Guards.{require_id, with_id}
use multi_bot_agentic.Guards.WriteLease
use multi_bot_agentic.Guards.WriteLease.Exclusion
use multi_bot_agentic.Guards.DeadLetters
use multi_bot_agentic.Guards.DeadLetters.Pending
use multi_bot_agentic.Guards.Compactor
use multi_bot_agentic.Guards.Compactor.Windows
use multi_bot_agentic.Guards.Concurrency
use multi_bot_agentic.Guards.Concurrency.Bounds

abbrev leases : WriteLease.SharedBlackboardWriteLease
leases = record { lease_ms = 30; mode = "hard"; leases = [] }

abbrev granted : WriteLease.BlackboardLeaseStatus
granted = WriteLease.lease_status leases "plan" "a" true false true

abbrev rivals : List Exclusion.Call
rivals = Exclusion.acquires "plan" "b" 12 ∷ Exclusion.releases "plan" "b" ∷ []

-- The object after `a` is granted the lease and `b` has tried to get it and to release it.
abbrev contended : WriteLease.SharedBlackboardWriteLease
contended = Exclusion.calls rivals (WriteLease.acquire leases "plan" "a" 10).1

abbrev refused : WriteLease.BlackboardLeaseStatus
refused = WriteLease.lease_status leases "plan" "a" false false false

a-granted : (WriteLease.acquire leases "plan" "a" 10).0 ≡ ok granted
unfolding WriteLease.acquire WriteLease.take_lease with_id require_id lookup
a-granted = refl

b-refused : (WriteLease.acquire contended "plan" "c" 39).0 ≡ ok refused
unfolding WriteLease.acquire WriteLease.release WriteLease.take_lease WriteLease.drop_lease
    Exclusion.call Exclusion.calls with_id require_id lookup
b-refused = refl

rivals-IsRival : All (Exclusion.IsRival (strip "a") 40) rivals
unfolding strip
rivals-IsRival = ((refl, omega arith), (refl, tt))

c-IsRival : Exclusion.IsRival (strip "a") 40 (Exclusion.acquires "plan" "c" 39)
unfolding strip
c-IsRival = (refl, omega arith)

acquire-exclusive_example : Exclusion.IsRefusal (strip "a") refused
acquire-exclusive_example =
    Exclusion.acquire-exclusive leases "plan" "a" "c" 10 39 rivals granted refused a-granted refl
      rivals-IsRival c-IsRival b-refused

abbrev letter : DeadLetters.DeadLetterItem
letter = record {
  item_id = "u1";
  tool_name = "search";
  args = [];
  error = "timeout";
  attempt_count = 3;
  enqueued_at_iso = "now";
  acknowledged = false;
}

abbrev queue : DeadLetters.DeadLetterToolQueue
queue = ("u1", letter) ∷ []

letter-enqueued :
    (DeadLetters.enqueue [] "u1" "now" "search" (obj end) "timeout" 3 none).0 ≡ ok letter
unfolding DeadLetters.enqueue to_fields
letter-enqueued = refl

letter-acknowledged :
    (DeadLetters.acknowledge queue "u1").0 ≡ ok (record letter { acknowledged = true })
unfolding DeadLetters.acknowledge strip
letter-acknowledged = refl

acknowledge-pending_example :
    (DeadLetters.list_pending (DeadLetters.acknowledge queue "u1").1
      ≡ Pending.without "u1" (DeadLetters.list_pending queue))
    × Pending.IsKeyed (DeadLetters.acknowledge queue "u1").1
    × ((DeadLetters.acknowledge (DeadLetters.acknowledge queue "u1").1 "u1").0
        ≡ err (DeadLetters.already "u1"))
unfolding lookup
acknowledge-pending_example =
    Pending.acknowledge-pending queue "u1" (record letter { acknowledged = true }) (refl, refl, tt)
      letter-acknowledged

abbrev compactor : Compactor.EventLogCompactor
compactor = record { keep_head = 1; keep_tail = 1 }

abbrev events : List Json
events = int (pos 1) ∷ int (pos 2) ∷ int (pos 3) ∷ []

compact_list-keeps_example :
    (length events ≤ 2 → (Compactor.compact_list compactor events).events ≡ events)
    × (2 < length events
        → (length (Compactor.compact_list compactor events).events ≡ suc 2)
          × (take 1 (Compactor.compact_list compactor events).events ≡ take 1 events)
          × (take 1 (drop 1 (Compactor.compact_list compactor events).events)
              ≡ Windows.written compactor (length events - 2) ∷ [])
          × (drop (suc 1) (Compactor.compact_list compactor events).events
              ≡ drop (length events - 1) events)
          × ((Compactor.compact_list compactor events).dropped_count + 2 ≡ length events))
compact_list-keeps_example = Windows.compact_list-keeps compactor events

abbrev limiter : Concurrency.AdaptiveConcurrencyLimiter
limiter = record {
  max_in_flight = 1;
  min_in_flight = 1;
  adaptive = true;
  effective_limit = 1;
  in_flight = 0;
  error_streak = 0;
}

limiter-init : Concurrency.init 1 1 true ≡ ok limiter
unfolding Concurrency.init
limiter-init = refl

-- A second `acquire` waits until the holder releases with a failure.
abbrev failing : Concurrency.Round
failing = record { reading = 5; others = Bounds.call (Bounds.releases false); notified = true }

abbrev slot_calls : List Bounds.Call
slot_calls =
    Bounds.acquires true none 0 []
    ∷ Bounds.acquires true (some (pos 100)) 5 (failing ∷ [])
    ∷ Bounds.releases true
    ∷ []

calls-IsBounded_example : Bounds.IsBounded (Bounds.calls slot_calls limiter)
calls-IsBounded_example =
    Bounds.calls-IsBounded 1 1 true limiter slot_calls limiter-init
      (tt, ((Bounds.call-IsFair 5 true (Bounds.releases false) tt, tt), (tt, tt)))

slot-granted :
    (Concurrency.acquire limiter true (some (pos 100)) 5 (failing ∷ [])).0 ≡ ok (some true)
unfolding Concurrency.acquire
slot-granted = refl
