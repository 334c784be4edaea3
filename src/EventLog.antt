-- ===== src/EventLog.antt =====
-- src/multi_bot_agentic/event_log.py: the append-only table of events, one row per event. The table
-- is the list of its rows in the order of the INSERTs. A payload is held as the value that
-- `json.loads` gives back for what `json.dumps` wrote.
pub mod Sequence
pub mod Tests
use Prim.Native.Nat.{Ordering}
use Prim.Native.String.{compare}
use multi_bot_agentic.Prelude.{
  ℕ, ◌+◌, max, String, Bool, true, false, List, [], ◌∷◌, ◌++◌, ◌==◌, string_eq, leb, keep,
  if◌then◌else◌,
}
use multi_bot_agentic.Prelude.Sort.{sort_by}
use multi_bot_agentic.Json.{Payload}
use multi_bot_agentic.Models.{RunState, EventType, state_value, event_value}

pub record EventRecord : Type 0 where
  pub run_id : String
  pub seq : ℕ
  pub timestamp : String
  pub event_type : String
  pub state : String
  pub payload : Payload

abbrev pub EventLog : Type 0
EventLog = List EventRecord

-- `WHERE run_id = ?`
abbrev pub of_run : String → EventRecord → Bool
of_run r e = e.run_id == r

-- `MAX(seq)` over the rows of one run, 0 where there is none.
unfoldable pub max_seq : String → EventLog → ℕ
max_seq r [] = 0
max_seq r (e ∷ es) = if of_run r e then max e.seq (max_seq r es) else max_seq r es

unfoldable pub next_sequence : EventLog → String → ℕ
unfolding max_seq
next_sequence log r = max_seq r log + 1

-- The row that `append` inserts; `timestamp` is the clock's text at the call.
unfoldable pub new_record :
    EventLog → String → RunState → EventType → Payload → String → EventRecord
unfolding next_sequence state_value event_value
new_record log r st ty payload timestamp = record {
  run_id = r;
  seq = next_sequence log r;
  timestamp = timestamp;
  event_type = event_value ty;
  state = state_value st;
  payload = payload;
}

unfoldable pub append : EventLog → String → RunState → EventType → Payload → String → EventLog
unfolding new_record
append log r st ty payload timestamp = log ++ new_record log r st ty payload timestamp ∷ []

-- `ORDER BY seq`
abbrev pub by_seq : EventRecord → EventRecord → Bool
by_seq a b = leb a.seq b.seq

-- `ORDER BY run_id, seq`: SQLite compares texts by their bytes.
unfoldable pub by_run_and_seq : EventRecord → EventRecord → Bool
by_run_and_seq a b = elim (compare a.run_id b.run_id) [
  | Ordering.lt ↦ true
  | Ordering.eq ↦ leb a.seq b.seq
  | Ordering.gt ↦ false
]

-- `list_events(run_id)`
unfoldable pub list_events : EventLog → String → List EventRecord
unfolding sort_by
list_events log r = sort_by by_seq (keep (of_run r) log)

-- `list_events(None)`
unfoldable pub list_all_events : EventLog → List EventRecord
unfolding sort_by by_run_and_seq
list_all_events log = sort_by by_run_and_seq log
