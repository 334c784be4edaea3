-- ===== src/Guards/Compactor.antt =====
-- src/multi_bot_agentic/event_compactor.py: long event lists keep their head and their tail. The
-- file form, `compact_jsonl`, reads and writes a file around `compact` and is not modelled.
pub mod Windows
use multi_bot_agentic.Prelude.{
  ℕ, ◌+◌, ◌-◌, List, [], ◌∷◌, ◌++◌, length, take, drop, ltb, leb, if◌then◌else◌,
}
use multi_bot_agentic.Exn.{Result, ok, err, value_error, type_error, raise_if, ◌>>◌}
use multi_bot_agentic.Json.{Json, arr, obj, str, int, pos, fields_of, to_items}

pub record CompactionResult : Type 0 where
  pub events : List Json
  pub original_count : ℕ
  pub dropped_count : ℕ

pub record EventLogCompactor : Type 0 where
  pub keep_head : ℕ
  pub keep_tail : ℕ

unfoldable pub init : ℕ → ℕ → Result EventLogCompactor
init keep_head keep_tail = do
  raise_if (ltb keep_head 1) (value_error "keep_head must be >= 1")
  raise_if (ltb keep_tail 1) (value_error "keep_tail must be >= 1")
  ok (record { keep_head = keep_head; keep_tail = keep_tail })

abbrev pub window : EventLogCompactor → ℕ
window c = c.keep_head + c.keep_tail

-- The event that stands for the dropped ones.
unfoldable pub marker : EventLogCompactor → ℕ → Json
unfolding fields_of
marker c dropped = obj (
    fields_of (
      ("event_type", str "event_log.compacted")
      ∷ ("dropped_count", int (pos dropped))
      ∷ ("keep_head", int (pos c.keep_head))
      ∷ ("keep_tail", int (pos c.keep_tail))
      ∷ []))

-- `compact` of a list; `events[-keep_tail:]` is all but the first `original - keep_tail`.
unfoldable pub compact_list : EventLogCompactor → List Json → CompactionResult
unfolding marker
compact_list c events =
    let original = length events in
    if leb original (window c)
    then record { events = events; original_count = original; dropped_count = 0 }
    else record {
      events =
          take c.keep_head events
          ++ (marker c (original - window c) ∷ drop (original - c.keep_tail) events);
      original_count = original;
      dropped_count = original - window c;
    }

unfoldable pub compact : EventLogCompactor → Json → Result CompactionResult
unfolding compact_list to_items
compact c (arr items) = ok (compact_list c (to_items items))
compact c _ = err (type_error "events must be a list")
