-- ===== src/Guards/DeadLetters.antt =====
-- src/multi_bot_agentic/dead_letter_tool_queue.py: tool calls that failed for good, until an operator
-- acknowledges them. `uuid` and `iso_now` are the answers of `uuid4()` and of the clock at the call.
pub mod Pending
use Prim.Native.String.{◌++◌}
use multi_bot_agentic.Prelude.{
  ℕ, String, Bool, true, false, not, Option, none, some, List, [], ◌∷◌, map, keep, ltb, string_eq,
  if◌then◌else◌,
}
use multi_bot_agentic.Prelude.Dict.{Dict, lookup, insert}
use multi_bot_agentic.Prelude.Text.{strip, is_empty}
use multi_bot_agentic.Exn.{Exn, Result, ok, err, value_error, key_error, raise_if, ◌>>◌, ◌>>=◌}
use multi_bot_agentic.Json.{Json, Payload}
use multi_bot_agentic.Guards.{Outcome, mapping_of}

pub record DeadLetterItem : Type 0 where
  pub item_id : String
  pub tool_name : String
  pub args : Payload
  pub error : String
  pub attempt_count : ℕ
  pub enqueued_at_iso : String
  pub acknowledged : Bool

-- `self._items`
abbrev pub DeadLetterToolQueue : Type 0
DeadLetterToolQueue = Dict String DeadLetterItem

-- The item of `enqueue`, or what it raises.
unfoldable pub new_item :
    String → String → String → Json → String → ℕ → Option String → Result DeadLetterItem
unfolding strip mapping_of
new_item uuid iso_now tool_name args error attempt_count enqueued_at_iso = do
  raise_if (is_empty (strip tool_name)) (value_error "tool_name must be non-empty")
  copied ← mapping_of args
  raise_if (is_empty (strip error)) (value_error "error must be non-empty")
  raise_if (ltb attempt_count 1) (value_error "attempt_count must be >= 1")
  ok (record {
    item_id = uuid;
    tool_name = strip tool_name;
    args = copied;
    error = strip error;
    attempt_count = attempt_count;
    enqueued_at_iso = elim enqueued_at_iso [
      | none ↦ iso_now
      | some t ↦ if is_empty t then iso_now else t
    ];
    acknowledged = false;
  })

-- `self._items[key] = item` and `return item`, unless the item's making raised.
unfoldable pub write_item :
    DeadLetterToolQueue
    → String
    → Result DeadLetterItem
    → Outcome DeadLetterToolQueue DeadLetterItem
unfolding insert
write_item q key (err e) = (err e, q)
write_item q key (ok item) = (ok item, insert key item q)

-- The key is the item's own identifier, `uuid`.
unfoldable pub enqueue :
    DeadLetterToolQueue
    → String
    → String
    → String
    → Json
    → String
    → ℕ
    → Option String
    → Outcome DeadLetterToolQueue DeadLetterItem
unfolding new_item write_item
enqueue q uuid iso_now tool_name args error attempt_count enqueued_at_iso =
    write_item q uuid (new_item uuid iso_now tool_name args error attempt_count enqueued_at_iso)

unfoldable pub list_pending : DeadLetterToolQueue → List DeadLetterItem
list_pending q = keep (λ item. not item.acknowledged) (map (λ e. e.1) q)

-- What the second acknowledgement of an item raises.
abbrev pub already : String → Exn
already item_id = value_error ("item already acknowledged: " ++ item_id)

-- The item that `acknowledge` writes, or what it raises.
unfoldable pub acknowledged_item : String → Option DeadLetterItem → Result DeadLetterItem
acknowledged_item item_id none = err (key_error ("unknown dead-letter item: " ++ item_id))
acknowledged_item item_id (some existing) =
    if existing.acknowledged
    then err (already item_id)
    else ok (record existing { acknowledged = true })

unfoldable pub acknowledge :
    DeadLetterToolQueue → String → Outcome DeadLetterToolQueue DeadLetterItem
unfolding acknowledged_item write_item lookup
acknowledge q item_id =
    if is_empty (strip item_id)
    then (err (value_error "item_id must be non-empty"), q)
    else write_item q item_id (acknowledged_item item_id (lookup item_id q))
