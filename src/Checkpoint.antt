-- ===== src/Checkpoint.antt =====
-- src/multi_bot_agentic/checkpoint.py: snapshots of a run, stored as events of the same log.
pub mod RoundTrip
pub mod Tests
use Prim.Native.Char.{Char}
use Prim.Native.String.{◌++◌}
use Prim.Native.String
use multi_bot_agentic.Prelude.{
  ℕ, ◌+◌, String, Option, none, some, List, [], ◌∷◌, map, ◌==◌, string_eq, nat_eq, true, false,
  if◌then◌else◌,
}
use multi_bot_agentic.Prelude.Dict.{lookup}
use multi_bot_agentic.Prelude.Text.{is_empty}
use multi_bot_agentic.Exn.{Result, ok, err, key_error, type_error, value_error, ◌>>=◌}
use multi_bot_agentic.Json.{
  ℤ, pos, Json, Payload, Conversions, null, bool, int, str, arr, obj, items_of, to_items, fields_of,
  to_fields, to_str, to_int, to_dict,
}
use multi_bot_agentic.Models.{
  RunState, created, Observation, state_value, state_of_value, observation_to_dict, event_value,
  checkpoint,
}
use multi_bot_agentic.EventLog.{EventRecord, EventLog, append, list_events}

pub record CheckpointSnapshot : Type 0 where
  pub run_id : String
  pub goal : String
  pub step : ℤ
  pub state : RunState
  pub observations : List Observation
  pub active_bot_id : Option String

-- `payload["active_bot_id"]` is written only where a bot is active.
abbrev pub bot_entry : Option String → Payload
bot_entry none = []
bot_entry (some b) = ("active_bot_id", str b) ∷ []

-- An observation as a JSON object.
abbrev pub observation_json : Observation → Json
observation_json o = obj (fields_of (observation_to_dict o))

unfoldable pub to_payload : CheckpointSnapshot → Payload
unfolding observation_to_dict state_value
to_payload s =
    ("goal", str s.goal)
    ∷ ("step", int s.step)
    ∷ ("state", str (state_value s.state))
    ∷ ("observations", arr (items_of (map observation_json s.observations)))
    ∷ bot_entry s.active_bot_id

-- `payload[key]`
unfoldable pub at_key : String → Payload → Result Json
unfolding lookup
at_key k d = elim (lookup k d) [ none ↦ err (key_error k) | some v ↦ ok v ]

-- `payload.get(key, default)`
unfoldable pub get : String → Json → Payload → Json
unfolding lookup
get k v d = elim (lookup k d) [ none ↦ v | some w ↦ w ]

-- The characters of a text, each a text.
unfoldable pub characters : String → List Json
characters String.[] = []
characters (String.◌∷◌ c s) = str (String.◌∷◌ c String.[]) ∷ characters s

-- The keys of an object, in order.
unfoldable pub keys : Payload → List Json
keys [] = []
keys ((k, _) ∷ d) = str k ∷ keys d

-- What `for item in value` goes through.
unfoldable pub iterate : Json → Result (List Json)
unfolding characters keys
iterate null = err (type_error "'NoneType' object is not iterable")
iterate (bool b) = err (type_error "'bool' object is not iterable")
iterate (int n) = err (type_error "'int' object is not iterable")
iterate (str s) = ok (characters s)
iterate (arr xs) = ok (to_items xs)
iterate (obj d) = ok (keys (to_fields d))

-- The truth of a value, as `if value:` takes it.
unfoldable pub truthy : Json → Option Json
truthy null = none
truthy (bool b) = if b then some (bool b) else none
truthy (int (pos n)) = if n == 0 then none else some (int (pos n))
truthy (int n) = some (int n)
truthy (str s) = if is_empty s then none else some (str s)
truthy (arr xs) = elim (to_items xs) [ [] ↦ none | y ∷ ys ↦ some (arr xs) ]
truthy (obj d) = elim (to_fields d) [ [] ↦ none | y ∷ ys ↦ some (obj d) ]

-- `RunState(text)`
unfoldable pub state_from : String → Result RunState
unfolding state_of_value
state_from s = elim (state_of_value s) [
  | none ↦ err (value_error (s ++ " is not a valid RunState"))
  | some st ↦ ok st
]

module _ (py : Conversions) where
  -- `observation_from_dict`: `uuid` is the identifier that the field's default factory draws where
  -- the dictionary has none.
  unfoldable pub observation_from_dict : String → Payload → Result Observation
  unfolding at_key get to_str to_dict truthy
  observation_from_dict uuid d = do
    source ← at_key "source" d
    content ← at_key "content" d
    metadata ← to_dict py (get "metadata" (obj (fields_of [])) d)
    ok (record {
      source = to_str py source;
      content = to_str py content;
      metadata = metadata;
      observation_id = elim (truthy (get "observation_id" null d)) [
        | none ↦ uuid
        | some v ↦ to_str py v
      ];
    })

  -- An item that is no object has no string keys.
  unfoldable pub observation_from_json : String → Json → Result Observation
  unfolding observation_from_dict to_fields
  observation_from_json uuid (obj d) = observation_from_dict uuid (to_fields d)
  observation_from_json uuid _ = err (type_error "indices must be integers")

  -- `draw i` is the identifier drawn for the item at place `i`, where it has none.
  unfoldable pub observations_from : (ℕ → String) → ℕ → List Json → Result (List Observation)
  unfolding observation_from_json
  observations_from draw i [] = ok []
  observations_from draw i (x ∷ xs) = do
    o ← observation_from_json (draw i) x
    os ← observations_from draw (i + 1) xs
    ok (o ∷ os)

  unfoldable pub bot_from : Json → Option String
  unfolding to_str
  bot_from null = none
  bot_from v = some (to_str py v)

  -- The snapshot that one checkpoint event holds.
  unfoldable pub snapshot_from : (ℕ → String) → String → Payload → Result CheckpointSnapshot
  unfolding get iterate observations_from to_int to_str state_from state_value bot_from
  snapshot_from draw run_id d = do
    items ← iterate (get "observations" (arr (items_of [])) d)
    observations ← observations_from draw 0 items
    step ← to_int py (get "step" (int (pos 0)) d)
    state ← state_from (to_str py (get "state" (str (state_value created)) d))
    ok (record {
      run_id = run_id;
      goal = to_str py (get "goal" (str "") d);
      step = step;
      state = state;
      observations = observations;
      active_bot_id = bot_from (get "active_bot_id" null d);
    })

  -- The loop over the run's events: each checkpoint replaces the one before. `draw n i` is drawn
  -- for the item at place `i` of event `n`.
  unfoldable pub scan_checkpoints :
      (ℕ → ℕ → String)
      → String
      → Option CheckpointSnapshot
      → List EventRecord
      → Result (Option CheckpointSnapshot)
  unfolding snapshot_from event_value
  scan_checkpoints draw run_id latest [] = ok latest
  scan_checkpoints draw run_id latest (e ∷ es) = elim (e.event_type == event_value checkpoint) [
    | false ↦ scan_checkpoints draw run_id latest es
    | true ↦ snapshot_from (draw e.seq) run_id e.payload >>= λ s.
        scan_checkpoints draw run_id (some s) es
  ]

  unfoldable pub load_latest_checkpoint :
      (ℕ → ℕ → String) → EventLog → String → Result (Option CheckpointSnapshot)
  unfolding scan_checkpoints list_events
  load_latest_checkpoint draw log run_id =
      scan_checkpoints draw run_id none (list_events log run_id)

-- The event that `save_checkpoint` appends; `timestamp` is the clock's text.
unfoldable pub save_checkpoint : EventLog → CheckpointSnapshot → String → EventLog
unfolding to_payload append
save_checkpoint log s timestamp = append log s.run_id s.state checkpoint (to_payload s) timestamp
