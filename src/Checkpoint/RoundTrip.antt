-- ===== src/Checkpoint/RoundTrip.antt =====
-- What `save_checkpoint` writes, `load_latest_checkpoint` reads back.
use mathlib.Core.Path.{fun_ext}
use multi_bot_agentic.Prelude.{
  ℕ, ◌+◌, String, ◌≡◌, refl, ap, ◌≢◌, Bool, true, false, Option, none, some, List, [], ◌∷◌, ◌++◌,
  map, ◌==◌, string_eq, All,
}
use multi_bot_agentic.Prelude.Text.{is_empty}
use multi_bot_agentic.Exn.{Result, ok, err, ◌>>=◌}
use multi_bot_agentic.Json.{Conversions, to_items-items_of, to_fields-fields_of, null, Payload}
use multi_bot_agentic.Models.{
  RunState, EventType, created, observing, deciding, acting, succeeded, failed, cancelled,
  Observation, state_value, state_of_value, observation_to_dict, event_value, checkpoint,
  run_created,
}
use multi_bot_agentic.EventLog.{
  EventRecord, EventLog, append, list_events, new_record, next_sequence,
}
use multi_bot_agentic.EventLog.Sequence.{IsWellFormed, list_events-append_self}
use multi_bot_agentic.Checkpoint.{
  CheckpointSnapshot, observation_json, to_payload, get, observation_from_json, observations_from,
  state_from, snapshot_from, scan_checkpoints, load_latest_checkpoint, save_checkpoint, bot_from,
  bot_entry,
}

state_of_value-state_value : (s : RunState) → state_of_value (state_value s) ≡ some s
unfolding state_of_value state_value
state_of_value-state_value created = refl
state_of_value-state_value observing = refl
state_of_value-state_value deciding = refl
state_of_value-state_value acting = refl
state_of_value-state_value succeeded = refl
state_of_value-state_value failed = refl
state_of_value-state_value cancelled = refl

state_from-state_value : (s : RunState) → state_from (state_value s) ≡ ok s
unfolding state_from
state_from-state_value s = rw (state_of_value-state_value s, state_from)

-- An observation made by the runtime has an identifier.
abbrev pub HasId : Observation → Type 0
HasId o = is_empty o.observation_id ≡ false

module _ (py : Conversions) where
  observation_from_json-observation_json :
      (uuid : String) (o : Observation)
      → HasId o
      → observation_from_json py uuid (observation_json o) ≡ ok o
  unfolding observation_from_json observation_to_dict
  observation_from_json-observation_json uuid o h = simp to_fields-fields_of (rw h refl)

  observations_from-map :
      (draw : ℕ → String) (i : ℕ) (os : List Observation)
      → All HasId os
      → observations_from py draw i (map observation_json os) ≡ ok os
  unfolding observations_from
  observations_from-map draw i [] h = refl
  observations_from-map draw i (o ∷ os) h =
      rw (observation_from_json-observation_json (draw i) o h.0)
        (rw (observations_from-map draw (i + 1) os h.1))

  bot_from-bot_entry :
      (b : Option String) → bot_from py (get "active_bot_id" null (bot_entry b)) ≡ b
  unfolding bot_from get
  bot_from-bot_entry none = refl
  bot_from-bot_entry (some b) = refl

  snapshot_from-to_payload :
      (draw : ℕ → String) (s : CheckpointSnapshot)
      → All HasId s.observations
      → snapshot_from py draw s.run_id (to_payload s) ≡ ok s
  unfolding snapshot_from to_payload
  snapshot_from-to_payload draw s h = rw (to_items-items_of (map observation_json s.observations)) (
      rw (observations_from-map draw 0 s.observations h) (
        rw (state_from-state_value s.state)
          (ap (λ b. ok (record s { active_bot_id = b })) (bot_from-bot_entry s.active_bot_id))))

  scan_checkpoints-append :
      (draw : ℕ → ℕ → String) (r : String) (latest : Option CheckpointSnapshot)
      (es : List EventRecord) (e : EventRecord)
      → scan_checkpoints py draw r latest (es ++ e ∷ [])
        ≡ (scan_checkpoints py draw r latest es >>= λ l. scan_checkpoints py draw r l (e ∷ []))
  unfolding scan_checkpoints
  scan_checkpoints-append draw r latest [] e = refl
  scan_checkpoints-append draw r latest (x ∷ es) e =
      after (x.event_type == event_value checkpoint) (snapshot_from py (draw x.seq) r x.payload)
        (scan_checkpoints-append draw r latest es e)
        (λ s. scan_checkpoints-append draw r (some s) es e)
    where
      after :
          (b : Bool) (found : Result CheckpointSnapshot)
          → scan_checkpoints py draw r latest (es ++ e ∷ [])
            ≡ (scan_checkpoints py draw r latest es >>= λ l. scan_checkpoints py draw r l (e ∷ []))
          → ((s : CheckpointSnapshot)
              → scan_checkpoints py draw r (some s) (es ++ e ∷ []) ≡ (
                  scan_checkpoints py draw r (some s) es >>= λ l.
                  scan_checkpoints py draw r l (e ∷ [])))
          → elim b as (λ _. Result (Option CheckpointSnapshot)) [
            | false ↦ scan_checkpoints py draw r latest (es ++ e ∷ [])
            | true ↦ found >>= λ s. scan_checkpoints py draw r (some s) (es ++ e ∷ [])
          ]
            ≡ (elim b as (λ _. Result (Option CheckpointSnapshot)) [
              | false ↦ scan_checkpoints py draw r latest es
              | true ↦ found >>= λ s. scan_checkpoints py draw r (some s) es
            ]
                >>= λ l. scan_checkpoints py draw r l (e ∷ []))
      after false found skip take = skip
      after true (ok s) skip take = take s
      after true (err x) skip take = refl

  bind-ok : {A : Type 0} (m : Result A) → (m >>= λ a. ok a) ≡ m
  bind-ok (ok a) = refl
  bind-ok (err e) = refl

  scan_checkpoints_other :
      (draw : ℕ → ℕ → String) (r s : String) (log : EventLog) (st : RunState) (ty : EventType)
      (p : Payload) (t : String) (l : Option CheckpointSnapshot)
      → ty ≢ checkpoint
      → scan_checkpoints py draw s l (new_record log r st ty p t ∷ []) ≡ ok l
  unfolding scan_checkpoints new_record
  scan_checkpoints_other draw r s log st run_created p t l h = refl
  scan_checkpoints_other draw r s log st checkpoint p t l h = absurd (h refl)
  scan_checkpoints_other draw r s log st _ p t l h = refl

  scan_checkpoints_saved :
      (draw : ℕ → ℕ → String) (log : EventLog) (t : String) (s : CheckpointSnapshot)
      (l : Option CheckpointSnapshot)
      → All HasId s.observations
      → scan_checkpoints py draw s.run_id l
          (new_record log s.run_id s.state checkpoint (to_payload s) t ∷ [])
        ≡ ok (some s)
  unfolding scan_checkpoints new_record
  scan_checkpoints_saved draw log t s l ids =
      rw (snapshot_from-to_payload (draw (next_sequence log s.run_id)) s ids) refl

  module _ (draw : ℕ → ℕ → String) (log : EventLog) (t : String) where
    -- In a well-formed log, an appended event that is no checkpoint changes nothing of what a later
    -- load of its run returns.
    pub load-append :
        (r : String) (st : RunState) (ty : EventType) (p : Payload)
        → IsWellFormed log
        → ty ≢ checkpoint
        → load_latest_checkpoint py draw (append log r st ty p t) r
          ≡ load_latest_checkpoint py draw log r
    unfolding load_latest_checkpoint
    load-append r st ty p w other =
        rw
          (
            list_events-append_self log r st ty p t w,
            scan_checkpoints-append draw r none (list_events log r) (new_record log r st ty p t),
            fun_ext (λ l. scan_checkpoints_other draw r r log st ty p t l other),
          )
          (bind-ok (scan_checkpoints py draw r none (list_events log r)))

    -- After a save to a well-formed log, the load of the run returns exactly the snapshot that was
    -- saved, provided that before the save a load of the run raised nothing and that each of the
    -- snapshot's observations has an identifier.
    pub load-save_checkpoint :
        (s : CheckpointSnapshot) (earlier : Option CheckpointSnapshot)
        → IsWellFormed log
        → All HasId s.observations
        → load_latest_checkpoint py draw log s.run_id ≡ ok earlier
        → load_latest_checkpoint py draw (save_checkpoint log s t) s.run_id ≡ ok (some s)
    unfolding load_latest_checkpoint save_checkpoint
    load-save_checkpoint s earlier w ids loaded =
        rw
          (
            list_events-append_self log s.run_id s.state checkpoint (to_payload s) t w,
            scan_checkpoints-append draw s.run_id none (list_events log s.run_id)
                (new_record log s.run_id s.state checkpoint (to_payload s) t),
            loaded,
          )
          (scan_checkpoints_saved draw log t s earlier ids)
