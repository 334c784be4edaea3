-- ===== src/Checkpoint/Tests.antt =====
-- A snapshot with two observations, saved to a new log.
use multi_bot_agentic.Prelude.{String, none, some, [], ◌∷◌, ◌≡◌, refl}
use multi_bot_agentic.Exn.{ok, err, other_error}
use multi_bot_agentic.Json.{Conversions, pos}
use multi_bot_agentic.Models.{acting, Observation}
use multi_bot_agentic.EventLog.Sequence.{empty-IsWellFormed}
use multi_bot_agentic.Checkpoint.{CheckpointSnapshot, load_latest_checkpoint, save_checkpoint}
use multi_bot_agentic.Checkpoint.RoundTrip.{load-save_checkpoint}

abbrev py : Conversions
py = record {
  show_container = λ _. "";
  int_of_text = λ _. err (other_error "int");
  dict_of_other = λ _. err (other_error "dict");
}

abbrev observation : String → Observation
observation id = record { source = "user"; content = "add"; metadata = []; observation_id = id }

abbrev snapshot : CheckpointSnapshot
snapshot = record {
  run_id = "r1";
  goal = "add";
  step = pos 2;
  state = acting;
  observations = observation "o1" ∷ observation "o2" ∷ [];
  active_bot_id = some "analyst";
}

nothing_saved : load_latest_checkpoint py (λ i j. "") [] "r1" ≡ ok none
unfolding load_latest_checkpoint
nothing_saved = refl

load-save_checkpoint_example :
    load_latest_checkpoint py (λ i j. "") (save_checkpoint [] snapshot "now") "r1"
    ≡ ok (some snapshot)
load-save_checkpoint_example =
    load-save_checkpoint py (λ i j. "") [] "now" snapshot none empty-IsWellFormed (refl, (refl, tt))
      nothing_saved
