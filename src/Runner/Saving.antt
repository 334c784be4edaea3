-- ===== src/Runner/Saving.antt =====
-- runner.py: the checkpoints that `_run_loop` saves. Saving/Pass is about one pass of the loop;
-- Saving/Steps carries what a load needs through the runner's methods.
pub mod Steps
pub mod Pass
pub mod Resumed
use multi_bot_agentic.Prelude.{
  ℕ, ◌+◌, String, ◌≡◌, ◌≢◌, refl, Bool, true, false, Option, none, some, List, [], ◌∷◌, ◌++◌, All,
  if◌then◌else◌,
}
use multi_bot_agentic.Exn.{Exn, Result, ok, err}
use multi_bot_agentic.Json.{Conversions, Payload, pos}
use multi_bot_agentic.Models.{RunState, EventType, checkpoint, Observation}
use multi_bot_agentic.EventLog.{EventLog, append}
use multi_bot_agentic.EventLog.Sequence.{IsWellFormed, append-IsWellFormed}
use multi_bot_agentic.Checkpoint.{CheckpointSnapshot, load_latest_checkpoint}
use multi_bot_agentic.Checkpoint.RoundTrip.{HasId, load-append}
use multi_bot_agentic.Runner.State

-- The log is well-formed, and loading the run's checkpoint raises nothing.
pub record Loads (py : Conversions) (draw : ℕ → ℕ → String) (run_id : String) (w : State.World)
    : Type 0 where
  pub well_formed : IsWellFormed w.log
  pub earlier : Option CheckpointSnapshot
  pub loaded : load_latest_checkpoint py draw w.log run_id ≡ ok earlier
