-- ===== src/Runner/Recorded.antt =====
-- What a log records of a run: whether it is open, and how it ended.
use multi_bot_agentic.Prelude.{
  String, ◌≡◌, refl, true, false, Option, none, some, List, [], ◌∷◌, ◌++◌, arith,
}
use multi_bot_agentic.Json.{Conversions, Payload}
use multi_bot_agentic.Models.{
  RunState, EventType, succeeded, failed, cancelled, run_created, run_completed, run_failed,
  run_cancelled, event_value,
}
use multi_bot_agentic.Lifecycle.{is_terminal}
use multi_bot_agentic.Lifecycle.Paths.{machine}
use multi_bot_agentic.EventLog.{EventRecord, EventLog, append, list_events, new_record}
use multi_bot_agentic.EventLog.Sequence.{IsWellFormed, list_events-append_self}
use multi_bot_agentic.Runner.{RunResult, terminal_event_state, latest_terminal, recorded_outcome}
use multi_bot_agentic.Runner.State

-- The state that an event type records the end of.
abbrev pub end_state : EventType → Option RunState
end_state run_completed = some succeeded
end_state run_failed = some failed
end_state run_cancelled = some cancelled
end_state _ = none

pub terminal_event_state-event_value :
    (ty : EventType) → terminal_event_state (event_value ty) ≡ end_state ty
unfolding terminal_event_state event_value
terminal_event_state-event_value run_created = refl
terminal_event_state-event_value _ = refl

pub latest_terminal-append :
    (es : List EventRecord) (e : EventRecord) (found : Option (EventRecord × RunState))
    → latest_terminal found (es ++ e ∷ [])
      ≡ elim (terminal_event_state e.event_type) as (λ _. Option (EventRecord × RunState)) [
        | none ↦ latest_terminal found es
        | some s ↦ some (e, s)
      ]
unfolding latest_terminal
latest_terminal-append [] e found = refl
latest_terminal-append (x ∷ es) e found =
    latest_terminal-append es e
      (elim (terminal_event_state x.event_type) [ none ↦ found | some s ↦ some (x, s) ])

-- The run has no terminal event.
abbrev pub IsUnfinished : String → EventLog → Type 0
IsUnfinished r log = latest_terminal none (list_events log r) ≡ none

module _ (log : EventLog) (r : String) (st : RunState) (ty : EventType) (p : Payload)
    (t : String) where
  pub append-IsUnfinished :
      IsWellFormed log
      → end_state ty ≡ none
      → IsUnfinished r log
      → IsUnfinished r (append log r st ty p t)
  unfolding new_record
  append-IsUnfinished w e u =
      rw
        (
          list_events-append_self log r st ty p t w,
          latest_terminal-append (list_events log r) (new_record log r st ty p t) none,
          terminal_event_state-event_value ty,
          e,
        )
        u

  pub latest_terminal-append_end :
      (s : RunState)
      → IsWellFormed log
      → end_state ty ≡ some s
      → latest_terminal none (list_events (append log r st ty p t) r)
        ≡ some (new_record log r st ty p t, s)
  unfolding new_record
  latest_terminal-append_end s w e =
      rw
        (
          list_events-append_self log r st ty p t w,
          latest_terminal-append (list_events log r) (new_record log r st ty p t) none,
          terminal_event_state-event_value ty,
          e,
        )
        refl

pub end_state-terminal :
    (ty : EventType) (s : RunState) → end_state ty ≡ some s → is_terminal (machine s) ≡ true
unfolding is_terminal
end_state-terminal run_completed s e = ground arith
end_state-terminal run_failed s e = ground arith
end_state-terminal run_cancelled s e = ground arith
end_state-terminal _ s e = cc

-- A run that goes on: its log is numbered, it has no terminal event, its machine is not terminal.
pub record IsOpen (run_id : String) (w : State.World) : Type 0 where
  pub well_formed : IsWellFormed w.log
  pub unfinished : IsUnfinished run_id w.log
  pub live : is_terminal w.machine ≡ false

-- A run that ended with the result `r`: the log records exactly that outcome.
pub record IsClosed (py : Conversions) (run_id : String) (r : RunResult) (w : State.World)
    : Type 0 where
  pub well_formed : IsWellFormed w.log
  pub recorded : recorded_outcome py w.log run_id ≡ some (record r { already_finished = true })
  pub ended : is_terminal w.machine ≡ true
  pub reached : r.state ≡ w.machine.state
  pub named : r.run_id ≡ run_id
  pub fresh : r.already_finished ≡ false
