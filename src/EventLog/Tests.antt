-- ===== src/EventLog/Tests.antt =====
-- Two runs in one log.
use multi_bot_agentic.Prelude.{String, [], ◌∷◌, ◌++◌, ◌≡◌, if◌then◌else◌, ◌==◌, string_eq}
use multi_bot_agentic.Models.{created, observing, run_created, state_transition}
use multi_bot_agentic.EventLog.{EventLog, append, list_events, new_record}
use multi_bot_agentic.EventLog.Sequence.{
  IsWellFormed, empty-IsWellFormed, append-IsWellFormed, list_events-append,
}

abbrev pub two_runs : EventLog
two_runs = append (append [] "a" created run_created [] "now") "b" created run_created [] "now"

append-IsWellFormed_example : IsWellFormed two_runs
append-IsWellFormed_example =
    append-IsWellFormed (append [] "a" created run_created [] "now") "b" created run_created []
      "now" (append-IsWellFormed [] "a" created run_created [] "now" empty-IsWellFormed)

two_runs-IsWellFormed : IsWellFormed two_runs
two_runs-IsWellFormed =
    append-IsWellFormed (append [] "a" created run_created [] "now") "b" created run_created []
      "now" (append-IsWellFormed [] "a" created run_created [] "now" empty-IsWellFormed)

list_events-append_example :
    list_events (append two_runs "a" observing state_transition [] "then") "a" ≡ (
      if ◌==◌ {A = String} "a" "a"
      then list_events two_runs "a"
        ++ new_record two_runs "a" observing state_transition [] "then" ∷ []
      else list_events two_runs "a")
list_events-append_example =
    list_events-append two_runs "a" observing state_transition [] "then" "a" two_runs-IsWellFormed
