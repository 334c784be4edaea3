-- ===== src/Runner/Resume.antt =====
-- `AgentRunner.run` and `resume` as a whole: a finished run is never executed again.
use multi_bot_agentic.Prelude.{
  ℕ, String, ◌≡◌, refl, ◌⊎◌, inl, inr, true, false, some, subst, if◌then◌else◌,
}
use multi_bot_agentic.Prelude.Text.{is_empty}
use multi_bot_agentic.Exn.{Result, ok, err}
use multi_bot_agentic.Json.{Conversions}
use multi_bot_agentic.Models.{created, run_created}
use multi_bot_agentic.Safety.{validate_goal}
use multi_bot_agentic.Lifecycle.{is_terminal}
use multi_bot_agentic.EventLog.Sequence.{IsWellFormed}
use multi_bot_agentic.Runner.{
  AgentRunner, RunResult, uuid, log_event, lift, pure, ◌>>=◌, recorded_outcome, is_caught, run,
  run_as, resume,
}
use multi_bot_agentic.Runner.State
use multi_bot_agentic.Runner.Rules.{Ends}
use multi_bot_agentic.Runner.Recorded.{IsOpen, IsClosed, IsUnfinished}
use multi_bot_agentic.Runner.Outcome.{log_event-IsOpen, uuid-IsOpen, run_loop-recorded}

module _ (py : Conversions) (a : AgentRunner) where
  -- `resume` on a run whose outcome is recorded returns it and changes nothing.
  resume_recorded :
      (draw : ℕ → ℕ → String) (id : String) (r : RunResult) (w : State.World)
      → recorded_outcome py w.log id ≡ some r
      → resume py a draw id w ≡ (ok r, w)
  unfolding resume
  resume_recorded draw id r w e = rw (e, resume) refl

  -- What a call of `run` of a goal under the identifier `id` from the world `w` leaves behind.
  abbrev pub RunEnds : String → String → State.World → Result RunResult × State.World → Type 0
  RunEnds goal id w = Ends (IsClosed py id) (λ e v.
      ((validate_goal w.policy goal ≡ err e) × (v ≡ w)) ⊎ ((is_caught e ≡ false) × IsOpen id v))

  run_as-Ends :
      (goal id : String) (w : State.World)
      → IsWellFormed w.log
      → IsUnfinished id w.log
      → Ends (IsClosed py id) (λ e v. (is_caught e ≡ false) × IsOpen id v) (run_as py a goal id w)
  unfolding ◌>>=◌ uuid log_event is_terminal
  run_as-Ends goal id w wf u = run_loop-recorded py a id goal 0 _ _ (
      (log_event-IsOpen py a id created run_created _ refl).at _
        ((uuid-IsOpen py a id).at _ (record { well_formed = wf; unfinished = u; live = refl })))

  -- In a well-formed log, a call of `run` under a non-empty identifier for which the log has no
  -- terminal event ends in one of three ways.
  -- It returns a result: then the machine is terminal, and the log's recorded outcome of the run is
  -- that result, marked as finished before. It raises the policy's refusal of the goal: then nothing has changed. Or it raises an
  -- error that the loop does not catch: then the log has no terminal event of the run, and the machine
  -- is not terminal. In the first and the last case the log is well-formed.
  pub run_ends :
      (goal id : String) (w : State.World)
      → is_empty id ≡ false
      → IsWellFormed w.log
      → IsUnfinished id w.log
      → RunEnds goal id w (run py a goal (some id) w)
  unfolding run ◌>>=◌
  run_ends goal id w named wf u = started (validate_goal w.policy goal) refl
    where
      started :
          (checked : Result (Unit {0}))
          → validate_goal w.policy goal ≡ checked
          → RunEnds goal id w (
              (lift checked >>= λ _. (if is_empty id then uuid a else pure id) >>= run_as py a goal)
                w)
      started (err e) refused = inl (refused, refl)
      started (ok _) _ = rw named (widen (run_as py a goal id w) (run_as-Ends goal id w wf u))
        where
          widen :
              (x : Result RunResult × State.World)
              → Ends (IsClosed py id) (λ e v. (is_caught e ≡ false) × IsOpen id v) x
              → RunEnds goal id w x
          widen (ok r, v) h = h
          widen (err e, v) h = inr h

  -- After a run, under a non-empty identifier that was unfinished in a well-formed log, has returned
  -- a result, `resume` returns the same result, marked as finished before, and changes nothing: no
  -- event, no request to the outside.
  pub resume-run :
      (draw : ℕ → ℕ → String) (goal id : String) (r : RunResult) (w v : State.World)
      → is_empty id ≡ false
      → IsWellFormed w.log
      → IsUnfinished id w.log
      → run py a goal (some id) w ≡ (ok r, v)
      → resume py a draw id v ≡ (ok (record r { already_finished = true }), v)
  resume-run draw goal id r w v named wf u e =
      resume_recorded draw id _ v
        (subst (RunEnds goal id w) e (run_ends goal id w named wf u)).recorded
