-- ===== src/Lifecycle.antt =====
-- src/multi_bot_agentic/lifecycle.py: the state machine of a run.
pub mod Paths
use Prim.Native.String.{◌++◌}
use multi_bot_agentic.Prelude.{Bool, true, false, List, [], ◌∷◌, if◌then◌else◌}
use multi_bot_agentic.Exn.{Exn, Result, ok, err, invalid_transition}
use multi_bot_agentic.Models.{
  RunState, created, observing, deciding, acting, succeeded, failed, cancelled, state_value,
}

-- `next_state in states`: members of an enum are compared by identity.
abbrev pub same : RunState → RunState → Bool
same created created = true
same observing observing = true
same deciding deciding = true
same acting acting = true
same succeeded succeeded = true
same failed failed = true
same cancelled cancelled = true
same _ _ = false

unfoldable pub in_states : RunState → List RunState → Bool
in_states s [] = false
in_states s (t ∷ ts) = if same s t then true else in_states s ts

unfoldable pub allowed_transitions : RunState → List RunState
allowed_transitions created = observing ∷ cancelled ∷ failed ∷ []
allowed_transitions observing = deciding ∷ cancelled ∷ failed ∷ []
allowed_transitions deciding = acting ∷ succeeded ∷ cancelled ∷ failed ∷ []
allowed_transitions acting = observing ∷ succeeded ∷ cancelled ∷ failed ∷ []
allowed_transitions succeeded = []
allowed_transitions failed = []
allowed_transitions cancelled = []

pub record RunStateMachine : Type 0 where
  pub state : RunState

-- The error of a transition that is not allowed.
unfoldable pub refusal : RunState → RunState → Exn
unfolding state_value
refusal s t =
    invalid_transition ("invalid transition: " ++ (state_value s ++ (" -> " ++ state_value t)))

-- The machine after the call comes back beside the result.
unfoldable pub transition_to :
    RunStateMachine → RunState → Result (RunState × RunState) × RunStateMachine
unfolding in_states allowed_transitions
transition_to m next_state =
    if in_states next_state (allowed_transitions m.state)
    then (ok (m.state, next_state), record m { state = next_state })
    else (err (refusal m.state next_state), m)

unfoldable pub is_terminal : RunStateMachine → Bool
unfolding in_states
is_terminal m = in_states m.state (succeeded ∷ failed ∷ cancelled ∷ [])
