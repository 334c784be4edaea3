-- ===== src/Lifecycle/Paths.antt =====
-- Which states a run can pass through, by paths of accepted calls of `transition_to`.
use multi_bot_agentic.Prelude.{◌≡◌, refl, ◌≢◌, ◌↔◌, ◌⊎◌, inl, inr, Bool, true, false, Bool-cases}
use multi_bot_agentic.Exn.{Exn, Result, ok, err}
use multi_bot_agentic.Models.{
  RunState, created, observing, deciding, acting, succeeded, failed, cancelled,
}
use multi_bot_agentic.Lifecycle.{
  RunStateMachine, in_states, allowed_transitions, refusal, transition_to, is_terminal,
}

abbrev pub machine : RunState → RunStateMachine
machine s = record { state = s }

abbrev pub accepted {ℓ} : {A : Type ℓ} → Result A → Bool
accepted (ok a) = true
accepted (err e) = false

abbrev pub Accepts : RunState → RunState → Type 0
Accepts s t = accepted (transition_to (machine s) t).0 ≡ true

-- A machine is terminal exactly when it refuses every state that it is asked for and stays as it is.
pub is_terminal_iff_refuses :
    (m : RunStateMachine)
    → (is_terminal m ≡ true)
      ↔ ((s : RunState) → (accepted (transition_to m s).0 ≡ false) × ((transition_to m s).1 ≡ m))
unfolding is_terminal transition_to
is_terminal_iff_refuses m = refuses m.state
  where
    refuses :
        (r : RunState)
        → (is_terminal (machine r) ≡ true) ↔ (
            (s : RunState)
            → (accepted (transition_to (machine r) s).0 ≡ false)
              × ((transition_to (machine r) s).1 ≡ machine r))
    refuses created = (λ h. cc, λ h. cc (h failed).0)
    refuses observing = (λ h. cc, λ h. cc (h failed).0)
    refuses deciding = (λ h. cc, λ h. cc (h failed).0)
    refuses acting = (λ h. cc, λ h. cc (h failed).0)
    refuses succeeded = (λ h s. (refl, refl), λ h. refl)
    refuses failed = (λ h s. (refl, refl), λ h. refl)
    refuses cancelled = (λ h s. (refl, refl), λ h. refl)

-- A run that has not ended can always be failed or cancelled.
pub transition_to_abort :
    (s : RunState)
    → is_terminal (machine s) ≡ false
    → (transition_to (machine s) failed ≡ (ok (s, failed), machine failed))
      × (transition_to (machine s) cancelled ≡ (ok (s, cancelled), machine cancelled))
unfolding is_terminal transition_to
transition_to_abort created h = (refl, refl)
transition_to_abort observing h = (refl, refl)
transition_to_abort deciding h = (refl, refl)
transition_to_abort acting h = (refl, refl)
transition_to_abort succeeded h = cc
transition_to_abort _ h = cc

-- A call moves the machine to the state that was asked for, or raises and leaves it alone.
pub transition_to-cases :
    (m : RunStateMachine) (s : RunState)
    → (transition_to m s ≡ (ok (m.state, s), machine s))
      ⊎ ((e : Exn) × (transition_to m s ≡ (err e, m)))
unfolding transition_to
transition_to-cases m s = elim (Bool-cases (in_states s (allowed_transitions m.state))) [
  | inl h ↦ inl (rw h refl)
  | inr h ↦ inr (refusal m.state s, rw h refl)
]

-- The states that accepted calls reach without ever entering `x`.
pub data Avoids (x s : RunState) : RunState → Type 0 where
  here : s ≢ x → Avoids x s s
  next : {t : RunState} (u : RunState) → Avoids x s t → Accepts t u → u ≢ x → Avoids x s u

abbrev Early : RunState → Type 0
Early created = Unit
Early observing = Unit
Early failed = Unit
Early cancelled = Unit
Early _ = ⊥

Early-next : (t u : RunState) → Early t → Accepts t u → u ≢ deciding → Early u
unfolding transition_to
Early-next t created e a n = tt
Early-next t observing e a n = tt
Early-next t failed e a n = tt
Early-next t cancelled e a n = tt
Early-next t deciding e a n = absurd (n refl)
Early-next created acting e a n = cc
Early-next observing acting e a n = cc
Early-next failed acting e a n = cc
Early-next cancelled acting e a n = cc
Early-next created succeeded e a n = cc
Early-next observing succeeded e a n = cc
Early-next failed succeeded e a n = cc
Early-next cancelled succeeded e a n = cc
Early-next deciding _ e a n = absurd e
Early-next acting _ e a n = absurd e
Early-next succeeded _ e a n = absurd e

Avoids-Early : {s : RunState} → Avoids deciding created s → Early s
Avoids-Early (here h) = tt
Avoids-Early (next {t} u p a h) = Early-next t u (Avoids-Early p) a h

-- No sequence of accepted calls takes a new run to `acting` or to `succeeded` without passing
-- `deciding`.
pub no_act_undecided : ¬ (Avoids deciding created acting) × ¬ (Avoids deciding created succeeded)
no_act_undecided = (λ p. Avoids-Early p, λ p. Avoids-Early p)
