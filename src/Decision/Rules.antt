-- ===== src/Decision/Rules.antt =====
-- decision.py: what each action that `decide` picks is a consequence of.
use multi_bot_agentic.Prelude.{
  ℕ, ◌+◌, ◌≤◌, ◌<◌, String, ◌≡◌, refl, subst, Bool, true, false, Option, some, List, ◌∷◌, [], last?,
  contains, leb, arith, string_eq, Option-cases, Bool-cases, inl, inr, ◌⊎◌,
}
use multi_bot_agentic.Prelude.Dict.{has_key}
use multi_bot_agentic.Prelude.Text.{starts_with}
use multi_bot_agentic.Exn.{Result, ok, err}
use multi_bot_agentic.Json.{Payload, str}
use multi_bot_agentic.Models.{Observation, Decision, DecisionAction}
use multi_bot_agentic.Models
use multi_bot_agentic.Safety.{SafetyPolicy}
use multi_bot_agentic.Decision.{
  Engine, decide, decide_latest, decide_output, decide_tool, decide_handoff, parse_request,
  latest_by_prefix,
}

-- The latest model output is `o`, and the last observation is neither a tool result nor a handoff.
abbrev IsLatestOutput : List Observation → Observation → Type 0
IsLatestOutput os o =
    (latest_by_prefix os "llm:" ≡ some o)
    × ((latest : Observation) × (last? os ≡ some latest)
        × (starts_with latest.source "tool:" ≡ false)
        × (starts_with latest.source "handoff:" ≡ false))

-- The latest model output is a directive with a name and a text, which are the decision's target
-- and payload.
abbrev IsDirective :
    String → String → (String → Bool) → List Observation → Option String → Payload → Type 0
IsDirective mark key known os target payload =
    (o : Observation) × (name : String) × (text : String) × IsLatestOutput os o
    × (starts_with o.content mark ≡ true)
    × (parse_request o.content ≡ some (name, text))
    × (known name ≡ true)
    × (target ≡ some name)
    × (payload ≡ (key, str text) ∷ [])

-- What a decision that is not the cancellation rests on, at a step below the last.
abbrev Rests :
    Engine → SafetyPolicy → List Observation → DecisionAction → Option String → Payload → Type 0
Rests g p os Models.call_tool target payload =
    IsDirective "TOOL:" "text" (λ name. contains name p.allowed_tools) os target payload
Rests g p os Models.handoff target payload =
    IsDirective "HANDOFF:" "summary" (λ name. has_key name g.bots) os target payload
Rests g p os Models.call_llm target payload = target ≡ some g.provider_name
Rests g p os Models.finish target payload =
    (o : Observation) × IsLatestOutput os o × (starts_with o.content "DONE:" ≡ true)
Rests g p os Models.fail target payload =
    (o : Observation) × (name : String) × (text : String) × IsLatestOutput os o
    × (starts_with o.content "HANDOFF:" ≡ true)
    × (parse_request o.content ≡ some (name, text))
    × (has_key name g.bots ≡ false)
Rests g p os Models.cancel target payload = ⊥

-- What every decision rests on.
abbrev pub IsJustified : Engine → Bool → List Observation → ℕ → SafetyPolicy → Decision → Type 0
IsJustified g true os step p d = d.action ≡ Models.cancel
IsJustified g false os step p d =
    ((p.max_steps ≤ step + 1) × (d.action ≡ Models.finish))
    ⊎ ((step + 1 < p.max_steps) × Rests g p os d.action d.target d.payload)

module _ (g : Engine) (p : SafetyPolicy) (os : List Observation) where
  abbrev Rested : Decision → Type 0
  Rested d = Rests g p os d.action d.target d.payload

  decide_tool-Rested :
      (o : Observation)
      → IsLatestOutput os o
      → starts_with o.content "TOOL:" ≡ true
      → Rested (decide_tool g p o)
  unfolding decide_tool
  decide_tool-Rested o l s = elim (Option-cases (parse_request o.content)) [
    | inl e ↦ rw (e, decide_tool) refl
    | inr ((name, text), e) ↦
        rw (e, decide_tool)
          (elim (Bool-cases (contains name p.allowed_tools)) [
            | inl c ↦ rw c (o, name, text, l, s, e, c, refl, refl)
            | inr c ↦ rw c refl
          ])
  ]

  decide_handoff-Rested :
      (o : Observation)
      → IsLatestOutput os o
      → starts_with o.content "HANDOFF:" ≡ true
      → Rested (decide_handoff g o)
  unfolding decide_handoff
  decide_handoff-Rested o l s = elim (Option-cases (parse_request o.content)) [
    | inl e ↦ rw (e, decide_handoff) refl
    | inr ((name, text), e) ↦
        rw (e, decide_handoff)
          (elim (Bool-cases (has_key name g.bots)) [
            | inl c ↦ rw c (o, name, text, l, s, e, c, refl, refl)
            | inr c ↦ rw c (o, name, text, l, s, e, c)
          ])
  ]

  decide_output-Rested : (o : Observation) → IsLatestOutput os o → Rested (decide_output g p o)
  unfolding decide_output
  decide_output-Rested o l = elim (Bool-cases (starts_with o.content "TOOL:")) [
    | inl t ↦ rw t (decide_tool-Rested o l t)
    | inr t ↦ rw t (elim (Bool-cases (starts_with o.content "HANDOFF:")) [
      | inl h ↦ rw h (decide_handoff-Rested o l h)
      | inr h ↦ rw h (elim (Bool-cases (starts_with o.content "DONE:")) [
        | inl d ↦ rw d (o, l, d)
        | inr d ↦ rw d refl
      ])
    ])
  ]

  decide_latest-Rested :
      (latest : Observation) → last? os ≡ some latest → Rested (decide_latest g p os latest)
  unfolding decide_latest
  decide_latest-Rested latest e = elim (Bool-cases (starts_with latest.source "tool:")) [
    | inl t ↦ rw t refl
    | inr t ↦ rw t (elim (Bool-cases (starts_with latest.source "handoff:")) [
      | inl h ↦ rw h refl
      | inr h ↦ rw h (elim (Option-cases (latest_by_prefix os "llm:")) [
        | inl n ↦ rw (n, decide_latest) refl
        | inr (o, n) ↦ rw (n, decide_latest) (decide_output-Rested o (n, (latest, e, t, h)))
      ])
    ])
  ]

abbrev Justifies : Engine → Bool → List Observation → ℕ → SafetyPolicy → Result Decision → Type 0
Justifies g stop os step p (ok d) = IsJustified g stop os step p d
Justifies g stop os step p (err e) = Unit

decide-Justifies :
    (g : Engine) (stop : Bool) (os : List Observation) (step : ℕ) (p : SafetyPolicy)
    → Justifies g stop os step p (decide g stop os step p)
unfolding decide
decide-Justifies g true os step p = refl
decide-Justifies g false os step p = elim (Option-cases (last? os)) [
  | inl e ↦ rw (e, decide) tt
  | inr (latest, e) ↦
      rw (e, decide)
        (elim (Bool-cases (leb p.max_steps (step + 1))) [
          | inl c ↦ rw c (inl (ground (arith, c), refl))
          | inr c ↦ rw c (inr (ground (arith, c), decide_latest-Rested g p os latest e))
        ])
]

-- Every decision rests on its conditions. After a cancellation request it is `cancel`. At the last
-- step of the budget it is `finish`. Below the last step a tool is called only if it is on the
-- allowlist and the latest model output is a `TOOL:` directive that names it with that text; the run
-- is handed over only to a registered bot that the latest `HANDOFF:` directive names; it fails only
-- for a `HANDOFF:` directive to a bot that is not registered; it finishes only on `DONE:`; and a
-- model is asked only by the engine's provider. None of the three directives counts while the last
-- observation is a tool result or a handoff.
pub decide-IsJustified :
    (g : Engine) (stop : Bool) (os : List Observation) (step : ℕ) (p : SafetyPolicy) (d : Decision)
    → decide g stop os step p ≡ ok d
    → IsJustified g stop os step p d
decide-IsJustified g stop os step p d h =
    subst (Justifies g stop os step p) h (decide-Justifies g stop os step p)
