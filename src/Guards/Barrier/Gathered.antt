-- ===== src/Guards/Barrier/Gathered.antt =====
-- fanin_barrier.py: the status of a barrier after any calls of the gate.
use multi_bot_agentic.Prelude.{
  ℕ, ◌≤◌, ◌≡◌, ◌↔◌, ◌∙◌, refl, sym, ap, subst, String, Bool, true, false, ◌||◌, ◌&&◌, not, List, [],
  ◌∷◌, length, leb, contains, ◌==◌, eq_iff, string_eq, if◌then◌else◌, arith, Bool-cases, inl, inr,
  ◌⊎◌,
}
use multi_bot_agentic.Prelude.Dict.{lookup, erase, get_or, get_or-insert, lookup-erase}
use multi_bot_agentic.Prelude.Sort.{sort_by}
use multi_bot_agentic.Prelude.Text.{text_le}
use multi_bot_agentic.Exn.{Result, ok, err, OnOk-ok}
use multi_bot_agentic.Guards.{require_id, with_id}
use multi_bot_agentic.Guards.Barrier.{
  FanInBarrierGate, FanInBarrierStatus, init, status_of, status, add_arrival, arrive, reset,
}
use multi_bot_agentic.Prelude.Sets.{
  add_member, Distinct, contains-sort_by, Distinct-sort_by, contains-add_member,
  Distinct-add_member,
}

pub data Call : Type 0 where
  arrives : String → String → Call
  resets : String → Call
  asks : String → Call

-- A call that raises is caught.
unfoldable pub call : Call → FanInBarrierGate → FanInBarrierGate
unfolding arrive reset status
call (arrives barrier_id bot_id) g = (arrive g barrier_id bot_id).1
call (resets barrier_id) g = (reset g barrier_id).1
call (asks barrier_id) g = (status g barrier_id).1

-- The calls, the last one first.
unfoldable pub calls : List Call → FanInBarrierGate → FanInBarrierGate
unfolding call
calls [] g = g
calls (c ∷ before) g = call c (calls before g)

-- The text names the identifier, once it is stripped and not empty.
abbrev pub names : Result String → String → Bool
names (ok s) t = s == t
names (err e) t = false

-- The bot has arrived at the barrier, and the barrier has not been reset since.
unfoldable pub has_arrived : String → String → List Call → Bool
has_arrived barrier bot [] = false
has_arrived barrier bot (arrives b x ∷ before) =
    (names (require_id b "barrier_id") barrier && names (require_id x "bot_id") bot)
    || has_arrived barrier bot before
has_arrived barrier bot (resets b ∷ before) =
    not (names (require_id b "barrier_id") barrier) && has_arrived barrier bot before
has_arrived barrier bot (asks b ∷ before) = has_arrived barrier bot before

-- The set of a barrier.
abbrev members : FanInBarrierGate → String → List String
members g t = get_or t [] g.arrived

with_id-gate :
    {A : Type 0} (r : Result String) (g : FanInBarrierGate) (f : String → Result A)
    → (with_id r g λ id. (f id, g)).1 ≡ g
unfolding with_id
with_id-gate (ok id) g f = refl
with_id-gate (err e) g f = refl

status-gate : (g : FanInBarrierGate) (b : String) → (status g b).1 ≡ g
unfolding status
status-gate g b = with_id-gate (require_id b "barrier_id") g (λ bid. ok (status_of g bid))

added :
    (g : FanInBarrierGate) (b x t bot : String)
    → contains bot (members (add_arrival g b x) t)
      ≡ ((b == t && x == bot) || contains bot (members g t))
unfolding add_arrival
added g b x t bot =
    ap (contains bot) (get_or-insert b t (add_member x (members g b)) [] g.arrived)
    ∙ elim (Bool-cases (b == t)) [
      | inl same ↦ rw same (
          contains-add_member bot x (members g b)
          ∙ ap (λ y. x == bot || contains bot (members g y)) ((eq_iff b t).0 same))
      | inr other ↦ rw other refl
    ]

without : FanInBarrierGate → String → FanInBarrierGate
without g b = record g { arrived = erase b g.arrived }

removed :
    (g : FanInBarrierGate) (b t bot : String)
    → contains bot (members (without g b) t) ≡ (not (b == t) && contains bot (members g t))
unfolding without
removed g b t bot = ground (arith, lookup-erase b t g.arrived)

-- What an arrival makes of the set of a barrier.
arrived :
    (r s : Result String) (g : FanInBarrierGate) (t bot : String)
    → contains bot (members (with_id r g λ b. with_id s g λ x. status (add_arrival g b x) b).1 t)
      ≡ (names r t && names s bot || contains bot (members g t))
unfolding with_id
arrived (err e) s g t bot = refl
arrived (ok b) (err e) g t bot = ground arith
arrived (ok b) (ok x) g t bot = rw (status-gate (add_arrival g b x) b) (added g b x t bot)

emptied :
    (r : Result String) (g : FanInBarrierGate) (f : String → Result (Unit {0})) (t bot : String)
    → contains bot (members (with_id r g λ b. (f b, without g b)).1 t)
      ≡ (not (names r t) && contains bot (members g t))
unfolding with_id
emptied (err e) g f t bot = refl
emptied (ok b) g f t bot = removed g b t bot

-- The members of a barrier's set are the bots that have arrived.
members-has_arrived :
    (cs : List Call) (g : FanInBarrierGate) (t bot : String)
    → g.arrived ≡ []
    → contains bot (members (calls cs g) t) ≡ has_arrived t bot cs
unfolding calls call has_arrived arrive reset without lookup
members-has_arrived [] g t bot new = rw new refl
members-has_arrived (arrives b x ∷ before) g t bot new =
    arrived (require_id b "barrier_id") (require_id x "bot_id") (calls before g) t bot
    ∙ ap (λ y. names (require_id b "barrier_id") t && names (require_id x "bot_id") bot || y)
        (members-has_arrived before g t bot new)
members-has_arrived (resets b ∷ before) g t bot new =
    emptied (require_id b "barrier_id") (calls before g) (λ _. ok tt) t bot
    ∙ ap (λ y. not (names (require_id b "barrier_id") t) && y)
        (members-has_arrived before g t bot new)
members-has_arrived (asks b ∷ before) g t bot new =
    ap (λ h. contains bot (members h t)) (status-gate (calls before g) b)
    ∙ members-has_arrived before g t bot new

-- What a call keeps: the settings, and that each set has each member once.
Kept : FanInBarrierGate → FanInBarrierGate → Type 0
Kept g after =
    (after.required ≡ g.required)
    × (after.mode ≡ g.mode)
    × (((t : String) → Distinct (members g t)) → (t : String) → Distinct (members after t))

same-Kept : (g after : FanInBarrierGate) → after ≡ g → Kept g after
unfolding Kept
same-Kept g after e = subst (λ x. Kept g x) (sym e) (refl, refl, λ d. d)

Distinct-added :
    (g : FanInBarrierGate) (b x t : String)
    → Distinct (members g b)
    → Distinct (members g t)
    → Distinct (members (add_arrival g b x) t)
unfolding add_arrival
Distinct-added g b x t d e =
    rw (get_or-insert b t (add_member x (members g b)) [] g.arrived) (elim (Bool-cases (b == t)) [
      | inl same ↦ rw same (Distinct-add_member x (members g b) d)
      | inr other ↦ rw other e
    ])

members-without :
    (g : FanInBarrierGate) (b t : String)
    → members (without g b) t ≡ (if b == t then [] else members g t)
unfolding without
members-without g b t = ground (arith, lookup-erase b t g.arrived)

Distinct-if : (b : Bool) (xs : List String) → Distinct xs → Distinct (if b then [] else xs)
Distinct-if true xs d = tt
Distinct-if false xs d = d

Distinct-without :
    (g : FanInBarrierGate) (b t : String)
    → Distinct (members g t)
    → Distinct (members (without g b) t)
Distinct-without g b t e = rw (members-without g b t) (Distinct-if (b == t) (members g t) e)

arrive-Kept :
    (r s : Result String) (g : FanInBarrierGate)
    → Kept g (with_id r g λ b. with_id s g λ x. status (add_arrival g b x) b).1
unfolding with_id Kept add_arrival
arrive-Kept (err e) s g = (refl, refl, λ d. d)
arrive-Kept (ok b) (err e) g = (refl, refl, λ d. d)
arrive-Kept (ok b) (ok x) g =
    rw (status-gate (add_arrival g b x) b) (refl, refl, λ d t. Distinct-added g b x t (d b) (d t))

reset-Kept :
    (r : Result String) (g : FanInBarrierGate) (f : String → Result (Unit {0}))
    → Kept g (with_id r g λ b. (f b, without g b)).1
unfolding with_id Kept without
reset-Kept (err e) g f = (refl, refl, λ d. d)
reset-Kept (ok b) g f = (refl, refl, λ d t. Distinct-without g b t (d t))

call-Kept : (c : Call) (g : FanInBarrierGate) → Kept g (call c g)
unfolding call arrive reset without
call-Kept (arrives b x) g = arrive-Kept (require_id b "barrier_id") (require_id x "bot_id") g
call-Kept (resets b) g = reset-Kept (require_id b "barrier_id") g (λ _. ok tt)
call-Kept (asks b) g = same-Kept g (status g b).1 (status-gate g b)

calls-Kept : (cs : List Call) (g : FanInBarrierGate) → Kept g (calls cs g)
unfolding calls Kept
calls-Kept [] g = (refl, refl, λ d. d)
calls-Kept (c ∷ before) g =
    let one = call-Kept c (calls before g) in
    let rest = calls-Kept before g in (one.0 ∙ rest.0, one.1 ∙ rest.1, λ d. one.2 (rest.2 d))

-- What the status of a barrier says, for the settings and the calls, the last one first.
pub record Gathers (required : ℕ) (mode barrier : String) (cs : List Call) (st : FanInBarrierStatus)
    : Type 0 where
  pub each_arrived : (bot : String) → contains bot st.arrived ≡ has_arrived barrier bot cs
  pub once : Distinct st.arrived
  pub counted : st.count ≡ length st.arrived
  pub when_released : (st.released ≡ true) ↔ (required ≤ st.count)
  pub when_allowed : (st.allowed ≡ true) ↔ ((st.released ≡ true) ⊎ (mode ≡ "advisory"))

init-Fresh :
    (required : ℕ) (mode : String) (g : FanInBarrierGate)
    → init required mode ≡ ok g
    → (g.required ≡ required) × (g.mode ≡ mode) × (g.arrived ≡ [])
unfolding init
init-Fresh required mode g e =
    OnOk-ok (λ x. (x.required ≡ required) × (x.mode ≡ mode) × (x.arrived ≡ [])) _ g (ground arith) e

released_iff : (m n k : ℕ) → m ≡ n → (leb m k ≡ true) ↔ (n ≤ k)
released_iff m n k e = ground (arith, e)

either : (m n : String) → m ≡ n → (false ≡ true) ⊎ (n ≡ "advisory") → m == "advisory" ≡ true
either m n e (inl h) = cc h
either m n e (inr h) = (eq_iff m "advisory").1 (e ∙ h)

allowed_iff :
    (b : Bool) (m n : String)
    → m ≡ n
    → ((b || m == "advisory") ≡ true) ↔ ((b ≡ true) ⊎ (n ≡ "advisory"))
allowed_iff true m n e = ((λ _. inl refl), (λ _. refl))
allowed_iff false m n e = ((λ h. inr (sym e ∙ (eq_iff m "advisory").0 h)), either m n e)

-- After any calls on a new gate, calls that raise included, the status of a barrier lists each bot
-- exactly once that has arrived at that barrier since its last reset, and no other; it is released
-- exactly when these are as many as required, and allows going on exactly when it is released or
-- the mode is `advisory`.
pub calls-Gathers :
    (required : ℕ) (mode : String) (g : FanInBarrierGate) (cs : List Call) (barrier : String)
    → init required mode ≡ ok g
    → Gathers required mode barrier cs (status_of (calls cs g) barrier)
unfolding status_of lookup Kept
calls-Gathers required mode g cs barrier e =
    let new = init-Fresh required mode g e in
    let after = calls-Kept cs g in
    let now = calls cs g in
    let as_required = after.0 ∙ new.0 in
    record {
      each_arrived = λ bot.
          contains-sort_by bot (members now barrier) ∙ members-has_arrived cs g barrier bot new.2;
      once = Distinct-sort_by (members now barrier) (after.2 (λ t. rw new.2 tt) barrier);
      counted = refl;
      when_released =
          released_iff now.required required (length (sort_by text_le (members now barrier)))
            as_required;
      when_allowed =
          allowed_iff (leb now.required (length (sort_by text_le (members now barrier)))) now.mode
            mode (after.1 ∙ new.1);
    }
