-- ===== src/Exn.antt =====
-- Python's exceptions as values. `InvalidTransitionError` (lifecycle.py) is a `ValueError` and
-- `SafetyError` (safety.py) a `RuntimeError`; `other_error` stands for every other class.
use multi_bot_agentic.Prelude.{String, Bool, true, false, ◌≡◌, refl, ◌⊎◌, inl, inr, subst}

pub data Exn : Type 0 where
  invalid_transition safety_error os_error runtime_error value_error : String → Exn
  key_error type_error other_error : String → Exn

pub data Result {ℓ} (A : Type ℓ) : Type ℓ where
  ok : A → Result A
  err : Exn → Result A

infixl 10 ◌>>=◌ ◌>>◌
abbrev pub ◌>>=◌ {ℓ κ} : {A : Type ℓ} {B : Type κ} → Result A → (A → Result B) → Result B
ok value >>= next = next value
err raised >>= next = err raised

abbrev pub ◌>>◌ {ℓ} : {B : Type ℓ} → Result (Unit {0}) → Result B → Result B
first >> second = first >>= λ _. second

-- `if test: raise e`
abbrev pub raise_if : Bool → Exn → Result (Unit {0})
raise_if true e = err e
raise_if false e = ok tt

-- `str(error)`
unfoldable pub message : Exn → String
message (Exn.invalid_transition m) = m
message (Exn.safety_error m) = m
message (Exn.os_error m) = m
message (Exn.runtime_error m) = m
message (Exn.value_error m) = m
message (Exn.key_error m) = m
message (Exn.type_error m) = m
message (Exn.other_error m) = m

-- The result, if there is one, has the property.
abbrev pub OnOk {ℓ κ} : {A : Type ℓ} → (A → Type κ) → Result A → Type κ
OnOk P (ok a) = P a
OnOk P (err e) = Unit

pub OnOk-ok {ℓ κ} : {A : Type ℓ} (P : A → Type κ) (r : Result A) (a : A) → OnOk P r → r ≡ ok a → P a
OnOk-ok P r a h e = subst (OnOk P) e h

-- To split on a computed result and keep the equation.
pub Result-cases {ℓ} :
    {A : Type ℓ} (r : Result A) → ((e : Exn) × (r ≡ err e)) ⊎ ((a : A) × (r ≡ ok a))
Result-cases (ok a) = inr (a, refl)
Result-cases (err e) = inl (e, refl)

-- What comes of a chain comes of a first result.
pub bind-ok {ℓ κ} :
    {A : Type ℓ} {B : Type κ} (r : Result A) (next : A → Result B) (b : B)
    → r >>= next ≡ ok b
    → (a : A) × (r ≡ ok a) × (next a ≡ ok b)
bind-ok (ok a) next b h = (a, refl, h)
bind-ok (err e) next b h = cc h
