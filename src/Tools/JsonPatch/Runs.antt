-- ===== src/Tools/JsonPatch/Runs.antt =====
-- json_patch_apply.py: the loop of `execute` over the operations.
use multi_bot_agentic.Prelude.{
  ℕ, suc, ◌≡◌, refl, String, Bool, true, false, List, [], ◌∷◌, inl, inr, subst,
}
use multi_bot_agentic.Exn.{ok, Result-cases}
use multi_bot_agentic.Json.{Json, Payload, null, bool, int, str, arr, obj, Fields, to_fields}
use multi_bot_agentic.Tools.JsonPatch.Pointer.{Python}
use multi_bot_agentic.Tools.JsonPatch.Operations.{apply_operation}
use multi_bot_agentic.Tools.JsonPatch.Execute.{Step, go, fail, ◌>=>◌, fail_if, apply_at, apply_all}

module _ (py : Python) where
  -- RFC 6902: each operation is an object, and is applied to what the one before it left.
  pub data Patches : Json → List Json → Json → Type 0 where
    finished : {document : Json} → Patches document [] document
    applied :
        {document result : Json} {rest : List Json} (operation : Fields) (between : Json)
        → apply_operation py document (to_fields operation) ≡ ok between
        → Patches between rest result
        → Patches document (obj operation ∷ rest) result

pub go-go {ℓ κ} :
    {A : Type ℓ} {B : Type κ} (s : Step A) (after : A → Step B) (b : B)
    → s >=> after ≡ go b
    → (a : A) × (s ≡ go a) × (after a ≡ go b)
go-go (go a) after b h = (a, refl, h)
go-go (fail m d) after b h = cc h

pub passed :
    (test : Bool) (m : String) (d : Payload) (u : Unit {0}) → fail_if test m d ≡ go u → test ≡ false
passed true m d u h = cc h
passed false m d u h = refl

module _ (py : Python) where
  apply_at-go :
      (index : ℕ) (document operation between : Json)
      → apply_at py index document operation ≡ go between
      → (members : Fields) × (operation ≡ obj members)
        × (apply_operation py document (to_fields members) ≡ ok between)
  unfolding apply_at
  apply_at-go index document (obj members) between h =
      elim (Result-cases (apply_operation py document (to_fields members))) [
        | inl (e, bad) ↦ cc (rw (bad, apply_at) at h)
        | inr (updated, good) ↦ (members, refl, cc (good, rw (good, apply_at) at h))
      ]
  apply_at-go index document null between h = cc h
  apply_at-go index document (bool b) between h = cc h
  apply_at-go index document (int n) between h = cc h
  apply_at-go index document (str s) between h = cc h
  apply_at-go index document (arr xs) between h = cc h

  go-apply_at :
      (index : ℕ) (document : Json) (members : Fields) (between : Json)
      → apply_operation py document (to_fields members) ≡ ok between
      → apply_at py index document (obj members) ≡ go between
  unfolding apply_at
  go-apply_at index document members between h = rw (h, apply_at) refl

  pub apply_all-Patches :
      (index : ℕ) (document result : Json) (operations : List Json)
      → apply_all py index document operations ≡ go result
      → Patches py document operations result
  unfolding apply_all
  apply_all-Patches index document result [] h =
      subst (λ d. Patches py document [] d) (cc h) finished
  apply_all-Patches index document result (operation ∷ rest) h =
      let (between, first, others) = go-go (apply_at py index document operation) _ result h in
      let (members, same, good) = apply_at-go index document operation between first in
      rw same
        (applied members between good (apply_all-Patches (suc index) between result rest others))

  pub Patches-apply_all :
      (index : ℕ) (document result : Json) (operations : List Json)
      → Patches py document operations result
      → apply_all py index document operations ≡ go result
  unfolding apply_all
  Patches-apply_all index document result [] finished = refl
  Patches-apply_all index document result (operation ∷ rest) (applied members between good others) =
      rw (go-apply_at index document members between good)
        (Patches-apply_all (suc index) between result rest others)
