-- ===== src/Tools/JsonPatch/Writes.antt =====
-- json_patch_apply.py: what `_add`, `_remove` and `_replace` leave at their place.
use multi_bot_agentic.Prelude.{◌≡◌, refl, ap, ◌∙◌, String, List, [], ◌∷◌, string_eq}
use multi_bot_agentic.Exn.{Result, ok, bind-ok}
use multi_bot_agentic.Json.{Json}
use multi_bot_agentic.Tools.JsonPatch.Pointer.{Python}
use multi_bot_agentic.Tools.JsonPatch.Operations.{descend, get_tokens, put_child, parent, at_parent}
use multi_bot_agentic.Tools.JsonPatch.Places.{descend-put_child, put_child-put_child}

-- `tokens[-1]` of a token and the ones that follow.
unfoldable pub last_token : String → List String → String
last_token token [] = token
last_token token (next ∷ rest) = last_token next rest

module _ (py : Python) where
  module _ {A : Type 0} (change : Json → String → Result (Json × A)) where
    -- A change at a longer path is one at the child.
    at_parent-found :
        (document d : Json) (a : A) (token next : String) (rest : List String)
        → at_parent py change document (token ∷ next ∷ rest) ≡ ok (d, a)
        → (child : Json) × (descend py document token ≡ ok child)
          × (inner : Json) × (at_parent py change child (next ∷ rest) ≡ ok (inner, a))
          × (d ≡ put_child py document token inner)
    unfolding at_parent
    at_parent-found document d a token next rest h =
        let (child, found, changed) = bind-ok (descend py document token) _ (d, a) h in
        let ((inner, b), within, same) =
          bind-ok (at_parent py change child (next ∷ rest)) _ (d, a) changed in
        (child, found, inner, cc (within, same), cc same)

    at_parent_child :
        (document child inner : Json) (a : A) (token next : String) (rest : List String)
        → descend py document token ≡ ok child
        → at_parent py change child (next ∷ rest) ≡ ok (inner, a)
        → at_parent py change document (token ∷ next ∷ rest)
          ≡ ok (put_child py document token inner, a)
    unfolding at_parent
    at_parent_child document child inner a token next rest found within = rw (found, within) refl

    -- What a change leaves at its token is found at the whole path.
    pub get_tokens-at_parent :
        (value : Json) (a : A)
        → (document d : Json) (token : String) (rest : List String)
        → ((j k : Json)
            → change j (last_token token rest) ≡ ok (k, a)
            → descend py k (last_token token rest) ≡ ok value)
        → at_parent py change document (token ∷ rest) ≡ ok (d, a)
        → get_tokens py d (token ∷ rest) ≡ ok value
    unfolding get_tokens at_parent last_token
    get_tokens-at_parent value a document d token [] law h = rw (law document d h) refl
    get_tokens-at_parent value a document d token (next ∷ rest) law h =
        let (child, found, inner, within, same) = at_parent-found document d a token next rest h in
        rw (same, descend-put_child py document child inner token found)
          (get_tokens-at_parent value a child inner next rest law within)

    -- What a change answers was found at the whole path before it.
    pub get_tokens-before :
        (value : Json)
        → (document d : Json) (a : A) (token : String) (rest : List String)
        → ((j k : Json)
            → change j (last_token token rest) ≡ ok (k, a)
            → descend py j (last_token token rest) ≡ ok value)
        → at_parent py change document (token ∷ rest) ≡ ok (d, a)
        → get_tokens py document (token ∷ rest) ≡ ok value
    unfolding get_tokens at_parent last_token
    get_tokens-before value document d a token [] law h = rw (law document d h) refl
    get_tokens-before value document d a token (next ∷ rest) law h =
        let (child, found, inner, within, same) = at_parent-found document d a token next rest h in
        rw found (get_tokens-before value child inner a next rest law within)

  -- A change at the parent that another one undoes there is undone for the whole document.
  module _ {A B : Type 0} (change : Json → String → Result (Json × A))
      (undo : Json → String → Result (Json × B)) (a : A) (b : B) (container : Json) (last : String)
      (undone : (k : Json)
        → change container last ≡ ok (k, a)
        → undo k last ≡ ok (container, b)) where
    pub at_parent-at_parent :
        (document d : Json) (token : String) (rest : List String)
        → parent py document (token ∷ rest) ≡ ok (container, last)
        → at_parent py change document (token ∷ rest) ≡ ok (d, a)
        → at_parent py undo d (token ∷ rest) ≡ ok (document, b)
    unfolding parent at_parent
    at_parent-at_parent document d token [] place h = cc (undone d (cc (h, place)), place)
    at_parent-at_parent document d token (next ∷ rest) place h =
        let (child, found, inner, within, same) =
          at_parent-found change document d a token next rest h in
        let back = at_parent-at_parent child inner next rest (cc (place, found)) within in
        rw same (
          at_parent_child undo (put_child py document token inner) inner child b token next rest
            (descend-put_child py document child inner token found) back
          ∙ ap (λ x. ok (x, b)) (put_child-put_child py document child inner token found))
