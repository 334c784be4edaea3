-- ===== src/Tools/JsonPatch/Effects.antt =====
-- json_patch_apply.py: what `_add`, `_remove` and `_replace` do to the document.
use multi_bot_agentic.Prelude.{◌≡◌, refl, String, true, false, List, [], ◌∷◌, ◌==◌, string_eq}
use multi_bot_agentic.Exn.{Result, ok, err, ◌>>=◌, bind-ok}
use multi_bot_agentic.Json.{Json}
use multi_bot_agentic.Tools.JsonPatch.Pointer.{Python, parse_pointer}
use multi_bot_agentic.Tools.JsonPatch.Operations.{
  descend, get_tokens, get, parent, at_parent, add_child, add, remove_child, remove, replace_child,
  replace,
}
use multi_bot_agentic.Tools.JsonPatch.Writes.{
  last_token, get_tokens-at_parent, get_tokens-before, at_parent-at_parent,
}
use multi_bot_agentic.Tools.JsonPatch.Changes.{
  is_new, descend-add_child, remove_child-add_child, replace_child-replace_child,
  descend-remove_child,
}

first_only :
    (r : Result (Json × Unit {0})) (d : Json) → (r >>= λ done. ok done.0) ≡ ok d → r ≡ ok (d, tt)
first_only (ok (k, u)) d h = cc h
first_only (err e) d h = cc h

module _ (py : Python) where
  module _ (pointer token : String) (rest : List String)
      (parsed : parse_pointer py pointer ≡ ok (token ∷ rest)) where
    get-tokens : (document : Json) → get py document pointer ≡ get_tokens py document (token ∷ rest)
    unfolding get
    get-tokens document = rw parsed refl

    add-at_parent :
        (document d value : Json)
        → add py document pointer value ≡ ok d
        → at_parent py (add_child py value) document (token ∷ rest) ≡ ok (d, tt)
    unfolding add
    add-at_parent document d value h =
        first_only (at_parent py (add_child py value) document (token ∷ rest)) d (rw parsed at h)

    remove-at_parent :
        (document : Json)
        → remove py document pointer ≡ at_parent py (remove_child py) document (token ∷ rest)
    unfolding remove
    remove-at_parent document = rw parsed refl

    replace-at_parent :
        (document d value : Json)
        → replace py document pointer value ≡ ok d
        → at_parent py (replace_child py value) document (token ∷ rest) ≡ ok (d, tt)
    unfolding replace
    replace-at_parent document d value h =
        first_only (at_parent py (replace_child py value) document (token ∷ rest)) d
          (rw parsed at h)

    at_parent-replace :
        (document d value : Json)
        → at_parent py (replace_child py value) document (token ∷ rest) ≡ ok (d, tt)
        → replace py document pointer value ≡ ok d
    unfolding replace
    at_parent-replace document d value h = rw (parsed, h) refl

  -- A value that `_add` puts at a pointer whose last token is not `-` is what `_get` then finds there.
  pub get-add :
      (document d value : Json) (pointer token : String) (rest : List String)
      → parse_pointer py pointer ≡ ok (token ∷ rest)
      → last_token token rest == "-" ≡ false
      → add py document pointer value ≡ ok d
      → get py d pointer ≡ ok value
  get-add document d value pointer token rest parsed not_end added =
      rw (get-tokens pointer token rest parsed d) (
        get_tokens-at_parent py (add_child py value) value tt document d token rest
          (λ j k done. descend-add_child py value j k (last_token token rest) not_end done)
          (add-at_parent pointer token rest parsed document d value added))

  -- Where the parent is a list and the last token is not `-`, or a dict without that member,
  -- `_remove` after `_add` gives back the document as it was, member order included, and the value.
  pub remove-add :
      (document d value container : Json) (pointer token last : String) (rest : List String)
      → parse_pointer py pointer ≡ ok (token ∷ rest)
      → parent py document (token ∷ rest) ≡ ok (container, last)
      → is_new container last ≡ true
      → add py document pointer value ≡ ok d
      → remove py d pointer ≡ ok (document, value)
  remove-add document d value container pointer token last rest parsed place free added =
      rw (remove-at_parent pointer token rest parsed d) (
        at_parent-at_parent py (add_child py value) (remove_child py) tt value container last
          (λ k done. remove_child-add_child py value container k last free done) document d token
          rest place (add-at_parent pointer token rest parsed document d value added))

  get-remove_tokens :
      (document d value : Json) (pointer : String) (tokens : List String)
      → parse_pointer py pointer ≡ ok tokens
      → remove py document pointer ≡ ok (d, value)
      → get py document pointer ≡ ok value
  unfolding remove get get_tokens
  get-remove_tokens document d value pointer [] parsed h = rw parsed (cc (rw parsed at h))
  get-remove_tokens document d value pointer (token ∷ rest) parsed h =
      rw (get-tokens pointer token rest parsed document) (
        get_tokens-before py (remove_child py) value document d value token rest
          (λ j k done. descend-remove_child py value j k (last_token token rest) done)
          (rw (remove-at_parent pointer token rest parsed document) at h))

  -- The value that `_remove` answers is the one that `_get` finds at the pointer before it.
  pub get-remove :
      (document d value : Json) (pointer : String)
      → remove py document pointer ≡ ok (d, value)
      → get py document pointer ≡ ok value
  unfolding remove
  get-remove document d value pointer h =
      let (tokens, parsed, _) = bind-ok (parse_pointer py pointer) _ (d, value) h in
      get-remove_tokens document d value pointer tokens parsed h

  parent-descend :
      (document old : Json) (token : String) (rest : List String)
      → get_tokens py document (token ∷ rest) ≡ ok old
      → (container : Json) × (last : String) × (parent py document (token ∷ rest)
          ≡ ok (container, last))
        × (descend py container last ≡ ok old)
  unfolding get_tokens parent
  parent-descend document old token [] h =
      let (child, found, same) = bind-ok (descend py document token) _ old h in
      (document, token, refl, cc (found, same))
  parent-descend document old token (next ∷ rest) h =
      let (child, found, within) = bind-ok (descend py document token) _ old h in
      let (container, last, place, there) = parent-descend child old next rest within in
      (container, last, rw found place, there)

  replace-replace_tokens :
      (document d value old : Json) (pointer : String) (tokens : List String)
      → parse_pointer py pointer ≡ ok tokens
      → get py document pointer ≡ ok old
      → replace py document pointer value ≡ ok d
      → replace py d pointer old ≡ ok document
  unfolding replace get get_tokens
  replace-replace_tokens document d value old pointer [] parsed was done =
      rw parsed (cc (rw parsed at was))
  replace-replace_tokens document d value old pointer (token ∷ rest) parsed was done =
      let (container, last, place, there) =
        parent-descend document old token rest
          (rw (get-tokens pointer token rest parsed document) at was) in
      at_parent-replace pointer token rest parsed d document old (
        at_parent-at_parent py (replace_child py value) (replace_child py old) tt tt container last
          (λ k there_done.
            replace_child-replace_child py value old container k last there there_done)
          document d token rest place
          (replace-at_parent pointer token rest parsed document d value done))

  -- A value that `_get` finds at a pointer and that `_replace` overwrites there is put back by a
  -- second `_replace` with it, which leaves the document as it was, member order included.
  pub replace-replace :
      (document d value old : Json) (pointer : String)
      → get py document pointer ≡ ok old
      → replace py document pointer value ≡ ok d
      → replace py d pointer old ≡ ok document
  unfolding get
  replace-replace document d value old pointer was done =
      let (tokens, parsed, _) = bind-ok (parse_pointer py pointer) _ old was in
      replace-replace_tokens document d value old pointer tokens parsed was done
