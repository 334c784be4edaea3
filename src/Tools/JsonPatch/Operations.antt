-- ===== src/Tools/JsonPatch/Operations.antt =====
-- json_patch_apply.py: the operations, and the loop of `execute` over them.
use Prim.Native.String.{◌++◌ as join, count}
use multi_bot_agentic.Prelude.{
  ℕ, zero, suc, ◌+◌, String, Bool, true, false, Option, none, some, List, [], ◌∷◌, length, ltb, leb,
  contains, not, ◌&&◌, ◌==◌, string_eq, if◌then◌else◌,
}
use multi_bot_agentic.Prelude.Text.{starts_with, show_nat}
use multi_bot_agentic.Prelude.Dict.{lookup, insert, erase}
use multi_bot_agentic.Exn.{Exn, Result, ok, err, ◌>>=◌, ◌>>◌, raise_if}
use multi_bot_agentic.Json.{
  Json, Payload, null, str, arr, obj, items_of, to_items, fields_of, to_fields,
}
use multi_bot_agentic.Tools.JsonPatch.Pointer.{Python, patch_error, parse_pointer}
use multi_bot_agentic.Tools.JsonPatch.Values.{json_equal, type_name}

-- Python's `xs[i]`, `xs.insert(i, x)`, `xs[i] = x` and `xs.pop(i)`, for an index in bounds.
module _ {A : Type 0} where
  unfoldable pub item_at : List A → ℕ → Option A
  item_at [] i = none
  item_at (x ∷ xs) zero = some x
  item_at (x ∷ xs) (suc i) = item_at xs i

  unfoldable pub insert_at : ℕ → A → List A → List A
  insert_at zero y xs = y ∷ xs
  insert_at (suc i) y [] = y ∷ []
  insert_at (suc i) y (x ∷ xs) = x ∷ insert_at i y xs

  unfoldable pub set_at : ℕ → A → List A → List A
  set_at i y [] = []
  set_at zero y (x ∷ xs) = y ∷ xs
  set_at (suc i) y (x ∷ xs) = x ∷ set_at i y xs

  unfoldable pub remove_at : ℕ → List A → List A
  remove_at i [] = []
  remove_at zero (x ∷ xs) = xs
  remove_at (suc i) (x ∷ xs) = x ∷ remove_at i xs

-- `container[index]`
unfoldable pub get_item : List Json → ℕ → Result Json
unfolding item_at
get_item xs i = elim (item_at xs i) [ none ↦ err (Exn.other_error "IndexError") | some x ↦ ok x ]

module _ (py : Python) where
  abbrev missing_member : String → Exn
  missing_member token = patch_error (join "object member not found: " (py.repr token))

  -- A text of decimal digits without a leading zero.
  abbrev pub is_index : String → Bool
  is_index token = py.is_decimal token && not (ltb 1 (count token) && starts_with token "0")

  abbrev bad_index : String → Exn
  bad_index token = patch_error (join "invalid array index: " (py.repr token))

  -- The end of `_array_index`, once the number is read; `bound` is the first index that is too large.
  abbrev pub checked_index : String → ℕ → Result ℕ → Result ℕ
  checked_index token bound (err e) = err (bad_index token)
  checked_index token bound (ok index) =
      if leb bound index
      then err (patch_error (join "array index out of bounds: " (show_nat index)))
      else ok index

  unfoldable pub array_index : String → ℕ → Bool → Result ℕ
  array_index token size allow_end =
      if token == "-"
      then (if allow_end
          then ok size
          else err (patch_error "array index '-' is only valid for add"))
      else if is_index token
      then checked_index token (if allow_end then size + 1 else size) (py.number_of token)
      else err (bad_index token)

  -- `container[token]` for a dict.
  unfoldable pub get_member : Payload → String → Result Json
  unfolding lookup
  get_member d token = elim (lookup token d) [ none ↦ err (missing_member token) | some v ↦ ok v ]

  unfoldable pub descend : Json → String → Result Json
  unfolding get_member array_index get_item to_fields to_items
  descend (obj fs) token = get_member (to_fields fs) token
  descend (arr xs) token =
      array_index token (length (to_items xs)) false >>= λ i. get_item (to_items xs) i
  descend j token = err (patch_error (join "cannot traverse into " (type_name j)))

  unfoldable pub get_tokens : Json → List String → Result Json
  unfolding descend
  get_tokens current [] = ok current
  get_tokens current (token ∷ rest) = descend current token >>= λ child. get_tokens child rest

  -- `_get`
  unfoldable pub get : Json → String → Result Json
  unfolding get_tokens parse_pointer
  get document pointer = parse_pointer py pointer >>= λ tokens. get_tokens document tokens

  -- `_parent`
  unfoldable pub parent : Json → List String → Result (Json × String)
  unfolding descend
  parent document [] = err (patch_error "root path has no parent")
  parent document (token ∷ []) = ok (document, token)
  parent document (token ∷ next ∷ rest) =
      descend document token >>= λ child. parent child (next ∷ rest)

  -- The container with the child at a token that `_descend` has found, written in place.
  unfoldable pub put_child : Json → String → Json → Json
  unfolding insert set_at fields_of to_fields items_of to_items array_index
  put_child (obj fs) token child = obj (fields_of (insert token child (to_fields fs)))
  put_child (arr xs) token child = elim (array_index token (length (to_items xs)) false) [
    | ok i ↦ arr (items_of (set_at i child (to_items xs)))
    | err e ↦ arr xs
  ]
  put_child j token child = j

  -- What is done at the parent that `_parent` finds for the tokens, and the document that this leaves.
  unfoldable pub at_parent :
      {A : Type 0} → (Json → String → Result (Json × A)) → Json → List String → Result (Json × A)
  unfolding descend put_child
  at_parent change document [] = err (patch_error "root path has no parent")
  at_parent change document (token ∷ []) = change document token
  at_parent change document (token ∷ next ∷ rest) = descend document token >>= λ child.
      at_parent change child (next ∷ rest) >>= λ changed.
      ok (put_child document token changed.0, changed.1)

  -- `_add` at the parent.
  unfoldable pub add_child : Json → Json → String → Result (Json × Unit {0})
  unfolding array_index insert insert_at fields_of to_fields items_of to_items
  add_child value (obj fs) token = ok (obj (fields_of (insert token value (to_fields fs))), tt)
  add_child value (arr xs) token = array_index token (length (to_items xs)) true >>= λ i.
      ok (arr (items_of (insert_at i value (to_items xs))), tt)
  add_child value j token = err (patch_error (join "add parent is not a container: " (type_name j)))

  unfoldable pub add : Json → String → Json → Result Json
  unfolding parse_pointer at_parent add_child
  add document pointer value = parse_pointer py pointer >>= λ tokens. elim tokens [
    | [] ↦ ok value
    | t ∷ ts ↦ at_parent (add_child value) document (t ∷ ts) >>= λ done. ok done.0
  ]

  -- `_remove` at the parent, with the value that is removed.
  unfoldable pub remove_child : Json → String → Result (Json × Json)
  unfolding array_index get_member get_item erase remove_at fields_of to_fields items_of to_items
  remove_child (obj fs) token =
      get_member (to_fields fs) token >>= λ v. ok (obj (fields_of (erase token (to_fields fs))), v)
  remove_child (arr xs) token = array_index token (length (to_items xs)) false >>= λ i.
      get_item (to_items xs) i >>= λ v. ok (arr (items_of (remove_at i (to_items xs))), v)
  remove_child j token = err (patch_error (join "remove parent is not a container: " (type_name j)))

  -- The document that is left, which is `null` for the root, and the value.
  unfoldable pub remove : Json → String → Result (Json × Json)
  unfolding parse_pointer at_parent remove_child
  remove document pointer = parse_pointer py pointer >>= λ tokens. elim tokens [
    | [] ↦ ok (null, document)
    | t ∷ ts ↦ at_parent remove_child document (t ∷ ts)
  ]

  -- `_replace` at the parent.
  unfoldable pub replace_child : Json → Json → String → Result (Json × Unit {0})
  unfolding array_index insert set_at fields_of to_fields items_of to_items
  replace_child value (obj fs) token = ok (obj (fields_of (insert token value (to_fields fs))), tt)
  replace_child value (arr xs) token = array_index token (length (to_items xs)) false >>= λ i.
      ok (arr (items_of (set_at i value (to_items xs))), tt)
  replace_child value j token =
      err (patch_error (join "replace parent is not a container: " (type_name j)))

  unfoldable pub replace : Json → String → Json → Result Json
  unfolding parse_pointer at_parent replace_child
  replace document pointer value = parse_pointer py pointer >>= λ tokens. elim tokens [
    | [] ↦ ok value
    | t ∷ ts ↦ at_parent (replace_child value) document (t ∷ ts) >>= λ done. ok done.0
  ]

  -- `_required_member` and `_required_string`.
  unfoldable pub required_member : Payload → String → Result Json
  unfolding lookup
  required_member operation member = elim (lookup member operation) [
    | none ↦ err (patch_error (join "missing required member " (py.repr member)))
    | some v ↦ ok v
  ]

  unfoldable pub required_string : Payload → String → Result String
  unfolding required_member
  required_string operation member = required_member operation member >>= λ value. elim value [
    | str s ↦ ok s
    | _ ↦ err (patch_error (join (py.repr member) " must be a string"))
  ]

  -- `destination[: len(source)] == source`, for a destination that is longer.
  unfoldable pub is_inside : List String → List String → Bool
  is_inside [] [] = false
  is_inside [] (d ∷ destination) = true
  is_inside (s ∷ source) [] = false
  is_inside (s ∷ source) (d ∷ destination) = s == d && is_inside source destination

  unfoldable pub apply_move : Json → String → String → Result Json
  unfolding parse_pointer is_inside remove add
  apply_move document source path = parse_pointer py source >>= λ source_tokens.
      parse_pointer py path >>= λ destination_tokens.
      raise_if (is_inside source_tokens destination_tokens)
        (patch_error "move path cannot be a child of from")
      >> (remove document source >>= λ taken. add taken.0 path taken.1)

  unfoldable pub apply_test : Json → String → Json → Result Json
  unfolding get
  apply_test document path expected = get document path >>= λ actual.
      if json_equal actual expected
      then ok document
      else err (patch_error (join "test did not match value at path " (py.repr path)))

  -- The branches of `_apply_operation`, by the name of the operation, which is one of the six.
  unfoldable pub apply_named : String → String → Json → Payload → Result Json
  unfolding required_member required_string add remove replace get apply_move apply_test
  apply_named op path document operation =
      if op == "add"
      then (required_member operation "value" >>= λ value. add document path value)
      else if op == "remove"
      then (remove document path >>= λ done. ok done.0)
      else if op == "replace"
      then (get document path >>= λ _.
          required_member operation "value" >>= λ value. replace document path value)
      else if op == "copy"
      then (required_string operation "from" >>= λ source.
          get document source >>= λ value. add document path value)
      else if op == "move"
      then (required_string operation "from" >>= λ source. apply_move document source path)
      else (required_member operation "value" >>= λ expected. apply_test document path expected)

  abbrev operations : List String
  operations = "add" ∷ "copy" ∷ "move" ∷ "remove" ∷ "replace" ∷ "test" ∷ []

  -- `operation.get("op")`, if it is one of the six.
  unfoldable pub known_op : Payload → Option String
  unfolding lookup
  known_op operation = elim (lookup "op" operation) [
    | some (str op) ↦ if contains op operations then some op else none
    | _ ↦ none
  ]

  unfoldable pub apply_operation : Json → Payload → Result Json
  unfolding known_op required_string apply_named
  apply_operation document operation = elim (known_op operation) [
    | none ↦ err (patch_error "op must be one of add, copy, move, remove, replace, test")
    | some op ↦ required_string operation "path" >>= λ path. apply_named op path document operation
  ]
