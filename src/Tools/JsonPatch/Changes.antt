-- ===== src/Tools/JsonPatch/Changes.antt =====
-- json_patch_apply.py: `_add`, `_remove` and `_replace` at the parent, container by container.
use multi_bot_agentic.Prelude.{
  ℕ, ◌≡◌, refl, sym, ap, ◌∙◌, String, Bool, true, false, some, List, length, not, ◌==◌, string_eq,
  arith, subst,
}
use multi_bot_agentic.Prelude.Dict.{lookup, has_key, insert, erase}
use multi_bot_agentic.Exn.{ok, bind-ok}
use multi_bot_agentic.Json.{
  Json, Items, Payload, null, bool, int, str, arr, obj, items_of, to_items, fields_of, to_fields,
  to_items-items_of, to_fields-fields_of,
}
use multi_bot_agentic.Tools.JsonPatch.Pointer.{Python}
use multi_bot_agentic.Tools.JsonPatch.Operations.{
  item_at, insert_at, remove_at, get_item, array_index, get_member, descend, put_child, add_child,
  remove_child, replace_child,
}
use multi_bot_agentic.Tools.JsonPatch.Places.{
  array_index-le, array_index-longer, descend-arr, get_item-found, get_member-found, found_item,
  item_at-insert_at, length-insert_at, remove_at-insert_at, written, read_obj, erase-insert,
  fields_of-to_fields, items_of-to_items, descend-put_child, put_child-put_child,
}

-- A place in a container at which an added value can be taken out again.
unfoldable pub is_new : Json → String → Bool
unfolding lookup to_fields
is_new (obj fs) token = not (has_key token (to_fields fs))
is_new (arr xs) token = not (token == "-")
is_new j token = true

module _ (py : Python) where
  -- The changes at the parent, container by container.
  add_child-arr :
      (value k : Json) (xs : Items) (token : String)
      → add_child py value (arr xs) token ≡ ok (k, tt)
      → (i : ℕ) × (array_index py token (length (to_items xs)) true ≡ ok i)
        × (k ≡ arr (items_of (insert_at i value (to_items xs))))
  unfolding add_child
  add_child-arr value k xs token added =
      let (i, good, same) =
        bind-ok (array_index py token (length (to_items xs)) true) _ (k, tt) added in
      (i, good, cc same)

  remove_child-arr :
      (xs : List Json) (token : String) (i : ℕ) (value : Json)
      → array_index py token (length xs) false ≡ ok i
      → item_at xs i ≡ some value
      → remove_child py (arr (items_of xs)) token ≡ ok (arr (items_of (remove_at i xs)), value)
  unfolding remove_child
  remove_child-arr xs token i value good found =
      rw (to_items-items_of xs, good, get_item-found py xs i value found, remove_child) refl

  remove_child-obj :
      (d : Payload) (token : String) (value : Json)
      → lookup token d ≡ some value
      → remove_child py (obj (fields_of d)) token ≡ ok (obj (fields_of (erase token d)), value)
  unfolding remove_child
  remove_child-obj d token value found =
      rw (to_fields-fields_of d, get_member-found py d token value found, remove_child) refl

  -- An index for adding is one of the list that is left.
  index_after :
      (xs : List Json) (token : String) (i : ℕ) (value : Json)
      → token == "-" ≡ false
      → array_index py token (length xs) true ≡ ok i
      → array_index py token (length (insert_at i value xs)) false ≡ ok i
  index_after xs token i value h good =
      rw (length-insert_at i value xs (array_index-le py token (length xs) i good))
        (sym (array_index-longer py token (length xs) h) ∙ good)

  pub descend-add_child :
      (value j k : Json) (token : String)
      → token == "-" ≡ false
      → add_child py value j token ≡ ok (k, tt)
      → descend py k token ≡ ok value
  unfolding add_child
  descend-add_child value (obj fs) k token h added =
      subst (λ x. descend py x token ≡ ok value) (cc added) (read_obj py (to_fields fs) token value)
  descend-add_child value (arr xs) k token h added =
      let (i, good, same) = add_child-arr value k xs token added in
      rw same (
        descend-arr py (insert_at i value (to_items xs)) token i
          (index_after (to_items xs) token i value h good)
        ∙ get_item-found py (insert_at i value (to_items xs)) i value (
            item_at-insert_at i value (to_items xs)
              (array_index-le py token (length (to_items xs)) i good)))
  descend-add_child value null k token h added = cc added
  descend-add_child value (bool b) k token h added = cc added
  descend-add_child value (int n) k token h added = cc added
  descend-add_child value (str s) k token h added = cc added

  pub remove_child-add_child :
      (value j k : Json) (token : String)
      → is_new j token ≡ true
      → add_child py value j token ≡ ok (k, tt)
      → remove_child py k token ≡ ok (j, value)
  unfolding add_child is_new
  remove_child-add_child value (obj fs) k token h added =
      subst (λ x. remove_child py x token ≡ ok (obj fs, value)) (cc added)
        (remove_child-obj (insert token value (to_fields fs)) token value
            (written py (to_fields fs) token value)
          ∙ ap (λ x. ok (obj x, value))
              (ap fields_of (erase-insert token value (to_fields fs) (ground (arith, h)))
                ∙ fields_of-to_fields fs))
  remove_child-add_child value (arr xs) k token h added =
      let (i, good, same) = add_child-arr value k xs token added in
      let le = array_index-le py token (length (to_items xs)) i good in
      rw same (
        remove_child-arr (insert_at i value (to_items xs)) token i value
          (index_after (to_items xs) token i value (ground (arith, h)) good)
          (item_at-insert_at i value (to_items xs) le)
        ∙ ap (λ x. ok (arr x, value))
            (ap items_of (remove_at-insert_at i value (to_items xs) le) ∙ items_of-to_items xs))
  remove_child-add_child value null k token h added = cc added
  remove_child-add_child value (bool b) k token h added = cc added
  remove_child-add_child value (int n) k token h added = cc added
  remove_child-add_child value (str s) k token h added = cc added

  replace_child-put_child :
      (value j k : Json) (token : String)
      → replace_child py value j token ≡ ok (k, tt)
      → k ≡ put_child py j token value
  unfolding replace_child put_child
  replace_child-put_child value (obj fs) k token replaced = cc replaced
  replace_child-put_child value (arr xs) k token replaced =
      let (i, good, same) =
        bind-ok (array_index py token (length (to_items xs)) false) _ (k, tt) replaced in
      rw (good, put_child) (cc same)
  replace_child-put_child value null k token replaced = cc replaced
  replace_child-put_child value (bool b) k token replaced = cc replaced
  replace_child-put_child value (int n) k token replaced = cc replaced
  replace_child-put_child value (str s) k token replaced = cc replaced

  put_child-replace_child :
      (value j child : Json) (token : String)
      → descend py j token ≡ ok child
      → replace_child py value j token ≡ ok (put_child py j token value, tt)
  unfolding replace_child put_child descend
  put_child-replace_child value (obj fs) child token found = refl
  put_child-replace_child value (arr xs) child token found =
      let (i, good, item) = found_item py (to_items xs) token false child found in
      rw (good, put_child, replace_child) refl
  put_child-replace_child value null child token found = cc found
  put_child-replace_child value (bool b) child token found = cc found
  put_child-replace_child value (int n) child token found = cc found
  put_child-replace_child value (str s) child token found = cc found

  pub replace_child-replace_child :
      (value old j k : Json) (token : String)
      → descend py j token ≡ ok old
      → replace_child py value j token ≡ ok (k, tt)
      → replace_child py old k token ≡ ok (j, tt)
  replace_child-replace_child value old j k token found replaced =
      rw (replace_child-put_child value j k token replaced) (
        put_child-replace_child old (put_child py j token value) value token
          (descend-put_child py j old value token found)
        ∙ ap (λ x. ok (x, tt)) (put_child-put_child py j old value token found))

  pub descend-remove_child :
      (value j k : Json) (token : String)
      → remove_child py j token ≡ ok (k, value)
      → descend py j token ≡ ok value
  unfolding remove_child descend
  descend-remove_child value (obj fs) k token h =
      let (v, found, same) = bind-ok (get_member py (to_fields fs) token) _ (k, value) h in
      cc (found, same)
  descend-remove_child value (arr xs) k token h =
      let (i, good, rest) =
        bind-ok (array_index py token (length (to_items xs)) false) _ (k, value) h in
      let (v, found, same) = bind-ok (get_item (to_items xs) i) _ (k, value) rest in
      rw good (cc (found, same))
  descend-remove_child value null k token h = cc h
  descend-remove_child value (bool b) k token h = cc h
  descend-remove_child value (int n) k token h = cc h
  descend-remove_child value (str s) k token h = cc h
