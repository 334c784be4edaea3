-- ===== src/Tools/JsonPatch/Places.antt =====
-- json_patch_apply.py: one step into a container, and writes at the same place.
use multi_bot_agentic.Prelude.{
  ℕ, zero, suc, ◌+◌, ◌≤◌, ◌<◌, ◌≡◌, refl, sym, ap, ◌∙◌, String, Bool, true, false, none, some, List,
  [], ◌∷◌, length, ◌==◌, eq_iff, eq_refl, string_eq, inl, inr, arith, ◌⊎◌, subst,
}
use multi_bot_agentic.Prelude.Dict.{lookup, insert, erase, lookup-insert}
use multi_bot_agentic.Exn.{ok, ◌>>=◌, Result-cases}
use multi_bot_agentic.Json.{
  Json, Items, Fields, Payload, null, bool, int, str, arr, obj, items_of, to_items, fields_of,
  to_fields, nil, cons, end, field, to_items-items_of, to_fields-fields_of,
}
use multi_bot_agentic.Tools.JsonPatch.Pointer.{Python}
use multi_bot_agentic.Tools.JsonPatch.Operations.{
  item_at, insert_at, set_at, remove_at, get_item, array_index, get_member, descend, put_child,
}

pub fields_of-to_fields : (fs : Fields) → fields_of (to_fields fs) ≡ fs
unfolding fields_of to_fields
fields_of-to_fields end = refl
fields_of-to_fields (field k v fs) = ap (λ d. field k v d) (fields_of-to_fields fs)

pub items_of-to_items : (xs : Items) → items_of (to_items xs) ≡ xs
unfolding items_of to_items
items_of-to_items nil = refl
items_of-to_items (cons x xs) = ap (λ l. cons x l) (items_of-to_items xs)

module _ {A : Type 0} where
  pub item_at-insert_at :
      (i : ℕ) (y : A) (xs : List A) → i ≤ length xs → item_at (insert_at i y xs) i ≡ some y
  unfolding item_at insert_at
  item_at-insert_at zero y xs h = refl
  item_at-insert_at (suc i) y [] h = absurd (omega arith)
  item_at-insert_at (suc i) y (x ∷ xs) h = item_at-insert_at i y xs (omega arith)

  pub length-insert_at :
      (i : ℕ) (y : A) (xs : List A) → i ≤ length xs → length (insert_at i y xs) ≡ length xs + 1
  unfolding insert_at
  length-insert_at zero y xs h = omega arith
  length-insert_at (suc i) y [] h = absurd (omega arith)
  length-insert_at (suc i) y (x ∷ xs) h = omega (arith, length-insert_at i y xs)

  pub remove_at-insert_at :
      (i : ℕ) (y : A) (xs : List A) → i ≤ length xs → remove_at i (insert_at i y xs) ≡ xs
  unfolding remove_at insert_at
  remove_at-insert_at zero y xs h = refl
  remove_at-insert_at (suc i) y [] h = absurd (omega arith)
  remove_at-insert_at (suc i) y (x ∷ xs) h =
      ap (λ l. x ∷ l) (remove_at-insert_at i y xs (omega arith))

  pub item_at-set_at :
      (i : ℕ) (y : A) (xs : List A) → i < length xs → item_at (set_at i y xs) i ≡ some y
  unfolding item_at set_at
  item_at-set_at i y [] h = absurd (omega arith)
  item_at-set_at zero y (x ∷ xs) h = refl
  item_at-set_at (suc i) y (x ∷ xs) h = item_at-set_at i y xs (omega arith)

  pub length-set_at : (i : ℕ) (y : A) (xs : List A) → length (set_at i y xs) ≡ length xs
  unfolding set_at
  length-set_at i y [] = refl
  length-set_at zero y (x ∷ xs) = refl
  length-set_at (suc i) y (x ∷ xs) = omega (arith, length-set_at i y xs)

  pub set_at-item_at :
      (i : ℕ) (x y : A) (xs : List A) → item_at xs i ≡ some x → set_at i x (set_at i y xs) ≡ xs
  unfolding item_at set_at
  set_at-item_at i x y [] h = refl
  set_at-item_at zero x y (z ∷ xs) h = ground (arith, h)
  set_at-item_at (suc i) x y (z ∷ xs) h = ap (λ l. z ∷ l) (set_at-item_at i x y xs h)

-- A member that is written back as it was.
pub insert-lookup :
    (k : String) (v w : Json) (d : Payload) → lookup k d ≡ some v → insert k v (insert k w d) ≡ d
unfolding lookup insert
insert-lookup k v w [] h = cc h
insert-lookup k v w ((j, x) ∷ d) h = ground (arith, h, eq_iff j k, insert-lookup k v w d)

erase-absent : (k : String) (d : Payload) → lookup k d ≡ none → erase k d ≡ d
unfolding lookup erase
erase-absent k [] h = refl
erase-absent k ((j, x) ∷ d) h = ground (arith, h, eq_iff j k, erase-absent k d)

pub erase-insert :
    (k : String) (v : Json) (d : Payload) → lookup k d ≡ none → erase k (insert k v d) ≡ d
unfolding lookup insert erase
erase-insert k v [] h = ground (arith, eq_refl k)
erase-insert k v ((j, x) ∷ d) h = ground (arith, h, eq_iff j k, erase-insert k v d)

module _ (py : Python) where
  -- An index that is answered is in bounds.
  pub array_index-lt :
      (token : String) (size i : ℕ) → array_index py token size false ≡ ok i → i < size
  unfolding array_index
  array_index-lt token size i h = ground (arith, h)

  pub array_index-le :
      (token : String) (size i : ℕ) → array_index py token size true ≡ ok i → i ≤ size
  unfolding array_index
  array_index-le token size i h = ground (arith, h)

  -- An index at which one can insert is one of the longer list.
  pub array_index-longer :
      (token : String) (size : ℕ)
      → (token == "-") ≡ false
      → array_index py token size true ≡ array_index py token (size + 1) false
  unfolding array_index
  array_index-longer token size h = rw h refl

  pub descend-arr :
      (xs : List Json) (token : String) (i : ℕ)
      → array_index py token (length xs) false ≡ ok i
      → descend py (arr (items_of xs)) token ≡ get_item xs i
  unfolding descend
  descend-arr xs token i h = rw (to_items-items_of xs, h) refl

  pub descend-obj :
      (d : Payload) (token : String) → descend py (obj (fields_of d)) token ≡ get_member py d token
  unfolding descend
  descend-obj d token = rw (to_fields-fields_of d) refl

  pub found_member :
      (d : Payload) (token : String) (v : Json)
      → get_member py d token ≡ ok v
      → lookup token d ≡ some v
  unfolding get_member
  found_member d token v h = ground (arith, h)

  pub found_item :
      (xs : List Json) (token : String) (allow_end : Bool) (v : Json)
      → (array_index py token (length xs) allow_end >>= λ i. get_item xs i) ≡ ok v
      → (i : ℕ) × (array_index py token (length xs) allow_end ≡ ok i) × (item_at xs i ≡ some v)
  unfolding get_item
  found_item xs token allow_end v h =
      elim (Result-cases (array_index py token (length xs) allow_end)) [
        | inl (e, bad) ↦ cc (rw bad at h)
        | inr (i, good) ↦ (i, good, ground (arith, rw good at h))
      ]

  pub get_member-found :
      (d : Payload) (token : String) (v : Json)
      → lookup token d ≡ some v
      → get_member py d token ≡ ok v
  unfolding get_member
  get_member-found d token v h = rw (h, get_member) refl

  pub get_item-found :
      (xs : List Json) (i : ℕ) (v : Json) → item_at xs i ≡ some v → get_item xs i ≡ ok v
  unfolding get_item
  get_item-found xs i v h = rw (h, get_item) refl

  pub put_child-arr :
      (xs : List Json) (token : String) (i : ℕ) (new : Json)
      → array_index py token (length xs) false ≡ ok i
      → put_child py (arr (items_of xs)) token new ≡ arr (items_of (set_at i new xs))
  unfolding put_child
  put_child-arr xs token i new h =
      rw (to_items-items_of xs, h, put_child)
        (ap (λ l. arr (items_of (set_at i new l))) (to_items-items_of xs))

  put_child-obj :
      (d : Payload) (token : String) (new : Json)
      → put_child py (obj (fields_of d)) token new ≡ obj (fields_of (insert token new d))
  unfolding put_child
  put_child-obj d token new = rw (to_fields-fields_of d) refl

  pub written : (d : Payload) (token : String) (v : Json) → lookup token (insert token v d) ≡ some v
  written d token v = ground (arith, lookup-insert token token v d, eq_refl token)

  pub read_arr :
      (xs : List Json) (token : String) (i : ℕ) (child new : Json)
      → array_index py token (length xs) false ≡ ok i
      → descend py (arr (items_of (set_at i new xs))) token ≡ ok new
  read_arr xs token i child new h =
      descend-arr (set_at i new xs) token i
        (subst (λ n. array_index py token n false ≡ ok i) (sym (length-set_at i new xs)) h)
      ∙ get_item-found (set_at i new xs) i new
          (item_at-set_at i new xs (array_index-lt token (length xs) i h))

  pub read_obj :
      (d : Payload) (token : String) (new : Json)
      → descend py (obj (fields_of (insert token new d))) token ≡ ok new
  read_obj d token new =
      descend-obj (insert token new d) token
      ∙ get_member-found (insert token new d) token new (written d token new)

  -- A child that is found is one of a dict or of a list.
  HasChild : Json → String → Json → Type 0
  HasChild document token child =
      ((d : Payload) × (document ≡ obj (fields_of d)) × (lookup token d ≡ some child))
      ⊎ ((xs : List Json) × (document ≡ arr (items_of xs))
          × (i : ℕ) × (array_index py token (length xs) false ≡ ok i)
          × (item_at xs i ≡ some child))

  descend-HasChild :
      (document : Json) (token : String) (child : Json)
      → descend py document token ≡ ok child
      → HasChild document token child
  unfolding descend HasChild
  descend-HasChild (obj fs) token child h = inl (
    to_fields fs,
    ap obj (sym (fields_of-to_fields fs)),
    found_member (to_fields fs) token child h,
  )
  descend-HasChild (arr xs) token child h =
      let (i, good, found) = found_item (to_items xs) token false child h in
      inr (to_items xs, ap arr (sym (items_of-to_items xs)), i, good, found)
  descend-HasChild null token child h = cc h
  descend-HasChild (bool b) token child h = cc h
  descend-HasChild (int n) token child h = cc h
  descend-HasChild (str s) token child h = cc h

  -- What is written at a child is read there.
  pub descend-put_child :
      (document child new : Json) (token : String)
      → descend py document token ≡ ok child
      → descend py (put_child py document token new) token ≡ ok new
  unfolding HasChild
  descend-put_child document child new token h = elim (descend-HasChild document token child h) [
    | inl (d, same, found) ↦ rw (same, put_child-obj d token new) (read_obj d token new)
    | inr (xs, same, i, good, found) ↦
        rw (same, put_child-arr xs token i new good) (read_arr xs token i child new good)
  ]

  -- A child that is written back as it was.
  pub put_child-put_child :
      (document child new : Json) (token : String)
      → descend py document token ≡ ok child
      → put_child py (put_child py document token new) token child ≡ document
  unfolding HasChild
  put_child-put_child document child new token h = elim (descend-HasChild document token child h) [
    | inl (d, same, found) ↦
        rw
          (
            same,
            put_child-obj d token new,
            put_child-obj (insert token new d) token child,
            insert-lookup token child new d found,
          )
          refl
    | inr (xs, same, i, good, found) ↦
        rw (same, put_child-arr xs token i new good)
          (put_child-arr (set_at i new xs) token i child
              (subst (λ n. array_index py token n false ≡ ok i) (sym (length-set_at i new xs)) good)
            ∙ ap (λ l. arr (items_of l)) (set_at-item_at i child new xs found))
  ]
