-- ===== src/Tools/JsonPatch/Values.antt =====
-- json_patch_apply.py, `_json_equal`, and the names of types in messages.
use multi_bot_agentic.Prelude.{String, Bool, true, false, none, some, ◌&&◌, ◌==◌, nat_eq, string_eq}
use multi_bot_agentic.Prelude.Dict.{lookup, has_key}
use multi_bot_agentic.Json.{
  ℤ, pos, negsuc, Json, Items, Fields, Payload, null, bool, int, str, arr, obj, nil, cons, end,
  field, to_fields,
}

-- `type(value).__name__`
unfoldable pub type_name : Json → String
type_name null = "NoneType"
type_name (bool b) = "bool"
type_name (int n) = "int"
type_name (str s) = "str"
type_name (arr xs) = "list"
type_name (obj d) = "dict"

abbrev pub same_bool : Bool → Bool → Bool
same_bool true b = b
same_bool false true = false
same_bool false false = true

abbrev pub same_int : ℤ → ℤ → Bool
same_int (pos m) (pos n) = m == n
same_int (negsuc m) (negsuc n) = m == n
same_int _ _ = false

-- Each key of the first is one of the second.
unfoldable pub keys_in : Fields → Payload → Bool
unfolding lookup
keys_in end d = true
keys_in (field k v fs) d = has_key k d && keys_in fs d

mutual
  unfolding keys_in to_fields lookup

  pub json_equal : Json → Json → Bool
  json_equal null null = true
  json_equal (bool a) (bool b) = same_bool a b
  json_equal (int m) (int n) = same_int m n
  json_equal (str s) (str t) = s == t
  json_equal (arr xs) (arr ys) = items_equal xs ys
  json_equal (obj fs) (obj gs) =
      keys_in fs (to_fields gs) && keys_in gs (to_fields fs) && fields_equal fs (to_fields gs)
  json_equal _ _ = false

  pub items_equal : Items → Items → Bool
  items_equal nil nil = true
  items_equal (cons x xs) (cons y ys) = json_equal x y && items_equal xs ys
  items_equal _ _ = false

  -- `all(_json_equal(left[key], right[key]) for key in left)`
  pub fields_equal : Fields → Payload → Bool
  fields_equal end d = true
  fields_equal (field k v fs) d =
      (elim (lookup k d) [ none ↦ false | some w ↦ json_equal v w ]) && fields_equal fs d
