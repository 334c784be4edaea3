-- ===== src/Json.antt =====
-- JSON values: what the event log stores and reads back (event_log.py), and Python's conversions of
-- them. Floats are left out: no payload of the runtime holds one outside a tool's own metadata.
use multi_bot_agentic.Prelude.{ℕ, suc, ◌≡◌, refl, ap, String, Bool, true, false, List, [], ◌∷◌}
use multi_bot_agentic.Prelude.Dict.{Dict}
use multi_bot_agentic.Prelude.Text.{show_nat}
use multi_bot_agentic.Exn.{Result, ok, err, type_error}
use Prim.Native.String.{◌++◌}

-- A Python `int`; `negsuc n` is -(n + 1).
pub data ℤ : Type 0 where
  pos : ℕ → ℤ
  negsuc : ℕ → ℤ

mutual
  pub data Json : Type 0 where
    null : Json
    bool : Bool → Json
    int : ℤ → Json
    str : String → Json
    arr : Items → Json
    obj : Fields → Json

  pub data Items : Type 0 where
    nil : Items
    cons : Json → Items → Items

  pub data Fields : Type 0 where
    end : Fields
    field : String → Json → Fields → Fields

-- A `dict[str, Any]`.
abbrev pub Payload : Type 0
Payload = Dict String Json

unfoldable pub items_of : List Json → Items
items_of [] = nil
items_of (x ∷ xs) = cons x (items_of xs)

unfoldable pub to_items : Items → List Json
to_items nil = []
to_items (cons x xs) = x ∷ to_items xs

unfoldable pub fields_of : Payload → Fields
fields_of [] = end
fields_of ((k, v) ∷ d) = field k v (fields_of d)

unfoldable pub to_fields : Fields → Payload
to_fields end = []
to_fields (field k v d) = (k, v) ∷ to_fields d

pub to_items-items_of : (xs : List Json) → to_items (items_of xs) ≡ xs
unfolding to_items items_of
to_items-items_of [] = refl
to_items-items_of (x ∷ xs) = ap (λ l. x ∷ l) (to_items-items_of xs)

pub to_fields-fields_of : (d : Payload) → to_fields (fields_of d) ≡ d
unfolding to_fields fields_of
to_fields-fields_of [] = refl
to_fields-fields_of ((k, v) ∷ d) = ap (λ l. (k, v) ∷ l) (to_fields-fields_of d)

-- Conversions of values that the runtime itself never writes where it makes them: `str` of a list
-- or dict, `int` of a text, `dict` of what is no dict. The model takes them as arguments.
pub record Conversions : Type 0 where
  pub show_container : Json → String
  pub int_of_text : String → Result ℤ
  pub dict_of_other : Json → Result Payload

unfoldable pub show_int : ℤ → String
show_int (pos n) = show_nat n
show_int (negsuc n) = "-" ++ show_nat (suc n)

module _ (py : Conversions) where
  -- `str(value)`
  unfoldable pub to_str : Json → String
  unfolding show_int
  to_str null = "None"
  to_str (bool true) = "True"
  to_str (bool false) = "False"
  to_str (int n) = show_int n
  to_str (str s) = s
  to_str (arr xs) = py.show_container (arr xs)
  to_str (obj d) = py.show_container (obj d)

  -- `int(value)`
  unfoldable pub to_int : Json → Result ℤ
  to_int null = err (type_error "int() argument must be a string or a number, not 'NoneType'")
  to_int (bool true) = ok (pos 1)
  to_int (bool false) = ok (pos 0)
  to_int (int n) = ok n
  to_int (str s) = py.int_of_text s
  to_int (arr xs) = err (type_error "int() argument must be a string or a number, not 'list'")
  to_int (obj d) = err (type_error "int() argument must be a string or a number, not 'dict'")

  -- `dict(value)`
  unfoldable pub to_dict : Json → Result Payload
  to_dict (obj d) = ok (to_fields d)
  to_dict j = py.dict_of_other j
