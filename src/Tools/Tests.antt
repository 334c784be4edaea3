-- ===== src/Tools/Tests.antt =====
-- Concrete calls of the tools.
use Prim.Native.Char.{code}
use Prim.Native.String.{String, ◌++◌ as join}
use multi_bot_agentic.Prelude.{
  ℕ, ◌+◌, ◌*◌, ◌-◌, ◌≡◌, refl, Bool, true, false, [], ◌∷◌, leb, ◌&&◌, ◌==◌, string_eq,
  if◌then◌else◌,
}
use multi_bot_agentic.Exn.{ok, err, type_error}
use multi_bot_agentic.Json.{
  pos, Json, Items, bool, int, str, arr, obj, nil, cons, end, field, Conversions,
}
use multi_bot_agentic.Models.{ToolInvocation}
use multi_bot_agentic.Tools.JsonPatch.Pointer.{Python, parse_pointer}
use multi_bot_agentic.Tools.JsonPatch.Operations.{parent, add, remove, replace, get}
use multi_bot_agentic.Tools.JsonPatch.Writes.{last_token}
use multi_bot_agentic.Tools.JsonPatch.Changes.{is_new}
use multi_bot_agentic.Tools.JsonPatch.Effects.{get-add, remove-add, replace-replace}
use multi_bot_agentic.Tools.JsonPatch.Printing.{pointer_of, parse_pointer-pointer_of}
use multi_bot_agentic.Tools.JsonPatch.Execute.{loaded, load_error, Codec, execute}

-- `str.isdecimal` and `int` for ASCII texts.
unfoldable are_digits : String → Bool
are_digits String.[] = true
are_digits (String.◌∷◌ c s) = leb b'0' (code c) && leb (code c) b'9' && are_digits s

unfoldable read_digits : ℕ → String → ℕ
read_digits n String.[] = n
read_digits n (String.◌∷◌ c s) = read_digits (n * 10 + (code c - b'0')) s

abbrev ascii : Python
ascii = record {
  repr = λ s. join "'" (join s "'");
  is_decimal = λ s. if s == "" then false else are_digits s;
  number_of = λ s. ok (read_digits 0 s);
}

abbrev number : ℕ → Json
number n = int (pos n)

-- `{"a": [1, 2], "b": true}`
abbrev document : Json
document = obj (field "a" (arr (cons (number 1) (cons (number 2) nil))) (field "b" (bool true) end))

-- `{"a": [1, 7, 2], "b": true}`
abbrev longer : Json
longer = obj (
    field "a" (arr (cons (number 1) (cons (number 7) (cons (number 2) nil))))
      (field "b" (bool true) end))

-- `{"a": [1, 7], "b": true}`
abbrev changed : Json
changed = obj (field "a" (arr (cons (number 1) (cons (number 7) nil))) (field "b" (bool true) end))

get-add_example : get ascii longer "/a/1" ≡ ok (number 7)
unfolding add get parse_pointer last_token are_digits read_digits
get-add_example = get-add ascii document longer (number 7) "/a/1" "a" ("1" ∷ []) refl refl refl

remove-add_example : remove ascii longer "/a/1" ≡ ok (document, number 7)
unfolding add remove parse_pointer parent is_new are_digits read_digits
remove-add_example =
    remove-add ascii document longer (number 7) (arr (cons (number 1) (cons (number 2) nil))) "/a/1"
      "a" "1" ("1" ∷ []) refl refl refl refl

replace-replace_example : replace ascii changed "/a/1" (number 2) ≡ ok document
unfolding replace get parse_pointer are_digits read_digits
replace-replace_example =
    replace-replace ascii document changed (number 7) (number 2) "/a/1" refl refl

parse_pointer-pointer_of_example :
    parse_pointer ascii (pointer_of ("a/b" ∷ "~1" ∷ "" ∷ [])) ≡ ok ("a/b" ∷ "~1" ∷ "" ∷ [])
parse_pointer-pointer_of_example = parse_pointer-pointer_of ascii ("a/b" ∷ "~1" ∷ "" ∷ [])

-- `{"op": "add", "path": "/a/1", "value": 7}`
abbrev patch_text : String
patch_text = "[{\"op\": \"add\", \"path\": \"/a/1\", \"value\": 7}]"

abbrev document_text : String
document_text = "{\"a\": [1, 2], \"b\": true}"

abbrev operations : Items
operations =
    cons (obj (field "op" (str "add") (field "path" (str "/a/1") (field "value" (number 7) end))))
      nil

-- Knows the two texts, and writes one.
abbrev codec : Codec
codec = record {
  loads = λ s.
      if s == document_text
      then loaded document
      else if s == patch_text
      then loaded (arr operations)
      else load_error "unknown";
  dumps = λ j. err (type_error "not serializable");
  dumps_sorted = λ j. ok "{\"a\": [1, 7, 2], \"b\": true}";
}

abbrev conversions : Conversions
conversions = record {
  show_container = λ j. "";
  int_of_text = λ s. ok (pos 0);
  dict_of_other = λ j. ok [];
}

abbrev call : ToolInvocation
call = record {
  tool_name = "json_patch_apply";
  arguments = ("text", str document_text) ∷ ("patch", str patch_text) ∷ [];
}

execute-success : (execute ascii conversions codec call).success ≡ true
unfolding execute are_digits read_digits
execute-success = refl
