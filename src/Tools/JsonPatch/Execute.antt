-- ===== src/Tools/JsonPatch/Execute.antt =====
-- json_patch_apply.py: `execute` and its private methods.
use Prim.Native.String.{◌++◌ as join, count}
use multi_bot_agentic.Prelude.{
  ℕ, suc, String, Bool, true, false, Option, none, some, List, [], ◌∷◌, length, ltb, string_eq,
}
use multi_bot_agentic.Prelude.Text.{is_empty, strip, show_nat, break_on}
use multi_bot_agentic.Prelude.Dict.{lookup}
use multi_bot_agentic.Exn.{Result, ok, err, message}
use multi_bot_agentic.Json.{
  pos, Json, Payload, null, int, str, arr, obj, to_items, to_fields, Conversions, to_str,
}
use multi_bot_agentic.Models.{ToolInvocation, ToolResult}
use multi_bot_agentic.Tools.JsonPatch.Pointer.{Python}
use multi_bot_agentic.Tools.JsonPatch.Values.{type_name}
use multi_bot_agentic.Tools.JsonPatch.Operations.{apply_operation}

-- What `json.loads` makes of a text: a value, a `JSONDecodeError` or another error.
pub data Loaded : Type 0 where
  loaded : Json → Loaded
  decode_error : String → ℕ → Loaded
  load_error : String → Loaded

-- The `json` module, with the arguments that the tool gives: `loads` refuses what is not finite,
-- `dumps` writes a patch argument, and `dumps_sorted` the result.
pub record Codec : Type 0 where
  pub loads : String → Loaded
  pub dumps : Json → Result String
  pub dumps_sorted : Json → Result String

-- A step of `execute`: it goes on with a value, or answers a failure.
pub data Step {ℓ} (A : Type ℓ) : Type ℓ where
  go : A → Step A
  fail : String → Payload → Step A

infixl 10 ◌>=>◌
abbrev pub ◌>=>◌ {ℓ κ} : {A : Type ℓ} {B : Type κ} → Step A → (A → Step B) → Step B
go a >=> next = next a
fail m d >=> next = fail m d

abbrev pub fail_if : Bool → String → Payload → Step (Unit {0})
fail_if true m d = fail m d
fail_if false m d = go tt

abbrev pub number : ℕ → Json
number n = int (pos n)

abbrev pub max_document_chars : ℕ
max_document_chars = 20000

abbrev pub max_patch_chars : ℕ
max_patch_chars = 20000

abbrev pub max_output_chars : ℕ
max_output_chars = 20000

abbrev pub max_operations : ℕ
max_operations = 200

abbrev pub split_sentinel : String
split_sentinel = "<<<JSON_PATCH>>>"

-- The end of `_resolve_inputs`, for a text that has both.
unfoldable pub split_inputs : String → Step (String × String)
unfolding break_on
split_inputs text = elim (break_on split_sentinel text) [
  | none ↦ go (text, "")
  | some (document, patch_text) ↦ elim (break_on split_sentinel patch_text) [
    | none ↦ go (document, patch_text)
    | some _ ↦ fail "text contains more than one <<<JSON_PATCH>>> sentinel" []
  ]
]

-- The tests on the two texts.
unfoldable pub check_texts : String → String → Step (Unit {0})
unfolding strip
check_texts document_raw patch_raw =
    fail_if (is_empty (strip document_raw)) "text JSON document is empty" [] >=> λ _.
    fail_if (is_empty (strip patch_raw)) "patch JSON array is empty" [] >=> λ _.
    fail_if (ltb max_document_chars (count document_raw)) "text exceeds max_chars=20000"
      (("chars", number (count document_raw)) ∷ ("document", str "text") ∷ [])
    >=> λ _.
        fail_if (ltb max_patch_chars (count patch_raw)) "patch exceeds max_chars=20000"
          (("chars", number (count patch_raw)) ∷ ("document", str "patch") ∷ [])

-- The patch as a list of operations.
unfoldable pub operations_of : Json → Step (List Json)
unfolding to_items type_name
operations_of (arr patch) =
    fail_if (ltb max_operations (length (to_items patch))) "patch exceeds max_operations=200"
      (("operations", number (length (to_items patch))) ∷ [])
    >=> λ _. go (to_items patch)
operations_of patch = fail "patch must be a JSON array" (("patch_type", str (type_name patch)) ∷ [])

-- The metadata of a success.
abbrev pub metadata_of : String × String → String → ℕ → Payload
metadata_of (document_raw, patch_raw) content operations =
    ("chars", number (count content))
    ∷ ("input_chars", number (count document_raw))
    ∷ ("operations", number operations)
    ∷ ("patch_chars", number (count patch_raw))
    ∷ []

module _ (py : Python) where
  -- One round of the loop.
  unfoldable pub apply_at : ℕ → Json → Json → Step Json
  unfolding apply_operation lookup type_name message
  apply_at index result (obj operation) = elim (apply_operation py result (to_fields operation)) [
    | ok updated ↦ go updated
    | err exc ↦ fail (join "operation " (join (show_nat index) (join " failed: " (message exc)))) (
        ("operation_index", number index)
        ∷ ("op", elim (lookup "op" (to_fields operation)) [ none ↦ null | some op ↦ op ])
        ∷ [])
  ]
  apply_at index result operation =
      fail (join "operation " (join (show_nat index) " must be an object"))
        (("operation_index", number index) ∷ ("operation_type", str (type_name operation)) ∷ [])

  unfoldable pub apply_all : ℕ → Json → List Json → Step Json
  unfolding apply_at
  apply_all index result [] = go result
  apply_all index result (operation ∷ rest) =
      apply_at index result operation >=> λ updated. apply_all (suc index) updated rest

module _ (conversions : Conversions) (json : Codec) where
  -- `str(arguments.get("text", ""))`
  abbrev text_of : Option Json → String
  unfolding to_str
  text_of none = ""
  text_of (some t) = to_str conversions t

  unfoldable pub resolve_inputs : Payload → Step (String × String)
  unfolding lookup to_str split_inputs message
  resolve_inputs arguments =
      let text = text_of (lookup "text" arguments) in
      elim (lookup "patch" arguments) [
        | none ↦ split_inputs text
        | some (str patch_argument) ↦ go (text, patch_argument)
        | some patch_argument ↦ elim (json.dumps patch_argument) [
          | ok patch_text ↦ go (text, patch_text)
          | err exc ↦ fail (join "patch is not JSON serializable: " (message exc)) []
        ]
      ]

module _ (json : Codec) where
  unfoldable pub parse_json : String → String → Step Json
  parse_json raw label = elim (json.loads raw) [
    | loaded v ↦ go v
    | decode_error m at ↦
        fail (join "invalid JSON in " (join label (join ": " m)))
          (("document", str label) ∷ ("position", number at) ∷ [])
    | load_error m ↦
        fail (join "invalid JSON in " (join label (join ": " m))) (("document", str label) ∷ [])
  ]

  -- The text of the result.
  unfoldable pub content_of : Json → ℕ → Step String
  unfolding message
  content_of result operations = elim (json.dumps_sorted result) [
    | err exc ↦ fail (join "patched result is not serializable JSON: " (message exc)) []
    | ok text ↦
        let content = join text "\n" in
        fail_if (ltb max_output_chars (count content)) "patched output exceeds max_chars=20000"
          (("chars", number (count content)) ∷ ("operations", number operations) ∷ [])
        >=> λ _. go content
  ]

module _ (py : Python) (conversions : Conversions) (json : Codec) where
  unfoldable pub run : Payload → Step (String × Payload)
  unfolding resolve_inputs check_texts parse_json operations_of apply_all content_of
  run arguments = resolve_inputs conversions json arguments >=> λ raws.
      check_texts raws.0 raws.1 >=> λ _. parse_json json raws.0 "text" >=> λ document.
      parse_json json raws.1 "patch" >=> λ patch. operations_of patch >=> λ operations.
      apply_all py 0 document operations >=> λ result.
      content_of json result (length operations) >=> λ content.
      go (content, metadata_of raws content (length operations))

  unfoldable pub execute : ToolInvocation → ToolResult
  unfolding run
  execute invocation = elim (run invocation.arguments) [
    | go (content, metadata) ↦ record {
      tool_name = "json_patch_apply";
      success = true;
      content = content;
      metadata = metadata;
    }
    | fail m metadata ↦ record {
      tool_name = "json_patch_apply";
      success = false;
      content = m;
      metadata = metadata;
    }
  ]
