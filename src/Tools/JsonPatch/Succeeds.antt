-- ===== src/Tools/JsonPatch/Succeeds.antt =====
-- json_patch_apply.py: what a successful call of `execute` has done.
use Prim.Native.String.{◌++◌ as join, count}
use multi_bot_agentic.Prelude.{◌≤◌, ◌≡◌, String, false, length}
use multi_bot_agentic.Prelude.Text.{is_empty, strip}
use multi_bot_agentic.Exn.{ok}
use multi_bot_agentic.Json.{Json, Items, Payload, arr, to_items, Conversions}
use multi_bot_agentic.Tools.JsonPatch.Pointer.{Python}
use multi_bot_agentic.Tools.JsonPatch.Execute.{loaded, Codec, go, resolve_inputs}
use multi_bot_agentic.Tools.JsonPatch.Runs.{Patches}

-- What a successful call is: both texts in bounds, both loaded, the operations applied one after the
-- other, and the result written out in bounds.
pub record Applied (py : Python) (conversions : Conversions) (json : Codec) (arguments : Payload)
    (content : String) : Type 0 where
  pub document_text : String
  pub patch_text : String
  pub document : Json
  pub operations : Items
  pub result : Json
  pub text : String
  pub texts : resolve_inputs conversions json arguments ≡ go (document_text, patch_text)
  pub document_given : is_empty (strip document_text) ≡ false
  pub patch_given : is_empty (strip patch_text) ≡ false
  pub document_size : count document_text ≤ 20000
  pub patch_size : count patch_text ≤ 20000
  pub document_loads : json.loads document_text ≡ loaded document
  pub patch_loads : json.loads patch_text ≡ loaded (arr operations)
  pub patch_length : length (to_items operations) ≤ 200
  pub patches : Patches py document (to_items operations) result
  pub dumped : json.dumps_sorted result ≡ ok text
  pub same_content : content ≡ join text "\n"
  pub content_size : count content ≤ 20000

InBounds : String → String → Type 0
InBounds document patch =
    (is_empty (strip document) ≡ false)
    × (is_empty (strip patch) ≡ false)
    × (count document ≤ 20000)
    × (count patch ≤ 20000)
