-- ===== src/Guards/Approval.antt =====
-- src/multi_bot_agentic/approval.py: approval requests of sensitive tools, one JSON file each. The
-- directory is a dict from a file's stem to what the file holds.
pub mod Files
pub mod Steps
pub mod Final
use Prim.Native.String.{◌++◌ as join}
use multi_bot_agentic.Prelude.{
  String, Bool, none, some, List, [], ◌∷◌, ◌||◌, contains, ◌==◌, string_eq, if◌then◌else◌,
}
use multi_bot_agentic.Prelude.Text.{strip, is_empty, has_char, has_dots}
use multi_bot_agentic.Prelude.Dict.{Dict, lookup, insert}
use multi_bot_agentic.Exn.{
  Result, ok, err, value_error, os_error, type_error, raise_if, ◌>>=◌, ◌>>◌,
}
use multi_bot_agentic.Json.{Json, str, obj, Payload, to_fields, fields_of, Conversions, to_str}
use multi_bot_agentic.Checkpoint.{at_key}
use multi_bot_agentic.Guards.{Outcome}

pub data ApprovalDecision : Type 0 where
  pending approved rejected : ApprovalDecision

abbrev pub value_of : ApprovalDecision → String
value_of pending = "pending"
value_of approved = "approved"
value_of rejected = "rejected"

pub record ApprovalRequest : Type 0 where
  pub request_id : String
  pub run_id : String
  pub tool_name : String
  pub payload : String
  pub status : ApprovalDecision

-- What a file holds: a JSON document, or a text that is none.
pub data Contents : Type 0 where
  document : Json → Contents
  garbled : Contents

pub record HitlApprovalGate : Type 0 where
  pub files : Dict String Contents
  pub tools_requiring_approval : List String

-- The constructor; the directory may hold files already.
unfoldable pub init : Dict String Contents → List String → Result HitlApprovalGate
init files [] = err (value_error "tools_requiring_approval must be non-empty")
init files tools = ok (record { files = files; tools_requiring_approval = tools })

unfoldable pub requires_approval : HitlApprovalGate → String → Bool
requires_approval g tool_name = contains tool_name g.tools_requiring_approval

-- The stem of the file, by `_path_for`.
unfoldable pub path_for : String → Result String
unfolding strip has_char has_dots
path_for request_id =
    let safe_id = strip request_id in
    if is_empty safe_id || has_char b'/' safe_id || has_char b'\\' safe_id || has_dots safe_id
    then err (value_error "request_id must be a plain identifier")
    else ok safe_id

-- The document of `_write`, with its keys in order.
unfoldable pub request_json : ApprovalRequest → Json
unfolding fields_of
request_json r = obj (
    fields_of (
      ("payload", str r.payload)
      ∷ ("request_id", str r.request_id)
      ∷ ("run_id", str r.run_id)
      ∷ ("status", str (value_of r.status))
      ∷ ("tool_name", str r.tool_name)
      ∷ []))

unfoldable pub write : ApprovalRequest → HitlApprovalGate → Outcome HitlApprovalGate (Unit {0})
unfolding path_for request_json insert
write r g = elim (path_for r.request_id) [
  | err e ↦ (err e, g)
  | ok stem ↦ (ok tt, record g { files = insert stem (document (request_json r)) g.files })
]

-- `ApprovalDecision(text)`
unfoldable pub decision_of : String → Result ApprovalDecision
decision_of text =
    if text == "pending"
    then ok pending
    else if text == "approved"
    then ok approved
    else if text == "rejected"
    then ok rejected
    else err (value_error (join text " is not a valid ApprovalDecision"))

module _ (py : Conversions) where
  -- The request that a document says.
  unfoldable pub request_of : Payload → Result ApprovalRequest
  unfolding at_key to_str decision_of
  request_of raw = do
    request_id ← at_key "request_id" raw
    run_id ← at_key "run_id" raw
    tool_name ← at_key "tool_name" raw
    payload ← at_key "payload" raw
    status ← at_key "status" raw
    decision ← decision_of (to_str py status)
    ok (record {
      request_id = to_str py request_id;
      run_id = to_str py run_id;
      tool_name = to_str py tool_name;
      payload = to_str py payload;
      status = decision;
    })

  -- `json.loads` and the lookups of `_read`; what is no object has no string keys.
  unfoldable pub parsed : Contents → Result ApprovalRequest
  unfolding request_of to_fields
  parsed (document (obj fields)) = request_of (to_fields fields)
  parsed (document _) = err (type_error "indices must be integers")
  parsed garbled = err (value_error "JSONDecodeError")

  unfoldable pub read : HitlApprovalGate → String → Result ApprovalRequest
  unfolding path_for lookup parsed
  read g request_id = do
    stem ← path_for request_id
    elim (lookup stem g.files) [
      | none ↦ err (os_error (join "No such file or directory: " (join stem ".json")))
      | some contents ↦ parsed contents
    ]

  -- `request`: `uuid` is the identifier that `uuid4` gives.
  unfoldable pub request :
      String
      → String
      → String
      → String
      → HitlApprovalGate
      → Outcome HitlApprovalGate ApprovalRequest
  unfolding strip write requires_approval
  request uuid run_id tool_name payload g =
      if is_empty (strip run_id)
      then (err (value_error "run_id must be non-empty"), g)
      else if is_empty (strip tool_name)
      then (err (value_error "tool_name must be non-empty"), g)
      else if requires_approval g tool_name
      then (let r : ApprovalRequest = record {
        request_id = uuid;
        run_id = strip run_id;
        tool_name = strip tool_name;
        payload = payload;
        status = pending;
      } in
          let (written, g') = write r g in (written >> ok r, g'))
      else (err (value_error (join "tool does not require approval: " tool_name)), g)

  -- The end of `resolve`, once the request has been read.
  unfoldable pub settle :
      ApprovalRequest
      → ApprovalDecision
      → HitlApprovalGate
      → Outcome HitlApprovalGate ApprovalRequest
  unfolding write
  settle current decision g = elim current.status [
    | pending ↦
        let updated = record current { status = decision } in
        let (written, g') = write updated g in (written >> ok updated, g')
    | status ↦ (err (value_error (join "request already resolved: " (value_of status))), g)
  ]

  unfoldable pub resolve :
      String → ApprovalDecision → HitlApprovalGate → Outcome HitlApprovalGate ApprovalRequest
  unfolding read settle
  resolve request_id decision g = elim decision [
    | pending ↦ (err (value_error "decision must be approved or rejected"), g)
    | chosen ↦ elim (read g request_id) [
      | err e ↦ (err e, g)
      | ok current ↦ settle current chosen g
    ]
  ]

  unfoldable pub poll : HitlApprovalGate → String → Result ApprovalDecision
  unfolding read
  poll g request_id = read g request_id >>= λ r. ok r.status
