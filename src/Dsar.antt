-- ===== src/Dsar.antt =====
-- go/dsar/contract.go and go/dsar/handler.go: the two routes of a data subject access request.
mod Answers
mod Branches
mod Mount
mod Tests
use ivorycom_governance.Common.{
  ℕ, String, Bool, true, false, Option, none, some, List, [], ◌∷◌, ◌==◌, string_eq, if◌then◌else◌,
}
use ivorycom_governance.Common.Int.{ℤ}
use ivorycom_governance.Common.Result.{Result, ok, err}

pub record ExportRequest : Type 0 where
  pub contact_id : String
  pub tenant_id : String
  pub email : String

-- `Row` is the type of an exported record; a nil slice of rows, which JSON tells from an empty one,
-- is `none`.
pub record Slice (Row : Type 0) : Type 0 where
  pub kind : String
  pub rows : Option (List Row)

pub record ExportResponse (Row Time : Type 0) : Type 0 where
  pub service : String
  pub contact_id : String
  pub slices : Option (List (Slice Row))
  pub generated_at : Time

pub record DeleteRequest : Type 0 where
  pub contact_id : String
  pub tenant_id : String
  pub email : String
  pub mode : String
  pub held : Bool

pub record DeleteResponse : Type 0 where
  pub service : String
  pub contact_id : String
  pub deleted : ℤ
  pub anonymized : ℤ
  pub blocked : Bool

abbrev pub mode_delete : String
mode_delete = "delete"

abbrev pub mode_anonymize : String
mode_anonymize = "anonymize"

-- What a handler ends with: status 400 or 500 with the text of its error, status 200 with a body, or
-- the error of `c.JSON`, which it returns to Fiber where the body cannot be encoded.
pub data Response (A : Type 0) : Type 0 where
  bad_request : String → Response A
  server_error : String → Response A
  json : A → Response A
  not_encoded : String → Response A

-- What the context's function leaves in its store, and its result.
abbrev pub Handled : Type 0 → Type 0 → Type 0
Handled S A = S × Result String A

-- `if slices == nil { slices = []Slice{} }`
abbrev pub not_nil : {A : Type 0} → Option (List A) → Option (List A)
not_nil none = some []
not_nil (some l) = some l

-- The error of `encoding/json` on a body, if there is one. The rows of an export are of any type, so
-- an export may have one; a `DeleteResponse`, of texts, numbers and a flag, has none.
abbrev pub Encoder : Type 0 → Type 0
Encoder A = A → Option String

-- `return c.JSON(body)`
unfoldable pub c_json : {A : Type 0} → Encoder A → A → Response A
c_json encode body = elim (encode body) [ none ↦ json body | some e ↦ not_encoded e ]

-- the end of the export handler, after the context's function
unfoldable pub export_response :
    {Row Time : Type 0}
    → Encoder (ExportResponse Row Time)
    → String
    → Time
    → ExportRequest
    → Result String (Option (List (Slice Row)))
    → Response (ExportResponse Row Time)
export_response encode svc now req (err e) = server_error e
export_response encode svc now req (ok slices) = c_json encode (record {
  service = svc;
  contact_id = req.contact_id;
  slices = not_nil slices;
  generated_at = now;
})

-- `if req.Mode == "" { req.Mode = ModeDelete }`
unfoldable pub with_mode : DeleteRequest → DeleteRequest
with_mode req = if req.mode == "" then record req { mode = mode_delete } else req

-- the end of the delete handler
unfoldable pub delete_response :
    String → DeleteRequest → Result String DeleteResponse → Response DeleteResponse
delete_response svc req (err e) = server_error e
delete_response svc req (ok resp) =
    json (record resp { service = svc; contact_id = req.contact_id })

-- The two handlers. `encode` is the encoder of `c.JSON` on the bodies of exports. What `BodyParser`
-- makes of the body and the functions of the context are arguments; `store` is the state that the
-- context's functions change.
module _ {S : Type 0} (svc : String) where
  unfoldable pub handle_export :
      {Row Time : Type 0}
      → Encoder (ExportResponse Row Time)
      → (ExportRequest → S → Handled S (Option (List (Slice Row))))
      → Time
      → Result String ExportRequest
      → S
      → S × Response (ExportResponse Row Time)
  handle_export encode export_fn now (err e) store = (store, bad_request "invalid request body")
  handle_export encode export_fn now (ok req) store =
      if req.contact_id == ""
      then (store, bad_request "contact_id required")
      else (let (after, result) = export_fn req store in
          (after, export_response encode svc now req result))

  unfoldable pub handle_delete :
      (DeleteRequest → S → Handled S DeleteResponse)
      → Result String DeleteRequest
      → S
      → S × Response DeleteResponse
  handle_delete delete_fn (err e) store = (store, bad_request "invalid request body")
  handle_delete delete_fn (ok req) store =
      if req.contact_id == ""
      then (store, bad_request "contact_id required")
      else (let (after, result) = delete_fn (with_mode req) store in
          (after, delete_response svc req result))
