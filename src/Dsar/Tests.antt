-- ===== src/Dsar/Tests.antt =====
-- Runs of the two handlers, and the theorems at them.
use ivorycom_governance.Common.Map.{Map}
use ivorycom_governance.Common.{
  is_empty, ◌++◌, ◌∷◌, if◌then◌else◌, ℕ, suc, String, ◌≡◌, ◌↔◌, refl, false, Option, none, some,
  List, [], string_eq,
}
use ivorycom_governance.Common.Int.{pos}
use ivorycom_governance.Common.Result.{ok}
use ivorycom_governance.Dsar.Mount.{Router, Handler, on_export, on_delete, mount}
use ivorycom_governance.Dsar.{
  ExportRequest, ExportResponse, Slice, DeleteRequest, DeleteResponse, bad_request, not_encoded,
  c_json, json, Handled, export_response, with_mode, delete_response, handle_export, handle_delete,
}
use ivorycom_governance.Dsar.Branches.{
  ExportAnswers, handle_export-Answers_iff, DeleteAnswers, handle_delete-Answers_iff,
}

-- opens the handlers
handlers : Unit {0}
unfolding c_json handle_export handle_delete export_response delete_response with_mode
handlers = tt

abbrev export_request : ExportRequest
export_request = record { contact_id = "c1"; tenant_id = "t1"; email = "" }

abbrev delete_request : DeleteRequest
delete_request = record { contact_id = "c1"; tenant_id = "t1"; email = ""; mode = ""; held = false }

-- the context counts its runs; it owns no rows of the contact
abbrev export_fn : ExportRequest → ℕ → Handled ℕ (Option (List (Slice String)))
export_fn req runs = (suc runs, ok none)

abbrev exported : ExportResponse String ℕ
exported = record { service = "crm"; contact_id = "c1"; slices = some []; generated_at = 5 }

-- exports of no slices can be encoded
abbrev encode : ExportResponse String ℕ → Option String
encode resp = elim resp.slices [
  | none ↦ none
  | some slices ↦ if is_empty slices then none else some "unsupported type"
]

-- the context puts the mode into its response, as the name of the service
abbrev delete_fn : DeleteRequest → ℕ → Handled ℕ DeleteResponse
delete_fn req runs = (
  suc runs,
  ok (record {
    service = req.mode;
    contact_id = "";
    deleted = pos 2;
    anonymized = pos 0;
    blocked = req.held;
  }),
)

abbrev deleted : DeleteResponse
deleted = record {
  service = "crm";
  contact_id = "c1";
  deleted = pos 2;
  anonymized = pos 0;
  blocked = false;
}

export_test : handle_export "crm" encode export_fn 5 (ok export_request) 0 ≡ (1, json exported)
unfolding handlers
export_test = refl

mode_test :
    (delete_fn (with_mode delete_request) 0).1
    ≡ ok (record deleted { service = "delete"; contact_id = "" })
unfolding handlers
mode_test = refl

unnamed_test :
    handle_delete "crm" delete_fn (ok (record delete_request { contact_id = "" })) 0
    ≡ (0, bad_request "contact_id required")
unfolding handlers
unnamed_test = refl

-- rows that a context may export, and one that cannot be encoded
abbrev bad_rows : ExportRequest → ℕ → Handled ℕ (Option (List (Slice String)))
bad_rows req runs =
    (suc runs, ok (some (record { kind = "leads"; rows = some ("channel" ∷ []) } ∷ [])))

broken_test :
    handle_export "crm" encode bad_rows 5 (ok export_request) 0
    ≡ (1, not_encoded "unsupported type")
unfolding handlers
broken_test = refl

handle_export-Answers_iff_example :
    (handle_export "crm" encode export_fn 5 (ok export_request) 0 ≡ (1, json exported))
    ↔ ExportAnswers encode "crm" export_fn 5 (ok export_request) 0 1 (json exported)
handle_export-Answers_iff_example =
    handle_export-Answers_iff encode "crm" export_fn 5 (ok export_request) 0 1 (json exported)

handle_delete-Answers_iff_example :
    (handle_delete "crm" delete_fn (ok delete_request) 0 ≡ (1, json deleted))
    ↔ DeleteAnswers "crm" delete_fn (ok delete_request) 0 1 (json deleted)
handle_delete-Answers_iff_example =
    handle_delete-Answers_iff "crm" delete_fn (ok delete_request) 0 1 (json deleted)

-- a router as a table of its routes, in the order of their registration
abbrev table_router : (H : Type 0) → Router H
table_router H = record { Routes = Map String H; post = λ path h routes. routes ++ (path, h) ∷ [] }

mount_test :
    mount encode "crm" export_fn delete_fn (table_router (Handler ℕ String ℕ)) []
    ≡ ("/dsar/export", on_export encode "crm" export_fn delete_fn)
      ∷ ("/dsar/delete", on_delete encode "crm" export_fn delete_fn)
      ∷ []
unfolding mount
mount_test = refl
