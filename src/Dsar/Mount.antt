-- ===== src/Dsar/Mount.antt =====
-- go/dsar/handler.go: `Mount`, which registers the two handlers with a router of Fiber.
use ivorycom_governance.Common.{String, Option, List}
use ivorycom_governance.Common.Result.{Result}
use ivorycom_governance.Dsar.{
  Encoder, ExportRequest, Slice, ExportResponse, DeleteRequest, DeleteResponse, Response, Handled,
  handle_export, handle_delete,
}

-- What a handler reads of its context: the body, as `BodyParser` reads it into either request, and
-- the clock.
pub record Arrival (Time : Type 0) : Type 0 where
  pub as_export : Result String ExportRequest
  pub as_delete : Result String DeleteRequest
  pub now : Time

pub data Reply (Row Time : Type 0) : Type 0 where
  exported : Response (ExportResponse Row Time) → Reply Row Time
  deleted : Response DeleteResponse → Reply Row Time

-- `S` is the state that the context's functions change.
abbrev pub Handler : Type 0 → Type 0 → Type 0 → Type 0
Handler S Row Time = Arrival Time → S → S × Reply Row Time

-- A router of Fiber, as far as `Mount` uses it: the routes that are registered, and what `Post` makes
-- of them. Which requests reach a handler is the router's, and is left open.
pub record Router (H : Type 0) : Type 1 where
  pub Routes : Type 0
  pub post : String → H → Routes → Routes

module _ {S Row Time : Type 0} (encode : Encoder (ExportResponse Row Time)) (svc : String)
    (export_fn : ExportRequest → S → Handled S (Option (List (Slice Row))))
    (delete_fn : DeleteRequest → S → Handled S DeleteResponse) where
  abbrev pub on_export : Handler S Row Time
  on_export a store =
      let (after, response) = handle_export svc encode export_fn a.now a.as_export store in
      (after, exported response)

  abbrev pub on_delete : Handler S Row Time
  on_delete a store =
      let (after, response) = handle_delete svc delete_fn a.as_delete store in
      (after, deleted response)

  unfoldable pub mount : (r : Router (Handler S Row Time)) → r.Routes → r.Routes
  mount r routes = r.post "/dsar/delete" on_delete (r.post "/dsar/export" on_export routes)
