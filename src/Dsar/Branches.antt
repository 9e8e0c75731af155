-- ===== src/Dsar/Branches.antt =====
-- go/dsar/handler.go: the two handlers on every branch, errors included.
use ivorycom_governance.Common.{
  String, ◌≡◌, ◌≢◌, ◌↔◌, inl, inr, refl, sym, ap, ◌∙◌, if◌then◌else◌, Bool-cases, Option-cases,
  Option, none, some, [], List, ◌==◌, string_eq, eq_iff,
}
use ivorycom_governance.Common.Result.{Result, ok, err}
use ivorycom_governance.Dsar.{
  ExportRequest, ExportResponse, Slice, DeleteRequest, DeleteResponse, Response, Encoder,
  not_encoded, c_json, server_error, json, Handled, not_nil, export_response, with_mode,
  delete_response, handle_export, handle_delete,
}
use ivorycom_governance.Dsar.Answers.{
  Answers, named_iff, unreadable, unnamed, failed, answered, broken,
}

-- the members of a slice, none of a nil one
abbrev pub members_of : {A : Type 0} → Option (List A) → List A
members_of none = []
members_of (some l) = l

not_nil-members_of : {A : Type 0} (o : Option (List A)) → not_nil o ≡ some (members_of o)
not_nil-members_of none = refl
not_nil-members_of (some l) = refl

module _ {S Row Time : Type 0} (encode : Encoder (ExportResponse Row Time)) (svc : String)
    (export_fn : ExportRequest → S → Handled S (Option (List (Slice Row)))) (now : Time) where
  abbrev pub export_body : ExportRequest → Option (List (Slice Row)) → ExportResponse Row Time
  export_body req slices = record {
    service = svc;
    contact_id = req.contact_id;
    slices = some (members_of slices);
    generated_at = now;
  }

  abbrev pub ExportAnswers :
      Result String ExportRequest → S → S → Response (ExportResponse Row Time) → Type 0
  ExportAnswers = Answers (λ r. r.contact_id) export_fn export_body encode

  export_response-c_json :
      (req : ExportRequest) (slices : Option (List (Slice Row)))
      → export_response encode svc now req (ok slices) ≡ c_json encode (export_body req slices)
  unfolding export_response
  export_response-c_json req slices =
      ap
        (λ l.
          c_json encode
            (record { service = svc; contact_id = req.contact_id; slices = l; generated_at = now }))
        (not_nil-members_of slices)

  export_response-json :
      (req : ExportRequest) (slices : Option (List (Slice Row)))
      → encode (export_body req slices) ≡ none
      → export_response encode svc now req (ok slices) ≡ json (export_body req slices)
  unfolding c_json
  export_response-json req slices fine =
      export_response-c_json req slices
      ∙ ap (λ o. elim o [ none ↦ json (export_body req slices) | some e ↦ not_encoded e ]) fine

  export_response-not_encoded :
      (req : ExportRequest) (slices : Option (List (Slice Row))) (e : String)
      → encode (export_body req slices) ≡ some e
      → export_response encode svc now req (ok slices) ≡ not_encoded e
  unfolding c_json
  export_response-not_encoded req slices e bad =
      export_response-c_json req slices
      ∙ ap (λ o. elim o [ none ↦ json (export_body req slices) | some e ↦ not_encoded e ]) bad

  export_response-server_error :
      (req : ExportRequest) (e : String)
      → export_response encode svc now req (err e) ≡ server_error e
  unfolding export_response
  export_response-server_error req e = refl

  run-Answers :
      (req : ExportRequest) (store : S) (h : Handled S (Option (List (Slice Row))))
      → export_fn req store ≡ h
      → req.contact_id ≢ ""
      → ExportAnswers (ok req) store h.0 (export_response encode svc now req h.1)
  run-Answers req store (after, err e) ran named =
      rw (export_response-server_error req e) (failed req after e refl named ran)
  run-Answers req store (after, ok slices) ran named =
      elim (Option-cases (encode (export_body req slices))) [
        | inl fine ↦
            rw (export_response-json req slices fine)
              (answered req after slices refl named ran fine)
        | inr (e, bad) ↦
            rw (export_response-not_encoded req slices e bad)
              (broken req after slices e refl named ran bad)
      ]

  handle_export-Answers :
      (body : Result String ExportRequest) (store : S)
      → ExportAnswers body store
          (handle_export svc encode export_fn now body store).0
          (handle_export svc encode export_fn now body store).1
  unfolding handle_export
  handle_export-Answers (err e) store = unreadable e refl
  handle_export-Answers (ok req) store = elim (Bool-cases (req.contact_id == "")) [
    | inl missing ↦ rw missing (unnamed req refl ((eq_iff req.contact_id "").0 missing))
    | inr given ↦
        rw given
          (run-Answers req store (export_fn req store) refl ((named_iff req.contact_id).0 given))
  ]

  Answers-handle_export :
      (body : Result String ExportRequest) (store : S) {after : S}
      {resp : Response (ExportResponse Row Time)}
      → ExportAnswers body store after resp
      → handle_export svc encode export_fn now body store ≡ (after, resp)
  unfolding handle_export
  Answers-handle_export body store (unreadable e h) = rw h refl
  Answers-handle_export body store (unnamed req h missing) =
      rw (h, (eq_iff req.contact_id "").1 missing) refl
  Answers-handle_export body store (failed req after e h named ran) =
      rw (h, (named_iff req.contact_id).1 named, ran)
        (ap (λ r. (after, r)) (export_response-server_error req e))
  Answers-handle_export body store (answered req after slices h named ran fine) =
      rw (h, (named_iff req.contact_id).1 named, ran)
        (ap (λ r. (after, r)) (export_response-json req slices fine))
  Answers-handle_export body store (broken req after slices e h named ran bad) =
      rw (h, (named_iff req.contact_id).1 named, ran)
        (ap (λ r. (after, r)) (export_response-not_encoded req slices e bad))

  -- The export handler leaves a store and gives a response exactly as `Answers` lists them for the
  -- context's function and the encoder of `c.JSON`: status 400 for a body that cannot be read or
  -- names no contact, with the store untouched; 500 with the text of the function's error; the
  -- encoder's error, where it has one, returned to Fiber after the function has run; else a body
  -- with the service's name, the contact of the request, the time, and slices that are never nil.
  pub handle_export-Answers_iff :
      (body : Result String ExportRequest) (store after : S)
      (resp : Response (ExportResponse Row Time))
      → (handle_export svc encode export_fn now body store ≡ (after, resp))
        ↔ ExportAnswers body store after resp
  handle_export-Answers_iff body store after resp =
      (λ h. rw h at (handle_export-Answers body store), Answers-handle_export body store)

module _ {S : Type 0} (svc : String)
    (delete_fn : DeleteRequest → S → Handled S DeleteResponse) where
  abbrev pub delete_body : DeleteRequest → DeleteResponse → DeleteResponse
  delete_body req resp = record resp { service = svc; contact_id = req.contact_id }

  -- the request with the mode "delete" where it names none
  abbrev pub defaulted : DeleteRequest → DeleteRequest
  defaulted req = record req { mode = if req.mode == "" then "delete" else req.mode }

  with_mode-defaulted : (req : DeleteRequest) → with_mode req ≡ defaulted req
  unfolding with_mode
  with_mode-defaulted req = elim (Bool-cases (req.mode == "")) [
    | inl empty ↦ rw empty refl
    | inr given ↦ rw given refl
  ]

  abbrev pub DeleteAnswers : Result String DeleteRequest → S → S → Response DeleteResponse → Type 0
  DeleteAnswers =
      Answers (λ r. r.contact_id) (λ req. delete_fn (defaulted req)) delete_body (λ _. none)

  handle_delete-Answers :
      (body : Result String DeleteRequest) (store : S)
      → DeleteAnswers body store
          (handle_delete svc delete_fn body store).0
          (handle_delete svc delete_fn body store).1
  unfolding handle_delete delete_response
  handle_delete-Answers (err e) store = unreadable e refl
  handle_delete-Answers (ok req) store = elim (Bool-cases (req.contact_id == "")) [
    | inl missing ↦ rw missing (unnamed req refl ((eq_iff req.contact_id "").0 missing))
    | inr given ↦ rw given (
        run (delete_fn (with_mode req) store)
          (ap (λ q. delete_fn q store) (sym (with_mode-defaulted req)))
          ((named_iff req.contact_id).0 given))
  ]
    where
      run :
          (h : Handled S DeleteResponse)
          → delete_fn (defaulted req) store ≡ h
          → req.contact_id ≢ ""
          → DeleteAnswers (ok req) store h.0 (delete_response svc req h.1)
      run (after, err e) ran named = failed req after e refl named ran
      run (after, ok resp) ran named = answered req after resp refl named ran refl

  Answers-handle_delete :
      (body : Result String DeleteRequest) (store : S) {after : S} {resp : Response DeleteResponse}
      → DeleteAnswers body store after resp
      → handle_delete svc delete_fn body store ≡ (after, resp)
  unfolding handle_delete delete_response
  Answers-handle_delete body store (unreadable e h) = rw h refl
  Answers-handle_delete body store (unnamed req h missing) =
      rw (h, (eq_iff req.contact_id "").1 missing) refl
  Answers-handle_delete body store (failed req after e h named ran) =
      rw (h, (named_iff req.contact_id).1 named, with_mode-defaulted req, ran) refl
  Answers-handle_delete body store (answered req after r h named ran fine) =
      rw (h, (named_iff req.contact_id).1 named, with_mode-defaulted req, ran) refl
  Answers-handle_delete body store (broken req after r e h named ran bad) = cc

  -- The delete handler leaves a store and gives a response exactly as `Answers` lists them for the
  -- context's function, which is called with the mode "delete" in place of an empty one: status 400
  -- for a body that cannot be read or names no contact, with nothing deleted; 500 with the text of
  -- the function's error, and what it has deleted by then; else that function's response, under the
  -- service's name and the request's contact, whatever names the function wrote.
  pub handle_delete-Answers_iff :
      (body : Result String DeleteRequest) (store after : S) (resp : Response DeleteResponse)
      → (handle_delete svc delete_fn body store ≡ (after, resp))
        ↔ DeleteAnswers body store after resp
  handle_delete-Answers_iff body store after resp =
      (λ h. rw h at (handle_delete-Answers body store), Answers-handle_delete body store)
