-- ===== src/Dsar/Answers.antt =====
-- go/dsar/handler.go: what either handler may leave and answer.
use ivorycom_governance.Common.{
  String, ◌≡◌, ◌≢◌, ◌↔◌, false, none, some, ◌==◌, string_eq, eq_iff, arith,
}
use ivorycom_governance.Common.Result.{Result, ok, err}
use ivorycom_governance.Dsar.{
  Response, Encoder, not_encoded, bad_request, server_error, json, Handled,
}

pub named_iff : (s : String) → ((s == "") ≡ false) ↔ (s ≢ "")
named_iff s = ground (arith, eq_iff s "")

-- What a handler may leave and answer, where `run` is the context's function as the handler calls it
-- on a request and `reply` the body that it makes of that function's result. A request that cannot
-- be read, or that names no contact, is refused as the client's error, and the store is left alone;
-- an error of the function is the server's, with its text, and the store is what the function left.
-- So it is where the body that is made cannot be encoded, and then the handler returns that error.
pub data Answers {S Req A B : Type 0} (contact_of : Req → String) (run : Req → S → Handled S A)
    (reply : Req → A → B) (encode : Encoder B) (body : Result String Req) (store : S)
    : S → Response B → Type 0 where
  unreadable :
      (e : String)
      → body ≡ err e
      → Answers contact_of run reply encode body store store (bad_request "invalid request body")
  unnamed :
      (req : Req)
      → body ≡ ok req
      → contact_of req ≡ ""
      → Answers contact_of run reply encode body store store (bad_request "contact_id required")
  failed :
      (req : Req) (after : S) (e : String)
      → body ≡ ok req
      → contact_of req ≢ ""
      → run req store ≡ (after, err e)
      → Answers contact_of run reply encode body store after (server_error e)
  answered :
      (req : Req) (after : S) (a : A)
      → body ≡ ok req
      → contact_of req ≢ ""
      → run req store ≡ (after, ok a)
      → encode (reply req a) ≡ none
      → Answers contact_of run reply encode body store after (json (reply req a))
  broken :
      (req : Req) (after : S) (a : A) (e : String)
      → body ≡ ok req
      → contact_of req ≢ ""
      → run req store ≡ (after, ok a)
      → encode (reply req a) ≡ some e
      → Answers contact_of run reply encode body store after (not_encoded e)
