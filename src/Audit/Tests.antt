-- ===== src/Audit/Tests.antt =====
-- Runs of `Diff`, `NewEvent` and `Emit`, and the theorems at them.
use Prim.Native.String.{◌++◌}
use ivorycom_governance.Common.{
  inl, inr, ℕ, String, ◌≡◌, ◌↔◌, ◌⊎◌, refl, true, false, none, some, List, [], ◌∷◌, string_eq,
  if◌then◌else◌,
}
use ivorycom_governance.Common.Map
use ivorycom_governance.Common.Map.{Map}
use ivorycom_governance.Common.Result.{Result, ok, err}
use ivorycom_governance.Common.Codec.{Succeeds}
use ivorycom_governance.Audit.Diff.{
  Operand, absent, reference, plain, Json, is_nil, to_map, must_marshal, collect_keys, compare_key,
  compare_keys, changed, side, diff,
}
use ivorycom_governance.Audit.Diff.Errors.{IsAccepted, diff-Succeeds_iff}
use ivorycom_governance.Audit.Diff.Restored.{IsJson}
use ivorycom_governance.Audit.Diff.Sample.{coding, coding-IsJson}
use ivorycom_governance.Audit.Event.{
  AuditEvent, Params, new_event, action_update, action_required, OutboxEnvelope, Written, emit,
}

-- opens what the functions call
audit : Unit {0}
unfolding diff side changed compare_keys compare_key collect_keys must_marshal to_map is_nil
    new_event emit Map.lookup Map.insert
audit = tt

abbrev old_lead : Map String String
old_lead = ("name", "\"Ann\"") ∷ ("stage", "\"new\"") ∷ ("score", "1") ∷ []

abbrev new_lead : Map String String
new_lead = ("name", "\"Ann\"") ∷ ("stage", "\"won\"") ∷ ("owner", "\"bo\"") ∷ []

abbrev render : Map String String → String
render [] = ""
render ((k, v) ∷ m) = k ++ "=" ++ v ++ ";" ++ render m

-- Operands are maps, and only the texts of the two leads decode to objects.
abbrev decode : String → Result String (Map String String)
decode text =
    if ivorycom_governance.Common.◌==◌ text (render old_lead)
    then ok old_lead
    else if ivorycom_governance.Common.◌==◌ text (render new_lead)
    then ok new_lead
    else err "no object"

abbrev encode : Operand (Map String String) → Result String String
encode absent = ok "null"
encode (reference null m) = ok (render m)
encode (plain m) = ok (render m)

abbrev json : Json (Map String String)
json = record { marshal = encode; unmarshal = decode; marshal_map = λ m. ok (render m) }

diff_test :
    diff json (plain old_lead) (plain new_lead)
    ≡ ok "old=stage=\"new\";score=1;;new=stage=\"won\";owner=\"bo\";;"
unfolding audit
diff_test = refl

created_test :
    diff json (reference true new_lead) (plain old_lead)
    ≡ ok "old=null;new=name=\"Ann\";stage=\"new\";score=1;;"
unfolding audit
created_test = refl

diff-Succeeds_iff_example :
    Succeeds (diff coding (plain old_lead) absent)
    ↔ (IsAccepted coding (plain old_lead) × IsAccepted coding absent)
diff-Succeeds_iff_example =
    diff-Succeeds_iff coding (λ _. Unit) coding-IsJson (plain old_lead) absent

-- operands that are not nil and encode to `null`
abbrev nullified : Json (Map String String)
nullified = record coding { marshal = λ v. ok "null" }

nullified-IsJson : IsJson nullified (λ _. Unit)
nullified-IsJson = record {
  fields = λ v text m h h' k w e. tt;
  null_canonical = tt;
  null = coding-IsJson.null;
  restores = λ m c.
      let r = coding-IsJson.restores m c in
      record {
        doc = r.doc;
        decoded = r.decoded;
        encodes = r.encodes;
        canonical = tt;
        decodes = r.decodes;
        same = r.same;
      };
}

null_operand_test : Succeeds (diff nullified (plain old_lead) absent)
unfolding audit
null_operand_test =
    (diff-Succeeds_iff nullified (λ _. Unit) nullified-IsJson (plain old_lead) absent).1
      (inr (inl refl), inl refl)

abbrev params : Params
params = record {
  tenant_id = "t1";
  user_id = "u1";
  agent_id = "";
  action = action_update;
  object_type = "lead";
  object_id = "l1";
  diff_json = "{}";
  source_ip = "";
  trace_id = "";
  service = "crm";
  jti = "";
}

-- the clock's answers are numbers, the outbox is a list, and the payload of an event is its id
abbrev payload_of : AuditEvent ℕ → Result String String
payload_of ev = ok ev.id

abbrev write : OutboxEnvelope → List OutboxEnvelope → Written (List OutboxEnvelope)
write env outbox = (env ∷ outbox, none)

abbrev event : AuditEvent ℕ
event = record {
  id = "e1";
  tenant_id = "t1";
  actor_type = "";
  user_id = "u1";
  agent_id = "";
  action = "update";
  object_type = "lead";
  object_id = "l1";
  diff_json = "{}";
  source_ip = "";
  trace_id = "";
  service = "crm";
  jti = "";
  event_time = 5;
}

missing_test :
    new_event {Time = ℕ} "e1" 5 (record params { action = ""; service = "" }) ≡ err action_required
unfolding audit
missing_test = refl

emit_test : emit payload_of write event [] ≡ (
  record { topic = "audit"; event_type = "audit.lead.update"; tenant_id = "t1"; payload = "e1" }
      ∷ [],
  none,
)
unfolding audit
emit_test = refl
