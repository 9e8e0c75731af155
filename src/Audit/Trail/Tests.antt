-- ===== src/Audit/Trail/Tests.antt =====
-- The change of a record on its way to an outbox that is a list, and the theorem at it.
use ivorycom_governance.Common.{
  ℕ, String, ◌≡◌, refl, ap, Option, none, some, List, [], ◌∷◌, string_eq,
}
use ivorycom_governance.Common.Map
use ivorycom_governance.Common.Map.{Map}
use ivorycom_governance.Common.Result.{Result, ok}
use ivorycom_governance.Audit.Diff.{plain, is_nil, to_map}
use ivorycom_governance.Audit.Diff.Sample.{
  coding, coding-IsJson, write_text, read_texts, write_map, read_map, read_map-write_map,
}
use ivorycom_governance.Audit.Event.{AuditEvent, Params, OutboxEnvelope, Written}
use ivorycom_governance.Audit.Trail.{KeepsDiff, Trail, emit-Trail}

abbrev old_deal : Map String String
old_deal = ("stage", "\"new\"") ∷ ("score", "1") ∷ []

abbrev new_deal : Map String String
new_deal = ("stage", "\"won\"") ∷ ("owner", "\"bo\"") ∷ []

abbrev params : Params
params = record {
  tenant_id = "t1";
  user_id = "u1";
  agent_id = "";
  action = "update";
  object_type = "deal";
  object_id = "d1";
  diff_json = "";
  source_ip = "";
  trace_id = "";
  service = "crm";
  jti = "";
}

-- An event is coded by its id and its difference.
abbrev fields_of : AuditEvent ℕ → Map String String
fields_of ev = ("id", ev.id) ∷ ("diff_json", ev.diff_json) ∷ []

abbrev marshal : AuditEvent ℕ → Result String String
marshal ev = ok (write_map (fields_of ev))

abbrev or_empty : Option String → String
or_empty none = ""
or_empty (some s) = s

abbrev event_of : Map String String → AuditEvent ℕ
event_of m = record {
  id = or_empty (Map.lookup "id" m);
  tenant_id = "";
  actor_type = "";
  user_id = "";
  agent_id = "";
  action = "";
  object_type = "";
  object_id = "";
  diff_json = or_empty (Map.lookup "diff_json" m);
  source_ip = "";
  trace_id = "";
  service = "";
  jti = "";
  event_time = 0;
}

abbrev unmarshal : String → Result String (AuditEvent ℕ)
unmarshal s = ok (event_of (read_map s))

marshal-KeepsDiff : (ev : AuditEvent ℕ) → KeepsDiff marshal unmarshal ev
unfolding Map.lookup
marshal-KeepsDiff ev = record {
  payload = write_map (fields_of ev);
  decoded = event_of (read_map (write_map (fields_of ev)));
  encodes = refl;
  decodes = refl;
  same = ap (λ m. (event_of m).diff_json) (read_map-write_map (fields_of ev));
}

abbrev write : OutboxEnvelope → List OutboxEnvelope → Written (List OutboxEnvelope)
write env outbox = (env ∷ outbox, none)

deals_are_objects :
    (to_map coding (plain old_deal) ≡ ok old_deal) × (to_map coding (plain new_deal) ≡ ok new_deal)
unfolding to_map is_nil write_text read_texts write_map read_map
deals_are_objects = (refl, refl)

emit-Trail_example :
    Trail coding marshal unmarshal write
      (plain old_deal)
      (plain new_deal)
      old_deal
      new_deal
      "e1"
      5
      params
      []
emit-Trail_example =
    emit-Trail coding (λ _. Unit {0}) marshal unmarshal write (plain old_deal) (plain new_deal)
      old_deal new_deal "e1" 5 params [] coding-IsJson (λ ev c. marshal-KeepsDiff ev)
      deals_are_objects.0 deals_are_objects.1 ((λ h. cc), (λ h. cc), (λ h. cc), (λ h. cc))
