-- ===== src/Audit/Event.antt =====
-- go/audit/event.go and go/audit/emit.go: audit events, and writing one to the outbox. The id and
-- the time of an event are arguments: they come from a generator and a clock.
pub mod Required
use Prim.Native.String.{◌++◌}
use ivorycom_governance.Common.{
  String, Bool, true, false, Option, none, some, ◌==◌, string_eq, if◌then◌else◌,
}
use ivorycom_governance.Common.Result.{Result, ok, err}

-- the values of `Action`, a string type
abbrev pub action_create : String
action_create = "create"

abbrev pub action_update : String
action_update = "update"

abbrev pub action_delete : String
action_delete = "delete"

abbrev pub action_tool_call : String
action_tool_call = "tool_call"

abbrev pub action_sync : String
action_sync = "sync"

abbrev pub action_workflow_run : String
action_workflow_run = "workflow_run"

abbrev pub action_impersonate : String
action_impersonate = "impersonate"

abbrev pub action_permission_change : String
action_permission_change = "permission_change"

abbrev pub action_billing : String
action_billing = "billing"

abbrev pub action_export : String
action_export = "export"

-- `Time` is the type of the clock's answers.
pub record AuditEvent (Time : Type 0) : Type 0 where
  pub id : String
  pub tenant_id : String
  pub actor_type : String
  pub user_id : String
  pub agent_id : String
  pub action : String
  pub object_type : String
  pub object_id : String
  pub diff_json : String
  pub source_ip : String
  pub trace_id : String
  pub service : String
  pub jti : String
  pub event_time : Time

pub record Params : Type 0 where
  pub tenant_id : String
  pub user_id : String
  pub agent_id : String
  pub action : String
  pub object_type : String
  pub object_id : String
  pub diff_json : String
  pub source_ip : String
  pub trace_id : String
  pub service : String
  pub jti : String

pub data EventError : Type 0 where
  tenant_id_required : EventError
  action_required : EventError
  object_type_required : EventError
  service_required : EventError

unfoldable pub new_event :
    {Time : Type 0} → String → Time → Params → Result EventError (AuditEvent Time)
new_event id now p =
    if p.tenant_id == ""
    then err tenant_id_required
    else if p.action == ""
    then err action_required
    else if p.object_type == ""
    then err object_type_required
    else if p.service == ""
    then err service_required
    else ok (record {
      id = id;
      tenant_id = p.tenant_id;
      actor_type = "";
      user_id = p.user_id;
      agent_id = p.agent_id;
      action = p.action;
      object_type = p.object_type;
      object_id = p.object_id;
      diff_json = p.diff_json;
      source_ip = p.source_ip;
      trace_id = p.trace_id;
      service = p.service;
      jti = p.jti;
      event_time = now;
    })

-- `none` is a panic.
unfoldable pub must_new_event : {Time : Type 0} → String → Time → Params → Option (AuditEvent Time)
must_new_event id now p = elim (new_event id now p) [ ok ev ↦ some ev | err e ↦ none ]

pub record OutboxEnvelope : Type 0 where
  pub topic : String
  pub event_type : String
  pub tenant_id : String
  pub payload : String

-- What a write leaves behind, and its error.
abbrev pub Written : Type 0 → Type 0
Written S = S × Option String

-- `json.Marshal` of an event, and the write into the outbox, are arguments; `outbox` is the state
-- that the write changes.
unfoldable pub emit :
    {Time S : Type 0}
    → (AuditEvent Time → Result String String)
    → (OutboxEnvelope → S → Written S)
    → AuditEvent Time
    → S
    → Written S
emit marshal write ev outbox = elim (marshal ev) [
  | err e ↦ (outbox, some (("audit: marshal event: ") ++ e))
  | ok payload ↦
      write
        (record {
          topic = "audit";
          event_type = "audit." ++ ev.object_type ++ "." ++ ev.action;
          tenant_id = ev.tenant_id;
          payload = payload;
        })
        outbox
]
