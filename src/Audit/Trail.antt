-- ===== src/Audit/Trail.antt =====
-- go/audit: `Diff`, `NewEvent` and `Emit` one after the other, and a reader of the outbox.
mod Tests
use Prim.Native.String.{◌++◌}
use ivorycom_governance.Common.{String, ◌≡◌, refl, sym, ap, ◌∙◌, arith}
use ivorycom_governance.Common.Map.{Map}
use ivorycom_governance.Common.Result.{Result, ok, err, ◌>>=◌}
use ivorycom_governance.Audit.Diff.{Operand, Json, Sides, to_map, diff}
use ivorycom_governance.Audit.Diff.Restored.{IsJson}
use ivorycom_governance.Audit.Diff.Document.{read_sides, Replays, diff-Replays}
use ivorycom_governance.Audit.Event.{AuditEvent, Params, new_event, OutboxEnvelope, Written, emit}
use ivorycom_governance.Audit.Event.Required.{
  IsAttributable, new_event-Succeeds_iff, new_event-fields,
}

-- the parameters with the difference filled in
abbrev pub with_diff : Params → String → Params
with_diff p doc = record p { diff_json = doc }

new_event-diff_json :
    {Time : Type 0} (id : String) (now : Time) (p : Params) (ev : AuditEvent Time)
    → new_event id now p ≡ ok ev
    → ev.diff_json ≡ p.diff_json
unfolding new_event
new_event-diff_json id now p ev h = ground arith

module _ {Time : Type 0} (marshal : AuditEvent Time → Result String String)
    (unmarshal : String → Result String (AuditEvent Time)) where
  -- The event is encoded, and what is decoded has its difference.
  pub record KeepsDiff (ev : AuditEvent Time) : Type 0 where
    pub payload : String
    pub decoded : AuditEvent Time
    pub encodes : marshal ev ≡ ok payload
    pub decodes : unmarshal payload ≡ ok decoded
    pub same : decoded.diff_json ≡ ev.diff_json

  -- a reader of a row of the outbox: it decodes the event and then the difference in it
  unfoldable pub read_row : {A : Type 0} → Json A → OutboxEnvelope → Result String Sides
  read_row x env = do ev ← unmarshal env.payload; read_sides x ev.diff_json

-- the row for an event and its encoding
abbrev row_of : {Time : Type 0} → AuditEvent Time → String → OutboxEnvelope
row_of ev payload = record {
  topic = "audit";
  event_type = "audit." ++ ev.object_type ++ "." ++ ev.action;
  tenant_id = ev.tenant_id;
  payload = payload;
}

emit-encoded :
    {Time S : Type 0} (marshal : AuditEvent Time → Result String String)
    (write : OutboxEnvelope → S → Written S) (ev : AuditEvent Time) (payload : String) (outbox : S)
    → marshal ev ≡ ok payload
    → emit marshal write ev outbox ≡ write (row_of ev payload) outbox
unfolding emit
emit-encoded marshal write ev payload outbox h = rw (emit, h) refl

-- What the three calls leave for a reader: one row in the outbox, under the tenant and the kind of
-- the event, from which the reader gets the two sides by which `b` and `a` follow from each other.
pub record Trail {A Time S : Type 0} (x : Json A) (marshal : AuditEvent Time → Result String String)
    (unmarshal : String → Result String (AuditEvent Time)) (write : OutboxEnvelope → S → Written S)
    (before after : Operand A) (b a : Map String String) (id : String) (now : Time) (p : Params)
    (outbox : S) : Type 0 where
  pub doc : String
  pub event : AuditEvent Time
  pub row : OutboxEnvelope
  pub sides : Sides
  pub differs : diff x before after ≡ ok doc
  pub makes : new_event id now (with_diff p doc) ≡ ok event
  pub writes : emit marshal write event outbox ≡ write row outbox
  pub of_tenant : row.tenant_id ≡ p.tenant_id
  pub of_kind : row.event_type ≡ "audit." ++ p.object_type ++ "." ++ p.action
  pub reads : read_row marshal unmarshal x row ≡ ok sides
  pub replays : Replays b a sides

-- Suppose that `encoding/json` decodes what it encodes, up to the order of the fields, for values in
-- the form in which it writes them, and keeps the difference in an event. Then for two operands that
-- encode to objects, or are nil, and parameters with a tenant, an action, an object type and a
-- service: `Diff` returns a document, `NewEvent` makes an event with it, and `Emit` hands the outbox
-- one row, under the tenant, the object type and the action, from which a reader gets two maps by
-- which each of the two states follows from the other.
pub emit-Trail :
    {A Time S : Type 0} (x : Json A) (Canonical : String → Type 0)
    (marshal : AuditEvent Time → Result String String)
    (unmarshal : String → Result String (AuditEvent Time)) (write : OutboxEnvelope → S → Written S)
    (before after : Operand A) (b a : Map String String) (id : String) (now : Time) (p : Params)
    (outbox : S)
    → IsJson x Canonical
    → ((ev : AuditEvent Time) → Canonical ev.diff_json → KeepsDiff marshal unmarshal ev)
    → to_map x before ≡ ok b
    → to_map x after ≡ ok a
    → IsAttributable p
    → Trail x marshal unmarshal write before after b a id now p outbox
unfolding read_row
emit-Trail x Canonical marshal unmarshal write before after b a id now p outbox json keeps first
      second attributable =
    let (s, read, replays) = diff-Replays x Canonical before after b a json first second in
    let filled = with_diff p read.doc in
    let (ev, made) = (new_event-Succeeds_iff id now filled).1 attributable in
    let (tenant, object_type, action) = new_event-fields id now filled ev made in
    let same = new_event-diff_json id now filled ev made in
    let kept = keeps ev (rw same read.canonical) in
    record {
      doc = read.doc;
      event = ev;
      row = row_of ev kept.payload;
      sides = s;
      differs = read.returns;
      makes = made;
      writes = emit-encoded marshal write ev kept.payload outbox kept.encodes;
      of_tenant = tenant;
      of_kind = rw (object_type, action) refl;
      reads = rw (kept.decodes, kept.same ∙ same) (read.reads);
      replays = replays;
    }
