-- ===== src/Audit/Event/Required.antt =====
-- go/audit/event.go, go/audit/emit.go: what an event must have, and where it goes.
use Prim.Native.String.{◌++◌}
use ivorycom_governance.Common.{
  String, ◌≡◌, ◌≢◌, ◌↔◌, ◌⊎◌, inl, inr, refl, false, ◌==◌, string_eq, eq_iff, arith,
}
use ivorycom_governance.Common.Result.{Result, ok, err, Result-cases}
use ivorycom_governance.Common.Codec.{Succeeds}
use ivorycom_governance.Audit.Event.{AuditEvent, Params, new_event, OutboxEnvelope, Written, emit}

-- The four fields that an event cannot do without are there.
abbrev pub IsAttributable : Params → Type 0
IsAttributable p = (p.tenant_id ≢ "") × (p.action ≢ "") × (p.object_type ≢ "") × (p.service ≢ "")

beq-false : (s t : String) → s ≢ t → (s == t) ≡ false
beq-false s t h = ground (arith, eq_iff s t)

-- `NewEvent` makes an event exactly when the tenant, the action, the object type and the service
-- are given.
pub new_event-Succeeds_iff :
    {Time : Type 0} (id : String) (now : Time) (p : Params)
    → Succeeds (new_event id now p) ↔ IsAttributable p
unfolding new_event
new_event-Succeeds_iff id now p = (
  λ (ev, h). (
    ground (arith, eq_iff p.tenant_id ""),
    ground (arith, eq_iff p.action ""),
    ground (arith, eq_iff p.object_type ""),
    ground (arith, eq_iff p.service ""),
  ),
  λ (a, b, c, d).
      rw
        (
          beq-false p.tenant_id "" a,
          beq-false p.action "" b,
          beq-false p.object_type "" c,
          beq-false p.service "" d,
        )
        (_, refl),
)

pub new_event-fields :
    {Time : Type 0} (id : String) (now : Time) (p : Params) (ev : AuditEvent Time)
    → new_event id now p ≡ ok ev
    → (ev.tenant_id ≡ p.tenant_id) × (ev.object_type ≡ p.object_type) × (ev.action ≡ p.action)
unfolding new_event
new_event-fields id now p ev h = ground arith

-- An event that `NewEvent` made goes to the outbox in one write, whose error is the answer, on the
-- topic of the audit, under the tenant, the object type and the action of the parameters, with the
-- event's encoding as its payload. If the event cannot be encoded, then nothing is written.
emit-new_event :
    {Time S : Type 0} (marshal : AuditEvent Time → Result String String)
    (write : OutboxEnvelope → S → Written S) (id : String) (now : Time) (p : Params)
    (ev : AuditEvent Time) (outbox : S)
    → new_event id now p ≡ ok ev
    → ((payload : String) × (marshal ev ≡ ok payload)
        × (emit marshal write ev outbox
            ≡ write
                (record {
                  topic = "audit";
                  event_type = "audit." ++ p.object_type ++ "." ++ p.action;
                  tenant_id = p.tenant_id;
                  payload = payload;
                })
                outbox))
      ⊎ ((e : String) × (marshal ev ≡ err e) × ((emit marshal write ev outbox).0 ≡ outbox))
unfolding emit
emit-new_event marshal write id now p ev outbox h = elim (Result-cases (marshal ev)) [
  | inl (payload, m) ↦
      inl (payload, m, let (t, o, a) = new_event-fields id now p ev h in rw (emit, m, t, o, a) refl)
  | inr (e, m) ↦ inr (e, m, rw (emit, m) refl)
]
