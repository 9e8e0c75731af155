-- ===== src/Policy/Decide/GateRefusals.antt =====
-- go/policy/decide.go: with which reason code the stages for every actor refuse, and when.
use ivorycom_governance.Common.{
  String, ◌<◌, ◌≡◌, ◌↔◌, ◌⊎◌, true, false, Option, none, some, arith, eq_iff, string_eq,
}
use ivorycom_governance.Common.Int.{pos, ◌<ℤ◌, ◌≤ℤ◌}
use ivorycom_governance.Policy.Model.{Decision, CompiledBundle}
use ivorycom_governance.Policy.Decide.Types.{
  DecisionRequest, risk_ordinal, is_live_actor, is_agent_class, deny, actor_service,
  actor_external_integration, actor_system, risk_medium, risk_critical,
  reason_critical_agent_prohibited, reason_external_risk_cap, reason_actor_type_missing,
  reason_invalid_request, reason_policy_absent, reason_resource_denied,
}
use ivorycom_governance.Policy.Decide.Stages.{Gate, refused, passed, preconditions, stage_a}
use ivorycom_governance.Policy.Decide.Gates.{risk_of, actor_of}

-- the reason code with which a gate refuses
abbrev pub refusal {ℓ} : {A : Type ℓ} → Gate A → Option String
refusal (refused r) = some r.reason_code
refusal (passed a) = none

module _ (bundle : CompiledBundle) (req : DecisionRequest) where
  -- No loaded bundle, else no live actor, else no known risk.
  abbrev pub IsInadmissible : String → Type 0
  IsInadmissible code =
      ((code ≡ reason_policy_absent) × (bundle.version ≤ℤ pos 0))
      ⊎ ((code ≡ reason_actor_type_missing)
          × (pos 0 <ℤ bundle.version)
          × (is_live_actor (actor_of req) ≡ false))
      ⊎ ((code ≡ reason_invalid_request)
          × (pos 0 <ℤ bundle.version)
          × (is_live_actor (actor_of req) ≡ true)
          × ((risk_ordinal req.risk).1 ≡ false))

  pub preconditions-refusal_iff :
      (code : String) → (refusal (preconditions bundle req) ≡ some code) ↔ IsInadmissible code
  unfolding preconditions deny
  preconditions-refusal_iff code = ground arith

  abbrev IsCriticalAgent : Type 0
  IsCriticalAgent = (is_agent_class (actor_of req) ≡ true) × (req.risk ≡ risk_critical)

  abbrev IsAboveCap : Type 0
  IsAboveCap =
      (actor_of req ≡ actor_external_integration) × ((risk_ordinal risk_medium).0 < risk_of req)

  -- A CRITICAL action by the agent class, else an external integration above MEDIUM, else a service
  -- or the system beyond what they may do, or neither an RBAC grant nor a verified approval.
  abbrev pub IsForbidden : Decision → String → Type 0
  IsForbidden rbac code =
      ((code ≡ reason_critical_agent_prohibited) × IsCriticalAgent)
      ⊎ ((code ≡ reason_external_risk_cap) × (IsCriticalAgent → ⊥) × IsAboveCap)
      ⊎ ((code ≡ reason_resource_denied)
          × (IsCriticalAgent → ⊥)
          × (IsAboveCap → ⊥)
          × (((actor_of req ≡ actor_service) × (req.service_allowed ≡ false))
              ⊎ ((actor_of req ≡ actor_system) × (req.mutates_tenant_data ≡ true))
              ⊎ ((rbac.allow ≡ false) × (req.approval_verified ≡ false))))

  pub stage_a-refusal_iff :
      (rbac : Decision) (code : String)
      → (refusal (stage_a bundle req (risk_of req) rbac) ≡ some code) ↔ IsForbidden rbac code
  unfolding stage_a deny
  stage_a-refusal_iff rbac code = ground (
    arith,
    eq_iff req.risk risk_critical,
    eq_iff (actor_of req) actor_external_integration,
    eq_iff (actor_of req) actor_service,
    eq_iff (actor_of req) actor_system,
  )
