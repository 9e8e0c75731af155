-- ===== src/Policy/Decide/Stages.antt =====
-- go/policy/decide.go: `Decide`, its preconditions and stages in the order of the code. An early
-- return is a `refused` gate.
use Prim.Native.String
use ivorycom_governance.Common.{
  ℕ, String, Bool, true, false, not, ◌&&◌, ◌||◌, Option, none, some, ltb, ◌==◌, string_eq,
  if◌then◌else◌,
}
use ivorycom_governance.Common.Int.{pos, ltb_ℤ, leb_ℤ, eqb_ℤ}
use ivorycom_governance.Policy.Model.{
  Decision, CompiledBundle, AutonomyProfile, CapabilityRule, zero_profile, zero_capability,
  capability_for, autonomy_for, autonomy_enabled, autonomy_restricted, autonomy_paused,
  autonomy_disabled,
}
use ivorycom_governance.Policy.Engine.{can}
use ivorycom_governance.Policy.Decide.Types.{
  reason_critical_agent_prohibited, reason_external_risk_cap, reason_actor_type_missing,
  reason_invalid_request, reason_policy_absent, reason_resource_denied, reason_no_capability,
  reason_autonomy_unconfigured, reason_autonomy_halted, reason_invalid_policy_config,
  DecisionRequest, DecisionResult, deny, risk_ordinal, is_live_actor, is_agent_class, actor_service,
  actor_external_integration, actor_system, risk_medium, risk_critical,
}
use ivorycom_governance.Policy.Decide.Choice.{outcome}

-- The run so far: it has returned a refusal, or goes on with a value.
pub data Gate {ℓ} (A : Type ℓ) : Type ℓ where
  refused : DecisionResult → Gate A
  passed : A → Gate A

infixl 5 ◌>>=◌ ◌>>◌
abbrev pub ◌>>=◌ {ℓ κ} : {A : Type ℓ} {B : Type κ} → Gate A → (A → Gate B) → Gate B
refused r >>= k = refused r
passed a >>= k = k a

abbrev pub ◌>>◌ {ℓ} : {B : Type ℓ} → Gate (Unit {0}) → Gate B → Gate B
m >> k = m >>= λ _. k

abbrev pub refuse_if : Bool → DecisionResult → Gate (Unit {0})
refuse_if true r = refused r
refuse_if false r = passed tt

-- the preconditions; what passes is the ordinal of the risk
unfoldable pub preconditions : CompiledBundle → DecisionRequest → Gate ℕ
preconditions bundle req = do
  refuse_if (leb_ℤ bundle.version (pos 0))
      (deny (pos 0) reason_policy_absent "no policy bundle loaded")
  refuse_if (not (is_live_actor req.identity.actor_type)) (
      deny bundle.version reason_actor_type_missing
        "actor type is missing or not valid on a live request")
  refuse_if (not (risk_ordinal req.risk).1)
      (deny bundle.version reason_invalid_request "unrecognised risk level")
  passed (risk_ordinal req.risk).0

-- Stage A, with the RBAC decision that its last check reads
unfoldable pub stage_a : CompiledBundle → DecisionRequest → ℕ → Decision → Gate (Unit {0})
stage_a bundle req risk_ord rbac = do
  refuse_if (is_agent_class req.identity.actor_type && req.risk == risk_critical) (
      deny bundle.version reason_critical_agent_prohibited
        "CRITICAL actions are never executable by an agent-class actor")
  refuse_if
      (req.identity.actor_type == actor_external_integration
        && ltb (risk_ordinal risk_medium).0 risk_ord)
      (deny bundle.version reason_external_risk_cap
        "external integrations may not exceed MEDIUM risk")
  refuse_if (req.identity.actor_type == actor_service && not req.service_allowed) (
      deny bundle.version reason_resource_denied
        "service actors may only invoke registry service_allowed actions")
  refuse_if (req.identity.actor_type == actor_system && req.mutates_tenant_data)
      (deny bundle.version reason_resource_denied "system actor may not mutate tenant data")
  refuse_if (not rbac.allow && not req.approval_verified)
      (deny bundle.version reason_resource_denied rbac.reason)

-- `v, ok := …; if !ok { return … }`
abbrev pub or_refuse {ℓ} : {A : Type ℓ} → Option A → DecisionResult → Gate A
or_refuse none r = refused r
or_refuse (some a) r = passed a

-- the switch on the tenant's autonomy mode
unfoldable pub check_mode : CompiledBundle → String → Gate (Unit {0})
check_mode bundle mode =
    if mode == autonomy_enabled || mode == autonomy_restricted
    then passed tt
    else if mode == autonomy_paused || mode == autonomy_disabled
    then refused
        (deny bundle.version reason_autonomy_halted (String.◌++◌ "tenant autonomy is " mode))
    else refused (deny bundle.version reason_invalid_policy_config "unrecognised autonomy mode")

-- Stage B: the tenant's profile
unfoldable pub check_profile : CompiledBundle → DecisionRequest → Gate AutonomyProfile
check_profile bundle req = do
  profile ←
      or_refuse (autonomy_for bundle req.identity.tenant_id) (
        deny bundle.version reason_autonomy_unconfigured "tenant has not configured agent autonomy")
  check_mode bundle profile.mode
  refuse_if (not (risk_ordinal profile.max_auto_risk).1)
      (deny bundle.version reason_invalid_policy_config "tenant MaxAutoRisk is missing or invalid")
  refuse_if
      (ltb_ℤ profile.limits.max_actions_per_run (pos 0)
        || ltb_ℤ profile.limits.max_actions_per_hour (pos 0)
        || ltb_ℤ profile.limits.max_money_movement_minor (pos 0))
      (deny bundle.version reason_invalid_policy_config "tenant limits must be non-negative")
  passed profile

-- Stage B: the agent's capability
unfoldable pub check_capability :
    CompiledBundle → DecisionRequest → AutonomyProfile → Gate CapabilityRule
check_capability bundle req profile = do
  refuse_if (req.identity.agent_id == "") (
      deny bundle.version reason_no_capability
        "agent-class requests require an agent identity to attach capabilities to")
  cap ←
      or_refuse (capability_for bundle req.identity.tenant_id req.identity.agent_id req.action)
        (deny bundle.version reason_no_capability "no capability grants this agent role the action")
  refuse_if (not cap.allow)
      (deny bundle.version reason_no_capability "no capability grants this agent role the action")
  refuse_if (not (risk_ordinal cap.max_risk).1)
      (deny bundle.version reason_invalid_policy_config "capability MaxRisk is missing or invalid")
  refuse_if
      (ltb_ℤ (pos 0) req.amount_minor && eqb_ℤ profile.limits.max_money_movement_minor (pos 0))
      (deny bundle.version reason_invalid_policy_config "tenant prohibits money movement by agents")
  passed cap

-- what follows Stage A
unfoldable pub finish : CompiledBundle → DecisionRequest → ℕ → Decision → Gate DecisionResult
finish bundle req risk_ord rbac =
    if is_agent_class req.identity.actor_type
    then (do
      profile ← check_profile bundle req
      cap ← check_capability bundle req profile
      passed (record (outcome req risk_ord profile cap rbac) {
        policy_version = bundle.version;
        limits_required = profile.limits;
      }))
    else passed (record (outcome req risk_ord zero_profile zero_capability rbac) {
      policy_version = bundle.version;
    })

abbrev pub settle : Gate DecisionResult → DecisionResult
settle (refused r) = r
settle (passed r) = r

-- The getter is called twice: `first` by `Decide`, `second` by `Can` inside it.
unfoldable pub ladder : CompiledBundle → CompiledBundle → DecisionRequest → Gate DecisionResult
ladder first second req = do
  risk_ord ← preconditions first req
  let rbac = can second req.identity req.action_verb req.object_type req.field
  stage_a first req risk_ord rbac
  finish first req risk_ord rbac

unfoldable pub decide : CompiledBundle → CompiledBundle → DecisionRequest → DecisionResult
decide first second req = settle (ladder first second req)
