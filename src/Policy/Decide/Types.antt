-- ===== src/Policy/Decide/Types.antt =====
-- go/policy/decide.go: actors, risks, requests and results. `ActorType`, `RiskLevel` and the reason
-- codes are string types in the source, and stay strings: a request may hold any other value.
use ivorycom_governance.Common.{
  ℕ, String, Bool, true, false, ◌||◌, List, [], ◌==◌, string_eq, if◌then◌else◌,
}
use ivorycom_governance.Common.Int.{ℤ}
use ivorycom_governance.Common.Map.{Map}
use ivorycom_governance.Policy.Model.{Identity, Limits, zero_limits}

abbrev pub actor_user : String
actor_user = "USER"

abbrev pub actor_admin : String
actor_admin = "ADMIN"

abbrev pub actor_service : String
actor_service = "SERVICE"

abbrev pub actor_agent : String
actor_agent = "AGENT"

abbrev pub actor_automation : String
actor_automation = "AUTOMATION"

abbrev pub actor_external_integration : String
actor_external_integration = "EXTERNAL_INTEGRATION"

abbrev pub actor_system : String
actor_system = "SYSTEM"

-- a label of stored audit rows, which is no live actor
abbrev pub actor_legacy_unknown : String
actor_legacy_unknown = "LEGACY_UNKNOWN"

abbrev pub risk_low : String
risk_low = "LOW"

abbrev pub risk_medium : String
risk_medium = "MEDIUM"

abbrev pub risk_high : String
risk_high = "HIGH"

abbrev pub risk_critical : String
risk_critical = "CRITICAL"

-- The code only ever makes these four values of its string type `Effect`.
pub data Effect : Type 0 where
  effect_allow effect_deny effect_allow_with_conditions effect_require_approval : Effect

abbrev pub reason_critical_agent_prohibited : String
reason_critical_agent_prohibited = "critical_agent_prohibited"

abbrev pub reason_external_risk_cap : String
reason_external_risk_cap = "external_risk_cap"

abbrev pub reason_actor_type_missing : String
reason_actor_type_missing = "actor_type_missing"

abbrev pub reason_invalid_request : String
reason_invalid_request = "invalid_request"

abbrev pub reason_policy_absent : String
reason_policy_absent = "policy_absent"

abbrev pub reason_resource_denied : String
reason_resource_denied = "resource_denied"

abbrev pub reason_no_capability : String
reason_no_capability = "no_capability"

abbrev pub reason_autonomy_unconfigured : String
reason_autonomy_unconfigured = "autonomy_unconfigured"

abbrev pub reason_autonomy_halted : String
reason_autonomy_halted = "autonomy_halted"

abbrev pub reason_invalid_policy_config : String
reason_invalid_policy_config = "invalid_policy_config"

-- the ordinal, and whether the risk is recognised
unfoldable pub risk_ordinal : String → ℕ × Bool
risk_ordinal r =
    if r == risk_low
    then (10, true)
    else if r == risk_medium
    then (20, true)
    else if r == risk_high
    then (30, true)
    else if r == risk_critical
    then (40, true)
    else (0, false)

unfoldable pub is_live_actor : String → Bool
is_live_actor a =
    a == actor_user
    || a == actor_admin
    || a == actor_service
    || a == actor_agent
    || a == actor_automation
    || a == actor_external_integration
    || a == actor_system

unfoldable pub is_agent_class : String → Bool
is_agent_class a = a == actor_agent || a == actor_automation || a == actor_external_integration

pub record DecisionRequest : Type 0 where
  pub identity : Identity
  pub action : String
  pub object_type : String
  pub action_verb : String
  pub field : String
  pub risk : String
  pub approval_verified : Bool
  pub amount_minor : ℤ
  pub service_allowed : Bool
  pub mutates_tenant_data : Bool

pub record DecisionResult : Type 0 where
  pub effect : Effect
  pub reason_code : String
  pub reason : String
  pub visible_fields : List String
  pub masked_fields : Map String String
  pub policy_version : ℤ
  pub limits_required : Limits

unfoldable pub deny : ℤ → String → String → DecisionResult
deny version code msg = record {
  effect = effect_deny;
  reason_code = code;
  reason = msg;
  visible_fields = [];
  masked_fields = [];
  policy_version = version;
  limits_required = zero_limits;
}

unfoldable pub is_protected_config : String → Bool
is_protected_config object_type =
    object_type == "billing_config"
    || object_type == "security_config"
    || object_type == "billing"
    || object_type == "security"
