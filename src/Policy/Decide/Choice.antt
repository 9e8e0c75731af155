-- ===== src/Policy/Decide/Choice.antt =====
-- go/policy/decide.go: `outcome`, which selects the shape of a permission.
use ivorycom_governance.Common.{
  ℕ, String, Bool, false, not, ◌&&◌, ◌||◌, ltb, leb, ◌==◌, string_eq, if◌then◌else◌, is_empty,
}
use ivorycom_governance.Common.Int.{pos, ltb_ℤ}
use ivorycom_governance.Policy.Model.{
  Decision, AutonomyProfile, CapabilityRule, autonomy_enabled, autonomy_restricted, zero_limits,
}
use ivorycom_governance.Policy.Decide.Types.{
  Effect, effect_allow, effect_allow_with_conditions, effect_require_approval, risk_low, risk_high,
  risk_ordinal, is_agent_class, DecisionRequest, DecisionResult, is_protected_config,
}

unfoldable pub high_delegated : AutonomyProfile → CapabilityRule → Bool
high_delegated profile cap =
    let high = (risk_ordinal risk_high).0 in
    let auto_risk = risk_ordinal profile.max_auto_risk in
    let cap_risk = risk_ordinal cap.max_risk in
    if not (profile.mode == autonomy_enabled) || cap.requires_approval
    then false
    else auto_risk.1 && cap_risk.1 && leb high auto_risk.0 && leb high cap_risk.0

-- `effect` and `reason_code` as `outcome` sets them before it returns
pub record Choice : Type 0 where
  pub effect : Effect
  pub reason_code : String

abbrev approval : String → Choice
approval code = record { effect = effect_require_approval; reason_code = code }

-- the last branch, and the one for a verified approval
unfoldable pub permit : Decision → Choice
permit rbac = record {
  effect = if is_empty rbac.masked_fields then effect_allow else effect_allow_with_conditions;
  reason_code = "";
}

-- the switch on the ceilings of an agent's capability and tenant
unfoldable pub ceilings : ℕ → AutonomyProfile → CapabilityRule → Choice → Choice
ceilings risk_ord profile cap otherwise =
    if cap.requires_approval
    then approval "approval_required_capability"
    else if ltb (risk_ordinal cap.max_risk).0 risk_ord
    then approval "approval_required_capability_max_risk"
    else if ltb (risk_ordinal profile.max_auto_risk).0 risk_ord
    then approval "approval_required_tenant_max_auto_risk"
    else if profile.mode == autonomy_restricted && ltb (risk_ordinal risk_low).0 risk_ord
    then approval "approval_required_autonomy_restricted"
    else otherwise

-- the switch of the guardrail set
unfoldable pub guardrails : DecisionRequest → ℕ → Choice → Choice
guardrails req risk_ord otherwise =
    if ltb_ℤ (pos 0) req.amount_minor
    then approval "approval_required_money_movement"
    else if req.action_verb == "delete" && leb (risk_ordinal risk_high).0 risk_ord
    then approval "approval_required_destructive"
    else if is_protected_config req.object_type
    then approval "approval_required_protected_config"
    else otherwise

-- the HIGH floor and what follows it
unfoldable pub by_risk : DecisionRequest → ℕ → AutonomyProfile → CapabilityRule → Decision → Choice
by_risk req risk_ord profile cap rbac =
    let agent = is_agent_class req.identity.actor_type in
    if leb (risk_ordinal risk_high).0 risk_ord && not (agent && high_delegated profile cap)
    then approval "approval_required_high_risk"
    else if agent
    then ceilings risk_ord profile cap (permit rbac)
    else permit rbac

unfoldable pub choose : DecisionRequest → ℕ → AutonomyProfile → CapabilityRule → Decision → Choice
choose req risk_ord profile cap rbac =
    if req.approval_verified
    then permit rbac
    else if is_agent_class req.identity.actor_type
    then guardrails req risk_ord (by_risk req risk_ord profile cap rbac)
    else by_risk req risk_ord profile cap rbac

-- `Decide` sets the version and the limits of the result.
unfoldable pub outcome :
    DecisionRequest → ℕ → AutonomyProfile → CapabilityRule → Decision → DecisionResult
outcome req risk_ord profile cap rbac =
    let choice = choose req risk_ord profile cap rbac in
    record {
      effect = choice.effect;
      reason_code = choice.reason_code;
      reason = "";
      visible_fields = rbac.visible_fields;
      masked_fields = rbac.masked_fields;
      policy_version = pos 0;
      limits_required = zero_limits;
    }
