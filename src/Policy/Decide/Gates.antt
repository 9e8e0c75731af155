-- ===== src/Policy/Decide/Gates.antt =====
-- go/policy/decide.go: when each stage of `Decide` lets a request pass, and what a refusal is.
use ivorycom_governance.Common.{
  ℕ, ◌≤◌, String, ◌≡◌, ◌≢◌, ◌↔◌, ◌⊎◌, true, false, some, arith, eq_iff, string_eq,
}
use ivorycom_governance.Common.Int.{pos, ◌<ℤ◌, ◌≤ℤ◌, eqb_ℤ_iff}
use ivorycom_governance.Policy.Model.{
  Decision, CompiledBundle, AutonomyProfile, CapabilityRule, autonomy_for, capability_for,
  autonomy_enabled, autonomy_restricted, autonomy_paused, autonomy_disabled, zero_limits,
}
use ivorycom_governance.Policy.Decide.Types.{
  DecisionRequest, risk_ordinal, is_live_actor, is_agent_class, actor_service,
  actor_external_integration, actor_system, risk_medium, risk_critical,
}
use ivorycom_governance.Policy.Decide.Stages.{
  passed, preconditions, stage_a, check_mode, check_profile, check_capability,
}

abbrev pub risk_of : DecisionRequest → ℕ
risk_of req = (risk_ordinal req.risk).0

abbrev pub actor_of : DecisionRequest → String
actor_of req = req.identity.actor_type

module _ (req : DecisionRequest) where
  -- What Stage A demands of a request that an RBAC decision answers.
  pub record IsPermitted (rbac : Decision) : Type 0 where
    pub not_critical : (is_agent_class (actor_of req) ≡ false) ⊎ (req.risk ≢ risk_critical)
    pub external_cap :
        (actor_of req ≢ actor_external_integration) ⊎ (risk_of req ≤ (risk_ordinal risk_medium).0)
    pub service : (actor_of req ≢ actor_service) ⊎ (req.service_allowed ≡ true)
    pub system : (actor_of req ≢ actor_system) ⊎ (req.mutates_tenant_data ≡ false)
    pub rbac_or_approval : (rbac.allow ≡ true) ⊎ (req.approval_verified ≡ true)

  pub stage_a_iff :
      (bundle : CompiledBundle) (rbac : Decision)
      → (stage_a bundle req (risk_of req) rbac ≡ passed tt) ↔ IsPermitted rbac
  unfolding stage_a
  stage_a_iff bundle rbac = ground (
    arith,
    eq_iff req.risk risk_critical,
    eq_iff (actor_of req) actor_external_integration,
    eq_iff (actor_of req) actor_service,
    eq_iff (actor_of req) actor_system,
  )

module _ (bundle : CompiledBundle) (req : DecisionRequest) where
  -- The bundle is loaded, and the actor and the risk are known ones.
  pub record IsAdmissible : Type 0 where
    pub loaded : pos 0 <ℤ bundle.version
    pub live : is_live_actor (actor_of req) ≡ true
    pub known : (risk_ordinal req.risk).1 ≡ true

  pub preconditions_iff :
      (n : ℕ) → (preconditions bundle req ≡ passed n) ↔ (IsAdmissible × (n ≡ risk_of req))
  unfolding preconditions
  preconditions_iff n = ground arith

  -- A profile with which the tenant's agents may act.
  pub record IsUsable (profile : AutonomyProfile) : Type 0 where
    pub configured : autonomy_for bundle req.identity.tenant_id ≡ some profile
    pub running : (profile.mode ≡ autonomy_enabled) ⊎ (profile.mode ≡ autonomy_restricted)
    pub auto_risk : (risk_ordinal profile.max_auto_risk).1 ≡ true
    pub per_run : pos 0 ≤ℤ profile.limits.max_actions_per_run
    pub per_hour : pos 0 ≤ℤ profile.limits.max_actions_per_hour
    pub money : pos 0 ≤ℤ profile.limits.max_money_movement_minor

  -- A capability that lets the agent take the action under the tenant's profile.
  pub record IsCapable (profile : AutonomyProfile) (cap : CapabilityRule) : Type 0 where
    pub named : req.identity.agent_id ≢ ""
    pub granted :
        capability_for bundle req.identity.tenant_id req.identity.agent_id req.action ≡ some cap
    pub allowed : cap.allow ≡ true
    pub cap_risk : (risk_ordinal cap.max_risk).1 ≡ true
    pub funded : (req.amount_minor ≤ℤ pos 0) ⊎ (profile.limits.max_money_movement_minor ≢ pos 0)

  pub check_profile_iff :
      (profile : AutonomyProfile) → (check_profile bundle req ≡ passed profile) ↔ IsUsable profile
  unfolding check_profile check_mode
  check_profile_iff profile = ground (
    arith,
    eq_iff profile.mode autonomy_enabled,
    eq_iff profile.mode autonomy_restricted,
    eq_iff profile.mode autonomy_paused,
    eq_iff profile.mode autonomy_disabled,
    zero_limits,
  )

  pub check_capability_iff :
      (profile : AutonomyProfile) (cap : CapabilityRule)
      → (check_capability bundle req profile ≡ passed cap) ↔ IsCapable profile cap
  unfolding check_capability
  check_capability_iff profile cap = ground (
    arith,
    eq_iff req.identity.agent_id "",
    eqb_ℤ_iff profile.limits.max_money_movement_minor (pos 0),
  )
