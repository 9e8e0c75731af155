-- ===== src/Policy/Decide/Autonomy.antt =====
-- go/policy/decide.go: exactly when a request goes through without an approval.
use ivorycom_governance.Common.{
  ◌≤◌, ◌<◌, ◌≡◌, ◌≢◌, ◌↔◌, ◌⊎◌, refl, sym, ap, ◌∙◌, inl, inr, true, false, arith, eq_iff,
}
use ivorycom_governance.Common.Int.{pos, ◌≤ℤ◌}
use ivorycom_governance.Policy.Model.{
  Decision, CompiledBundle, AutonomyProfile, CapabilityRule, zero_profile, zero_capability,
  autonomy_enabled, autonomy_restricted,
}
use ivorycom_governance.Policy.Decide.Types.{
  DecisionRequest, risk_ordinal, is_agent_class, is_protected_config, risk_low, risk_high,
}
use ivorycom_governance.Policy.Decide.Choice.{
  outcome, choose, by_risk, guardrails, ceilings, permit, high_delegated,
}
use ivorycom_governance.Policy.Decide.Stages.{decide}
use ivorycom_governance.Policy.Decide.Gates.{risk_of, actor_of}
use ivorycom_governance.Policy.Decide.Clearance.{
  IsCommon, IsDelegated, agent, other, decide-cases, decide_agent, decide_other,
}
use ivorycom_governance.Policy.Decide.Guardrails.{permits}

-- What a tenant's profile and capability must say for an agent to act alone. The HIGH floor and its
-- exception are not mentioned: they follow.
pub record IsAutonomous (req : DecisionRequest) (profile : AutonomyProfile) (cap : CapabilityRule)
    : Type 0 where
  pub no_money : req.amount_minor ≤ℤ pos 0
  pub not_destructive : (req.action_verb ≢ "delete") ⊎ (risk_of req < (risk_ordinal risk_high).0)
  pub unprotected : is_protected_config req.object_type ≡ false
  pub no_approval : cap.requires_approval ≡ false
  pub within_capability : risk_of req ≤ (risk_ordinal cap.max_risk).0
  pub within_profile : risk_of req ≤ (risk_ordinal profile.max_auto_risk).0
  pub enabled_or_low : (profile.mode ≡ autonomy_enabled) ⊎ (risk_of req ≤ (risk_ordinal risk_low).0)

low_lem : (risk_ordinal risk_low).0 ≡ 10
unfolding risk_ordinal
low_lem = refl

high_lem : (risk_ordinal risk_high).0 ≡ 30
unfolding risk_ordinal
high_lem = refl

-- what Stage B has established of the two
abbrev IsWorkable : AutonomyProfile → CapabilityRule → Type 0
IsWorkable profile capability =
    ((profile.mode ≡ autonomy_enabled) ⊎ (profile.mode ≡ autonomy_restricted))
    × ((risk_ordinal profile.max_auto_risk).1 ≡ true)
    × ((risk_ordinal capability.max_risk).1 ≡ true)

module _ (req : DecisionRequest) (profile : AutonomyProfile) (capability : CapabilityRule)
    (rbac : Decision) where
  ceilings_iff :
      (profile.mode ≡ autonomy_enabled) ⊎ (profile.mode ≡ autonomy_restricted)
      → (permits (ceilings (risk_of req) profile capability (permit rbac)).effect ≡ true) ↔ (
          (capability.requires_approval ≡ false)
          × (risk_of req ≤ (risk_ordinal capability.max_risk).0)
          × (risk_of req ≤ (risk_ordinal profile.max_auto_risk).0)
          × ((profile.mode ≡ autonomy_enabled) ⊎ (risk_of req ≤ (risk_ordinal risk_low).0)))
  unfolding ceilings permit
  ceilings_iff running = ground (
    arith,
    low_lem,
    eq_iff profile.mode autonomy_enabled,
    eq_iff profile.mode autonomy_restricted,
    eq_iff autonomy_enabled autonomy_restricted,
  )

  choose-IsAutonomous_iff :
      is_agent_class (actor_of req) ≡ true
      → req.approval_verified ≡ false
      → IsWorkable profile capability
      → (permits (choose req (risk_of req) profile capability rbac).effect ≡ true)
        ↔ IsAutonomous req profile capability
  unfolding choose guardrails by_risk high_delegated
  choose-IsAutonomous_iff is_agent unapproved (running, auto_known, cap_known) = ground (
    arith,
    low_lem,
    high_lem,
    ceilings_iff running,
    eq_iff req.action_verb "delete",
    eq_iff profile.mode autonomy_enabled,
  )

choose-other_iff :
    (req : DecisionRequest) (rbac : Decision)
    → is_agent_class (actor_of req) ≡ false
    → req.approval_verified ≡ false
    → (permits (choose req (risk_of req) zero_profile zero_capability rbac).effect ≡ true)
      ↔ (risk_of req < (risk_ordinal risk_high).0)
unfolding choose by_risk permit
choose-other_iff req rbac not_agent unapproved = ground arith

-- Without a verified approval an agent-class actor goes through exactly when the conditions that
-- clear every actor hold, and the tenant has a profile and a capability that are valid and make the
-- agent autonomous for this request: no money, no delete at HIGH or above, no protected
-- configuration, no approval demanded, the risk within both ceilings, and autonomy enabled or the
-- risk LOW.
pub decide-IsAutonomous_iff :
    (first second : CompiledBundle) (req : DecisionRequest)
    → is_agent_class (actor_of req) ≡ true
    → req.approval_verified ≡ false
    → (permits (decide first second req).effect ≡ true) ↔ (
        (profile : AutonomyProfile) × (capability : CapabilityRule) × IsCommon first second req
        × IsDelegated first second req profile capability
        × IsAutonomous req profile capability)
unfolding outcome
decide-IsAutonomous_iff first second req is_agent unapproved = (
  λ h. elim (decide-cases first second req) [
    | inl denial ↦ cc (denial.denies)
    | inr (agent profile capability _ common delegated e) ↦ (
      profile,
      capability,
      common,
      delegated,
      (choose-IsAutonomous_iff req profile capability _ is_agent unapproved
            (delegated.usable.running, delegated.usable.auto_risk, delegated.capable.cap_risk)).0
          (ap (λ r. permits r.effect) (sym e) ∙ h),
    )
    | inr (other not_agent common e) ↦ cc
  ],
  λ (profile, capability, common, delegated, autonomous).
      ap (λ r. permits r.effect)
        (decide_agent first second req profile capability is_agent common delegated)
      ∙ (choose-IsAutonomous_iff req profile capability _ is_agent unapproved
            (delegated.usable.running, delegated.usable.auto_risk, delegated.capable.cap_risk)).1
          autonomous,
)

-- Without a verified approval an actor outside the agent class goes through exactly when the
-- conditions that clear every actor hold and the risk is below HIGH.
pub decide-other_iff :
    (first second : CompiledBundle) (req : DecisionRequest)
    → is_agent_class (actor_of req) ≡ false
    → req.approval_verified ≡ false
    → (permits (decide first second req).effect ≡ true)
      ↔ (IsCommon first second req × (risk_of req < (risk_ordinal risk_high).0))
unfolding outcome
decide-other_iff first second req not_agent unapproved = (
  λ h. elim (decide-cases first second req) [
    | inl denial ↦ cc (denial.denies)
    | inr (agent profile capability is_agent common delegated e) ↦ cc
    | inr (other _ common e) ↦ (
      common,
      (choose-other_iff req _ not_agent unapproved).0 (ap (λ r. permits r.effect) (sym e) ∙ h),
    )
  ],
  λ (common, below).
      ap (λ r. permits r.effect) (decide_other first second req not_agent common)
      ∙ (choose-other_iff req _ not_agent unapproved).1 below,
)
