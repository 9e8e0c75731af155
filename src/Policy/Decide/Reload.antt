-- ===== src/Policy/Decide/Reload.antt =====
-- go/policy/decide.go: `Decide` reads the bundle twice, and a reload may come between.
mod Tests
use ivorycom_governance.Common.{◌≡◌, ap, inl, inr, true, false, none}
use ivorycom_governance.Policy.Model.{CompiledBundle, AutonomyProfile, CapabilityRule, autonomy_for}
use ivorycom_governance.Policy.Decide.Types.{effect_deny, DecisionRequest, is_agent_class}
use ivorycom_governance.Policy.Decide.Stages.{decide}
use ivorycom_governance.Policy.Decide.Gates.{actor_of}
use ivorycom_governance.Policy.Decide.Clearance.{
  rbac_of, IsCommon, IsDelegated, agent, other, decide-cases,
}
use ivorycom_governance.Policy.Decide.Guardrails.{permits}
use ivorycom_governance.Policy.Decide.Autonomy.{IsAutonomous, decide-IsAutonomous_iff}

module _ (first second : CompiledBundle) (req : DecisionRequest) where
  pub deny_of_rbac :
      req.approval_verified ≡ false
      → (rbac_of first second req).allow ≡ false
      → (decide first second req).effect ≡ effect_deny
  deny_of_rbac unapproved no_grant = elim (decide-cases first second req) [
    | inl denial ↦ denial.denies
    | inr (agent _ _ _ common _ _) ↦ elim common.permitted.rbac_or_approval [
      | inl h ↦ cc
      | inr h ↦ cc
    ]
    | inr (other _ common _) ↦ elim common.permitted.rbac_or_approval [ inl h ↦ cc | inr h ↦ cc ]
  ]

  deny_of_no_profile :
      is_agent_class (actor_of req) ≡ true
      → autonomy_for first req.identity.tenant_id ≡ none
      → (decide first second req).effect ≡ effect_deny
  deny_of_no_profile is_agent no_profile = elim (decide-cases first second req) [
    | inl denial ↦ denial.denies
    | inr (agent _ _ _ _ delegated _) ↦ cc (delegated.usable.configured)
    | inr (other not_agent _ _) ↦ cc
  ]

  version_of_permits :
      permits (decide first second req).effect ≡ true
      → (decide first second req).policy_version ≡ first.version
  version_of_permits through = elim (decide-cases first second req) [
    | inl denial ↦ cc (denial.denies)
    | inr (agent _ _ _ _ _ e) ↦ ap (λ r. r.policy_version) e
    | inr (other _ _ e) ↦ ap (λ r. r.policy_version) e
  ]

-- Let an agent-class actor without an approval make a request that the old bundle admits, whose
-- profile and capability there let the agent act alone, and that RBAC grants under the new bundle but
-- not under the old one, while the new bundle has no profile for the tenant. If a reload comes between
-- the two reads of `Decide`, the request goes through, under the old bundle's version, although each
-- of the two bundles alone denies it.
pub decide_torn :
    (old new : CompiledBundle) (req : DecisionRequest) (profile : AutonomyProfile)
    (capability : CapabilityRule)
    → is_agent_class (actor_of req) ≡ true
    → req.approval_verified ≡ false
    → IsCommon old new req
    → IsDelegated old new req profile capability
    → IsAutonomous req profile capability
    → (rbac_of old old req).allow ≡ false
    → autonomy_for new req.identity.tenant_id ≡ none
    → (permits (decide old new req).effect ≡ true)
      × ((decide old new req).policy_version ≡ old.version)
      × ((decide old old req).effect ≡ effect_deny)
      × ((decide new new req).effect ≡ effect_deny)
decide_torn old new req profile capability is_agent unapproved common delegated autonomous no_grant
      no_profile =
    let through =
      (decide-IsAutonomous_iff old new req is_agent unapproved).1
        (profile, capability, common, delegated, autonomous) in
    (
      through,
      version_of_permits old new req through,
      deny_of_rbac old old req unapproved no_grant,
      deny_of_no_profile new new req is_agent no_profile,
    )
