-- ===== src/Policy/Decide/Guardrails.antt =====
-- go/policy/decide.go: what no configuration lifts, and what only a verified approval lifts.
use ivorycom_governance.Common.{
  ◌≤◌, ◌<◌, ◌≡◌, ◌⊎◌, ap, ◌∙◌, inl, inr, Bool, true, false, arith, eq_iff,
}
use ivorycom_governance.Common.Int.{pos, ◌<ℤ◌}
use ivorycom_governance.Policy.Model.{
  Decision, CompiledBundle, AutonomyProfile, CapabilityRule, zero_profile, zero_capability,
}
use ivorycom_governance.Policy.Decide.Types.{
  Effect, effect_allow, effect_deny, effect_allow_with_conditions, effect_require_approval,
  DecisionRequest, risk_ordinal, is_agent_class, is_protected_config, actor_service,
  actor_external_integration, actor_system, risk_medium, risk_high, risk_critical,
}
use ivorycom_governance.Policy.Decide.Choice.{outcome, choose, by_risk, guardrails}
use ivorycom_governance.Policy.Decide.Stages.{decide}
use ivorycom_governance.Policy.Decide.Gates.{risk_of, actor_of, IsPermitted}
use ivorycom_governance.Policy.Decide.Clearance.{agent, other, decide-cases}

-- The effects with which the caller goes on without a human.
abbrev pub permits : Effect → Bool
permits effect_allow = true
permits effect_allow_with_conditions = true
permits effect_deny = false
permits effect_require_approval = false

-- What Stage A forbids on account of the request alone.
abbrev pub IsProhibited : DecisionRequest → Type 0
IsProhibited req =
    ((is_agent_class (actor_of req) ≡ true) × (req.risk ≡ risk_critical))
    ⊎ ((actor_of req ≡ actor_external_integration) × ((risk_ordinal risk_medium).0 < risk_of req))
    ⊎ ((actor_of req ≡ actor_service) × (req.service_allowed ≡ false))
    ⊎ ((actor_of req ≡ actor_system) × (req.mutates_tenant_data ≡ true))

-- The guardrail set, and the HIGH floor for actors outside the agent class.
abbrev pub IsGuarded : DecisionRequest → Type 0
IsGuarded req =
    ((is_agent_class (actor_of req) ≡ true)
      × ((pos 0 <ℤ req.amount_minor)
          ⊎ ((req.action_verb ≡ "delete") × ((risk_ordinal risk_high).0 ≤ risk_of req))
          ⊎ (is_protected_config req.object_type ≡ true)))
    ⊎ ((is_agent_class (actor_of req) ≡ false) × ((risk_ordinal risk_high).0 ≤ risk_of req))

IsProhibited-not-IsPermitted :
    (req : DecisionRequest) (rbac : Decision) → IsProhibited req → IsPermitted req rbac → ⊥
IsProhibited-not-IsPermitted req rbac h p = ground arith

choose-IsGuarded :
    (req : DecisionRequest) (profile : AutonomyProfile) (cap : CapabilityRule) (rbac : Decision)
    → req.approval_verified ≡ false
    → IsGuarded req
    → permits (choose req (risk_of req) profile cap rbac).effect ≡ false
unfolding choose guardrails by_risk
choose-IsGuarded req profile cap rbac h g = ground (arith, eq_iff req.action_verb "delete")

-- A request that Stage A forbids is denied under every bundle, approval or not.
pub decide-deny_of_IsProhibited :
    (first second : CompiledBundle) (req : DecisionRequest)
    → IsProhibited req
    → (decide first second req).effect ≡ effect_deny
decide-deny_of_IsProhibited first second req h = elim (decide-cases first second req) [
  | inl denial ↦ denial.denies
  | inr (agent profile cap is_agent common delegated e) ↦
      absurd (IsProhibited-not-IsPermitted req _ h common.permitted)
  | inr (other not_agent common e) ↦ absurd (IsProhibited-not-IsPermitted req _ h common.permitted)
]

-- Without a verified approval a guarded request never goes through: an agent-class actor that moves
-- money, deletes at HIGH risk or above, or touches protected configuration, whatever autonomy the
-- bundle delegates to it; and any other actor at HIGH risk or above.
pub decide-permits_of_IsGuarded :
    (first second : CompiledBundle) (req : DecisionRequest)
    → req.approval_verified ≡ false
    → IsGuarded req
    → permits (decide first second req).effect ≡ false
unfolding outcome
decide-permits_of_IsGuarded first second req h g = elim (decide-cases first second req) [
  | inl denial ↦ ap permits denial.denies
  | inr (agent profile cap is_agent common delegated e) ↦
      ap (λ r. permits r.effect) e ∙ choose-IsGuarded req profile cap _ h g
  | inr (other not_agent common e) ↦
      ap (λ r. permits r.effect) e ∙ choose-IsGuarded req zero_profile zero_capability _ h g
]
