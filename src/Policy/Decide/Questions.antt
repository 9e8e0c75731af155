-- ===== src/Policy/Decide/Questions.antt =====
-- go/policy/decide.go: which approvals `Decide` demands, and when.
use ivorycom_governance.Common.{
  ◌≤◌, ◌<◌, List, [], ◌∷◌, String, ◌≡◌, ◌≢◌, ◌↔◌, ◌⊎◌, sym, ap, ◌∙◌, inl, inr, true, false,
  Bool-cases, arith, eq_iff,
}
use ivorycom_governance.Common.Int.{pos, ◌<ℤ◌}
use ivorycom_governance.Policy.Model.{
  Decision, CompiledBundle, AutonomyProfile, CapabilityRule, zero_profile, zero_capability,
  autonomy_enabled, autonomy_restricted,
}
use ivorycom_governance.Policy.Decide.Types.{
  effect_require_approval, DecisionRequest, risk_ordinal, is_agent_class, is_protected_config,
  risk_low, risk_high,
}
use ivorycom_governance.Policy.Decide.Choice.{
  Choice, outcome, choose, by_risk, guardrails, ceilings, permit, high_delegated,
}
use ivorycom_governance.Policy.Decide.Stages.{decide}
use ivorycom_governance.Policy.Decide.Gates.{risk_of, actor_of}
use ivorycom_governance.Policy.Decide.Clearance.{
  IsCommon, IsDelegated, agent, other, decide-cases, decide_agent, decide_other,
}

-- The code of the first condition of the list that holds.
abbrev pub IsFirst : List (String × Type 0) → String → Type 0
IsFirst [] code = ⊥
IsFirst ((c, P) ∷ rest) code = ((code ≡ c) × P) ⊎ ((P → ⊥) × IsFirst rest code)

module _ (req : DecisionRequest) (profile : AutonomyProfile) (capability : CapabilityRule) where
  -- The tenant or the capability does not delegate HIGH risk.
  abbrev IsHighWithheld : Type 0
  IsHighWithheld =
      (profile.mode ≢ autonomy_enabled)
      ⊎ (capability.requires_approval ≡ true)
      ⊎ ((risk_ordinal profile.max_auto_risk).0 < (risk_ordinal risk_high).0)
      ⊎ ((risk_ordinal capability.max_risk).0 < (risk_ordinal risk_high).0)

  abbrev ceiling_questions : List (String × Type 0)
  ceiling_questions =
      ("approval_required_capability", capability.requires_approval ≡ true)
      ∷ (
        "approval_required_capability_max_risk",
        (risk_ordinal capability.max_risk).0 < risk_of req,
      )
      ∷ (
        "approval_required_tenant_max_auto_risk",
        (risk_ordinal profile.max_auto_risk).0 < risk_of req,
      )
      ∷ (
        "approval_required_autonomy_restricted",
        (profile.mode ≡ autonomy_restricted) × ((risk_ordinal risk_low).0 < risk_of req),
      )
      ∷ []

  -- What an agent-class actor needs a human for, in the order in which it is asked.
  abbrev pub agent_questions : List (String × Type 0)
  agent_questions =
      ("approval_required_money_movement", pos 0 <ℤ req.amount_minor)
      ∷ (
        "approval_required_destructive",
        (req.action_verb ≡ "delete") × ((risk_ordinal risk_high).0 ≤ risk_of req),
      )
      ∷ ("approval_required_protected_config", is_protected_config req.object_type ≡ true)
      ∷ ("approval_required_high_risk", ((risk_ordinal risk_high).0 ≤ risk_of req) × IsHighWithheld)
      ∷ ceiling_questions

  abbrev Asks : Choice → String → Type 0
  Asks c code = (c.effect ≡ effect_require_approval) × (c.reason_code ≡ code)

  module _ (rbac : Decision) (code : String) where
    ceilings-Asks_iff :
        Asks (ceilings (risk_of req) profile capability (permit rbac)) code
        ↔ IsFirst ceiling_questions code
    unfolding ceilings permit
    ceilings-Asks_iff = ground (arith, eq_iff profile.mode autonomy_restricted)

    by_risk-Asks_iff :
        is_agent_class (actor_of req) ≡ true
        → ((risk_ordinal profile.max_auto_risk).1 ≡ true)
        → ((risk_ordinal capability.max_risk).1 ≡ true)
        → Asks (by_risk req (risk_of req) profile capability rbac) code
          ↔ IsFirst
              ((
                "approval_required_high_risk",
                ((risk_ordinal risk_high).0 ≤ risk_of req) × IsHighWithheld,
              )
                ∷ ceiling_questions)
              code
    unfolding by_risk high_delegated
    by_risk-Asks_iff is_agent known known' =
        ground (arith, ceilings-Asks_iff, eq_iff profile.mode autonomy_enabled)

    choose-Asks_iff :
        is_agent_class (actor_of req) ≡ true
        → ((risk_ordinal profile.max_auto_risk).1 ≡ true)
        → ((risk_ordinal capability.max_risk).1 ≡ true)
        → req.approval_verified ≡ false
        → Asks (choose req (risk_of req) profile capability rbac) code
          ↔ IsFirst agent_questions code
    unfolding choose guardrails
    choose-Asks_iff is_agent known known' unapproved =
        ground (arith, by_risk-Asks_iff, eq_iff req.action_verb "delete")

    choose-approved :
        req.approval_verified ≡ true
        → (choose req (risk_of req) profile capability rbac).effect ≢ effect_require_approval
    unfolding choose permit
    choose-approved approved = ground arith

  choose_other-Asks_iff :
      (rbac : Decision) (code : String)
      → is_agent_class (actor_of req) ≡ false
      → req.approval_verified ≡ false
      → Asks (choose req (risk_of req) profile capability rbac) code
        ↔ ((code ≡ "approval_required_high_risk") × ((risk_ordinal risk_high).0 ≤ risk_of req))
  unfolding choose by_risk permit
  choose_other-Asks_iff rbac code not_agent unapproved = ground arith

module _ (first second : CompiledBundle) (req : DecisionRequest) (code : String) where
  -- A cleared request without a verified approval, with the code of the first question that it
  -- raises.
  pub data Asked : Type 0 where
    of_agent :
        (profile : AutonomyProfile) (capability : CapabilityRule)
        → req.approval_verified ≡ false
        → is_agent_class (actor_of req) ≡ true
        → IsCommon first second req
        → IsDelegated first second req profile capability
        → IsFirst (agent_questions req profile capability) code
        → Asked
    of_other :
        req.approval_verified ≡ false
        → is_agent_class (actor_of req) ≡ false
        → IsCommon first second req
        → (risk_ordinal risk_high).0 ≤ risk_of req
        → code ≡ "approval_required_high_risk"
        → Asked

  demand-Asked :
      (decide first second req).effect ≡ effect_require_approval
      → (decide first second req).reason_code ≡ code
      → Asked
  unfolding outcome
  demand-Asked demands coded = elim (decide-cases first second req) [
    | inl denial ↦ cc (denial.denies)
    | inr (agent profile capability is_agent common delegated e) ↦
        let asks = ap (λ r. r.effect) (sym e) ∙ demands in
        let codes = ap (λ r. r.reason_code) (sym e) ∙ coded in
        elim (Bool-cases req.approval_verified) [
          | inl approved ↦ absurd (choose-approved req profile capability _ code approved asks)
          | inr unapproved ↦ of_agent profile capability unapproved is_agent common delegated (
              (choose-Asks_iff req profile capability _ code is_agent delegated.usable.auto_risk
                  delegated.capable.cap_risk unapproved).0
                (asks, codes))
        ]
    | inr (other not_agent common e) ↦
        let asks = ap (λ r. r.effect) (sym e) ∙ demands in
        let codes = ap (λ r. r.reason_code) (sym e) ∙ coded in
        elim (Bool-cases req.approval_verified) [
          | inl approved ↦
              absurd (choose-approved req zero_profile zero_capability _ code approved asks)
          | inr unapproved ↦
              let (named, high) =
                (choose_other-Asks_iff req zero_profile zero_capability _ code not_agent
                    unapproved).0
                  (asks, codes) in
              of_other unapproved not_agent common high named
        ]
  ]

  Asked-demand :
      Asked
      → ((decide first second req).effect ≡ effect_require_approval)
        × ((decide first second req).reason_code ≡ code)
  unfolding outcome
  Asked-demand (of_agent profile capability unapproved is_agent common delegated h) =
      let e = decide_agent first second req profile capability is_agent common delegated in
      let (asks, codes) =
        (choose-Asks_iff req profile capability _ code is_agent delegated.usable.auto_risk
            delegated.capable.cap_risk unapproved).1
          h in
      (ap (λ r. r.effect) e ∙ asks, ap (λ r. r.reason_code) e ∙ codes)
  Asked-demand (of_other unapproved not_agent common high named) =
      let e = decide_other first second req not_agent common in
      let (asks, codes) =
        (choose_other-Asks_iff req zero_profile zero_capability _ code not_agent unapproved).1
          (named, high) in
      (ap (λ r. r.effect) e ∙ asks, ap (λ r. r.reason_code) e ∙ codes)

-- `Decide` demands an approval with a reason code exactly when the request is cleared, has no
-- verified approval, and raises a first question, which has this code. An agent-class actor with
-- its profile and capability is asked, in this order, for money that it moves; a delete at HIGH or
-- above; protected configuration; HIGH risk or above that the profile or the capability withholds;
-- a capability that demands approval; a risk above the capability's ceiling; one above the
-- tenant's; and one above LOW in the restricted mode. Any other actor is asked only for HIGH risk
-- or above.
pub decide-Asked_iff :
    (first second : CompiledBundle) (req : DecisionRequest) (code : String)
    → (((decide first second req).effect ≡ effect_require_approval)
        × ((decide first second req).reason_code ≡ code))
      ↔ Asked first second req code
decide-Asked_iff first second req code = (
  λ (demands, coded). demand-Asked first second req code demands coded,
  Asked-demand first second req code,
)
