-- ===== src/Policy/Decide/Approval.antt =====
-- go/policy/decide.go: what a verified approval changes.
use ivorycom_governance.Common.{ℕ, ◌≡◌, ◌≢◌, ◌↔◌, refl, ap, ◌∙◌, inl, inr, Bool, true, arith}
use ivorycom_governance.Policy.Model.{
  Decision, CompiledBundle, AutonomyProfile, CapabilityRule, zero_profile, zero_capability,
}
use ivorycom_governance.Policy.Decide.Types.{effect_deny, effect_require_approval, DecisionRequest}
use ivorycom_governance.Policy.Decide.Choice.{outcome, choose, permit}
use ivorycom_governance.Policy.Decide.Stages.{decide}
use ivorycom_governance.Policy.Decide.Gates.{IsAdmissible, IsPermitted}
use ivorycom_governance.Policy.Decide.Clearance.{
  rbac_of, IsDelegated, IsCleared, agent, other, decide-cases, decide-IsCleared_iff,
}
use ivorycom_governance.Policy.Decide.Guardrails.{permits}

-- The same request with approval evidence that has been verified.
abbrev pub approve : DecisionRequest → DecisionRequest
approve req = record req { approval_verified = true }

choose-approved :
    (req : DecisionRequest) (n : ℕ) (profile : AutonomyProfile) (capability : CapabilityRule)
    (rbac : Decision)
    → req.approval_verified ≡ true
    → permits (choose req n profile capability rbac).effect ≡ true
unfolding choose permit
choose-approved req n profile capability rbac h = ground arith

module _ (first second : CompiledBundle) (req : DecisionRequest) where
  -- An approved request that is not denied goes through.
  pub approved-permits :
      req.approval_verified ≡ true
      → (decide first second req).effect ≢ effect_deny
      → permits (decide first second req).effect ≡ true
  unfolding outcome
  approved-permits approved h = elim (decide-cases first second req) [
    | inl denial ↦ absurd (h denial.denies)
    | inr (agent profile capability is_agent common delegated e) ↦
        ap (λ r. permits r.effect) e ∙ choose-approved req _ profile capability _ approved
    | inr (other not_agent common e) ↦
        ap (λ r. permits r.effect) e ∙ choose-approved req _ zero_profile zero_capability _ approved
  ]

  pub permits-ne-deny :
      permits (decide first second req).effect ≡ true
      → (decide first second req).effect ≢ effect_deny
  permits-ne-deny h e = cc

-- Requests that differ only in their approval evidence, which the conditions other than the RBAC
-- gate do not read.
module _ (first second : CompiledBundle) (req : DecisionRequest) (evidence : Bool) where
  abbrev with_evidence : DecisionRequest
  with_evidence = record req { approval_verified = evidence }

  IsAdmissible-with_evidence : IsAdmissible first req → IsAdmissible first with_evidence
  IsAdmissible-with_evidence a = record { loaded = a.loaded; live = a.live; known = a.known }

  IsPermitted-with_evidence :
      (rbac : Decision) → rbac.allow ≡ true → IsPermitted req rbac → IsPermitted with_evidence rbac
  IsPermitted-with_evidence rbac authorized p = record {
    not_critical = p.not_critical;
    external_cap = p.external_cap;
    service = p.service;
    system = p.system;
    rbac_or_approval = inl authorized;
  }

  IsDelegated-with_evidence :
      (profile : AutonomyProfile) (capability : CapabilityRule)
      → IsDelegated first second req profile capability
      → IsDelegated first second with_evidence profile capability
  IsDelegated-with_evidence profile capability d = record {
    usable = record {
      configured = d.usable.configured;
      running = d.usable.running;
      auto_risk = d.usable.auto_risk;
      per_run = d.usable.per_run;
      per_hour = d.usable.per_hour;
      money = d.usable.money;
    };
    capable = record {
      named = d.capable.named;
      granted = d.capable.granted;
      allowed = d.capable.allowed;
      cap_risk = d.capable.cap_risk;
      funded = d.capable.funded;
    };
  }

  IsCleared-with_evidence :
      (rbac_of first second req).allow ≡ true
      → IsCleared first second req
      → IsCleared first second with_evidence
  IsCleared-with_evidence authorized c = record {
    common = record {
      admissible = IsAdmissible-with_evidence c.common.admissible;
      permitted = IsPermitted-with_evidence _ authorized c.common.permitted;
    };
    delegated = elim c.delegated [
      | inl not_agent ↦ inl not_agent
      | inr (profile, capability, d) ↦
          inr (profile, capability, IsDelegated-with_evidence profile capability d)
    ];
  }

-- An approval launders no denial: where RBAC itself allows the request, it goes through with a
-- verified approval exactly when it was not denied without one.
approve-launders_nothing :
    (first second : CompiledBundle) (req : DecisionRequest)
    → (rbac_of first second req).allow ≡ true
    → (permits (decide first second (approve req)).effect ≡ true)
      ↔ ((decide first second req).effect ≢ effect_deny)
approve-launders_nothing first second req authorized =
    let (cleared, settled) = decide-IsCleared_iff first second (approve req) in
    let (cleared', settled') = decide-IsCleared_iff first second req in
    (
      λ h. settled' (
          IsCleared-with_evidence first second (approve req) req.approval_verified authorized
            (cleared (permits-ne-deny first second (approve req) h))),
      λ h.
          approved-permits first second (approve req) refl
            (settled (IsCleared-with_evidence first second req true authorized (cleared' h))),
    )

-- A verified approval is never answered by another demand for one.
decide-approved-ne-require_approval :
    (first second : CompiledBundle) (req : DecisionRequest)
    → req.approval_verified ≡ true
    → (decide first second req).effect ≢ effect_require_approval
decide-approved-ne-require_approval first second req approved h =
    cc (approved-permits first second req approved (λ e. cc))
