-- ===== src/Policy/Decide/Risk.antt =====
-- go/policy/decide.go: the same request at two risks.
use ivorycom_governance.Common.{
  ℕ, ◌≤◌, String, ◌≡◌, ◌≢◌, refl, inl, inr, true, Bool-cases, arith, eq_iff,
}
use ivorycom_governance.Policy.Model.{CompiledBundle, AutonomyProfile, CapabilityRule}
use ivorycom_governance.Policy.Decide.Types.{
  Effect, effect_allow, effect_deny, effect_allow_with_conditions, effect_require_approval,
  DecisionRequest, risk_ordinal, is_agent_class, risk_critical,
}
use ivorycom_governance.Policy.Decide.Stages.{decide}
use ivorycom_governance.Policy.Decide.Gates.{risk_of, actor_of}
use ivorycom_governance.Policy.Decide.Clearance.{
  IsCommon, IsDelegated, IsCleared, decide-IsCleared_iff,
}
use ivorycom_governance.Policy.Decide.Guardrails.{permits}
use ivorycom_governance.Policy.Decide.Autonomy.{
  IsAutonomous, decide-IsAutonomous_iff, decide-other_iff,
}
use ivorycom_governance.Policy.Decide.Approval.{approved-permits, permits-ne-deny}

-- The same request for an action of another risk.
abbrev pub with_risk : DecisionRequest → String → DecisionRequest
with_risk req risk = record req { risk = risk }

top_risk : (risk : String) → 40 ≤ (risk_ordinal risk).0 → risk ≡ risk_critical
unfolding risk_ordinal
top_risk risk h =
    ground
      (arith, eq_iff risk "LOW", eq_iff risk "MEDIUM", eq_iff risk "HIGH", eq_iff risk "CRITICAL")

critical_lem : (risk_ordinal risk_critical).0 ≡ 40
unfolding risk_ordinal
critical_lem = refl

module _ (first second : CompiledBundle) (req : DecisionRequest) (lower : String)
    (known : (risk_ordinal lower).1 ≡ true) (below : (risk_ordinal lower).0 ≤ risk_of req) where
  still_not_critical : req.risk ≢ risk_critical → lower ≢ risk_critical
  still_not_critical h e = h (top_risk req.risk (let top = critical_lem in ground arith))

  IsCommon-with_risk : IsCommon first second req → IsCommon first second (with_risk req lower)
  IsCommon-with_risk c = record {
    admissible = record { loaded = c.admissible.loaded; live = c.admissible.live; known = known };
    permitted = record {
      not_critical = elim c.permitted.not_critical [
        | inl not_agent ↦ inl not_agent
        | inr h ↦ inr (still_not_critical h)
      ];
      external_cap = elim c.permitted.external_cap [
        | inl other ↦ inl other
        | inr capped ↦ inr (omega arith)
      ];
      service = c.permitted.service;
      system = c.permitted.system;
      rbac_or_approval = c.permitted.rbac_or_approval;
    };
  }

  IsDelegated-with_risk :
      (profile : AutonomyProfile) (capability : CapabilityRule)
      → IsDelegated first second req profile capability
      → IsDelegated first second (with_risk req lower) profile capability
  IsDelegated-with_risk profile capability d = record {
    usable = record {
      configured = d.usable.configured;
      running = d.usable.running;
      auto_risk = d.usable.auto_risk;
      per_run = d.usable.per_run;
      per_hour = d.usable.per_hour;
      money = d.usable.money;
    };
    capable = record {
      named = d.capable.named;
      granted = d.capable.granted;
      allowed = d.capable.allowed;
      cap_risk = d.capable.cap_risk;
      funded = d.capable.funded;
    };
  }

  IsAutonomous-with_risk :
      (profile : AutonomyProfile) (capability : CapabilityRule)
      → IsAutonomous req profile capability
      → IsAutonomous (with_risk req lower) profile capability
  IsAutonomous-with_risk profile capability a = record {
    no_money = a.no_money;
    not_destructive = elim a.not_destructive [
      | inl other_verb ↦ inl other_verb
      | inr small ↦ inr (omega arith)
    ];
    unprotected = a.unprotected;
    no_approval = a.no_approval;
    within_capability = let h = a.within_capability in omega arith;
    within_profile = let h = a.within_profile in omega arith;
    enabled_or_low = elim a.enabled_or_low [
      | inl enabled ↦ inl enabled
      | inr low ↦ inr (omega arith)
    ];
  }

  IsCleared-with_risk : IsCleared first second req → IsCleared first second (with_risk req lower)
  IsCleared-with_risk c = record {
    common = IsCommon-with_risk c.common;
    delegated = elim c.delegated [
      | inl not_agent ↦ inl not_agent
      | inr (profile, capability, d) ↦
          inr (profile, capability, IsDelegated-with_risk profile capability d)
    ];
  }

  ne-deny-with_risk :
      (decide first second req).effect ≢ effect_deny
      → (decide first second (with_risk req lower)).effect ≢ effect_deny
  ne-deny-with_risk h =
      (decide-IsCleared_iff first second (with_risk req lower)).1
        (IsCleared-with_risk ((decide-IsCleared_iff first second req).0 h))

  permits-with_risk :
      permits (decide first second req).effect ≡ true
      → permits (decide first second (with_risk req lower)).effect ≡ true
  permits-with_risk h = elim (Bool-cases req.approval_verified) [
    | inl approved ↦
        approved-permits first second (with_risk req lower) approved
          (ne-deny-with_risk (permits-ne-deny first second req h))
    | inr unapproved ↦ elim (Bool-cases (is_agent_class (actor_of req))) [
      | inl is_agent ↦
          let (profile, capability, common, delegated, autonomous) =
            (decide-IsAutonomous_iff first second req is_agent unapproved).0 h in
          (decide-IsAutonomous_iff first second (with_risk req lower) is_agent unapproved).1 (
            profile,
            capability,
            IsCommon-with_risk common,
            IsDelegated-with_risk profile capability delegated,
            IsAutonomous-with_risk profile capability autonomous,
          )
      | inr not_agent ↦
          let (common, small) = (decide-other_iff first second req not_agent unapproved).0 h in
          (decide-other_iff first second (with_risk req lower) not_agent unapproved).1
            (IsCommon-with_risk common, omega arith)
    ]
  ]

-- How much an effect grants: nothing, a request for approval, or the action.
abbrev pub rank : Effect → ℕ
rank effect_deny = 0
rank effect_require_approval = 1
rank effect_allow_with_conditions = 2
rank effect_allow = 2

rank_of_permits : (e : Effect) → permits e ≡ true → 2 ≤ rank e
rank_of_permits effect_deny h = cc
rank_of_permits effect_require_approval h = cc
rank_of_permits effect_allow_with_conditions h = omega arith
rank_of_permits effect_allow h = omega arith

pub rank_mono :
    (e e' : Effect)
    → (permits e ≡ true → permits e' ≡ true)
    → (e ≢ effect_deny → e' ≢ effect_deny)
    → rank e ≤ rank e'
rank_mono effect_deny e' through kept = omega arith
rank_mono effect_require_approval effect_deny through kept = absurd (kept (λ e. cc) refl)
rank_mono effect_require_approval effect_require_approval through kept = omega arith
rank_mono effect_require_approval effect_allow_with_conditions through kept = omega arith
rank_mono effect_require_approval effect_allow through kept = omega arith
rank_mono effect_allow_with_conditions e' through kept = rank_of_permits e' (through refl)
rank_mono effect_allow e' through kept = rank_of_permits e' (through refl)

-- A known risk that is not higher is never treated worse: at such a risk the same request is granted
-- at least as much, where a denial is less than a demand for approval, and that less than an allow.
pub decide_risk_monotone :
    (first second : CompiledBundle) (req : DecisionRequest) (lower : String)
    → (risk_ordinal lower).1 ≡ true
    → (risk_ordinal lower).0 ≤ risk_of req
    → rank (decide first second req).effect
      ≤ rank (decide first second (with_risk req lower)).effect
decide_risk_monotone first second req lower known below =
    rank_mono _ _ (permits-with_risk first second req lower known below)
      (ne-deny-with_risk first second req lower known below)
