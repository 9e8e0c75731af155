-- ===== src/Policy/Decide/Delegation.antt =====
-- go/policy/decide.go: the same request under two delegations by the tenant.
mod Tests
use ivorycom_governance.Common.{
  ℕ, zero, suc, ◌≤◌, ◌≡◌, ◌≢◌, ◌⊎◌, inl, inr, refl, sym, ◌∙◌, true, false, Bool-cases, some, arith,
}
use ivorycom_governance.Common.Int.{ℤ, pos, negsuc, ◌≤ℤ◌, ◌<ℤ◌}
use ivorycom_governance.Policy.Model.{
  CompiledBundle, AutonomyProfile, CapabilityRule, autonomy_for, capability_for, autonomy_enabled,
}
use ivorycom_governance.Policy.Decide.Types.{
  effect_deny, DecisionRequest, risk_ordinal, is_agent_class,
}
use ivorycom_governance.Policy.Decide.Stages.{decide}
use ivorycom_governance.Policy.Decide.Gates.{risk_of, actor_of}
use ivorycom_governance.Policy.Decide.Clearance.{
  IsCommon, IsDelegated, IsCleared, decide-IsCleared_iff,
}
use ivorycom_governance.Policy.Decide.Guardrails.{permits}
use ivorycom_governance.Policy.Decide.Autonomy.{
  IsAutonomous, decide-IsAutonomous_iff, decide-other_iff,
}
use ivorycom_governance.Policy.Decide.Approval.{approved-permits, permits-ne-deny}
use ivorycom_governance.Policy.Decide.Risk.{rank, rank_mono}

-- The second profile leaves the tenant's agents at least as much as the first: the same mode or
-- ENABLED, a known ceiling that is not lower, and no lower limit.
pub record IsWiderProfile (tight wide : AutonomyProfile) : Type 0 where
  pub mode : (tight.mode ≡ wide.mode) ⊎ (wide.mode ≡ autonomy_enabled)
  pub known : (risk_ordinal wide.max_auto_risk).1 ≡ true
  pub auto_risk : (risk_ordinal tight.max_auto_risk).0 ≤ (risk_ordinal wide.max_auto_risk).0
  pub per_run : tight.limits.max_actions_per_run ≤ℤ wide.limits.max_actions_per_run
  pub per_hour : tight.limits.max_actions_per_hour ≤ℤ wide.limits.max_actions_per_hour
  pub money : tight.limits.max_money_movement_minor ≤ℤ wide.limits.max_money_movement_minor

-- The second capability leaves the agent at least as much as the first.
pub record IsWiderCapability (tight wide : CapabilityRule) : Type 0 where
  pub allow : tight.allow ≡ true → wide.allow ≡ true
  pub known : (risk_ordinal wide.max_risk).1 ≡ true
  pub cap_risk : (risk_ordinal tight.max_risk).0 ≤ (risk_ordinal wide.max_risk).0
  pub approval : wide.requires_approval ≡ true → tight.requires_approval ≡ true

-- The second bundle is loaded, and holds a wider profile and a wider capability for the request
-- wherever the first bundle holds one.
pub record IsWider (tight wide : CompiledBundle) (req : DecisionRequest) : Type 0 where
  pub loaded : pos 0 <ℤ wide.version
  pub profile :
      (p : AutonomyProfile)
      → autonomy_for tight req.identity.tenant_id ≡ some p
      → (p' : AutonomyProfile) × (autonomy_for wide req.identity.tenant_id ≡ some p')
        × IsWiderProfile p p'
  pub capability :
      (c : CapabilityRule)
      → capability_for tight req.identity.tenant_id req.identity.agent_id req.action ≡ some c
      → (c' : CapabilityRule) × (capability_for wide req.identity.tenant_id req.identity.agent_id
            req.action
          ≡ some c')
        × IsWiderCapability c c'

nonneg_mono : (a b : ℤ) → pos 0 ≤ℤ a → a ≤ℤ b → pos 0 ≤ℤ b
nonneg_mono a b h h' = omega arith

nonzero_mono : (a b : ℤ) → pos 0 ≤ℤ a → a ≤ℤ b → a ≢ pos 0 → b ≢ pos 0
nonzero_mono (pos zero) b h h' nonzero e = nonzero refl
nonzero_mono (pos (suc n)) b h h' nonzero e = absurd (not_below n (rw e at h'))
  where
    not_below : (n : ℕ) → pos (suc n) ≤ℤ pos 0 → ⊥
    not_below n h = omega arith
nonzero_mono (negsuc n) b h h' nonzero e = absurd (omega arith)

le_trans : {m n k : ℕ} → m ≤ n → n ≤ k → m ≤ k
le_trans h h' = omega arith

module _ (tight wide second : CompiledBundle) (req : DecisionRequest)
    (wider : IsWider tight wide req) where
  IsCommon-IsWider : IsCommon tight second req → IsCommon wide second req
  IsCommon-IsWider c = record {
    admissible = record {
      loaded = wider.loaded;
      live = c.admissible.live;
      known = c.admissible.known;
    };
    permitted = c.permitted;
  }

  -- the delegation that the second bundle holds in place of one of the first
  record Widened (p : AutonomyProfile) (c : CapabilityRule) : Type 0 where
    profile : AutonomyProfile
    capability : CapabilityRule
    wider_profile : IsWiderProfile p profile
    wider_capability : IsWiderCapability c capability
    delegated : IsDelegated wide second req profile capability

  IsDelegated-IsWider :
      (p : AutonomyProfile) (c : CapabilityRule) → IsDelegated tight second req p c → Widened p c
  IsDelegated-IsWider p c d =
      let (p', configured, wp) = wider.profile p d.usable.configured in
      let (c', granted, wc) = wider.capability c d.capable.granted in
      record {
        profile = p';
        capability = c';
        wider_profile = wp;
        wider_capability = wc;
        delegated = record {
          usable = record {
            configured = configured;
            running = elim wp.mode [
              | inl same ↦ rw same at d.usable.running
              | inr enabled ↦ inl enabled
            ];
            auto_risk = wp.known;
            per_run = nonneg_mono _ _ d.usable.per_run wp.per_run;
            per_hour = nonneg_mono _ _ d.usable.per_hour wp.per_hour;
            money = nonneg_mono _ _ d.usable.money wp.money;
          };
          capable = record {
            named = d.capable.named;
            granted = granted;
            allowed = wc.allow d.capable.allowed;
            cap_risk = wc.known;
            funded = elim d.capable.funded [
              | inl no_money ↦ inl no_money
              | inr funded ↦ inr (nonzero_mono _ _ d.usable.money wp.money funded)
            ];
          };
        };
      }

  IsCleared-IsWider : IsCleared tight second req → IsCleared wide second req
  IsCleared-IsWider c = record {
    common = IsCommon-IsWider c.common;
    delegated = elim c.delegated [
      | inl not_agent ↦ inl not_agent
      | inr (p, capability, d) ↦
          let w = IsDelegated-IsWider p capability d in inr (w.profile, w.capability, w.delegated)
    ];
  }

  ne-deny-IsWider :
      (decide tight second req).effect ≢ effect_deny → (decide wide second req).effect ≢ effect_deny
  ne-deny-IsWider h =
      (decide-IsCleared_iff wide second req).1
        (IsCleared-IsWider ((decide-IsCleared_iff tight second req).0 h))

  IsAutonomous-IsWider :
      (p p' : AutonomyProfile) (c c' : CapabilityRule)
      → IsWiderProfile p p'
      → IsWiderCapability c c'
      → IsAutonomous req p c
      → IsAutonomous req p' c'
  IsAutonomous-IsWider p p' c c' wp wc a = record {
    no_money = a.no_money;
    not_destructive = a.not_destructive;
    unprotected = a.unprotected;
    no_approval = (elim (Bool-cases c'.requires_approval) [
      | inl wanted ↦ let was_wanted = wc.approval wanted in let h = a.no_approval in cc
      | inr free ↦ free
    ]);
    within_capability = le_trans a.within_capability wc.cap_risk;
    within_profile = le_trans a.within_profile wp.auto_risk;
    enabled_or_low = elim wp.mode [
      | inl same ↦ rw same at a.enabled_or_low
      | inr enabled ↦ inl enabled
    ];
  }

  permits-IsWider :
      permits (decide tight second req).effect ≡ true
      → permits (decide wide second req).effect ≡ true
  permits-IsWider h = elim (Bool-cases req.approval_verified) [
    | inl approved ↦
        approved-permits wide second req approved
          (ne-deny-IsWider (permits-ne-deny tight second req h))
    | inr unapproved ↦ elim (Bool-cases (is_agent_class (actor_of req))) [
      | inl is_agent ↦
          let (p, c, common, delegated, autonomous) =
            (decide-IsAutonomous_iff tight second req is_agent unapproved).0 h in
          let w = IsDelegated-IsWider p c delegated in
          (decide-IsAutonomous_iff wide second req is_agent unapproved).1 (
            w.profile,
            w.capability,
            IsCommon-IsWider common,
            w.delegated,
            IsAutonomous-IsWider p w.profile c w.capability w.wider_profile w.wider_capability
                autonomous,
          )
      | inr not_agent ↦
          let (common, small) = (decide-other_iff tight second req not_agent unapproved).0 h in
          (decide-other_iff wide second req not_agent unapproved).1 (IsCommon-IsWider common, small)
    ]
  ]

-- A tenant that tightens what it delegates never grants more. Let a bundle be loaded that holds, for
-- the request, a profile and a capability at least as wide wherever another bundle holds one: the
-- same mode or ENABLED, known ceilings that are not lower, no lower limit, and neither a dropped
-- grant nor an added demand for approval. Then the other bundle grants the request at most as much,
-- where a denial is less than a demand for approval, and that less than an allow.
pub decide_delegation_monotone :
    (tight wide second : CompiledBundle) (req : DecisionRequest)
    → IsWider tight wide req
    → rank (decide tight second req).effect ≤ rank (decide wide second req).effect
decide_delegation_monotone tight wide second req wider =
    rank_mono _ _ (permits-IsWider tight wide second req wider)
      (ne-deny-IsWider tight wide second req wider)
