-- ===== src/Policy/Decide/DelegationRefusals.antt =====
-- go/policy/decide.go: with which reason code the stage of delegated autonomy refuses, and when.
use ivorycom_governance.Common.{
  String, ◌≡◌, ◌≢◌, ◌↔◌, ◌⊎◌, inl, inr, true, false, none, some, Option-cases, arith, eq_iff,
  string_eq,
}
use ivorycom_governance.Common.Int.{pos, ◌<ℤ◌, eqb_ℤ_iff}
use ivorycom_governance.Policy.Model.{
  CompiledBundle, AutonomyProfile, CapabilityRule, autonomy_for, capability_for, autonomy_enabled,
  autonomy_restricted, autonomy_paused, autonomy_disabled,
}
use ivorycom_governance.Policy.Decide.Types.{
  DecisionRequest, risk_ordinal, deny, reason_no_capability, reason_autonomy_unconfigured,
  reason_autonomy_halted, reason_invalid_policy_config,
}
use ivorycom_governance.Policy.Decide.Stages.{passed, check_mode, check_profile, check_capability}
use ivorycom_governance.Policy.Decide.GateRefusals.{refusal}

module _ (bundle : CompiledBundle) (req : DecisionRequest) where
  -- The mode lets agents act.
  abbrev IsRunning : AutonomyProfile → Type 0
  IsRunning p = (p.mode ≡ autonomy_enabled) ⊎ (p.mode ≡ autonomy_restricted)

  abbrev IsOff : AutonomyProfile → Type 0
  IsOff p = (p.mode ≡ autonomy_paused) ⊎ (p.mode ≡ autonomy_disabled)

  IsRunning-IsOff : (p : AutonomyProfile) → IsRunning p → IsOff p → ⊥
  IsRunning-IsOff p (inl e) (inl e') = cc
  IsRunning-IsOff p (inl e) (inr e') = cc
  IsRunning-IsOff p (inr e) (inl e') = cc
  IsRunning-IsOff p (inr e) (inr e') = cc

  -- The ceiling is unknown, or a limit is negative.
  abbrev IsMalformed : AutonomyProfile → Type 0
  IsMalformed p =
      ((risk_ordinal p.max_auto_risk).1 ≡ false)
      ⊎ (p.limits.max_actions_per_run <ℤ pos 0)
      ⊎ (p.limits.max_actions_per_hour <ℤ pos 0)
      ⊎ (p.limits.max_money_movement_minor <ℤ pos 0)

  -- The profile is off, else it is not valid.
  abbrev pub IsUnusable : AutonomyProfile → String → Type 0
  IsUnusable p code =
      ((code ≡ reason_autonomy_halted) × IsOff p)
      ⊎ ((code ≡ reason_invalid_policy_config)
          × (IsOff p → ⊥)
          × ((IsRunning p → ⊥) ⊎ IsMalformed p))

  -- There is no profile, or it cannot be used.
  abbrev pub IsUndelegated : String → Type 0
  IsUndelegated code =
      ((code ≡ reason_autonomy_unconfigured) × (autonomy_for bundle req.identity.tenant_id ≡ none))
      ⊎ ((p : AutonomyProfile) × (autonomy_for bundle req.identity.tenant_id ≡ some p)
          × IsUnusable p code)

  missing_profile_iff :
      (code : String)
      → autonomy_for bundle req.identity.tenant_id ≡ none
      → (refusal (check_profile bundle req) ≡ some code) ↔ (code ≡ reason_autonomy_unconfigured)
  unfolding check_profile deny
  missing_profile_iff code missing = ground arith

  module _ (p : AutonomyProfile) (found : autonomy_for bundle req.identity.tenant_id ≡ some p) where
    off_profile : IsOff p → refusal (check_profile bundle req) ≡ some reason_autonomy_halted
    unfolding check_profile check_mode deny
    off_profile (inl paused) = rw (found, paused)
    off_profile (inr disabled) = rw (found, disabled)

    unrecognised_profile :
        (IsRunning p → ⊥)
        → (IsOff p → ⊥)
        → refusal (check_profile bundle req) ≡ some reason_invalid_policy_config
    unfolding check_profile check_mode deny
    unrecognised_profile strays strays' = rw found (
        ground (
          arith,
          eq_iff p.mode autonomy_enabled,
          eq_iff p.mode autonomy_restricted,
          eq_iff p.mode autonomy_paused,
          eq_iff p.mode autonomy_disabled,
        ))

    running_mode : IsRunning p → check_mode bundle p.mode ≡ passed tt
    unfolding check_mode
    running_mode (inl enabled) = rw enabled
    running_mode (inr restricted) = rw restricted

    running_profile_iff :
        (code : String)
        → IsRunning p
        → (refusal (check_profile bundle req) ≡ some code)
          ↔ ((code ≡ reason_invalid_policy_config) × IsMalformed p)
    unfolding check_profile deny
    running_profile_iff code running = rw (found, running_mode running) (ground arith)

    found_profile_iff :
        (code : String) → (refusal (check_profile bundle req) ≡ some code) ↔ IsUnusable p code
    found_profile_iff code = ground (
      arith,
      off_profile,
      unrecognised_profile,
      running_profile_iff code,
      IsRunning-IsOff p,
      eq_iff p.mode autonomy_enabled,
      eq_iff p.mode autonomy_restricted,
      eq_iff p.mode autonomy_paused,
      eq_iff p.mode autonomy_disabled,
    )

  pub check_profile-refusal_iff :
      (code : String) → (refusal (check_profile bundle req) ≡ some code) ↔ IsUndelegated code
  check_profile-refusal_iff code =
      elim (Option-cases (autonomy_for bundle req.identity.tenant_id)) [
        | inl missing ↦
            let (to, from) = missing_profile_iff code missing in
            (λ h. inl (to h, missing), λ u. elim u [ inl (e, _) ↦ from e | inr (p, found, _) ↦ cc ])
        | inr (p, found) ↦
            let (to, from) = found_profile_iff p found code in
            (
              λ h. inr (p, found, to h),
              λ u. elim u [
                | inl (_, missing) ↦ cc
                | inr (q, found', unusable) ↦ let same : q ≡ p = cc in from (rw same at unusable)
              ],
            )
      ]

  -- The agent is not named, has no capability for the action, or has one that does not allow it.
  abbrev IsUngranted : Type 0
  IsUngranted =
      (req.identity.agent_id ≡ "")
      ⊎ (capability_for bundle req.identity.tenant_id req.identity.agent_id req.action ≡ none)
      ⊎ ((cap : CapabilityRule) × (capability_for bundle req.identity.tenant_id
              req.identity.agent_id req.action
            ≡ some cap)
          × (cap.allow ≡ false))

  -- The agent is granted the action, and the grant's ceiling is unknown or the request moves money
  -- that the profile forbids.
  abbrev IsUnfunded : AutonomyProfile → Type 0
  IsUnfunded p =
      (req.identity.agent_id ≢ "")
      × ((cap : CapabilityRule) × (capability_for bundle req.identity.tenant_id
              req.identity.agent_id req.action
            ≡ some cap)
          × (cap.allow ≡ true)
          × (((risk_ordinal cap.max_risk).1 ≡ false)
              ⊎ ((pos 0 <ℤ req.amount_minor) × (p.limits.max_money_movement_minor ≡ pos 0))))

  abbrev pub IsIncapable : AutonomyProfile → String → Type 0
  IsIncapable p code =
      ((code ≡ reason_no_capability) × IsUngranted)
      ⊎ ((code ≡ reason_invalid_policy_config) × IsUnfunded p)

  pub check_capability-refusal_iff :
      (p : AutonomyProfile) (code : String)
      → (refusal (check_capability bundle req p) ≡ some code) ↔ IsIncapable p code
  unfolding check_capability deny
  check_capability-refusal_iff p code =
      ground (
        arith,
        eq_iff req.identity.agent_id "",
        eqb_ℤ_iff p.limits.max_money_movement_minor (pos 0),
      )
