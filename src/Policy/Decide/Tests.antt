-- ===== src/Policy/Decide/Tests.antt =====
-- Runs of `Decide` on a small bundle, and the theorems at them.
use ivorycom_governance.Common.{
  ◌≤◌, ◌⊎◌, string_eq, ◌≡◌, ◌≢◌, ◌↔◌, refl, inl, true, false, [], ◌∷◌, arith,
}
use ivorycom_governance.Common.Int.{pos, ◌≤ℤ◌, ◌<ℤ◌}
use ivorycom_governance.Common.Map.{lookup, insert}
use ivorycom_governance.Policy.Model.{
  CompiledBundle, zero_bundle, zero_profile, AutonomyProfile, CapabilityRule,
}
use ivorycom_governance.Policy.Decide.Types.{
  actor_legacy_unknown, reason_actor_type_missing, reason_critical_agent_prohibited, effect_allow,
  effect_deny, effect_allow_with_conditions, effect_require_approval, risk_ordinal, is_agent_class,
}
use ivorycom_governance.Policy.Decide.Stages.{decide}
use ivorycom_governance.Policy.Decide.Clearance.{
  rbac_of, IsCommon, IsDelegated, IsCleared, decide-IsCleared_iff,
}
use ivorycom_governance.Policy.Decide.Refusals.{IsDenial, loaded_version}
use ivorycom_governance.Policy.Decide.Denials.{Denied, decide-Denied_iff}
use ivorycom_governance.Policy.Decide.Questions.{Asked, decide-Asked_iff}
use ivorycom_governance.Policy.Decide.Guardrails.{permits, decide-permits_of_IsGuarded}
use ivorycom_governance.Policy.Decide.Autonomy.{IsAutonomous, decide-IsAutonomous_iff}
use ivorycom_governance.Policy.Decide.Halt.{IsBounded, decide-IsBounded}
use ivorycom_governance.Policy.Decide.Risk.{rank, decide_risk_monotone}
use ivorycom_governance.Policy.Decide.Isolation.{decide_isolated}
use ivorycom_governance.Policy.Decide.Codes.{IsTold, decide-IsTold}
use ivorycom_governance.Policy.Decide.Approval.{approve}
use ivorycom_governance.Policy.Decide.Executor.{approve-stands_for_rbac}
use ivorycom_governance.Policy.Decide.Sample.{
  program, bundle, update_by_agent, read_by_user, paying,
}

effect_tests :
    ((decide bundle bundle (update_by_agent "MEDIUM")).effect ≡ effect_allow)
    × ((decide bundle bundle (update_by_agent "HIGH")).effect ≡ effect_require_approval)
    × ((decide bundle bundle (update_by_agent "CRITICAL")).effect ≡ effect_deny)
    × ((decide bundle bundle paying).effect ≡ effect_require_approval)
    × ((decide bundle bundle (approve paying)).effect ≡ effect_allow)
    × ((decide bundle bundle (read_by_user "MEDIUM")).effect ≡ effect_allow_with_conditions)
    × ((decide zero_bundle bundle (read_by_user "LOW")).effect ≡ effect_deny)
unfolding program
effect_tests = (refl, refl, refl, refl, refl, refl, refl)

reason_tests :
    ((decide bundle bundle (update_by_agent "HIGH")).reason_code ≡ "approval_required_high_risk")
    × ((decide bundle bundle (read_by_user "MEDIUM")).masked_fields ≡ ("salary", "redact") ∷ [])
    × ((decide bundle bundle (read_by_user "MEDIUM")).visible_fields ≡ "name" ∷ "salary" ∷ [])
unfolding program
reason_tests = (refl, refl, refl)

legacy_test :
    (decide bundle bundle (record paying {
      identity = record paying.identity { actor_type = actor_legacy_unknown };
    })).reason_code
    ≡ reason_actor_type_missing
unfolding program
legacy_test = refl

decide-IsCleared_iff_example :
    ((decide bundle bundle paying).effect ≢ effect_deny) ↔ IsCleared bundle bundle paying
decide-IsCleared_iff_example = decide-IsCleared_iff bundle bundle paying

decide-Denied_iff_example :
    ((((decide bundle bundle (update_by_agent "CRITICAL")).effect ≡ effect_deny)
        × ((decide bundle bundle (update_by_agent "CRITICAL")).reason_code
            ≡ reason_critical_agent_prohibited))
      ↔ Denied bundle bundle (update_by_agent "CRITICAL") reason_critical_agent_prohibited)
    × (Denied bundle bundle (update_by_agent "CRITICAL") reason_critical_agent_prohibited ↔ (
        IsDenial (loaded_version bundle) (decide bundle bundle (update_by_agent "CRITICAL"))
        × ((decide bundle bundle (update_by_agent "CRITICAL")).reason_code
            ≡ reason_critical_agent_prohibited)))
decide-Denied_iff_example =
    decide-Denied_iff bundle bundle (update_by_agent "CRITICAL") reason_critical_agent_prohibited

decide-Asked_iff_example :
    (((decide bundle bundle (update_by_agent "HIGH")).effect ≡ effect_require_approval)
      × ((decide bundle bundle (update_by_agent "HIGH")).reason_code
          ≡ "approval_required_high_risk"))
    ↔ Asked bundle bundle (update_by_agent "HIGH") "approval_required_high_risk"
decide-Asked_iff_example =
    decide-Asked_iff bundle bundle (update_by_agent "HIGH") "approval_required_high_risk"

agent_is_agent : is_agent_class "AGENT" ≡ true
unfolding is_agent_class
agent_is_agent = refl

user_is_not : is_agent_class "USER" ≡ false
unfolding is_agent_class
user_is_not = refl

decide-permits_of_IsGuarded_example : permits (decide bundle bundle paying).effect ≡ false
decide-permits_of_IsGuarded_example =
    decide-permits_of_IsGuarded bundle bundle paying refl (inl (agent_is_agent, inl (omega arith)))

decide-IsAutonomous_iff_example : (permits (decide bundle bundle paying).effect ≡ true) ↔ (
    (profile : AutonomyProfile) × (capability : CapabilityRule) × IsCommon bundle bundle paying
    × IsDelegated bundle bundle paying profile capability
    × IsAutonomous paying profile capability)
decide-IsAutonomous_iff_example = decide-IsAutonomous_iff bundle bundle paying agent_is_agent refl

decide-IsTold_example :
    IsTold (decide bundle bundle paying).effect (decide bundle bundle paying).reason_code
decide-IsTold_example = decide-IsTold bundle bundle paying

rbac_allows : (rbac_of bundle bundle paying).allow ≡ true
unfolding program
rbac_allows = refl

approve-stands_for_rbac_example :
    (((decide bundle bundle paying).effect ≡ effect_deny)
      × (decide bundle zero_bundle (approve paying) ≡ decide bundle bundle paying))
    ⊎ (((decide bundle bundle paying).effect ≢ effect_deny)
        × (permits (decide bundle zero_bundle (approve paying)).effect ≡ true))
approve-stands_for_rbac_example =
    approve-stands_for_rbac bundle zero_bundle bundle paying rbac_allows

decide_isolated_example :
    decide bundle bundle paying
    ≡ decide (record bundle { autonomy = insert "t2" zero_profile bundle.autonomy }) bundle paying
decide_isolated_example =
    decide_isolated bundle (record bundle { autonomy = insert "t2" zero_profile bundle.autonomy })
      bundle bundle paying
      (record { version = refl; capabilities = refl; autonomy = unfold lookup insert in refl })
      (record { system = refl; tenants = refl })

-- the tenant's agents are paused
abbrev paused : CompiledBundle
paused = record bundle {
  autonomy = ("t1", record zero_profile { mode = "PAUSED"; max_auto_risk = "HIGH" }) ∷ [];
}

paused_test : (decide paused bundle (approve paying)).reason_code ≡ "autonomy_halted"
unfolding program
paused_test = refl

decide-IsBounded_example :
    IsBounded (decide bundle bundle (approve paying)).limits_required
    × ((true ≡ false)
        ⊎ (pos 30 ≤ℤ pos 0)
        ⊎ ((decide bundle bundle (approve paying)).effect ≡ effect_deny)
        ⊎ (pos 0 <ℤ (decide bundle bundle (approve paying)).limits_required.max_money_movement_minor
            ))
unfolding is_agent_class
decide-IsBounded_example = decide-IsBounded bundle bundle (approve paying)

known_lower : ((risk_ordinal "LOW").1 ≡ true) × ((risk_ordinal "LOW").0 ≤ (risk_ordinal "MEDIUM").0)
unfolding risk_ordinal
known_lower = (refl, omega arith)

decide_risk_monotone_example :
    rank (decide bundle bundle (update_by_agent "MEDIUM")).effect
    ≤ rank (decide bundle bundle (update_by_agent "LOW")).effect
decide_risk_monotone_example =
    decide_risk_monotone bundle bundle (update_by_agent "MEDIUM") "LOW" known_lower.0 known_lower.1
