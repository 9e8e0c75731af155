-- ===== src/Policy/Decide/Delegation/Tests.antt =====
-- Two delegations, and the theorem at them.
use ivorycom_governance.Common.{◌≤◌, ◌≡◌, inr, refl, true, false, some, [], ◌∷◌, arith, string_eq}
use ivorycom_governance.Common.Int.{pos}
use ivorycom_governance.Policy.Model.{
  CompiledBundle, AutonomyProfile, CapabilityRule, autonomy_for, capability_for,
}
use ivorycom_governance.Policy.Decide.Stages.{decide}
use ivorycom_governance.Policy.Decide.Risk.{rank}
use ivorycom_governance.Policy.Decide.Delegation.{
  IsWiderProfile, IsWiderCapability, IsWider, decide_delegation_monotone,
}
use ivorycom_governance.Policy.Decide.Sample.{program, bundle, update_by_agent}

-- a profile that lets agents act at LOW risk only, and the profile of the sample
abbrev low_only : AutonomyProfile
low_only = record {
  mode = "RESTRICTED";
  max_auto_risk = "LOW";
  limits = record {
    max_actions_per_run = pos 1;
    max_actions_per_hour = pos 10;
    max_money_movement_minor = pos 0;
  };
}

abbrev up_to_medium : AutonomyProfile
up_to_medium = record {
  mode = "ENABLED";
  max_auto_risk = "MEDIUM";
  limits = record {
    max_actions_per_run = pos 5;
    max_actions_per_hour = pos 50;
    max_money_movement_minor = pos 100;
  };
}

abbrev tightened : CompiledBundle
tightened = record bundle { autonomy = ("t1", low_only) ∷ [] }

wider_profile : IsWiderProfile low_only up_to_medium
unfolding program
wider_profile = record {
  mode = inr refl;
  known = refl;
  auto_risk = omega arith;
  per_run = omega arith;
  per_hour = omega arith;
  money = omega arith;
}

abbrev granted : CapabilityRule
granted = record { allow = true; max_risk = "HIGH"; requires_approval = false }

same_capability : IsWiderCapability granted granted
unfolding program
same_capability = record { allow = λ h. h; known = refl; cap_risk = omega arith; approval = λ h. h }

low_only_found : (p : AutonomyProfile) → autonomy_for tightened "t1" ≡ some p → low_only ≡ p
unfolding program
low_only_found p h = cc

granted_found :
    (c : CapabilityRule) → capability_for tightened "t1" "a1" "crm.update" ≡ some c → granted ≡ c
unfolding program
granted_found c h = cc

bundle-IsWider : IsWider tightened bundle (update_by_agent "MEDIUM")
unfolding program
bundle-IsWider = record {
  loaded = omega arith;
  profile = λ p h. (up_to_medium, refl, rw (← low_only_found p h) wider_profile);
  capability = λ c h. (granted, refl, rw (← granted_found c h) same_capability);
}

decide_delegation_monotone_example :
    rank (decide tightened bundle (update_by_agent "MEDIUM")).effect
    ≤ rank (decide bundle bundle (update_by_agent "MEDIUM")).effect
decide_delegation_monotone_example =
    decide_delegation_monotone tightened bundle bundle (update_by_agent "MEDIUM") bundle-IsWider
