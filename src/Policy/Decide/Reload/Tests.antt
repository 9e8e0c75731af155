-- ===== src/Policy/Decide/Reload/Tests.antt =====
-- A run of `Decide` that a reload comes into, and the theorem at it.
use ivorycom_governance.Common.{
  String, ◌≡◌, ◌≢◌, refl, inl, inr, true, false, none, [], ◌==◌, string_eq, eq_iff, arith,
}
use ivorycom_governance.Common.Int.{pos}
use ivorycom_governance.Policy.Model.{CompiledBundle, AutonomyProfile, CapabilityRule, autonomy_for}
use ivorycom_governance.Policy.Decide.Types.{effect_deny, is_agent_class}
use ivorycom_governance.Policy.Decide.Stages.{decide}
use ivorycom_governance.Policy.Decide.Clearance.{rbac_of, IsCommon, IsDelegated}
use ivorycom_governance.Policy.Decide.Guardrails.{permits}
use ivorycom_governance.Policy.Decide.Autonomy.{IsAutonomous}
use ivorycom_governance.Policy.Decide.Reload.{decide_torn}
use ivorycom_governance.Policy.Decide.Sample.{program, bundle, update_by_agent}

agent_is_agent : is_agent_class "AGENT" ≡ true
unfolding is_agent_class
agent_is_agent = refl

-- the old bundle delegates and grants no update; the new one grants it and delegates nothing
abbrev reloaded : CompiledBundle
reloaded = record bundle { version = pos 8; autonomy = [] }

abbrev not_granted : CompiledBundle
not_granted = record bundle { system = [] }

differs : (s t : String) → (s == t) ≡ false → s ≢ t
differs s t h = ground (arith, eq_iff s t)

abbrev own_limits : AutonomyProfile
own_limits = record {
  mode = "ENABLED";
  max_auto_risk = "MEDIUM";
  limits = record {
    max_actions_per_run = pos 5;
    max_actions_per_hour = pos 50;
    max_money_movement_minor = pos 100;
  };
}

abbrev own_updates : CapabilityRule
own_updates = record { allow = true; max_risk = "HIGH"; requires_approval = false }

torn-IsCommon : IsCommon not_granted reloaded (update_by_agent "LOW")
unfolding program
torn-IsCommon = record {
  admissible = record { loaded = omega arith; live = refl; known = refl };
  permitted = record {
    not_critical = inr (differs _ _ refl);
    external_cap = inl (differs _ _ refl);
    service = inl (differs _ _ refl);
    system = inl (differs _ _ refl);
    rbac_or_approval = inl refl;
  };
}

torn-IsDelegated : IsDelegated not_granted reloaded (update_by_agent "LOW") own_limits own_updates
unfolding program
torn-IsDelegated = record {
  usable = record {
    configured = refl;
    running = inl refl;
    auto_risk = refl;
    per_run = omega arith;
    per_hour = omega arith;
    money = omega arith;
  };
  capable = record {
    named = differs _ _ refl;
    granted = refl;
    allowed = refl;
    cap_risk = refl;
    funded = inl (omega arith);
  };
}

torn-IsAutonomous : IsAutonomous (update_by_agent "LOW") own_limits own_updates
unfolding program
torn-IsAutonomous = record {
  no_money = omega arith;
  not_destructive = inl (differs _ _ refl);
  unprotected = refl;
  no_approval = refl;
  within_capability = omega arith;
  within_profile = omega arith;
  enabled_or_low = inl refl;
}

torn_facts :
    ((rbac_of not_granted not_granted (update_by_agent "LOW")).allow ≡ false)
    × (autonomy_for reloaded "t1" ≡ none)
unfolding program
torn_facts = (refl, refl)

decide_torn_example :
    (permits (decide not_granted reloaded (update_by_agent "LOW")).effect ≡ true)
    × ((decide not_granted reloaded (update_by_agent "LOW")).policy_version ≡ pos 7)
    × ((decide not_granted not_granted (update_by_agent "LOW")).effect ≡ effect_deny)
    × ((decide reloaded reloaded (update_by_agent "LOW")).effect ≡ effect_deny)
decide_torn_example =
    decide_torn not_granted reloaded (update_by_agent "LOW") own_limits own_updates agent_is_agent
      refl torn-IsCommon torn-IsDelegated torn-IsAutonomous torn_facts.0 torn_facts.1
