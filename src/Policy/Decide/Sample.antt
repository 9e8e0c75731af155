-- ===== src/Policy/Decide/Sample.antt =====
-- A small bundle and requests to run `Decide` on.
use ivorycom_governance.Common.{string_eq, String, true, false, [], ◌∷◌}
use ivorycom_governance.Common.Int.{pos}
use ivorycom_governance.Common.Map.{lookup}
use ivorycom_governance.Policy.Model.{
  PolicyRule, zero_rule, CompiledBundle, zero_bundle, rule_for, layer, lookup_tenant,
  capability_for, autonomy_for,
}
use ivorycom_governance.Policy.Fls.{visible_and_masked, decide_field, field_rule_for}
use ivorycom_governance.Policy.Engine.{can, can_by_rule, has_rule, action_grant, decide_object}
use ivorycom_governance.Policy.Decide.Types.{
  DecisionRequest, risk_ordinal, is_live_actor, is_agent_class, deny, is_protected_config,
}
use ivorycom_governance.Policy.Decide.Choice.{
  outcome, choose, by_risk, guardrails, ceilings, permit, high_delegated,
}
use ivorycom_governance.Policy.Decide.Stages.{
  preconditions, stage_a, check_mode, check_profile, check_capability, finish, ladder, decide,
}

-- opens what `decide` calls
unfoldable pub program : Unit {0}
unfolding decide ladder preconditions stage_a check_mode check_profile check_capability finish
    outcome choose by_risk guardrails ceilings permit high_delegated risk_ordinal is_live_actor
    is_agent_class deny is_protected_config can rule_for layer lookup_tenant capability_for
    autonomy_for lookup visible_and_masked decide_field field_rule_for can_by_rule has_rule
    action_grant decide_object
program = tt

abbrev pub editor_rule : PolicyRule
editor_rule = record zero_rule {
  read = true;
  update = true;
  fields =
      ("salary", record { read = true; write = false; mask_strategy = "redact" })
      ∷ ("name", record { read = true; write = true; mask_strategy = "" })
      ∷ [];
}

abbrev pub bundle : CompiledBundle
bundle = record zero_bundle {
  version = pos 7;
  system = (record { role = "editor"; object_type = "lead" }, editor_rule) ∷ [];
  capabilities =
      (
        "t1",
        (
          record { agent_role = "a1"; tool_action = "crm.update" },
          record { allow = true; max_risk = "HIGH"; requires_approval = false },
        )
            ∷ [],
      )
      ∷ [];
  autonomy =
      (
        "t1",
        record {
          mode = "ENABLED";
          max_auto_risk = "MEDIUM";
          limits = record {
            max_actions_per_run = pos 5;
            max_actions_per_hour = pos 50;
            max_money_movement_minor = pos 100;
          };
        },
      )
      ∷ [];
}

abbrev pub update_by_agent : String → DecisionRequest
update_by_agent risk = record {
  identity = record {
    actor_type = "AGENT";
    agent_id = "a1";
    tenant_id = "t1";
    user_id = "u1";
    user_role = "editor";
  };
  action = "crm.update";
  object_type = "lead";
  action_verb = "update";
  field = "";
  risk = risk;
  approval_verified = false;
  amount_minor = pos 0;
  service_allowed = false;
  mutates_tenant_data = false;
}

abbrev pub read_by_user : String → DecisionRequest
read_by_user risk = record (update_by_agent risk) {
  identity = record {
    actor_type = "USER";
    agent_id = "";
    tenant_id = "t1";
    user_id = "u1";
    user_role = "editor";
  };
  action_verb = "read";
}

abbrev pub paying : DecisionRequest
paying = record (update_by_agent "LOW") { amount_minor = pos 30 }
