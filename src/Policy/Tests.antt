-- ===== src/Policy/Tests.antt =====
-- Runs of the rule layers, of `Can` and of `CanRecord`, and the theorems at them.
use mathlib.Core.List.{Memᴰ}
use ivorycom_governance.Policy.Abac.Reload.{HasNoRule, can_record_torn}
use ivorycom_governance.Common.Text.{contains}
use ivorycom_governance.Common.{String, ◌≡◌, ◌↔◌, refl, true, false, [], ◌∷◌, All, string_eq}
use ivorycom_governance.Common.Map.{Map, lookup, insert, insert_all}
use ivorycom_governance.Common.Int.{pos}
use ivorycom_governance.Common.Text.{replace_all, split, trim_space}
use ivorycom_governance.Policy.Abac.Membership.{one_of, eval_condition-one_of_caller_iff}
use ivorycom_governance.Policy.Model.{
  RoleObj, Condition, PolicyRule, zero_rule, CompiledBundle, zero_bundle, Identity, add_condition,
  add_conditions, merge_conditions, merge_rule, lookup_tenant, layer, rule_for,
}
use ivorycom_governance.Policy.Model.Layers.{conditions_of, system_rule, tenant_rule}
use ivorycom_governance.Policy.Fls.{
  field_rule_for, decide_by_field_rule, decide_field, visible_and_masked,
}
use ivorycom_governance.Policy.Engine.{action_grant, has_rule, decide_object, can_by_rule, can}
use ivorycom_governance.Policy.Engine.Access.{Grants, OpensField, can-allow_iff}
use ivorycom_governance.Policy.Abac.{
  Value, string, substitute, stringify, attribute, eval_condition, check_conditions, can_record,
}
use ivorycom_governance.Policy.Abac.Conditions.{Meets, can_record-passes_iff}
use ivorycom_governance.Policy.Abac.Meaning.{owned_by}

-- opens what the engine calls
engine : Unit {0}
unfolding can can_by_rule action_grant has_rule decide_object decide_field decide_by_field_rule
    field_rule_for visible_and_masked rule_for layer lookup_tenant merge_rule merge_conditions
    add_conditions add_condition lookup insert insert_all can_record check_conditions eval_condition
    substitute stringify attribute replace_all split trim_space
engine = tt

abbrev owner : Condition
owner = owned_by "owner_id"

abbrev open_stage : Condition
open_stage = record { field = "stage"; op = "in"; value = "new, won" }

abbrev rep_rule : PolicyRule
rep_rule = record zero_rule {
  read = true;
  fields =
      ("ssn", record { read = false; write = false; mask_strategy = "" })
      ∷ ("phone", record { read = true; write = false; mask_strategy = "partial" })
      ∷ ("*", record { read = true; write = false; mask_strategy = "" })
      ∷ [];
  record_conditions = owner ∷ [];
}

abbrev tenant_layer : PolicyRule
tenant_layer = record zero_rule {
  update = true;
  fields = ("ssn", record { read = true; write = false; mask_strategy = "redact" }) ∷ [];
  record_conditions = owner ∷ open_stage ∷ [];
}

abbrev rep_key : RoleObj
rep_key = record { role = "rep"; object_type = "deal" }

abbrev layered : CompiledBundle
layered = record zero_bundle {
  version = pos 1;
  system = (rep_key, rep_rule) ∷ [];
  tenant = ("t1", (rep_key, tenant_layer) ∷ []) ∷ [];
}

abbrev rep : Identity
rep = record {
  actor_type = "USER";
  agent_id = "";
  tenant_id = "t1";
  user_id = "u1";
  user_role = "rep";
}

abbrev sprint : Unit {0} → String
sprint v = "?"

abbrev own_deal : Map String (Value (Unit {0}))
own_deal = ("owner_id", string "u1") ∷ ("stage", string "won") ∷ []

abbrev lost_deal : Map String (Value (Unit {0}))
lost_deal = ("owner_id", string "u1") ∷ ("stage", string "lost") ∷ []

can_tests :
    ((can layered rep "read" "deal" "ssn").allow ≡ true)
    × ((can layered rep "read" "deal" "").visible_fields ≡ "phone" ∷ "ssn" ∷ [])
    × ((can layered rep "update" "deal" "phone").reason ≡ "field not writable")
    × ((can layered rep "delete" "deal" "").reason ≡ "action denied")
    × ((can layered rep "export" "deal" "").reason ≡ "unknown action")
    × ((can layered rep "read" "invoice" "").reason ≡ "no policy")
unfolding engine
can_tests = (refl, refl, refl, refl, refl, refl)

can_record_tests :
    ((can_record sprint layered layered rep "read" "deal" own_deal).allow ≡ true)
    × ((can_record sprint layered layered rep "read" "deal" lost_deal).reason
        ≡ "record condition failed: stage")
    × ((can_record sprint layered layered rep "read" "deal" []).reason
        ≡ "record condition failed: owner_id")
unfolding engine
can_record_tests = (refl, refl, refl)

merge_test : (rule_for layered "t1" "rep" "deal").record_conditions ≡ owner ∷ open_stage ∷ []
unfolding engine
merge_test = refl

can-allow_iff_example : ((can layered rep "read" "deal" "ssn").allow ≡ true) ↔ (
    Grants (rule_for layered "t1" "rep" "deal") "read"
    × OpensField (rule_for layered "t1" "rep" "deal") "read" "ssn")
can-allow_iff_example = can-allow_iff layered rep "read" "deal" "ssn"

can_record-passes_iff_example :
    ((can_record sprint layered layered rep "read" "deal" own_deal).allow ≡ true) ↔ (
      (can_record sprint layered layered rep "read" "deal" own_deal
        ≡ can layered rep "read" "deal" "")
      × ((can layered rep "read" "deal" "").allow ≡ true)
      × All (Meets sprint rep own_deal) (conditions_of (system_rule layered "t1" "rep" "deal"))
      × All (Meets sprint rep own_deal) (conditions_of (tenant_rule layered "t1" "rep" "deal")))
can_record-passes_iff_example =
    can_record-passes_iff sprint rep own_deal layered layered "read" "deal"

-- the caller's own, and the pool of the tenant
abbrev reachable : Condition
reachable = one_of "owner_id" "$user_id" (" pool-$tenant_id" ∷ [])

eval_condition-one_of_caller_iff_example :
    (eval_condition sprint reachable rep own_deal ≡ true)
    ↔ Memᴰ (stringify sprint (attribute own_deal "owner_id")) ("u1" ∷ "pool-t1" ∷ [])
unfolding engine contains
eval_condition-one_of_caller_iff_example =
    eval_condition-one_of_caller_iff sprint "owner_id" "$user_id" (" pool-$tenant_id" ∷ []) rep
      own_deal refl (refl, tt) (refl, refl)

-- the rule of the role is taken away, and the owner's condition with it
revoked : HasNoRule zero_bundle rep "deal"
unfolding engine
revoked = record { system = refl; tenant = refl }

abbrev alien_deal : Map String (Value (Unit {0}))
alien_deal = ("owner_id", string "u2") ∷ ("stage", string "won") ∷ []

torn_facts :
    ((can layered rep "read" "deal" "").allow ≡ true)
    × Memᴰ owner (rule_for layered "t1" "rep" "deal").record_conditions
    × (eval_condition sprint owner rep alien_deal ≡ false)
unfolding engine
torn_facts = (refl, Memᴰ.head refl, refl)

can_record_torn_example :
    ((can_record sprint layered layered rep "read" "deal" alien_deal).allow ≡ false)
    × ((can_record sprint zero_bundle zero_bundle rep "read" "deal" alien_deal).allow ≡ false)
    × (can_record sprint layered zero_bundle rep "read" "deal" alien_deal
        ≡ can layered rep "read" "deal" "")
    × ((can_record sprint layered zero_bundle rep "read" "deal" alien_deal).allow ≡ true)
can_record_torn_example =
    can_record_torn sprint layered zero_bundle rep "read" "deal" alien_deal owner torn_facts.0
      torn_facts.1 torn_facts.2 revoked
