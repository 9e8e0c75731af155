-- ===== src/Policy/Model.antt =====
-- go/policy/model.go: rules, bundles, and the layering of a tenant's rules over the system's.
pub mod Merge
pub mod Layers
pub mod Same
use ivorycom_governance.Common.{
  String, ◌≡◌, ◌↔◌, Bool, true, false, ◌&&◌, ◌||◌, Option, none, some, List, [], ◌∷◌, ◌++◌, arith,
  eq_iff, Comparable, ◌==◌, string_eq,
}
use ivorycom_governance.Common.Int.{ℤ, pos}
use ivorycom_governance.Common.Map
use ivorycom_governance.Common.Map.{Map}

pub record RoleObj : Type 0 where
  pub role : String
  pub object_type : String

pub role_obj_beq_iff :
    (a b : RoleObj) → ((a.role == b.role && a.object_type == b.object_type) ≡ true) ↔ (a ≡ b)
role_obj_beq_iff a b = ground (arith, eq_iff a.role b.role, eq_iff a.object_type b.object_type)

instance abbrev pub role_obj_eq : Comparable RoleObj
role_obj_eq = record {
  equal = λ a b. a.role == b.role && a.object_type == b.object_type;
  equal_iff = role_obj_beq_iff;
}

pub record FieldRule : Type 0 where
  pub read : Bool
  pub write : Bool
  pub mask_strategy : String

pub record Condition : Type 0 where
  pub field : String
  pub op : String
  pub value : String

pub condition_beq_iff :
    (a b : Condition)
    → ((a.field == b.field && a.op == b.op && a.value == b.value) ≡ true) ↔ (a ≡ b)
condition_beq_iff a b =
    ground (arith, eq_iff a.field b.field, eq_iff a.op b.op, eq_iff a.value b.value)

instance abbrev pub condition_eq : Comparable Condition
condition_eq = record {
  equal = λ a b. a.field == b.field && a.op == b.op && a.value == b.value;
  equal_iff = condition_beq_iff;
}

pub record PolicyRule : Type 0 where
  pub create : Bool
  pub read : Bool
  pub update : Bool
  pub delete : Bool
  pub view_all : Bool
  pub modify_all : Bool
  pub fields : Map String FieldRule
  pub record_conditions : List Condition

-- `PolicyRule{}`
abbrev pub zero_rule : PolicyRule
zero_rule = record {
  create = false;
  read = false;
  update = false;
  delete = false;
  view_all = false;
  modify_all = false;
  fields = [];
  record_conditions = [];
}

pub record Decision : Type 0 where
  pub allow : Bool
  pub visible_fields : List String
  pub masked_fields : Map String String
  pub reason : String

-- `Decision{Allow: allow, Reason: reason}`
abbrev pub decided : Bool → String → Decision
decided allow reason = record {
  allow = allow;
  visible_fields = [];
  masked_fields = [];
  reason = reason;
}

pub record CapKey : Type 0 where
  pub agent_role : String
  pub tool_action : String

pub cap_key_beq_iff :
    (a b : CapKey)
    → ((a.agent_role == b.agent_role && a.tool_action == b.tool_action) ≡ true) ↔ (a ≡ b)
cap_key_beq_iff a b =
    ground (arith, eq_iff a.agent_role b.agent_role, eq_iff a.tool_action b.tool_action)

instance abbrev pub cap_key_eq : Comparable CapKey
cap_key_eq = record {
  equal = λ a b. a.agent_role == b.agent_role && a.tool_action == b.tool_action;
  equal_iff = cap_key_beq_iff;
}

pub record CapabilityRule : Type 0 where
  pub allow : Bool
  pub max_risk : String
  pub requires_approval : Bool

-- `CapabilityRule{}`
abbrev pub zero_capability : CapabilityRule
zero_capability = record { allow = false; max_risk = ""; requires_approval = false }

-- the values of `AutonomyMode`, a string type
abbrev pub autonomy_enabled : String
autonomy_enabled = "ENABLED"

abbrev pub autonomy_restricted : String
autonomy_restricted = "RESTRICTED"

abbrev pub autonomy_paused : String
autonomy_paused = "PAUSED"

abbrev pub autonomy_disabled : String
autonomy_disabled = "DISABLED"

pub record Limits : Type 0 where
  pub max_actions_per_run : ℤ
  pub max_actions_per_hour : ℤ
  pub max_money_movement_minor : ℤ

-- `Limits{}`
abbrev pub zero_limits : Limits
zero_limits = record {
  max_actions_per_run = pos 0;
  max_actions_per_hour = pos 0;
  max_money_movement_minor = pos 0;
}

pub record AutonomyProfile : Type 0 where
  pub mode : String
  pub max_auto_risk : String
  pub limits : Limits

-- `AutonomyProfile{}`
abbrev pub zero_profile : AutonomyProfile
zero_profile = record { mode = ""; max_auto_risk = ""; limits = zero_limits }

pub record CompiledBundle : Type 0 where
  pub version : ℤ
  pub system : Map RoleObj PolicyRule
  pub tenant : Map String (Map RoleObj PolicyRule)
  pub capabilities : Map String (Map CapKey CapabilityRule)
  pub autonomy : Map String AutonomyProfile

-- `CompiledBundle{}`
abbrev pub zero_bundle : CompiledBundle
zero_bundle = record { version = pos 0; system = []; tenant = []; capabilities = []; autonomy = [] }

pub record Identity : Type 0 where
  pub actor_type : String
  pub agent_id : String
  pub tenant_id : String
  pub user_id : String
  pub user_role : String

-- the two loops that append conditions, skipping those in `seen`
pub record Merged : Type 0 where
  pub seen : Map Condition (Unit {0})
  pub merged : List Condition

unfoldable pub add_condition : Merged → Condition → Merged
add_condition s c = elim (Map.lookup c s.seen) [
  | some _ ↦ s
  | none ↦ record { seen = Map.insert c tt s.seen; merged = s.merged ++ c ∷ [] }
]

unfoldable pub add_conditions : Merged → List Condition → Merged
add_conditions s [] = s
add_conditions s (c ∷ cs) = add_conditions (add_condition s c) cs

unfoldable pub merge_conditions : List Condition → List Condition → List Condition
merge_conditions base override =
    (add_conditions (add_conditions (record { seen = []; merged = [] }) base) override).merged

unfoldable pub merge_rule : PolicyRule → PolicyRule → PolicyRule
merge_rule base override = record {
  create = base.create || override.create;
  read = base.read || override.read;
  update = base.update || override.update;
  delete = base.delete || override.delete;
  view_all = base.view_all || override.view_all;
  modify_all = base.modify_all || override.modify_all;
  fields = Map.insert_all override.fields (Map.insert_all base.fields []);
  record_conditions = merge_conditions base.record_conditions override.record_conditions;
}

-- the lookup of a key in the map of one tenant, if that tenant has a map
unfoldable pub lookup_tenant {ℓ} :
    {K V : Type ℓ} ⦃e : Comparable K⦄ → String → K → Map String (Map K V) → Option V
lookup_tenant tenant key maps = elim (Map.lookup tenant maps) [
  | none ↦ none
  | some tm ↦ Map.lookup key tm
]

-- the switch of `RuleFor`
unfoldable pub layer : Option PolicyRule → Option PolicyRule → PolicyRule
layer (some base) (some override) = merge_rule base override
layer (some base) none = base
layer none (some override) = override
layer none none = zero_rule

unfoldable pub rule_for : CompiledBundle → String → String → String → PolicyRule
rule_for b tenant role object_type =
    let key : RoleObj = record { role = role; object_type = object_type } in
    layer (Map.lookup key b.system) (lookup_tenant tenant key b.tenant)

unfoldable pub capability_for : CompiledBundle → String → String → String → Option CapabilityRule
capability_for b tenant agent_role action =
    lookup_tenant tenant (record { agent_role = agent_role; tool_action = action }) b.capabilities

unfoldable pub autonomy_for : CompiledBundle → String → Option AutonomyProfile
autonomy_for b tenant = Map.lookup tenant b.autonomy
