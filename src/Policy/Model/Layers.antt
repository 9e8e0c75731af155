-- ===== src/Policy/Model/Layers.antt =====
-- go/policy/model.go: what the effective rule takes from the system's layer and from the tenant's.
use ivorycom_governance.Common.{
  String, ◌≡◌, ◌↔◌, refl, sym, Option, none, some, List, [], All, string_eq,
}
use ivorycom_governance.Common.Map
use ivorycom_governance.Common.Map.{
  Map, or_else, or_else-none, HasUniqueKeys, lookup-insert_all, insert_all-HasUniqueKeys,
  lookup-insert,
}
use ivorycom_governance.Policy.Model.{
  role_obj_eq, FieldRule, Condition, PolicyRule, CompiledBundle, merge_rule, layer, lookup_tenant,
  rule_for,
}
use ivorycom_governance.Policy.Model.Merge.{merge_rule-All_iff}

-- What a layer says, if it is there.
abbrev pub conditions_of : Option PolicyRule → List Condition
conditions_of none = []
conditions_of (some r) = r.record_conditions

abbrev pub fields_of : Option PolicyRule → Map String FieldRule
fields_of none = []
fields_of (some r) = r.fields

-- The system's rule and the tenant's rule for a role and an object type.
module _ (b : CompiledBundle) (tenant role object_type : String) where
  abbrev pub system_rule : Option PolicyRule
  system_rule = Map.lookup (record { role = role; object_type = object_type }) b.system

  abbrev pub tenant_rule : Option PolicyRule
  tenant_rule = lookup_tenant tenant (record { role = role; object_type = object_type }) b.tenant

pub merge_rule-fields :
    (base override : PolicyRule) (field : String)
    → HasUniqueKeys base.fields
    → HasUniqueKeys override.fields
    → Map.lookup field (merge_rule base override).fields
      ≡ or_else (Map.lookup field override.fields) (Map.lookup field base.fields)
unfolding merge_rule Map.lookup
merge_rule-fields base override field hb ho =
    rw (lookup-insert_all field override.fields _ ho)
      (rw (lookup-insert_all field base.fields [] hb) (rw or_else-none))

layer-All_iff :
    (P : Condition → Type 0) (base override : Option PolicyRule)
    → All P (layer base override).record_conditions
      ↔ (All P (conditions_of base) × All P (conditions_of override))
unfolding layer
layer-All_iff P (some base) (some override) = merge_rule-All_iff P base override
layer-All_iff P (some base) none = (λ a. (a, tt), λ a. a.0)
layer-All_iff P none (some override) = (λ a. (tt, a), λ a. a.1)
layer-All_iff P none none = (λ a. (tt, tt), λ a. tt)

layer-fields :
    (base override : Option PolicyRule) (field : String)
    → HasUniqueKeys (fields_of base)
    → HasUniqueKeys (fields_of override)
    → Map.lookup field (layer base override).fields
      ≡ or_else (Map.lookup field (fields_of override)) (Map.lookup field (fields_of base))
unfolding layer Map.lookup
layer-fields (some base) (some override) field hb ho = merge_rule-fields base override field hb ho
layer-fields (some base) none field hb ho = refl
layer-fields none (some override) field hb ho = sym (or_else-none _)
layer-fields none none field hb ho = refl

-- Whatever is asked of a condition holds of all conditions of the effective rule exactly when it
-- holds of all of the system's rule and of all of the tenant's, a missing rule having none. So a
-- tenant that customises a system role cannot drop a condition of the system.
pub rule_for-All_iff :
    (P : Condition → Type 0) (b : CompiledBundle) (tenant role object_type : String)
    → All P (rule_for b tenant role object_type).record_conditions ↔ (
        All P (conditions_of (system_rule b tenant role object_type))
        × All P (conditions_of (tenant_rule b tenant role object_type)))
unfolding rule_for
rule_for-All_iff P b tenant role object_type =
    layer-All_iff P (system_rule b tenant role object_type) (tenant_rule b tenant role object_type)

-- The field rule in the effective rule is the tenant's where it has one, else the system's, if the
-- maps of the two layers hold each field once.
pub rule_for-fields :
    (b : CompiledBundle) (tenant role object_type field : String)
    → HasUniqueKeys (fields_of (system_rule b tenant role object_type))
    → HasUniqueKeys (fields_of (tenant_rule b tenant role object_type))
    → Map.lookup field (rule_for b tenant role object_type).fields
      ≡ or_else
          (Map.lookup field (fields_of (tenant_rule b tenant role object_type)))
          (Map.lookup field (fields_of (system_rule b tenant role object_type)))
unfolding rule_for
rule_for-fields b tenant role object_type field hs ht =
    layer-fields (system_rule b tenant role object_type) (tenant_rule b tenant role object_type)
      field hs ht
