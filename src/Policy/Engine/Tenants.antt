-- ===== src/Policy/Engine/Tenants.antt =====
-- go/policy/engine.go, go/policy/model.go: what a tenant's rules change.
use ivorycom_governance.Common.{
  String, ◌≡◌, refl, inl, true, Option, none, some, [], arith, string_eq,
}
use ivorycom_governance.Common.Map.{lookup}
use ivorycom_governance.Policy.Model.{
  RoleObj, role_obj_eq, PolicyRule, CompiledBundle, Identity, rule_for, lookup_tenant, layer,
  merge_rule,
}
use ivorycom_governance.Policy.Engine.{can}
use ivorycom_governance.Policy.Engine.Access.{Grants, can-allow_iff}

Grants-layer :
    (base override : Option PolicyRule) (action : String)
    → Grants (layer base none) action
    → Grants (layer base override) action
unfolding layer merge_rule
Grants-layer (some base) none action g = g
Grants-layer (some base) (some override) action g = ground arith
Grants-layer none override action g = ground arith

Grants-rule_for :
    (bundle : CompiledBundle) (tenant role object_type action : String)
    → Grants (rule_for (record bundle { tenant = [] }) tenant role object_type) action
    → Grants (rule_for bundle tenant role object_type) action
unfolding rule_for lookup_tenant lookup
Grants-rule_for bundle tenant role object_type action g =
    let key : RoleObj = record { role = role; object_type = object_type } in
    Grants-layer (lookup key bundle.system) (lookup_tenant tenant key bundle.tenant) action g

-- A tenant's rules take no action on a whole object away: what the system's rules alone allow stays
-- allowed under any rules of the tenants.
can_object_grows :
    (bundle : CompiledBundle) (id : Identity) (action object_type : String)
    → (can (record bundle { tenant = [] }) id action object_type "").allow ≡ true
    → (can bundle id action object_type "").allow ≡ true
can_object_grows bundle id action object_type h =
    let (granted, _) =
      (can-allow_iff (record bundle { tenant = [] }) id action object_type "").0 h in
    (can-allow_iff bundle id action object_type "").1
      (Grants-rule_for bundle id.tenant_id id.user_role object_type action granted, inl refl)

-- The two bundles hold the same system rules, and the same rules of one tenant.
pub record SameRules (tenant : String) (b b' : CompiledBundle) : Type 0 where
  pub system : b.system ≡ b'.system
  pub tenants : lookup tenant b.tenant ≡ lookup tenant b'.tenant

rule_for_of_SameRules :
    (tenant role object_type : String) (b b' : CompiledBundle)
    → SameRules tenant b b'
    → rule_for b tenant role object_type ≡ rule_for b' tenant role object_type
unfolding rule_for lookup_tenant
rule_for_of_SameRules tenant role object_type b b' s = cc (s.system, s.tenants)

-- `Can` reads the rules of the caller's tenant and of the system only.
pub can_of_SameRules :
    (b b' : CompiledBundle) (id : Identity) (action object_type field : String)
    → SameRules id.tenant_id b b'
    → can b id action object_type field ≡ can b' id action object_type field
unfolding can
can_of_SameRules b b' id action object_type field s =
    rw (rule_for_of_SameRules id.tenant_id id.user_role object_type b b' s)
