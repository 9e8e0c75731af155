-- ===== src/Policy/Model/Same.antt =====
-- go/policy/model.go: bundles that differ only in the order in which their maps are iterated.
use ivorycom_governance.Common.{[], String, ◌≡◌, refl, sym, ◌∙◌, Option, none, some, string_eq}
use ivorycom_governance.Common.Map
use ivorycom_governance.Common.Map.{
  Map, HasUniqueKeys, SameEntries, insert_all-HasUniqueKeys, or_else,
}
use ivorycom_governance.Policy.Model.{
  RoleObj, role_obj_eq, PolicyRule, CompiledBundle, cap_key_eq, CapKey, merge_rule, layer,
  lookup_tenant, rule_for,
}
use ivorycom_governance.Policy.Model.Layers.{merge_rule-fields}

-- The rules grant the same, with the same conditions, and their field maps hold the same entries,
-- each field once.
pub record SameRule (r r' : PolicyRule) : Type 0 where
  pub create : r.create ≡ r'.create
  pub read : r.read ≡ r'.read
  pub update : r.update ≡ r'.update
  pub delete : r.delete ≡ r'.delete
  pub view_all : r.view_all ≡ r'.view_all
  pub modify_all : r.modify_all ≡ r'.modify_all
  pub unique : HasUniqueKeys r.fields
  pub unique' : HasUniqueKeys r'.fields
  pub fields : SameEntries r.fields r'.fields
  pub record_conditions : r.record_conditions ≡ r'.record_conditions

-- Both are there, with the same rule, or neither is.
abbrev pub SameFound : Option PolicyRule → Option PolicyRule → Type 0
SameFound none none = Unit
SameFound none (some r') = ⊥
SameFound (some r) none = ⊥
SameFound (some r) (some r') = SameRule r r'

-- Every lookup in one bundle finds what it finds in the other.
pub record SameBundle (b b' : CompiledBundle) : Type 0 where
  pub version : b.version ≡ b'.version
  pub system : (k : RoleObj) → SameFound (Map.lookup k b.system) (Map.lookup k b'.system)
  pub tenant :
      (t : String) (k : RoleObj)
      → SameFound (lookup_tenant t k b.tenant) (lookup_tenant t k b'.tenant)
  pub capabilities :
      (t : String) (k : CapKey)
      → lookup_tenant t k b.capabilities ≡ lookup_tenant t k b'.capabilities
  pub autonomy : SameEntries b.autonomy b'.autonomy

merge_rule-SameRule :
    (r r' o o' : PolicyRule)
    → SameRule r r'
    → SameRule o o'
    → SameRule (merge_rule r o) (merge_rule r' o')
unfolding merge_rule
merge_rule-SameRule r r' o o' s t = record {
  create = rw (s.create, t.create) refl;
  read = rw (s.read, t.read) refl;
  update = rw (s.update, t.update) refl;
  delete = rw (s.delete, t.delete) refl;
  view_all = rw (s.view_all, t.view_all) refl;
  modify_all = rw (s.modify_all, t.modify_all) refl;
  unique = insert_all-HasUniqueKeys o.fields _ (insert_all-HasUniqueKeys r.fields [] tt);
  unique' = insert_all-HasUniqueKeys o'.fields _ (insert_all-HasUniqueKeys r'.fields [] tt);
  fields = λ k.
      merge_rule-fields r o k s.unique t.unique
      ∙ rw (s.fields k, t.fields k) refl
      ∙ sym (merge_rule-fields r' o' k s.unique' t.unique');
  record_conditions = rw (s.record_conditions, t.record_conditions) refl;
}

layer-SameRule :
    (base base' override override' : Option PolicyRule)
    → SameFound base base'
    → SameFound override override'
    → SameRule (layer base override) (layer base' override')
unfolding layer
layer-SameRule none none none none s t = record {
  create = refl;
  read = refl;
  update = refl;
  delete = refl;
  view_all = refl;
  modify_all = refl;
  unique = tt;
  unique' = tt;
  fields = λ k. refl;
  record_conditions = refl;
}
layer-SameRule none none (some o) (some o') s t = t
layer-SameRule (some r) (some r') none none s t = s
layer-SameRule (some r) (some r') (some o) (some o') s t = merge_rule-SameRule r r' o o' s t
layer-SameRule none (some r') o o' s t = absurd s
layer-SameRule (some r) none o o' s t = absurd s
layer-SameRule none none none (some o') s t = absurd t
layer-SameRule none none (some o) none s t = absurd t
layer-SameRule (some r) (some r') none (some o') s t = absurd t
layer-SameRule (some r) (some r') (some o) none s t = absurd t

pub rule_for-SameRule :
    (b b' : CompiledBundle) (tenant role object_type : String)
    → SameBundle b b'
    → SameRule (rule_for b tenant role object_type) (rule_for b' tenant role object_type)
unfolding rule_for
rule_for-SameRule b b' tenant role object_type s =
    let key : RoleObj = record { role = role; object_type = object_type } in
    layer-SameRule (Map.lookup key b.system) (Map.lookup key b'.system)
      (lookup_tenant tenant key b.tenant) (lookup_tenant tenant key b'.tenant) (s.system key)
      (s.tenant tenant key)
