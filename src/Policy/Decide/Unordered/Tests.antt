-- ===== src/Policy/Decide/Unordered/Tests.antt =====
-- Two bundles that list the fields of one rule in different orders.
use ivorycom_governance.Common.{
  String, ◌≡◌, refl, true, false, inl, inr, Bool-cases, [], ◌∷◌, string_eq, eq_iff, arith, ◌==◌,
}
use ivorycom_governance.Common.Int.{pos}
use ivorycom_governance.Common.Map.{lookup}
use ivorycom_governance.Policy.Model.{
  RoleObj, role_obj_eq, FieldRule, PolicyRule, zero_rule, CompiledBundle, zero_bundle,
  lookup_tenant,
}
use ivorycom_governance.Policy.Model.Same.{SameRule, SameBundle}
use ivorycom_governance.Policy.Decide.Sample.{program, read_by_user}
use ivorycom_governance.Policy.Decide.Stages.{decide}
use ivorycom_governance.Policy.Decide.Unordered.{SameResult, decide-SameResult}

abbrev phone_rule : FieldRule
phone_rule = record { read = true; write = false; mask_strategy = "partial" }

abbrev name_rule : FieldRule
name_rule = record { read = true; write = true; mask_strategy = "" }

abbrev phone_first : PolicyRule
phone_first = record zero_rule {
  read = true;
  fields = ("phone", phone_rule) ∷ ("name", name_rule) ∷ [];
}

abbrev name_first : PolicyRule
name_first = record zero_rule {
  read = true;
  fields = ("name", name_rule) ∷ ("phone", phone_rule) ∷ [];
}

same_entries : (name : String) → lookup name phone_first.fields ≡ lookup name name_first.fields
unfolding lookup
same_entries name = ground (arith, eq_iff "phone" name, eq_iff "name" name, eq_iff "phone" "name")

abbrev editor_key : RoleObj
editor_key = record { role = "editor"; object_type = "lead" }

-- the rule in the system's layer
abbrev holding : PolicyRule → CompiledBundle
holding rule = record zero_bundle { version = pos 1; system = (editor_key, rule) ∷ [] }

same_rule : SameRule phone_first name_first
unfolding lookup
same_rule = record {
  create = refl;
  read = refl;
  update = refl;
  delete = refl;
  view_all = refl;
  modify_all = refl;
  unique = (refl, (refl, tt));
  unique' = (refl, (refl, tt));
  fields = same_entries;
  record_conditions = refl;
}

same_bundle : SameBundle (holding phone_first) (holding name_first)
unfolding lookup lookup_tenant
same_bundle = record {
  version = refl;
  system = λ k. elim (Bool-cases (editor_key == k)) [
    | inl hit ↦ rw hit same_rule
    | inr miss ↦ rw miss tt
  ];
  tenant = λ t k. tt;
  capabilities = λ t k. refl;
  autonomy = λ k. refl;
}

decide-SameResult_example :
    SameResult
      (decide (holding phone_first) (holding phone_first) (read_by_user "LOW"))
      (decide (holding name_first) (holding name_first) (read_by_user "LOW"))
decide-SameResult_example =
    decide-SameResult (holding phone_first) (holding name_first) (holding phone_first)
      (holding name_first) (read_by_user "LOW") same_bundle same_bundle

visible_test :
    (decide (holding phone_first) (holding phone_first) (read_by_user "LOW")).visible_fields
    ≡ "name" ∷ "phone" ∷ []
unfolding program
visible_test = refl
