-- ===== src/Policy/Decide/Fields/Tests.antt =====
-- Reads of a whole object and of one of its fields, and the theorems at them.
use ivorycom_governance.Common.{◌≡◌, ◌≢◌, ◌↔◌, refl, ap, true, false, some, [], ◌∷◌, string_eq}
use ivorycom_governance.Common.Map.{insert, insert_all}
use ivorycom_governance.Policy.Model.{merge_rule, zero_rule, CompiledBundle, FieldRule}
use ivorycom_governance.Policy.Fls.Visible.{mask_of}
use ivorycom_governance.Policy.Decide.Types.{effect_deny, effect_allow_with_conditions}
use ivorycom_governance.Policy.Decide.Stages.{decide}
use ivorycom_governance.Policy.Decide.Guardrails.{permits}
use ivorycom_governance.Policy.Decide.Fields.{
  HasUniqueFields, field_layers, IsShown, decide-IsShown,
}
use ivorycom_governance.Policy.Decide.SingleField.{with_field, IsUnmasked, decide_field-IsUnmasked}
use ivorycom_governance.Policy.Fls.Order.{holds}
use ivorycom_governance.Policy.Decide.ListedField.{decide_field-listed_iff}
use ivorycom_governance.Policy.Decide.Sample.{program, bundle, read_by_user}

-- the tenant redacts the name and leaves the salary as the system has it
abbrev redacting : CompiledBundle
redacting = record bundle {
  tenant =
      (
        "t1",
        (
          record { role = "editor"; object_type = "lead" },
          record zero_rule {
            fields = ("name", record { read = true; write = false; mask_strategy = "hash" }) ∷ [];
          },
        )
            ∷ [],
      )
      ∷ [];
}

unique_fields : HasUniqueFields redacting (read_by_user "LOW")
unfolding program merge_rule insert insert_all
unique_fields = ((refl, (refl, tt)), (refl, tt))

read_facts :
    ((decide redacting redacting (read_by_user "LOW")).effect ≡ effect_allow_with_conditions)
    × (mask_of "name" (field_layers redacting (read_by_user "LOW").identity "lead" "name")
        ≡ some "hash")
unfolding program merge_rule insert insert_all
read_facts = (refl, refl)

decide-IsShown_example :
    IsShown redacting (read_by_user "LOW") "name" (decide redacting redacting (read_by_user "LOW"))
decide-IsShown_example =
    decide-IsShown redacting redacting (read_by_user "LOW") "name" unique_fields refl refl
      (λ h. cc (read_facts.0))

decide_field-IsUnmasked_example :
    IsUnmasked
      (decide redacting redacting (read_by_user "LOW"))
      (decide redacting redacting (with_field (read_by_user "LOW") "name"))
      "name"
      "hash"
decide_field-IsUnmasked_example =
    decide_field-IsUnmasked redacting redacting (read_by_user "LOW") "name" "hash" unique_fields
      refl refl (λ h. cc) read_facts.1 (ap permits read_facts.0)

abbrev salary_rule : FieldRule
salary_rule = record { read = true; write = false; mask_strategy = "redact" }

salary_ruled :
    field_layers redacting (read_by_user "LOW").identity "lead" "salary" ≡ some salary_rule
unfolding program merge_rule insert insert_all
salary_ruled = refl

decide_field-listed_iff_example :
    ((decide redacting redacting (with_field (read_by_user "LOW") "salary")).effect ≢ effect_deny)
    ↔ (holds "salary" (decide redacting redacting (read_by_user "LOW")).visible_fields ≡ true)
decide_field-listed_iff_example =
    decide_field-listed_iff redacting redacting (read_by_user "LOW") "salary" salary_rule
      unique_fields refl refl (λ h. cc) (λ h. cc) salary_ruled refl (λ h. cc (read_facts.0))
