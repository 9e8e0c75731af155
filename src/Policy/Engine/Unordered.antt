-- ===== src/Policy/Engine/Unordered.antt =====
-- go/policy/engine.go: `Can` and the order in which the maps of a bundle are iterated.
use ivorycom_governance.Common.{
  String, Bool, ◌≡◌, refl, sym, ap, ◌∙◌, ◌==◌, inl, inr, Bool-cases, Option-cases, string_eq,
}
use ivorycom_governance.Common.Map
use ivorycom_governance.Common.Map.{Map, SameEntries, is_empty-SameEntries}
use ivorycom_governance.Policy.Model.{PolicyRule, Decision, CompiledBundle, Identity}
use ivorycom_governance.Policy.Model.Same.{SameRule, SameBundle, rule_for-SameRule}
use ivorycom_governance.Policy.Fls.{field_rule_for, decide_field, visible_and_masked}
use ivorycom_governance.Policy.Fls.Visible.{
  mask_of, visible_and_masked-mask, visible_and_masked_unordered,
}
use ivorycom_governance.Policy.Engine.{action_grant, has_rule, decide_object, can_by_rule, can}

-- The decisions are the same, and mask the same fields by the same strategies.
pub record SameDecision (d d' : Decision) : Type 0 where
  pub allow : d.allow ≡ d'.allow
  pub visible_fields : d.visible_fields ≡ d'.visible_fields
  pub masked_fields : SameEntries d.masked_fields d'.masked_fields
  pub reason : d.reason ≡ d'.reason

SameDecision-eq : (d d' : Decision) → d ≡ d' → SameDecision d d'
SameDecision-eq d d' e =
    rw e (record { allow = refl; visible_fields = refl; masked_fields = λ k. refl; reason = refl })

module _ (r r' : PolicyRule) (s : SameRule r r') where
  has_rule-SameRule : has_rule r ≡ has_rule r'
  unfolding has_rule
  has_rule-SameRule =
      rw
        (
          s.create,
          s.read,
          s.update,
          s.delete,
          s.view_all,
          s.modify_all,
          s.record_conditions,
          is_empty-SameEntries r.fields r'.fields s.fields,
        )
        refl

  action_grant-SameRule : (action : String) → action_grant r action ≡ action_grant r' action
  unfolding action_grant
  action_grant-SameRule action =
      rw (s.create, s.read, s.update, s.delete, s.view_all, s.modify_all) refl

  field_rule_for-SameRule : (field : String) → field_rule_for r field ≡ field_rule_for r' field
  unfolding field_rule_for
  field_rule_for-SameRule field = elim (Option-cases (Map.lookup field r'.fields)) [
    | inl missing ↦ rw (field_rule_for, s.fields field ∙ missing, missing) (s.fields "*")
    | inr (fr, e) ↦ rw (field_rule_for, s.fields field ∙ e, e) refl
  ]

  decide_field-SameRule :
      (action field : String) (grant : Bool)
      → decide_field r action field grant ≡ decide_field r' action field grant
  unfolding decide_field
  decide_field-SameRule action field grant = rw (field_rule_for-SameRule field) refl

  masks-SameRule : SameEntries (visible_and_masked r).1 (visible_and_masked r').1
  masks-SameRule k =
      visible_and_masked-mask r k s.unique
      ∙ ap (mask_of k) (s.fields k)
      ∙ sym (visible_and_masked-mask r' k s.unique')

  decide_object-SameRule :
      (action : String) (grant : Bool)
      → SameDecision (decide_object r action grant) (decide_object r' action grant)
  unfolding decide_object
  decide_object-SameRule action grant = elim (Bool-cases (action == "read")) [
    | inl read ↦ rw read (record {
      allow = refl;
      visible_fields = visible_and_masked_unordered r r' s.unique s.unique' s.fields;
      masked_fields = masks-SameRule;
      reason = refl;
    })
    | inr other ↦
        rw other
          (record { allow = refl; visible_fields = refl; masked_fields = λ k. refl; reason = refl })
  ]

  can_by_rule-SameRule :
      (action field : String)
      → SameDecision (can_by_rule r action field) (can_by_rule r' action field)
  unfolding can_by_rule
  can_by_rule-SameRule action field =
      rw (has_rule-SameRule, action_grant-SameRule action)
        (elim (Bool-cases (has_rule r')) [
          | inr missing ↦ rw missing (SameDecision-eq _ _ refl)
          | inl known ↦ rw known (elim (Option-cases (action_grant r' action)) [
            | inl unknown ↦ rw unknown (SameDecision-eq _ _ refl)
            | inr (grant, e) ↦ rw e (elim (Bool-cases (field == "")) [
              | inl whole ↦ rw whole (decide_object-SameRule action grant)
              | inr named ↦
                  rw named (SameDecision-eq _ _ (decide_field-SameRule action field grant))
            ])
          ])
        ])

-- Two bundles in which every lookup finds the same answer a question in the same way.
pub can-SameDecision :
    (b b' : CompiledBundle) (id : Identity) (action object_type field : String)
    → SameBundle b b'
    → SameDecision (can b id action object_type field) (can b' id action object_type field)
unfolding can
can-SameDecision b b' id action object_type field s =
    can_by_rule-SameRule _ _ (rule_for-SameRule b b' id.tenant_id id.user_role object_type s) action
      field
