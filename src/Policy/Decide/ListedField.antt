-- ===== src/Policy/Decide/ListedField.antt =====
-- go/policy/decide.go: the fields that a whole-object read lists beside the reads of one field.
use ivorycom_governance.Common.{
  String, ◌≡◌, ◌≢◌, ◌↔◌, refl, sym, ap, ◌∙◌, inl, inr, true, false, some, arith, string_eq, eq_iff,
}
use ivorycom_governance.Common.Map
use ivorycom_governance.Policy.Model.{FieldRule, PolicyRule, CompiledBundle, rule_for}
use ivorycom_governance.Policy.Model.Layers.{rule_for-fields}
use ivorycom_governance.Policy.Fls.{field_rule_for}
use ivorycom_governance.Policy.Fls.Order.{holds}
use ivorycom_governance.Policy.Fls.Visible.{is_listed}
use ivorycom_governance.Policy.Engine.{can_by_rule, can}
use ivorycom_governance.Policy.Engine.Access.{can_by_rule_iff}
use ivorycom_governance.Policy.Decide.Types.{effect_deny, DecisionRequest}
use ivorycom_governance.Policy.Decide.Stages.{decide}
use ivorycom_governance.Policy.Decide.Clearance.{rbac_of, IsCleared, decide-IsCleared_iff}
use ivorycom_governance.Policy.Decide.Fields.{HasUniqueFields, field_layers, decide-IsShown}
use ivorycom_governance.Policy.Decide.SingleField.{
  with_field, single-allow, IsCommon-with_field, IsDelegated-with_field,
}

readable_of_can_by_rule :
    (r : PolicyRule) (name : String) (fr : FieldRule)
    → name ≢ ""
    → Map.lookup name r.fields ≡ some fr
    → (can_by_rule r "read" name).allow ≡ true
    → fr.read ≡ true
unfolding field_rule_for
readable_of_can_by_rule r name fr named found h =
    let e : field_rule_for r name ≡ some fr = rw (found, field_rule_for) refl in
    elim ((can_by_rule_iff r "read" name).0 h).1 [
      | inl unnamed ↦ absurd (named unnamed)
      | inr (inl free) ↦ cc
      | inr (inr (fr', governed, inl (_, readable))) ↦ ground arith
      | inr (inr (fr', governed, inr (other_action, _))) ↦ absurd (other_action refl)
    ]

module _ (first second : CompiledBundle) (req : DecisionRequest) (name : String) (fr : FieldRule)
    (unique : HasUniqueFields second req) (reads : req.action_verb ≡ "read")
    (whole : req.field ≡ "") (named : name ≢ "")
    (ruled : field_layers second req.identity req.object_type name ≡ some fr) where
  rule_found :
      Map.lookup name
        (rule_for second req.identity.tenant_id req.identity.user_role req.object_type).fields
      ≡ some fr
  rule_found =
      let (u, v) = unique in
      rule_for-fields second req.identity.tenant_id req.identity.user_role req.object_type name u v
      ∙ ruled

  readable_of_rbac : (rbac_of first second (with_field req name)).allow ≡ true → fr.read ≡ true
  unfolding can
  readable_of_rbac h = readable_of_can_by_rule _ name fr named rule_found (rw reads at h)

  readable_of_cleared :
      req.approval_verified ≡ false → IsCleared first second (with_field req name) → fr.read ≡ true
  readable_of_cleared unapproved c = elim c.common.permitted.rbac_or_approval [
    | inl granted ↦ readable_of_rbac granted
    | inr approved ↦ cc
  ]

  IsCleared-with_field :
      is_listed name (some fr) ≡ true
      → IsCleared first second req
      → IsCleared first second (with_field req name)
  IsCleared-with_field listed c = record {
    common =
        IsCommon-with_field first second req name
          (single-allow first second req name unique reads whole
            (ap (is_listed name) ruled ∙ listed))
          c.common;
    delegated = elim c.delegated [
      | inl not_agent ↦ inl not_agent
      | inr (profile, capability, d) ↦
          inr
            (profile, capability, IsDelegated-with_field first second req name profile capability d)
    ];
  }

-- The read of a whole object and the reads of its fields agree. Let a field other than "*" have a
-- rule, the tenant's or else the system's, and let a read of the whole object without a verified
-- approval not be denied. Then it lists the field exactly when the same read of that field alone is
-- not denied. This takes that the system's rule and the tenant's rule hold a field once.
pub decide_field-listed_iff :
    (first second : CompiledBundle) (req : DecisionRequest) (name : String) (fr : FieldRule)
    → HasUniqueFields second req
    → req.action_verb ≡ "read"
    → req.field ≡ ""
    → name ≢ ""
    → name ≢ "*"
    → field_layers second req.identity req.object_type name ≡ some fr
    → req.approval_verified ≡ false
    → (decide first second req).effect ≢ effect_deny
    → ((decide first second (with_field req name)).effect ≢ effect_deny)
      ↔ (holds name (decide first second req).visible_fields ≡ true)
decide_field-listed_iff first second req name fr unique reads whole named plain ruled unapproved h =
    let shown = decide-IsShown first second req name unique reads whole h in
    let visible = shown.visible ∙ ap (is_listed name) ruled in
    let (cleared, _) = decide-IsCleared_iff first second req in
    let (cleared_alone, alone) = decide-IsCleared_iff first second (with_field req name) in
    (
      λ passes.
          let readable =
            readable_of_cleared first second req name fr unique reads whole named ruled unapproved
              (cleared_alone passes) in
          visible ∙ ground (arith, eq_iff name "*"),
      λ listed. alone (
          IsCleared-with_field first second req name fr unique reads whole named ruled
            (sym visible ∙ listed) (cleared h)),
    )
