-- ===== src/Policy/Engine/Access.antt =====
-- go/policy/engine.go: `Can` against a description of what a rule grants.
use ivorycom_governance.Common.{
  String, ◌≡◌, ◌≢◌, ◌↔◌, ◌⊎◌, refl, sym, ap, ◌∙◌, inl, inr, Bool, true, none, some, arith, eq_iff,
  Option-cases, if◌then◌else◌, ◌==◌, string_eq,
}
use ivorycom_governance.Policy.Model.{
  FieldRule, PolicyRule, Decision, CompiledBundle, Identity, rule_for,
}
use ivorycom_governance.Policy.Fls.{decide_field, decide_by_field_rule, field_rule_for}
use ivorycom_governance.Policy.Engine.{action_grant, has_rule, decide_object, can_by_rule, can}

-- The rule holds the grant that goes by the action's name.
abbrev pub Grants : PolicyRule → String → Type 0
Grants rule action =
    ((action ≡ "create") × (rule.create ≡ true))
    ⊎ ((action ≡ "read") × (rule.read ≡ true))
    ⊎ ((action ≡ "update") × (rule.update ≡ true))
    ⊎ ((action ≡ "delete") × (rule.delete ≡ true))
    ⊎ ((action ≡ "view_all") × (rule.view_all ≡ true))
    ⊎ ((action ≡ "modify_all") × (rule.modify_all ≡ true))

-- A field rule admits a read if it is readable, and any other action if it is writable.
abbrev pub Admits : FieldRule → String → Type 0
Admits fr action = ((action ≡ "read") × (fr.read ≡ true)) ⊎ ((action ≢ "read") × (fr.write ≡ true))

-- No rule governs the field, or its rule admits the action.
abbrev pub Governs : PolicyRule → String → String → Type 0
Governs rule action field =
    (field_rule_for rule field ≡ none)
    ⊎ ((fr : FieldRule) × (field_rule_for rule field ≡ some fr) × Admits fr action)

-- No field is asked for, or the field is open.
abbrev pub OpensField : PolicyRule → String → String → Type 0
OpensField rule action field = (field ≡ "") ⊎ Governs rule action field

action_grant-Grants :
    (rule : PolicyRule) (action : String)
    → action_grant rule action ≡ some true
    → Grants rule action
unfolding action_grant
action_grant-Grants rule action h = ground (
  arith,
  eq_iff action "create",
  eq_iff action "read",
  eq_iff action "update",
  eq_iff action "delete",
  eq_iff action "view_all",
  eq_iff action "modify_all",
)

action_grant-eq_of_Grants :
    (rule : PolicyRule) (action : String)
    → Grants rule action
    → action_grant rule action ≡ some true
unfolding action_grant
action_grant-eq_of_Grants rule action (inl (e, g)) = rw (e, g)
action_grant-eq_of_Grants rule action (inr (inl (e, g))) = rw (e, g)
action_grant-eq_of_Grants rule action (inr (inr (inl (e, g)))) = rw (e, g)
action_grant-eq_of_Grants rule action (inr (inr (inr (inl (e, g))))) = rw (e, g)
action_grant-eq_of_Grants rule action (inr (inr (inr (inr (inl (e, g)))))) = rw (e, g)
action_grant-eq_of_Grants rule action (inr (inr (inr (inr (inr (e, g)))))) = rw (e, g)

has_rule_of_grant :
    (rule : PolicyRule) (action : String)
    → action_grant rule action ≡ some true
    → has_rule rule ≡ true
unfolding action_grant has_rule
has_rule_of_grant rule action h = ground arith

decide_by_field_rule_iff :
    (fr : FieldRule) (action : String)
    → ((decide_by_field_rule fr action).allow ≡ true) ↔ Admits fr action
unfolding decide_by_field_rule
decide_by_field_rule_iff fr action = ground (arith, eq_iff action "read")

decide_field_iff :
    (rule : PolicyRule) (action field : String) (grant : Bool)
    → ((decide_field rule action field grant).allow ≡ true)
      ↔ ((grant ≡ true) × Governs rule action field)
unfolding decide_field
decide_field_iff rule action field grant = elim (Option-cases (field_rule_for rule field)) [
  | inl free ↦ ground arith
  | inr (fr, governed) ↦ (
    λ h. (ground arith, inr (fr, governed, (decide_by_field_rule_iff fr action).0 (ground arith))),
    λ (granted, o). elim o [
      | inl free ↦ cc
      | inr (fr', governed', a) ↦ ground (arith, (decide_by_field_rule_iff fr' action).1 a)
    ],
  )
]

-- the decision once the grant is known
abbrev decision_for : PolicyRule → String → String → Bool → Decision
decision_for rule action field grant =
    if field == "" then decide_object rule action grant else decide_field rule action field grant

field_decision_iff :
    (rule : PolicyRule) (action field : String) (grant : Bool)
    → ((if field == ""
          then decide_object rule action grant
          else decide_field rule action field grant).allow
        ≡ true)
      ↔ ((grant ≡ true) × OpensField rule action field)
unfolding decide_object
field_decision_iff rule action field grant =
    ground (arith, eq_iff field "", decide_field_iff rule action field grant)

can_by_rule-allow :
    (rule : PolicyRule) (action field : String)
    → (can_by_rule rule action field).allow ≡ true
    → (grant : Bool) × (action_grant rule action ≡ some grant)
      × (can_by_rule rule action field ≡ decision_for rule action field grant)
unfolding can_by_rule
can_by_rule-allow rule action field h = elim (Option-cases (action_grant rule action)) [
  | inl unknown ↦ absurd (ground arith)
  | inr (grant, known) ↦ (grant, known, ground arith)
]

can_by_rule_of_grant :
    (rule : PolicyRule) (action field : String)
    → action_grant rule action ≡ some true
    → can_by_rule rule action field ≡ decision_for rule action field true
unfolding can_by_rule
can_by_rule_of_grant rule action field h = ground (arith, has_rule_of_grant rule action h)

pub can_by_rule_iff :
    (rule : PolicyRule) (action field : String)
    → ((can_by_rule rule action field).allow ≡ true)
      ↔ (Grants rule action × OpensField rule action field)
can_by_rule_iff rule action field = (
  λ h.
      let (grant, known, e) = can_by_rule-allow rule action field h in
      let (granted, opens) =
        (field_decision_iff rule action field grant).0 (ap (λ d. d.allow) (sym e) ∙ h) in
      (action_grant-Grants rule action (known ∙ ap some granted), opens),
  λ (granted, opens).
      ap (λ d. d.allow)
        (can_by_rule_of_grant rule action field (action_grant-eq_of_Grants rule action granted))
      ∙ (field_decision_iff rule action field true).1 (refl, opens),
)

-- `Can` allows exactly when the effective rule holds the grant that goes by the action's name and,
-- for a field, no field rule governs it or the rule that does admits the action.
pub can-allow_iff :
    (bundle : CompiledBundle) (id : Identity) (action object_type field : String)
    → ((can bundle id action object_type field).allow ≡ true) ↔ (
        Grants (rule_for bundle id.tenant_id id.user_role object_type) action
        × OpensField (rule_for bundle id.tenant_id id.user_role object_type) action field)
unfolding can
can-allow_iff bundle id action object_type field =
    can_by_rule_iff (rule_for bundle id.tenant_id id.user_role object_type) action field
