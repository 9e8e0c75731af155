-- ===== src/Policy/Abac/Reload.antt =====
-- go/policy/abac.go: `CanRecord` reads the bundle twice, and a reload may come between.
use mathlib.Core.List.{Memᴰ}
use ivorycom_governance.Common.{
  String, ◌≡◌, ◌∙◌, ap, refl, true, false, none, Bool-cases, inl, inr, arith, All-Mem, string_eq,
}
use ivorycom_governance.Common.Map.{Map}
use ivorycom_governance.Policy.Model.{
  Condition, CompiledBundle, Identity, zero_rule, layer, rule_for,
}
use ivorycom_governance.Policy.Model.Layers.{system_rule, tenant_rule, rule_for-All_iff}
use ivorycom_governance.Policy.Engine.{has_rule, can_by_rule, can}
use ivorycom_governance.Policy.Abac.{Value, eval_condition, check_conditions, can_record}
use ivorycom_governance.Policy.Abac.Conditions.{Meets, can_record-allow_iff}

-- Neither the system nor the tenant has a rule for the caller's role on the object type.
pub record HasNoRule (b : CompiledBundle) (id : Identity) (object_type : String) : Type 0 where
  pub system : system_rule b id.tenant_id id.user_role object_type ≡ none
  pub tenant : tenant_rule b id.tenant_id id.user_role object_type ≡ none

module _ (b : CompiledBundle) (id : Identity) (object_type : String) where
  rule_for-HasNoRule :
      HasNoRule b id object_type → rule_for b id.tenant_id id.user_role object_type ≡ zero_rule
  unfolding rule_for layer
  rule_for-HasNoRule h = rw (h.system, h.tenant) refl

  pub can-HasNoRule :
      (action field : String)
      → HasNoRule b id object_type
      → (can b id action object_type field).allow ≡ false
  unfolding can can_by_rule has_rule
  can-HasNoRule action field h = rw (rule_for-HasNoRule h) refl

module _ {Other : Type 0} (sprint : Other → String) where
  pub can_record-HasNoRule :
      (first second : CompiledBundle) (id : Identity) (action object_type : String)
      (attributes : Map String (Value Other))
      → HasNoRule first id object_type
      → (can_record sprint first second id action object_type attributes).allow ≡ false
  unfolding can_record
  can_record-HasNoRule first second id action object_type attributes h =
      let denied = can-HasNoRule first id object_type action "" h in ground arith

module _ {Other : Type 0} (sprint : Other → String) (id : Identity) (action object_type : String)
    (attributes : Map String (Value Other)) where
  can_record_deny_of_condition :
      (b : CompiledBundle) (c : Condition)
      → Memᴰ c (rule_for b id.tenant_id id.user_role object_type).record_conditions
      → eval_condition sprint c id attributes ≡ false
      → (can_record sprint b b id action object_type attributes).allow ≡ false
  can_record_deny_of_condition b c here fails =
      elim (Bool-cases (can_record sprint b b id action object_type attributes).allow) [
        | inl allowed ↦
            let (_, of_system, of_tenant) =
              (can_record-allow_iff sprint id attributes b b action object_type).0 allowed in
            let all =
              (rule_for-All_iff (Meets sprint id attributes) b id.tenant_id id.user_role
                  object_type).1
                (of_system, of_tenant) in
            let met_here = All-Mem (Meets sprint id attributes) c _ all here in cc
        | inr denied ↦ denied
      ]

  can_record-no_conditions :
      (old new : CompiledBundle)
      → HasNoRule new id object_type
      → can_record sprint old new id action object_type attributes
        ≡ can old id action object_type ""
  unfolding can_record check_conditions
  can_record-no_conditions old new h = rw (rule_for-HasNoRule new id object_type h) (ground arith)

-- Let a run of `CanRecord` read an old bundle inside `Can` and a new one for the conditions. If the
-- old bundle grants the action on the object type, but the record fails a condition of its rule,
-- and the new bundle has no rule for the caller's role on the object type, then each of the two
-- bundles alone denies the action on the record, and the run allows it, with the answer of the old
-- bundle's `Can`.
pub can_record_torn :
    {Other : Type 0} (sprint : Other → String) (old new : CompiledBundle) (id : Identity)
    (action object_type : String) (attributes : Map String (Value Other)) (c : Condition)
    → (can old id action object_type "").allow ≡ true
    → Memᴰ c (rule_for old id.tenant_id id.user_role object_type).record_conditions
    → eval_condition sprint c id attributes ≡ false
    → HasNoRule new id object_type
    → ((can_record sprint old old id action object_type attributes).allow ≡ false)
      × ((can_record sprint new new id action object_type attributes).allow ≡ false)
      × (can_record sprint old new id action object_type attributes
          ≡ can old id action object_type "")
      × ((can_record sprint old new id action object_type attributes).allow ≡ true)
can_record_torn sprint old new id action object_type attributes c granted here fails gone =
    let torn = can_record-no_conditions sprint id action object_type attributes old new gone in
    (
      can_record_deny_of_condition sprint id action object_type attributes old c here fails,
      can_record-HasNoRule sprint new new id action object_type attributes gone,
      torn,
      ap (λ d. d.allow) torn ∙ granted,
    )
