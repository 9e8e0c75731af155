-- ===== src/Policy/Abac/Conditions.antt =====
-- go/policy/abac.go: when `CanRecord` allows.
use ivorycom_governance.Common.{
  String, ◌≡◌, ◌↔◌, refl, true, List, [], ◌∷◌, arith, All, if◌then◌else◌,
}
use ivorycom_governance.Common.Map.{Map}
use ivorycom_governance.Policy.Model.{Condition, Decision, CompiledBundle, Identity, rule_for}
use ivorycom_governance.Policy.Model.Layers.{
  conditions_of, system_rule, tenant_rule, rule_for-All_iff,
}
use ivorycom_governance.Policy.Engine.{can}
use ivorycom_governance.Policy.Abac.{Value, eval_condition, check_conditions, can_record}

module _ {Other : Type 0} (sprint : Other → String) (id : Identity)
    (attributes : Map String (Value Other)) where
  -- The condition is met by the record and the caller.
  abbrev pub Meets : Condition → Type 0
  Meets c = eval_condition sprint c id attributes ≡ true

  check_conditions-allow_iff :
      (cs : List Condition) (dec : Decision)
      → ((check_conditions sprint cs id attributes dec).allow ≡ true)
        ↔ ((dec.allow ≡ true) × All Meets cs)
  unfolding check_conditions
  check_conditions-allow_iff [] dec = (λ h. (h, tt), λ h. h.0)
  check_conditions-allow_iff (c ∷ cs) dec = ground (arith, check_conditions-allow_iff cs dec)

  -- what passes is the decision of `Can`, unchanged
  check_conditions_of_All :
      (cs : List Condition) (dec : Decision)
      → All Meets cs
      → check_conditions sprint cs id attributes dec ≡ dec
  unfolding check_conditions
  check_conditions_of_All [] dec h = refl
  check_conditions_of_All (c ∷ cs) dec (h, hs) = rw h (check_conditions_of_All cs dec hs)

  -- `CanRecord` allows exactly when `Can` allows the action on the whole object, and the record meets
  -- every condition of the system's rule and every condition of the tenant's rule for the caller's
  -- role: a tenant can tighten the scope of a system role and never widen it.
  pub can_record-allow_iff :
      (first second : CompiledBundle) (action object_type : String)
      → ((can_record sprint first second id action object_type attributes).allow ≡ true) ↔ (
          ((can first id action object_type "").allow ≡ true)
          × All Meets (conditions_of (system_rule second id.tenant_id id.user_role object_type))
          × All Meets (conditions_of (tenant_rule second id.tenant_id id.user_role object_type)))
  unfolding can_record
  can_record-allow_iff first second action object_type =
      let rule = rule_for second id.tenant_id id.user_role object_type in
      ground (
        arith,
        rule_for-All_iff Meets second id.tenant_id id.user_role object_type,
        check_conditions-allow_iff rule.record_conditions (can first id action object_type ""),
      )

  scoped-eq :
      (cs : List Condition) (dec : Decision)
      → (if dec.allow then check_conditions sprint cs id attributes dec else dec).allow ≡ true
      → (if dec.allow then check_conditions sprint cs id attributes dec else dec) ≡ dec
  scoped-eq cs dec h =
      ground (arith, check_conditions-allow_iff cs dec, check_conditions_of_All cs dec)

  -- An allowed record decision is the decision of `Can`, its fields and masks included.
  can_record-eq-can :
      (first second : CompiledBundle) (action object_type : String)
      → (can_record sprint first second id action object_type attributes).allow ≡ true
      → can_record sprint first second id action object_type attributes
        ≡ can first id action object_type ""
  unfolding can_record
  can_record-eq-can first second action object_type h =
      scoped-eq (rule_for second id.tenant_id id.user_role object_type).record_conditions
        (can first id action object_type "") h

  -- `CanRecord` allows exactly when it gives the answer of `Can` on the whole object, its fields and
  -- masks included, `Can` allows, and the record meets every condition of the system's rule and
  -- every condition of the tenant's rule for the caller's role: a tenant can tighten the scope of a
  -- system role and never widen it, and the record's conditions change no field of the answer.
  pub can_record-passes_iff :
      (first second : CompiledBundle) (action object_type : String)
      → ((can_record sprint first second id action object_type attributes).allow ≡ true) ↔ (
          (can_record sprint first second id action object_type attributes
            ≡ can first id action object_type "")
          × ((can first id action object_type "").allow ≡ true)
          × All Meets (conditions_of (system_rule second id.tenant_id id.user_role object_type))
          × All Meets (conditions_of (tenant_rule second id.tenant_id id.user_role object_type)))
  can_record-passes_iff first second action object_type =
      let (to, from) = can_record-allow_iff first second action object_type in
      (
        λ h.
            let (granted, of_system, of_tenant) = to h in
            (can_record-eq-can first second action object_type h, granted, of_system, of_tenant),
        λ (_, granted, of_system, of_tenant). from (granted, of_system, of_tenant),
      )
