-- ===== src/Policy/Decide/Fields.antt =====
-- go/policy/decide.go: the fields that the answer to a whole-object read lists and masks.
mod Tests
use ivorycom_governance.Common.{
  List, IsDistinct, ℕ, String, ◌≡◌, ◌≢◌, refl, ap, ◌∙◌, ◌⊎◌, inl, inr, true, false, Bool-cases,
  Option, none, some, [], ◌∷◌, arith, string_eq, is_empty, if◌then◌else◌,
}
use ivorycom_governance.Common.Map
use ivorycom_governance.Common.Map.{Map, HasUniqueKeys, or_else, insert_all-HasUniqueKeys}
use ivorycom_governance.Policy.Model.{
  zero_profile, zero_capability, PolicyRule, FieldRule, Decision, CompiledBundle, AutonomyProfile,
  CapabilityRule, Identity, merge_rule, layer, rule_for,
}
use ivorycom_governance.Policy.Model.Layers.{fields_of, system_rule, tenant_rule, rule_for-fields}
use ivorycom_governance.Policy.Fls.Order.{holds, IsSorted}
use ivorycom_governance.Policy.Fls.Visible.{
  is_listed, mask_of, visible_and_masked_lem, visible_and_masked-IsSorted,
  visible_and_masked-IsDistinct,
}
use ivorycom_governance.Policy.Engine.{has_rule, action_grant, decide_object, can_by_rule, can}
use ivorycom_governance.Policy.Decide.Types.{
  effect_allow, effect_deny, effect_allow_with_conditions, DecisionRequest, DecisionResult,
}
use ivorycom_governance.Policy.Decide.Choice.{
  permit, by_risk, guardrails, ceilings, choose, outcome,
}
use ivorycom_governance.Policy.Decide.Stages.{decide}
use ivorycom_governance.Policy.Decide.Guardrails.{permits}
use ivorycom_governance.Policy.Decide.Clearance.{rbac_of, agent, other, decide-cases}

-- The decision lists the fields that their rules let be read, and masks those with a strategy.
abbrev pub Shows : Map String FieldRule → Decision → String → Type 0
Shows fields d name =
    (holds name d.visible_fields ≡ is_listed name (Map.lookup name fields))
    × (Map.lookup name d.masked_fields ≡ mask_of name (Map.lookup name fields))

has_rule-fields : (r : PolicyRule) → has_rule r ≡ false → r.fields ≡ []
unfolding has_rule
has_rule-fields r h = emptied r.fields (ground arith)
  where
    emptied : (m : Map String FieldRule) → is_empty m ≡ true → m ≡ []
    emptied [] e = refl
    emptied (f ∷ m) e = cc

can_by_rule-Shows :
    (r : PolicyRule) (name : String)
    → HasUniqueKeys r.fields
    → Shows r.fields (can_by_rule r "read" "") name
unfolding can_by_rule action_grant decide_object
can_by_rule-Shows r name u = elim (Bool-cases (has_rule r)) [
  | inl known ↦ rw known (visible_and_masked_lem r name u)
  | inr missing ↦ rw (missing, has_rule-fields r missing) (unfold Map.lookup in (refl, refl))
]

-- The names are in order, each of them once.
abbrev IsListing : List String → Type 0
IsListing names = IsSorted names × IsDistinct names

can_by_rule-IsListing :
    (r : PolicyRule) → HasUniqueKeys r.fields → IsListing (can_by_rule r "read" "").visible_fields
unfolding can_by_rule action_grant decide_object
can_by_rule-IsListing r u = elim (Bool-cases (has_rule r)) [
  | inl known ↦ rw known (visible_and_masked-IsSorted r, visible_and_masked-IsDistinct r u)
  | inr missing ↦ rw missing (tt, tt)
]

layer-HasUniqueKeys :
    (base override : Option PolicyRule)
    → HasUniqueKeys (fields_of base)
    → HasUniqueKeys (fields_of override)
    → HasUniqueKeys (layer base override).fields
unfolding layer merge_rule
layer-HasUniqueKeys (some base) (some override) u v =
    insert_all-HasUniqueKeys override.fields _ (insert_all-HasUniqueKeys base.fields [] tt)
layer-HasUniqueKeys (some base) none u v = u
layer-HasUniqueKeys none (some override) u v = v
layer-HasUniqueKeys none none u v = tt

-- the rule of a field: the tenant's, else the system's
abbrev pub field_layers : CompiledBundle → Identity → String → String → Option FieldRule
field_layers b id object_type name =
    or_else (Map.lookup name (fields_of (tenant_rule b id.tenant_id id.user_role object_type)))
      (Map.lookup name (fields_of (system_rule b id.tenant_id id.user_role object_type)))

module _ (b : CompiledBundle) (id : Identity) (object_type name : String) where
  can-Shows :
      HasUniqueKeys (fields_of (system_rule b id.tenant_id id.user_role object_type))
      → HasUniqueKeys (fields_of (tenant_rule b id.tenant_id id.user_role object_type))
      → let d = can b id "read" object_type "" in
        let fr = field_layers b id object_type name in
        (holds name d.visible_fields ≡ is_listed name fr)
        × (Map.lookup name d.masked_fields ≡ mask_of name fr)
  unfolding can rule_for
  can-Shows u v =
      let r = rule_for b id.tenant_id id.user_role object_type in
      let e = rule_for-fields b id.tenant_id id.user_role object_type name u v in
      let (listed, masked) = can_by_rule-Shows r name (layer-HasUniqueKeys _ _ u v) in
      (listed ∙ ap (is_listed name) e, masked ∙ ap (mask_of name) e)

can-IsListing :
    (b : CompiledBundle) (id : Identity) (object_type : String)
    → HasUniqueKeys (fields_of (system_rule b id.tenant_id id.user_role object_type))
    → HasUniqueKeys (fields_of (tenant_rule b id.tenant_id id.user_role object_type))
    → IsListing (can b id "read" object_type "").visible_fields
unfolding can rule_for
can-IsListing b id object_type u v =
    can_by_rule-IsListing (rule_for b id.tenant_id id.user_role object_type)
      (layer-HasUniqueKeys _ _ u v)

module _ (req : DecisionRequest) (n : ℕ) (profile : AutonomyProfile) (cap : CapabilityRule)
    (rbac : Decision) where
  outcome-fields :
      ((outcome req n profile cap rbac).visible_fields ≡ rbac.visible_fields)
      × ((outcome req n profile cap rbac).masked_fields ≡ rbac.masked_fields)
  unfolding outcome
  outcome-fields = (refl, refl)

  choose-permits :
      (permits (choose req n profile cap rbac).effect ≡ false)
      ⊎ ((choose req n profile cap rbac).effect
          ≡ (if is_empty rbac.masked_fields then effect_allow else effect_allow_with_conditions))
  unfolding choose by_risk guardrails ceilings permit
  choose-permits = ground arith

-- The system's rule and the tenant's rule hold each field once.
abbrev pub HasUniqueFields : CompiledBundle → DecisionRequest → Type 0
HasUniqueFields b req =
    HasUniqueKeys
      (fields_of (system_rule b req.identity.tenant_id req.identity.user_role req.object_type))
    × HasUniqueKeys
        (fields_of (tenant_rule b req.identity.tenant_id req.identity.user_role req.object_type))

-- What a result shows of one field of the object that the request names.
pub record IsShown (b : CompiledBundle) (req : DecisionRequest) (name : String) (r : DecisionResult)
    : Type 0 where
  pub visible :
      holds name r.visible_fields
      ≡ is_listed name (field_layers b req.identity req.object_type name)
  pub masked :
      Map.lookup name r.masked_fields
      ≡ mask_of name (field_layers b req.identity req.object_type name)
  pub sorted : IsSorted r.visible_fields
  pub once : IsDistinct r.visible_fields
  pub conditions :
      (permits r.effect ≡ false)
      ⊎ (r.effect
          ≡ (if is_empty r.masked_fields then effect_allow else effect_allow_with_conditions))

module _ (first second : CompiledBundle) (req : DecisionRequest) (name : String)
    (unique : HasUniqueFields second req) (reads : req.action_verb ≡ "read")
    (whole : req.field ≡ "") where
  rbac-Shows :
      let rbac = rbac_of first second req in
      let fr = field_layers second req.identity req.object_type name in
      (holds name rbac.visible_fields ≡ is_listed name fr)
      × (Map.lookup name rbac.masked_fields ≡ mask_of name fr)
  rbac-Shows =
      let (u, v) = unique in
      rw (reads, whole) (can-Shows second req.identity req.object_type name u v)

  rbac-IsListing : IsListing (rbac_of first second req).visible_fields
  rbac-IsListing =
      let (u, v) = unique in
      rw (reads, whole) (can-IsListing second req.identity req.object_type u v)

  outcome-IsShown :
      (profile : AutonomyProfile) (cap : CapabilityRule) (n : ℕ) (r : DecisionResult)
      → let rbac = rbac_of first second req in
        r.effect ≡ (choose req n profile cap rbac).effect
        → r.visible_fields ≡ rbac.visible_fields
        → r.masked_fields ≡ rbac.masked_fields
        → IsShown second req name r
  outcome-IsShown profile cap n r effect visible masked = record {
    visible = ap (holds name) visible ∙ rbac-Shows.0;
    masked = ap (Map.lookup name) masked ∙ rbac-Shows.1;
    sorted = rw visible rbac-IsListing.0;
    once = rw visible rbac-IsListing.1;
    conditions = rw (effect, masked) (choose-permits req n profile cap (rbac_of first second req));
  }

-- A read of a whole object that is not denied lists exactly the fields, other than "*", whose rule
-- lets them be read, in order and each once, and masks exactly those of them whose rule has a strategy, by that strategy;
-- the rule of a field is the tenant's where it has one, else the system's. If it goes on without a
-- human, it is an allow with conditions exactly when some field is masked, and else an allow. This
-- takes that the system's rule and the tenant's rule hold a field once.
pub decide-IsShown :
    (first second : CompiledBundle) (req : DecisionRequest) (name : String)
    → HasUniqueFields second req
    → req.action_verb ≡ "read"
    → req.field ≡ ""
    → (decide first second req).effect ≢ effect_deny
    → IsShown second req name (decide first second req)
unfolding outcome
decide-IsShown first second req name unique reads whole h = elim (decide-cases first second req) [
  | inl denial ↦ absurd (h denial.denies)
  | inr (agent profile cap _ common delegated e) ↦
      rw e (outcome-IsShown first second req name unique reads whole profile cap _ _ refl refl refl)
  | inr (other _ common e) ↦ rw e (
      outcome-IsShown first second req name unique reads whole zero_profile zero_capability _ _ refl
        refl refl)
]
