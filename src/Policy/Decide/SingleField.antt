-- ===== src/Policy/Decide/SingleField.antt =====
-- go/policy/decide.go: the read of one field beside the read of the whole object.
use ivorycom_governance.Common.{
  ℕ, String, ◌≡◌, ◌≢◌, refl, sym, ap, ◌∙◌, inl, inr, true, false, Option, none, some, [], ◌∷◌,
  arith, string_eq, eq_iff, is_empty,
}
use ivorycom_governance.Common.Map
use ivorycom_governance.Common.Map.{Map, HasUniqueKeys}
use ivorycom_governance.Policy.Model.{
  zero_profile, zero_capability, FieldRule, PolicyRule, Decision, CompiledBundle, AutonomyProfile,
  CapabilityRule,
}
use ivorycom_governance.Policy.Model.Layers.{rule_for-fields}
use ivorycom_governance.Policy.Fls.{field_rule_for, decide_field, decide_by_field_rule}
use ivorycom_governance.Policy.Fls.Visible.{is_listed, mask_of}
use ivorycom_governance.Policy.Engine.{can_by_rule, can}
use ivorycom_governance.Policy.Engine.Access.{can_by_rule_iff}
use ivorycom_governance.Policy.Decide.Types.{
  effect_allow, effect_allow_with_conditions, DecisionRequest, DecisionResult,
}
use ivorycom_governance.Policy.Decide.Choice.{
  permit, by_risk, guardrails, ceilings, choose, outcome,
}
use ivorycom_governance.Policy.Decide.Stages.{decide}
use ivorycom_governance.Policy.Decide.Gates.{risk_of}
use ivorycom_governance.Policy.Decide.Clearance.{
  rbac_of, IsCommon, IsDelegated, agent, other, decide-cases, decide_agent, decide_other,
}
use ivorycom_governance.Policy.Decide.Guardrails.{permits}
use ivorycom_governance.Policy.Decide.Fields.{HasUniqueFields, field_layers, decide-IsShown}

-- The same request for one field.
abbrev pub with_field : DecisionRequest → String → DecisionRequest
with_field req name = record req { field = name }

-- A decision on a field shows no mask.
can_by_rule-no_mask :
    (r : PolicyRule) (action name : String)
    → name ≢ ""
    → (can_by_rule r action name).masked_fields ≡ []
unfolding can_by_rule decide_field decide_by_field_rule
can_by_rule-no_mask r action name h = ground (arith, eq_iff name "")

-- Who may read the object may read a field whose own rule lets it be read.
can_by_rule-field :
    (r : PolicyRule) (name : String) (fr : FieldRule)
    → Map.lookup name r.fields ≡ some fr
    → fr.read ≡ true
    → (can_by_rule r "read" "").allow ≡ true
    → (can_by_rule r "read" name).allow ≡ true
unfolding field_rule_for
can_by_rule-field r name fr found readable h =
    let (granted, _) = (can_by_rule_iff r "read" "").0 h in
    (can_by_rule_iff r "read" name).1
      (granted, inr (inr (fr, rw (found, field_rule_for) refl, inl (refl, readable))))

-- Where a choice goes on without a human, the same choice on another field and another RBAC decision
-- is the permission for that decision.
choose-with_field :
    (req : DecisionRequest) (name : String) (n : ℕ) (profile : AutonomyProfile)
    (cap : CapabilityRule) (rbac rbac' : Decision)
    → permits (choose req n profile cap rbac).effect ≡ true
    → choose (with_field req name) n profile cap rbac' ≡ permit rbac'
unfolding choose by_risk guardrails ceilings
choose-with_field req name n profile cap rbac rbac' h = ground arith

is_listed-lem :
    (name : String) (o : Option FieldRule)
    → is_listed name o ≡ true
    → (fr : FieldRule) × (o ≡ some fr) × (fr.read ≡ true)
is_listed-lem name none h = cc
is_listed-lem name (some fr) h = (fr, refl, ground arith)

module _ (first second : CompiledBundle) (req : DecisionRequest) (name : String) where
  abbrev pub single : DecisionRequest
  single = with_field req name

  single-no_mask : name ≢ "" → (rbac_of first second single).masked_fields ≡ []
  unfolding can
  single-no_mask h = can_by_rule-no_mask _ req.action_verb name h

  pub single-allow :
      HasUniqueFields second req
      → req.action_verb ≡ "read"
      → req.field ≡ ""
      → is_listed name (field_layers second req.identity req.object_type name) ≡ true
      → (rbac_of first second req).allow ≡ true
      → (rbac_of first second single).allow ≡ true
  unfolding can
  single-allow (u, v) reads whole listed h =
      let (fr, found, readable) = is_listed-lem name _ listed in
      let e =
        rule_for-fields second req.identity.tenant_id req.identity.user_role req.object_type name u
          v in
      rw reads (can_by_rule-field _ name fr (e ∙ found) readable (rw (reads, whole) at h))

  pub IsCommon-with_field :
      ((rbac_of first second req).allow ≡ true → (rbac_of first second single).allow ≡ true)
      → IsCommon first second req
      → IsCommon first second single
  IsCommon-with_field keep c = record {
    admissible = record {
      loaded = c.admissible.loaded;
      live = c.admissible.live;
      known = c.admissible.known;
    };
    permitted = record {
      not_critical = c.permitted.not_critical;
      external_cap = c.permitted.external_cap;
      service = c.permitted.service;
      system = c.permitted.system;
      rbac_or_approval = elim c.permitted.rbac_or_approval [
        | inl granted ↦ inl (keep granted)
        | inr approved ↦ inr approved
      ];
    };
  }

  pub IsDelegated-with_field :
      (profile : AutonomyProfile) (capability : CapabilityRule)
      → IsDelegated first second req profile capability
      → IsDelegated first second single profile capability
  IsDelegated-with_field profile capability d = record {
    usable = record {
      configured = d.usable.configured;
      running = d.usable.running;
      auto_risk = d.usable.auto_risk;
      per_run = d.usable.per_run;
      per_hour = d.usable.per_hour;
      money = d.usable.money;
    };
    capable = record {
      named = d.capable.named;
      granted = d.capable.granted;
      allowed = d.capable.allowed;
      cap_risk = d.capable.cap_risk;
      funded = d.capable.funded;
    };
  }

  decide-with_field :
      ((rbac_of first second req).allow ≡ true → (rbac_of first second single).allow ≡ true)
      → permits (decide first second req).effect ≡ true
      → ((decide first second single).effect ≡ (permit (rbac_of first second single)).effect)
        × ((decide first second single).masked_fields ≡ (rbac_of first second single).masked_fields)
  unfolding outcome
  decide-with_field keep h = elim (decide-cases first second req) [
    | inl denial ↦ let denied = denial.denies in ground arith
    | inr (agent profile cap is_agent common delegated e) ↦
        let answer =
          decide_agent first second single profile cap is_agent (IsCommon-with_field keep common)
            (IsDelegated-with_field profile cap delegated) in
        let choice =
          choose-with_field req name (risk_of req) profile cap (rbac_of first second req)
            (rbac_of first second single) (ap (λ r. permits r.effect) (sym e) ∙ h) in
        (ap (λ r. r.effect) answer ∙ ap (λ c. c.effect) choice, ap (λ r. r.masked_fields) answer)
    | inr (other not_agent common e) ↦
        let answer = decide_other first second single not_agent (IsCommon-with_field keep common) in
        let choice =
          choose-with_field req name (risk_of req) zero_profile zero_capability
            (rbac_of first second req) (rbac_of first second single)
            (ap (λ r. permits r.effect) (sym e) ∙ h) in
        (ap (λ r. r.effect) answer ∙ ap (λ c. c.effect) choice, ap (λ r. r.masked_fields) answer)
  ]

mask_of-listed :
    (name strategy : String) (o : Option FieldRule)
    → mask_of name o ≡ some strategy
    → is_listed name o ≡ true
mask_of-listed name strategy none h = cc
mask_of-listed name strategy (some fr) h = ground arith

is_empty-false :
    (name : String) {v : String} (m : Map String String)
    → Map.lookup name m ≡ some v
    → is_empty m ≡ false
unfolding Map.lookup
is_empty-false name [] h = cc
is_empty-false name (e ∷ m) h = refl

-- What the two reads get.
pub record IsUnmasked (whole alone : DecisionResult) (name strategy : String) : Type 0 where
  pub whole_effect : whole.effect ≡ effect_allow_with_conditions
  pub whole_mask : Map.lookup name whole.masked_fields ≡ some strategy
  pub alone_effect : alone.effect ≡ effect_allow
  pub alone_masks : alone.masked_fields ≡ []

-- Let a field's rule, the tenant's where it has one, else the system's, let the field be read under a
-- mask. If a read of the whole object goes through without a human, then it is allowed with
-- conditions, and masks the field by that strategy; but the same read of that field alone is an
-- unconditional allow with no mask. This takes that the two rules hold a field once.
pub decide_field-IsUnmasked :
    (first second : CompiledBundle) (req : DecisionRequest) (name strategy : String)
    → HasUniqueFields second req
    → req.action_verb ≡ "read"
    → req.field ≡ ""
    → name ≢ ""
    → mask_of name (field_layers second req.identity req.object_type name) ≡ some strategy
    → permits (decide first second req).effect ≡ true
    → IsUnmasked (decide first second req) (decide first second (with_field req name)) name strategy
unfolding permit
decide_field-IsUnmasked first second req name strategy unique reads whole named masked h =
    let shown = decide-IsShown first second req name unique reads whole (λ denied. ground arith) in
    let mask = shown.masked ∙ masked in
    let listed = mask_of-listed name strategy _ masked in
    let (effect, masks) =
      decide-with_field first second req name
        (single-allow first second req name unique reads whole listed) h in
    let no_mask = single-no_mask first second req name named in
    record {
      whole_effect = elim shown.conditions [
        | inl held ↦ cc
        | inr e ↦ let some_mask = is_empty-false name _ mask in ground arith
      ];
      whole_mask = mask;
      alone_effect = let none_left = ap is_empty no_mask in ground arith;
      alone_masks = masks ∙ no_mask;
    }
