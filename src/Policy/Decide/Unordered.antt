-- ===== src/Policy/Decide/Unordered.antt =====
-- go/policy/decide.go: `Decide` and the order in which the maps of the bundles are iterated.
mod View
mod Tests
use ivorycom_governance.Common.{
  ℕ, String, Bool, true, false, not, ◌≡◌, refl, sym, ap, ◌∙◌, inl, inr, Bool-cases, string_eq,
  is_empty,
}
use ivorycom_governance.Common.Int.{ℤ}
use ivorycom_governance.Common.Map.{SameEntries, is_empty-SameEntries}
use ivorycom_governance.Policy.Model.{
  Decision, CompiledBundle, AutonomyProfile, CapabilityRule, Limits, capability_for, autonomy_for,
  lookup_tenant,
}
use ivorycom_governance.Policy.Model.Same.{SameBundle}
use ivorycom_governance.Policy.Engine.{can}
use ivorycom_governance.Policy.Engine.Unordered.{SameDecision, can-SameDecision}
use ivorycom_governance.Policy.Decide.Types.{
  Effect, DecisionRequest, DecisionResult, is_agent_class,
}
use ivorycom_governance.Policy.Decide.Choice.{permit, by_risk, choose, outcome}
use ivorycom_governance.Policy.Decide.Stages.{
  Gate, refused, passed, ◌>>=◌, preconditions, stage_a, check_profile, check_capability, finish,
  settle, ladder, decide,
}
use ivorycom_governance.Policy.Decide.Reads.{SameReads, ladder_with, ladder_with_same}

-- The results are the same, and mask the same fields by the same strategies.
pub record SameResult (r r' : DecisionResult) : Type 0 where
  pub effect : r.effect ≡ r'.effect
  pub reason_code : r.reason_code ≡ r'.reason_code
  pub reason : r.reason ≡ r'.reason
  pub visible_fields : r.visible_fields ≡ r'.visible_fields
  pub masked_fields : SameEntries r.masked_fields r'.masked_fields
  pub policy_version : r.policy_version ≡ r'.policy_version
  pub limits_required : r.limits_required ≡ r'.limits_required

SameResult-refl : (r : DecisionResult) → SameResult r r
SameResult-refl r = record {
  effect = refl;
  reason_code = refl;
  reason = refl;
  visible_fields = refl;
  masked_fields = λ k. refl;
  policy_version = refl;
  limits_required = refl;
}

-- A refusal is the same, whatever would come after it.
bind-SameResult {ℓ} :
    {A : Type ℓ} (m : Gate A) (k k' : A → Gate DecisionResult)
    → ((a : A) → SameResult (settle (k a)) (settle (k' a)))
    → SameResult (settle (m >>= k)) (settle (m >>= k'))
bind-SameResult (refused r) k k' same = SameResult-refl r
bind-SameResult (passed a) k k' same = same a

module _ (req : DecisionRequest) (rbac rbac' : Decision) (same : SameDecision rbac rbac') where
  permit_same : permit rbac ≡ permit rbac'
  unfolding permit
  permit_same =
      rw (is_empty-SameEntries rbac.masked_fields rbac'.masked_fields same.masked_fields) refl

  choose_same :
      (n : ℕ) (profile : AutonomyProfile) (cap : CapabilityRule)
      → choose req n profile cap rbac ≡ choose req n profile cap rbac'
  unfolding choose by_risk
  choose_same n profile cap = rw permit_same refl

  outcome-SameResult :
      (version : ℤ) (limits : Limits) (n : ℕ) (profile : AutonomyProfile) (cap : CapabilityRule)
      → SameResult
          (record (outcome req n profile cap rbac) {
            policy_version = version;
            limits_required = limits;
          })
          (record (outcome req n profile cap rbac') {
            policy_version = version;
            limits_required = limits;
          })
  unfolding outcome
  outcome-SameResult version limits n profile cap =
      let chosen = choose_same n profile cap in
      record {
        effect = ap (λ c. c.effect) chosen;
        reason_code = ap (λ c. c.reason_code) chosen;
        reason = refl;
        visible_fields = same.visible_fields;
        masked_fields = same.masked_fields;
        policy_version = refl;
        limits_required = refl;
      }

  stage_a_same : (b : CompiledBundle) (n : ℕ) → stage_a b req n rbac ≡ stage_a b req n rbac'
  unfolding stage_a
  stage_a_same b n = rw (same.allow, same.reason) refl

  finish-SameResult :
      (b : CompiledBundle) (n : ℕ)
      → SameResult (settle (finish b req n rbac)) (settle (finish b req n rbac'))
  unfolding finish outcome
  finish-SameResult b n = elim (Bool-cases (is_agent_class req.identity.actor_type)) [
    | inl agent ↦ rw agent (
        bind-SameResult (check_profile b req) _ _ λ profile.
          bind-SameResult (check_capability b req profile) _ _
            λ cap. outcome-SameResult b.version profile.limits n profile cap)
    | inr other ↦ rw other (outcome-SameResult b.version _ n _ _)
  ]

  ladder_with-SameResult :
      (b : CompiledBundle)
      → SameResult (settle (ladder_with b req rbac)) (settle (ladder_with b req rbac'))
  ladder_with-SameResult b = bind-SameResult (preconditions b req) _ _ λ n.
      rw (stage_a_same b n) (bind-SameResult (stage_a b req n rbac') _ _ λ _. finish-SameResult b n)

SameBundle-SameReads :
    (b b' : CompiledBundle) (req : DecisionRequest) → SameBundle b b' → SameReads req b b'
unfolding capability_for autonomy_for
SameBundle-SameReads b b' req same = record {
  version = same.version;
  capability = same.capabilities req.identity.tenant_id _;
  autonomy = same.autonomy req.identity.tenant_id;
}

-- The first bundle enters a decision by its lookups only.
pub decide-first :
    (first first' second : CompiledBundle) (req : DecisionRequest)
    → SameBundle first first'
    → decide first second req ≡ decide first' second req
unfolding decide ladder
decide-first first first' second req same = ap settle (
    ladder_with_same first first' req (SameBundle-SameReads first first' req same)
      (can second req.identity req.action_verb req.object_type req.field))

pub decide-second :
    (first second second' : CompiledBundle) (req : DecisionRequest)
    → SameBundle second second'
    → SameResult (decide first second req) (decide first second' req)
unfolding decide ladder
decide-second first second second' req same =
    ladder_with-SameResult req _ _
      (can-SameDecision second second' req.identity req.action_verb req.object_type req.field same)
      first

-- The order in which Go iterates over its maps does not show in a decision. Let every lookup in a
-- bundle, of a role's rule, a capability or a profile, find in another bundle what it finds in the
-- one, where rules are the same if their grants and conditions are and their field maps hold the
-- same entries, each field once. Then the two decide each request alike: the effect, both reasons, the list of
-- visible fields, the version and the limits are equal, and the same fields are masked alike.
pub decide-SameResult :
    (first first' second second' : CompiledBundle) (req : DecisionRequest)
    → SameBundle first first'
    → SameBundle second second'
    → SameResult (decide first second req) (decide first' second' req)
decide-SameResult first first' second second' req same same' =
    rw (decide-first first first' second req same) (decide-second first' second second' req same')
