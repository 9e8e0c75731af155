-- ===== src/Policy/Decide/Refusals.antt =====
-- go/policy/decide.go: what a refusal of `Decide` looks like, from whichever check it comes.
use ivorycom_governance.Common.{
  ℕ, String, ◌≡◌, refl, inl, inr, Bool, true, false, Option, none, some, List, [], ◌∷◌, any,
  Bool-cases, ◌==◌, string_eq, if◌then◌else◌,
}
use ivorycom_governance.Common.Int.{ℤ, pos, leb_ℤ}
use ivorycom_governance.Policy.Model.{Decision, CompiledBundle, AutonomyProfile, zero_limits}
use ivorycom_governance.Policy.Decide.Types.{
  reason_critical_agent_prohibited, reason_external_risk_cap, reason_actor_type_missing,
  reason_invalid_request, reason_policy_absent, reason_resource_denied, reason_no_capability,
  reason_autonomy_unconfigured, reason_autonomy_halted, reason_invalid_policy_config, effect_deny,
  DecisionRequest, DecisionResult, deny,
}
use ivorycom_governance.Policy.Decide.Stages.{
  Gate, refused, passed, ◌>>=◌, refuse_if, or_refuse, preconditions, stage_a, check_mode,
  check_profile, check_capability, finish, ladder,
}

-- The codes that the file declares as reasons of a denial.
abbrev pub denial_codes : List String
denial_codes =
    reason_critical_agent_prohibited ∷ reason_external_risk_cap ∷ reason_actor_type_missing
    ∷ reason_invalid_request ∷ reason_policy_absent ∷ reason_resource_denied ∷ reason_no_capability
    ∷ reason_autonomy_unconfigured ∷ reason_autonomy_halted ∷ reason_invalid_policy_config ∷ []

abbrev pub is_among : String → List String → Bool
is_among code codes = any (λ c. code == c) codes

-- It denies, says why, names the policy, and shows nothing.
pub record IsDenial (version : ℤ) (r : DecisionResult) : Type 0 where
  pub denies : r.effect ≡ effect_deny
  pub coded : is_among r.reason_code denial_codes ≡ true
  pub names_version : r.policy_version ≡ version
  pub no_fields : r.visible_fields ≡ []
  pub no_masks : r.masked_fields ≡ []
  pub no_limits : r.limits_required ≡ zero_limits

deny-IsDenial :
    (version : ℤ) (code msg : String)
    → is_among code denial_codes ≡ true
    → IsDenial version (deny version code msg)
unfolding deny
deny-IsDenial version code msg h = record {
  denies = refl;
  coded = h;
  names_version = refl;
  no_fields = refl;
  no_masks = refl;
  no_limits = refl;
}

-- Every refusal of the gate is such a denial.
pub record Refuses {ℓ} {A : Type ℓ} (version : ℤ) (g : Gate A) : Type ℓ where
  pub at : (r : DecisionResult) → g ≡ refused r → IsDenial version r

module _ {ℓ} {A : Type ℓ} {version : ℤ} where
  Refuses-passed : (a : A) → Refuses version (passed a)
  Refuses-passed a = record { at = λ r h. cc }

  Refuses-refused :
      (code msg : String)
      → is_among code denial_codes ≡ true
      → Refuses {A = A} version (refused (deny version code msg))
  Refuses-refused code msg h = record {
    at = λ r e.
        let same : deny version code msg ≡ r = cc in rw same at (deny-IsDenial version code msg h);
  }

  Refuses-or_refuse :
      (o : Option A) (code msg : String)
      → is_among code denial_codes ≡ true
      → Refuses version (or_refuse o (deny version code msg))
  Refuses-or_refuse none code msg h = Refuses-refused code msg h
  Refuses-or_refuse (some a) code msg h = Refuses-passed a

  Refuses-if :
      (b : Bool) (g k : Gate A)
      → Refuses version g
      → Refuses version k
      → Refuses version (if b then g else k)
  Refuses-if true g k hg hk = hg
  Refuses-if false g k hg hk = hk

module _ {version : ℤ} where
  Refuses-refuse_if :
      (b : Bool) (code msg : String)
      → is_among code denial_codes ≡ true
      → Refuses version (refuse_if b (deny version code msg))
  Refuses-refuse_if true code msg h = Refuses-refused code msg h
  Refuses-refuse_if false code msg h = Refuses-passed tt

module _ {ℓ κ} {A : Type ℓ} {B : Type κ} {version : ℤ} where
  Refuses-bind :
      (g : Gate A) (k : A → Gate B)
      → Refuses version g
      → ((a : A) → Refuses version (k a))
      → Refuses version (g >>= k)
  Refuses-bind (refused r) k hg hk = record { at = λ s e. hg.at s (cc) }
  Refuses-bind (passed a) k hg hk = hk a

ruleset refusal_rules = (
  Refuses-passed, Refuses-refused, Refuses-or_refuse, Refuses-if, Refuses-refuse_if, Refuses-bind,
)

-- the version that a refusal names: 0 where no bundle is loaded
abbrev pub loaded_version : CompiledBundle → ℤ
loaded_version bundle = if leb_ℤ bundle.version (pos 0) then pos 0 else bundle.version

module _ (bundle : CompiledBundle) (req : DecisionRequest) where
  stage_a-Refuses : (n : ℕ) (rbac : Decision) → Refuses bundle.version (stage_a bundle req n rbac)
  unfolding stage_a
  stage_a-Refuses n rbac = search refusal_rules depth 12

  check_profile-Refuses : Refuses bundle.version (check_profile bundle req)
  unfolding check_profile check_mode
  check_profile-Refuses = search refusal_rules depth 12

  check_capability-Refuses :
      (profile : AutonomyProfile) → Refuses bundle.version (check_capability bundle req profile)
  unfolding check_capability
  check_capability-Refuses profile = search refusal_rules depth 12

  finish-Refuses : (n : ℕ) (rbac : Decision) → Refuses bundle.version (finish bundle req n rbac)
  unfolding finish
  finish-Refuses n rbac =
      search (refusal_rules, check_profile-Refuses, check_capability-Refuses) depth 8

  -- The stages after the preconditions are reached with a loaded bundle only.
  pub ladder-Refuses :
      (second : CompiledBundle) → Refuses (loaded_version bundle) (ladder bundle second req)
  unfolding ladder preconditions
  ladder-Refuses second = elim (Bool-cases (leb_ℤ bundle.version (pos 0))) [
    | inl unloaded ↦ rw unloaded (Refuses-refused _ _ refl)
    | inr loaded ↦ rw loaded (search (refusal_rules, stage_a-Refuses, finish-Refuses) depth 12)
  ]
