-- ===== src/Policy/Decide/Codes.antt =====
-- go/policy/decide.go: the reason codes of the results, on which callers branch.
use ivorycom_governance.Common.{
  ℕ, String, ◌≡◌, ◌↔◌, refl, inl, inr, Bool, true, false, Bool-cases, List, [], ◌∷◌, All, arith,
  ◌==◌, is_empty, if◌then◌else◌, string_eq, eq_iff,
}
use ivorycom_governance.Policy.Model.{
  Decision, CompiledBundle, AutonomyProfile, CapabilityRule, zero_profile, zero_capability,
}
use ivorycom_governance.Policy.Decide.Types.{
  Effect, effect_allow, effect_deny, effect_allow_with_conditions, effect_require_approval,
  DecisionRequest,
}
use ivorycom_governance.Policy.Decide.Choice.{
  Choice, outcome, choose, by_risk, guardrails, ceilings, permit,
}
use ivorycom_governance.Policy.Decide.Stages.{decide}
use ivorycom_governance.Policy.Decide.Gates.{risk_of}
use ivorycom_governance.Policy.Decide.Refusals.{denial_codes, is_among}
use ivorycom_governance.Policy.Decide.Clearance.{agent, other, decide-cases}
use ivorycom_governance.Policy.Decide.Guardrails.{permits}

-- The codes of the demands for approval.
abbrev pub approval_codes : List String
approval_codes =
    "approval_required_money_movement" ∷ "approval_required_destructive"
    ∷ "approval_required_protected_config" ∷ "approval_required_high_risk"
    ∷ "approval_required_capability" ∷ "approval_required_capability_max_risk"
    ∷ "approval_required_tenant_max_auto_risk" ∷ "approval_required_autonomy_restricted" ∷ []

-- The code fits the effect.
abbrev IsCoded : Effect → String → Type 0
IsCoded effect_deny code = is_among code denial_codes ≡ true
IsCoded effect_require_approval code = is_among code approval_codes ≡ true
IsCoded effect_allow code = code ≡ ""
IsCoded effect_allow_with_conditions code = code ≡ ""

record Coded (c : Choice) : Type 0 where
  fits : IsCoded c.effect c.reason_code

Coded-approval :
    (code : String)
    → is_among code approval_codes ≡ true
    → Coded (record { effect = effect_require_approval; reason_code = code })
Coded-approval code h = record { fits = h }

Coded-if : (b : Bool) (c d : Choice) → Coded c → Coded d → Coded (if b then c else d)
Coded-if true c d hc hd = hc
Coded-if false c d hc hd = hd

permit-Coded : (rbac : Decision) → Coded (permit rbac)
unfolding permit
permit-Coded rbac = record { fits = permitted (is_empty rbac.masked_fields) }
  where
    permitted : (b : Bool) → IsCoded (if b then effect_allow else effect_allow_with_conditions) ""
    permitted true = refl
    permitted false = refl

ruleset coding_rules = (Coded-approval, Coded-if, permit-Coded)

module _ (req : DecisionRequest) (n : ℕ) (profile : AutonomyProfile) (cap : CapabilityRule) where
  ceilings-Coded : (otherwise : Choice) → Coded otherwise → Coded (ceilings n profile cap otherwise)
  unfolding ceilings
  ceilings-Coded otherwise h = search coding_rules depth 12

  guardrails-Coded : (otherwise : Choice) → Coded otherwise → Coded (guardrails req n otherwise)
  unfolding guardrails
  guardrails-Coded otherwise h = search coding_rules depth 12

  by_risk-Coded : (rbac : Decision) → Coded (by_risk req n profile cap rbac)
  unfolding by_risk
  by_risk-Coded rbac = search (coding_rules, ceilings-Coded) depth 12

  choose-Coded : (rbac : Decision) → Coded (choose req n profile cap rbac)
  unfolding choose
  choose-Coded rbac = search (coding_rules, guardrails-Coded, by_risk-Coded) depth 12

-- What holds of every code of a list holds of a code among them.
among-All :
    (P : String → Type 0) (code : String) (codes : List String)
    → All P codes
    → is_among code codes ≡ true
    → P code
among-All P code [] h m = cc
among-All P code (c ∷ codes) (h, hs) m = elim (Bool-cases (code == c)) [
  | inl same ↦ let e : code ≡ c = (eq_iff code c).0 same in rw e h
  | inr miss ↦ among-All P code codes hs (ground arith)
]

-- No two of the three kinds of codes share a code.
denial-alone :
    (code : String)
    → is_among code denial_codes ≡ true
    → (is_among code approval_codes ≡ false) × (is_among code ("" ∷ []) ≡ false)
denial-alone code h = (
  among-All (λ c. is_among c approval_codes ≡ false) code denial_codes (ground arith) h,
  among-All (λ c. is_among c ("" ∷ []) ≡ false) code denial_codes (ground arith) h,
)

approval-alone :
    (code : String)
    → is_among code approval_codes ≡ true
    → (is_among code denial_codes ≡ false) × (is_among code ("" ∷ []) ≡ false)
approval-alone code h = (
  among-All (λ c. is_among c denial_codes ≡ false) code approval_codes (ground arith) h,
  among-All (λ c. is_among c ("" ∷ []) ≡ false) code approval_codes (ground arith) h,
)

empty-alone :
    (code : String)
    → code ≡ ""
    → (is_among code denial_codes ≡ false) × (is_among code approval_codes ≡ false)
empty-alone code h = rw h (refl, refl)

-- The effect can be told from the code.
abbrev pub IsTold : Effect → String → Type 0
IsTold e code =
    ((e ≡ effect_deny) ↔ (is_among code denial_codes ≡ true))
    × ((e ≡ effect_require_approval) ↔ (is_among code approval_codes ≡ true))
    × ((permits e ≡ true) ↔ (code ≡ ""))

IsCoded-IsTold : (e : Effect) (code : String) → IsCoded e code → IsTold e code
IsCoded-IsTold effect_deny code h =
    let (not_approval, some_code) = denial-alone code h in
    ((λ _. h, λ _. refl), (λ e. cc, λ m. cc), (λ e. cc, λ e. cc (some_code)))
IsCoded-IsTold effect_require_approval code h =
    let (not_denial, some_code) = approval-alone code h in
    ((λ e. cc, λ m. cc), (λ _. h, λ _. refl), (λ e. cc, λ e. cc (some_code)))
IsCoded-IsTold effect_allow code h =
    let (not_denial, not_approval) = empty-alone code h in
    ((λ e. cc, λ m. cc), (λ e. cc, λ m. cc), (λ _. h, λ _. refl))
IsCoded-IsTold effect_allow_with_conditions code h =
    let (not_denial, not_approval) = empty-alone code h in
    ((λ e. cc, λ m. cc), (λ e. cc, λ m. cc), (λ _. h, λ _. refl))

-- Callers can branch on the reason code alone: a result is a denial exactly when its code is one of
-- the ten that the source declares, a demand for approval exactly when it is one of the eight
-- `approval_required_` codes, and goes on without a human exactly when it is empty.
pub decide-IsTold :
    (first second : CompiledBundle) (req : DecisionRequest)
    → IsTold (decide first second req).effect (decide first second req).reason_code
unfolding outcome
decide-IsTold first second req = elim (decide-cases first second req) [
  | inl denial ↦ IsCoded-IsTold _ _ (rw denial.denies denial.coded)
  | inr (agent profile cap _ common delegated e) ↦
      rw e (IsCoded-IsTold _ _ (choose-Coded req (risk_of req) profile cap _).fits)
  | inr (other _ common e) ↦
      rw e (IsCoded-IsTold _ _ (choose-Coded req (risk_of req) zero_profile zero_capability _).fits)
]
