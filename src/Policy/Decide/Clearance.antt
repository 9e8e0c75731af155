-- ===== src/Policy/Decide/Clearance.antt =====
-- go/policy/decide.go: `Decide` against an independent list of conditions, and what it answers to a
-- request that meets them.
use ivorycom_governance.Common.{
  ℕ, ◌≡◌, ◌≢◌, ◌↔◌, ◌⊎◌, refl, sym, ap, ◌∙◌, inl, inr, true, false, Bool-cases, arith, string_eq,
}
use ivorycom_governance.Policy.Model.{
  Decision, CompiledBundle, AutonomyProfile, CapabilityRule, zero_profile, zero_capability,
}
use ivorycom_governance.Policy.Engine.{can}
use ivorycom_governance.Policy.Decide.Types.{
  effect_deny, DecisionRequest, DecisionResult, is_agent_class,
}
use ivorycom_governance.Policy.Decide.Choice.{
  outcome, choose, by_risk, guardrails, ceilings, permit,
}
use ivorycom_governance.Policy.Decide.Stages.{
  Gate, refused, passed, ◌>>=◌, stage_a, finish, ladder, decide,
}
use ivorycom_governance.Policy.Decide.Gates.{
  risk_of, actor_of, IsAdmissible, IsPermitted, IsUsable, IsCapable, preconditions_iff, stage_a_iff,
  check_profile_iff, check_capability_iff,
}
use ivorycom_governance.Policy.Decide.Refusals.{IsDenial, ladder-Refuses, loaded_version}

pub Gate-cases {ℓ} :
    {A : Type ℓ} (g : Gate A)
    → ((r : DecisionResult) × (g ≡ refused r)) ⊎ ((a : A) × (g ≡ passed a))
Gate-cases (refused r) = inl (r, refl)
Gate-cases (passed a) = inr (a, refl)

>>=-eq-passed {ℓ κ} :
    {A : Type ℓ} {B : Type κ} (g : Gate A) (k : A → Gate B) {b : B}
    → (g >>= k) ≡ passed b
    → (a : A) × (g ≡ passed a) × (k a ≡ passed b)
>>=-eq-passed (refused r) k h = cc
>>=-eq-passed (passed a) k h = (a, refl, h)

-- No branch of `outcome` denies.
choose-ne-deny :
    (req : DecisionRequest) (n : ℕ) (profile : AutonomyProfile) (cap : CapabilityRule)
    (rbac : Decision)
    → (choose req n profile cap rbac).effect ≢ effect_deny
unfolding choose by_risk guardrails ceilings permit
choose-ne-deny req n profile cap rbac h = ground arith

module _ (first second : CompiledBundle) (req : DecisionRequest) where
  abbrev pub rbac_of : Decision
  rbac_of = can second req.identity req.action_verb req.object_type req.field

  -- The RBAC decision is the one that `Can` makes, on the bundle that it reads itself.
  pub record IsCommon : Type 0 where
    pub admissible : IsAdmissible first req
    pub permitted : IsPermitted req rbac_of

  pub record IsDelegated (profile : AutonomyProfile) (cap : CapabilityRule) : Type 0 where
    pub usable : IsUsable first req profile
    pub capable : IsCapable first req profile cap

  -- the answer to a cleared request, for an actor of the agent class and for any other
  abbrev pub agent_answer : AutonomyProfile → CapabilityRule → DecisionResult
  agent_answer profile cap = record (outcome req (risk_of req) profile cap rbac_of) {
    policy_version = first.version;
    limits_required = profile.limits;
  }

  abbrev pub other_answer : DecisionResult
  other_answer = record (outcome req (risk_of req) zero_profile zero_capability rbac_of) {
    policy_version = first.version;
  }

  -- A cleared request, with the answer that it gets.
  pub data Cleared (r : DecisionResult) : Type 0 where
    agent :
        (profile : AutonomyProfile) (cap : CapabilityRule)
        → is_agent_class (actor_of req) ≡ true
        → IsCommon
        → IsDelegated profile cap
        → r ≡ agent_answer profile cap
        → Cleared r
    other : is_agent_class (actor_of req) ≡ false → IsCommon → r ≡ other_answer → Cleared r

  finish-Cleared :
      (r : DecisionResult)
      → IsCommon
      → finish first req (risk_of req) rbac_of ≡ passed r
      → Cleared r
  unfolding finish
  finish-Cleared r common h = elim (Bool-cases (is_agent_class (actor_of req))) [
    | inl is_agent ↦
        let (profile, found, h') = >>=-eq-passed _ _ (rw is_agent at h) in
        let (cap, granted, h'') = >>=-eq-passed _ _ h' in
        agent profile cap is_agent common
          (record {
            usable = (check_profile_iff first req profile).0 found;
            capable = (check_capability_iff first req profile cap).0 granted;
          })
          (cc)
    | inr not_agent ↦ other not_agent common (let h' = rw not_agent at h in cc)
  ]

  pub ladder-Cleared : (r : DecisionResult) → ladder first second req ≡ passed r → Cleared r
  unfolding ladder
  ladder-Cleared r h =
      let (n, passes, h') = >>=-eq-passed _ _ h in
      let (_, permits, h'') =
        >>=-eq-passed (stage_a first req n rbac_of) (λ _. finish first req n rbac_of) h' in
      let (admissible, same) = (preconditions_iff first req n).0 passes in
      finish-Cleared r
        (record {
          admissible = admissible;
          permitted = (stage_a_iff req first rbac_of).0 (rw same at permits);
        })
        (rw same at h'')

  -- Either the result is a refusal, or the request is cleared and gets its answer.
  pub decide-cases :
      IsDenial (loaded_version first) (decide first second req) ⊎ Cleared (decide first second req)
  unfolding decide
  decide-cases = elim (Gate-cases (ladder first second req)) [
    | inl (r, h) ↦ inl (rw h ((ladder-Refuses first req second).at r h))
    | inr (r, h) ↦ inr (rw h (ladder-Cleared r h))
  ]

  pub decide_agent :
      (profile : AutonomyProfile) (cap : CapabilityRule)
      → is_agent_class (actor_of req) ≡ true
      → IsCommon
      → IsDelegated profile cap
      → decide first second req ≡ agent_answer profile cap
  unfolding decide ladder finish
  decide_agent profile cap is_agent common delegated = rw (
    (preconditions_iff first req _).1 (common.admissible, refl),
    (stage_a_iff req first rbac_of).1 common.permitted,
    is_agent,
    (check_profile_iff first req profile).1 delegated.usable,
    (check_capability_iff first req profile cap).1 delegated.capable,
  )

  pub decide_other :
      is_agent_class (actor_of req) ≡ false → IsCommon → decide first second req ≡ other_answer
  unfolding decide ladder finish
  decide_other not_agent common = rw (
    (preconditions_iff first req _).1 (common.admissible, refl),
    (stage_a_iff req first rbac_of).1 common.permitted,
    not_agent,
  )

  -- The conditions under which a request is not denied.
  pub record IsCleared : Type 0 where
    pub common : IsCommon
    pub delegated :
        (is_agent_class (actor_of req) ≡ false)
        ⊎ ((profile : AutonomyProfile) × (cap : CapabilityRule) × IsDelegated profile cap)

  pub Cleared-effect : {r : DecisionResult} → Cleared r → r.effect ≢ effect_deny
  unfolding outcome
  Cleared-effect (agent profile cap is_agent common delegated e) h =
      choose-ne-deny req _ profile cap rbac_of (ap (λ r. r.effect) (sym e) ∙ h)
  Cleared-effect (other not_agent common e) h =
      choose-ne-deny req _ zero_profile zero_capability rbac_of (ap (λ r. r.effect) (sym e) ∙ h)

  Cleared-IsCleared : {r : DecisionResult} → Cleared r → IsCleared
  Cleared-IsCleared (agent profile cap is_agent common delegated e) = record {
    common = common;
    delegated = inr (profile, cap, delegated);
  }
  Cleared-IsCleared (other not_agent common e) = record {
    common = common;
    delegated = inl not_agent;
  }

  IsCleared-Cleared : IsCleared → Cleared (decide first second req)
  IsCleared-Cleared c = elim (Bool-cases (is_agent_class (actor_of req))) [
    | inl is_agent ↦ elim c.delegated [
      | inl not_agent ↦ cc
      | inr (profile, cap, delegated) ↦
          agent profile cap is_agent c.common delegated
            (decide_agent profile cap is_agent c.common delegated)
    ]
    | inr not_agent ↦ other not_agent c.common (decide_other not_agent c.common)
  ]

-- `Decide` lets a request through, as an allow or as a demand for approval, exactly when the list
-- of conditions `IsCleared` holds of it: a loaded bundle, a live actor and a known risk; no CRITICAL
-- action by the agent class, none above MEDIUM by an external integration, only permitted ones by a
-- service and none that mutates tenant data by the system; an RBAC grant or a verified approval;
-- and, for the agent class, a usable autonomy profile and a capability for the action.
pub decide-IsCleared_iff :
    (first second : CompiledBundle) (req : DecisionRequest)
    → ((decide first second req).effect ≢ effect_deny) ↔ IsCleared first second req
decide-IsCleared_iff first second req = (
  λ h. elim (decide-cases first second req) [
    | inl denial ↦ absurd (h denial.denies)
    | inr cleared ↦ Cleared-IsCleared first second req cleared
  ],
  λ c. Cleared-effect first second req (IsCleared-Cleared first second req c),
)

-- Every denial has one of the ten reason codes that the source declares, names the version of the
-- bundle that `Decide` read (0 where none is loaded), and shows no field, no mask and no limits.
pub decide-IsDenial :
    (first second : CompiledBundle) (req : DecisionRequest)
    → (decide first second req).effect ≡ effect_deny
    → IsDenial (loaded_version first) (decide first second req)
decide-IsDenial first second req h = elim (decide-cases first second req) [
  | inl denial ↦ denial
  | inr cleared ↦ absurd (Cleared-effect first second req cleared h)
]
