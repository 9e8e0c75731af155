-- ===== src/Policy/Decide/Denials.antt =====
-- go/policy/decide.go: which denials `Decide` gives, and when.
use ivorycom_governance.Common.{String, ◌≡◌, ◌↔◌, ◌⊎◌, refl, ap, inl, inr, true, Bool-cases, some}
use ivorycom_governance.Policy.Model.{CompiledBundle, AutonomyProfile}
use ivorycom_governance.Policy.Decide.Types.{effect_deny, DecisionRequest, is_agent_class}
use ivorycom_governance.Policy.Decide.Stages.{
  Gate, refused, passed, ◌>>=◌, preconditions, stage_a, check_profile, check_capability, finish,
  ladder, decide,
}
use ivorycom_governance.Policy.Decide.Gates.{
  risk_of, actor_of, IsAdmissible, IsUsable, preconditions_iff, stage_a_iff, check_profile_iff,
}
use ivorycom_governance.Policy.Decide.GateRefusals.{
  refusal, IsInadmissible, IsForbidden, preconditions-refusal_iff, stage_a-refusal_iff,
}
use ivorycom_governance.Policy.Decide.DelegationRefusals.{
  IsUndelegated, IsIncapable, check_profile-refusal_iff, check_capability-refusal_iff,
}
use ivorycom_governance.Policy.Decide.Refusals.{IsDenial, loaded_version, ladder-Refuses}
use ivorycom_governance.Policy.Decide.Clearance.{
  Gate-cases, decide-IsDenial, agent_answer, IsCommon, rbac_of, Cleared-effect, ladder-Cleared,
}

>>=-refusal {ℓ κ} :
    {A : Type ℓ} {B : Type κ} (g : Gate A) (k : A → Gate B) (code : String)
    → refusal (g >>= k) ≡ some code
    → (refusal g ≡ some code) ⊎ ((a : A) × (g ≡ passed a) × (refusal (k a) ≡ some code))
>>=-refusal (refused r) k code h = inl h
>>=-refusal (passed a) k code h = inr (a, refl, h)

refusal->>= {ℓ κ} :
    {A : Type ℓ} {B : Type κ} (g : Gate A) (k : A → Gate B) (code : String)
    → refusal g ≡ some code
    → refusal (g >>= k) ≡ some code
refusal->>= (refused r) k code h = h
refusal->>= (passed a) k code h = cc

module _ (first second : CompiledBundle) (req : DecisionRequest) (code : String) where
  -- A request that is denied, with the reason code that it gets: that of the first stage which
  -- refuses it.
  pub data Denied : Type 0 where
    inadmissible : IsInadmissible first req code → Denied
    forbidden :
        IsAdmissible first req → IsForbidden first req (rbac_of first second req) code → Denied
    undelegated :
        IsCommon first second req
        → is_agent_class (actor_of req) ≡ true
        → IsUndelegated first req code
        → Denied
    incapable :
        (profile : AutonomyProfile)
        → IsCommon first second req
        → is_agent_class (actor_of req) ≡ true
        → IsUsable first req profile
        → IsIncapable first req profile code
        → Denied

  finish-Denied :
      IsCommon first second req
      → refusal (finish first req (risk_of req) (rbac_of first second req)) ≡ some code
      → Denied
  unfolding finish
  finish-Denied common h = elim (Bool-cases (is_agent_class (actor_of req))) [
    | inl is_agent ↦
        elim (>>=-refusal (check_profile first req)
          (λ profile. check_capability first req profile >>= λ cap.
            passed (agent_answer first second req profile cap))
          code (rw is_agent at h)) [
            | inl h' ↦ undelegated common is_agent ((check_profile-refusal_iff first req code).0 h')
            | inr (profile, found, h') ↦
                elim (>>=-refusal (check_capability first req profile)
                  (λ cap. passed (agent_answer first second req profile cap)) code h') [
                    | inl h'' ↦
                        incapable profile common is_agent
                          ((check_profile_iff first req profile).0 found)
                          ((check_capability-refusal_iff first req profile code).0 h'')
                    | inr (_, _, h'') ↦ cc
                  ]
          ]
    | inr not_agent ↦ let h' = rw not_agent at h in cc
  ]

  ladder-Denied : refusal (ladder first second req) ≡ some code → Denied
  unfolding ladder
  ladder-Denied h = elim (>>=-refusal (preconditions first req) _ code h) [
    | inl h' ↦ inadmissible ((preconditions-refusal_iff first req code).0 h')
    | inr (n, passes, h') ↦
        let (admissible, same) = (preconditions_iff first req n).0 passes in
        elim (>>=-refusal (stage_a first req (risk_of req) (rbac_of first second req))
          (λ _. finish first req (risk_of req) (rbac_of first second req)) code (rw same at h')) [
            | inl h'' ↦
                forbidden admissible
                  ((stage_a-refusal_iff first req (rbac_of first second req) code).0 h'')
            | inr (_, permits, h'') ↦
                finish-Denied
                  (record {
                    admissible = admissible;
                    permitted = (stage_a_iff req first (rbac_of first second req)).0 permits;
                  })
                  h''
          ]
  ]

  Denied-ladder : Denied → refusal (ladder first second req) ≡ some code
  unfolding ladder finish
  Denied-ladder (inadmissible h) =
      refusal->>= _ _ code ((preconditions-refusal_iff first req code).1 h)
  Denied-ladder (forbidden admissible h) =
      rw ((preconditions_iff first req _).1 (admissible, refl))
        (refusal->>= _ _ code ((stage_a-refusal_iff first req (rbac_of first second req) code).1 h))
  Denied-ladder (undelegated common is_agent h) =
      rw
        (
          (preconditions_iff first req _).1 (common.admissible, refl),
          (stage_a_iff req first _).1 common.permitted,
          is_agent,
        )
        (refusal->>= _ _ code ((check_profile-refusal_iff first req code).1 h))
  Denied-ladder (incapable profile common is_agent usable h) =
      rw
        (
          (preconditions_iff first req _).1 (common.admissible, refl),
          (stage_a_iff req first _).1 common.permitted,
          is_agent,
          (check_profile_iff first req profile).1 usable,
        )
        (refusal->>= _ _ code ((check_capability-refusal_iff first req profile code).1 h))

  ladder-refusal_iff :
      (((decide first second req).effect ≡ effect_deny)
        × ((decide first second req).reason_code ≡ code))
      ↔ (refusal (ladder first second req) ≡ some code)
  unfolding decide
  ladder-refusal_iff = elim (Gate-cases (ladder first second req)) [
    | inl (r, h) ↦
        let denial = (ladder-Refuses first req second).at r h in
        rw h ((λ (_, e). ap some e), (λ e. (denial.denies, cc)))
    | inr (r, h) ↦
        let passes = Cleared-effect first second req (ladder-Cleared first second req r h) in
        rw h ((λ (e, _). absurd (passes e)), (λ e. cc))
  ]

  Denied-result :
      Denied
      → ((decide first second req).effect ≡ effect_deny)
        × ((decide first second req).reason_code ≡ code)
  Denied-result d = ladder-refusal_iff.1 (Denied-ladder d)

  result-Denied :
      (decide first second req).effect ≡ effect_deny
      → (decide first second req).reason_code ≡ code
      → Denied
  result-Denied denies coded = ladder-Denied (ladder-refusal_iff.0 (denies, coded))

-- `Decide` denies a request with a reason code exactly when the first stage that refuses it does so
-- for that code: no loaded bundle, else no live actor, else no known risk; else, for an admissible
-- request, a CRITICAL action by the agent class, an external integration above MEDIUM, or a service,
-- a system or an ungranted action without approval; else, for the agent class, no profile, one that
-- is paused or disabled, or one that is not valid; else no capability for the action, or one that
-- is not valid or that moves money against the profile. A denial for that code is no more and no
-- less than a result with the code and the shape of `IsDenial`: one of the ten codes that the source
-- declares, the version of the bundle that `Decide` read (0 where none is loaded), and no field, no
-- mask and no limits.
pub decide-Denied_iff :
    (first second : CompiledBundle) (req : DecisionRequest) (code : String)
    → ((((decide first second req).effect ≡ effect_deny)
          × ((decide first second req).reason_code ≡ code))
        ↔ Denied first second req code)
      × (Denied first second req code ↔ (
          IsDenial (loaded_version first) (decide first second req)
          × ((decide first second req).reason_code ≡ code)))
decide-Denied_iff first second req code = (
  (
    λ (denies, coded). result-Denied first second req code denies coded,
    Denied-result first second req code,
  ),
  (
    λ d.
        let (denies, coded) = Denied-result first second req code d in
        (decide-IsDenial first second req denies, coded),
    λ (denial, coded). result-Denied first second req code denial.denies coded,
  ),
)
