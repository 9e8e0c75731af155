-- ===== src/Policy/Decide/Reads.antt =====
-- go/policy/decide.go: what `Decide` reads of the bundle that it takes first.
use ivorycom_governance.Common.{ℕ, ◌≡◌, string_eq}
use ivorycom_governance.Policy.Model.{
  Decision, CompiledBundle, AutonomyProfile, capability_for, autonomy_for,
}
use ivorycom_governance.Policy.Decide.Types.{DecisionRequest, DecisionResult}
use ivorycom_governance.Policy.Decide.Stages.{
  Gate, ◌>>=◌, ◌>>◌, preconditions, stage_a, check_mode, check_profile, check_capability, finish,
}

-- The two bundles have one version, and answer the request's two lookups in the same way.
pub record SameReads (req : DecisionRequest) (b b' : CompiledBundle) : Type 0 where
  pub version : b.version ≡ b'.version
  pub capability :
      capability_for b req.identity.tenant_id req.identity.agent_id req.action
      ≡ capability_for b' req.identity.tenant_id req.identity.agent_id req.action
  pub autonomy : autonomy_for b req.identity.tenant_id ≡ autonomy_for b' req.identity.tenant_id

-- `Decide`, once the RBAC decision is known
abbrev pub ladder_with : CompiledBundle → DecisionRequest → Decision → Gate DecisionResult
ladder_with b req rbac =
    preconditions b req >>= λ risk_ord. stage_a b req risk_ord rbac >> finish b req risk_ord rbac

module _ (b b' : CompiledBundle) (req : DecisionRequest) (same : SameReads req b b') where
  preconditions_same : preconditions b req ≡ preconditions b' req
  unfolding preconditions
  preconditions_same = rw same.version

  stage_a_same : (n : ℕ) (rbac : Decision) → stage_a b req n rbac ≡ stage_a b' req n rbac
  unfolding stage_a
  stage_a_same n rbac = rw same.version

  check_profile_same : check_profile b req ≡ check_profile b' req
  unfolding check_profile check_mode
  check_profile_same = rw (same.autonomy, same.version)

  check_capability_same :
      (profile : AutonomyProfile) → check_capability b req profile ≡ check_capability b' req profile
  unfolding check_capability
  check_capability_same profile = simp (same.capability, same.version)

  finish_same : (n : ℕ) (rbac : Decision) → finish b req n rbac ≡ finish b' req n rbac
  unfolding finish
  finish_same n rbac = simp (check_profile_same, check_capability_same, same.version)

  pub ladder_with_same : (rbac : Decision) → ladder_with b req rbac ≡ ladder_with b' req rbac
  ladder_with_same rbac = simp (preconditions_same, stage_a_same, finish_same)
