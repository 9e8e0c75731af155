-- ===== src/Policy/Decide/Isolation.antt =====
-- go/policy/decide.go: the part of a bundle that a decision reads.
use ivorycom_governance.Common.{String, ◌≡◌, refl, ap, string_eq}
use ivorycom_governance.Common.Map.{lookup}
use ivorycom_governance.Policy.Model.{CompiledBundle, lookup_tenant, capability_for, autonomy_for}
use ivorycom_governance.Policy.Engine.Tenants.{SameRules, can_of_SameRules}
use ivorycom_governance.Policy.Decide.Types.{DecisionRequest}
use ivorycom_governance.Policy.Decide.Stages.{settle, ladder, decide}
use ivorycom_governance.Policy.Decide.Reads.{SameReads, ladder_with_same}

-- The two bundles have one version and hold the same for one tenant, system rules apart.
pub record SameDelegation (tenant : String) (b b' : CompiledBundle) : Type 0 where
  pub version : b.version ≡ b'.version
  pub capabilities : lookup tenant b.capabilities ≡ lookup tenant b'.capabilities
  pub autonomy : lookup tenant b.autonomy ≡ lookup tenant b'.autonomy

SameDelegation-SameReads :
    (b b' : CompiledBundle) (req : DecisionRequest)
    → SameDelegation req.identity.tenant_id b b'
    → SameReads req b b'
unfolding capability_for lookup_tenant autonomy_for
SameDelegation-SameReads b b' req same = record {
  version = same.version;
  capability = rw (same.capabilities, lookup_tenant) refl;
  autonomy = same.autonomy;
}

-- A decision reads, of its first bundle, the version and what the bundle holds for the request's
-- tenant on capabilities and autonomy; of the second, the system's rules and that tenant's. So no
-- entry of another tenant changes any decision, in any part of its result.
pub decide_isolated :
    (first first' second second' : CompiledBundle) (req : DecisionRequest)
    → SameDelegation req.identity.tenant_id first first'
    → SameRules req.identity.tenant_id second second'
    → decide first second req ≡ decide first' second' req
unfolding decide ladder
decide_isolated first first' second second' req same rules =
    rw
      (can_of_SameRules second second' req.identity req.action_verb req.object_type req.field rules)
      (ap settle
        (ladder_with_same first first' req (SameDelegation-SameReads first first' req same) _))
