-- ===== src/Policy/Service/Freshness.antt =====
-- go/policy/engine.go, go/policy/bundle.go: the versions that a service decides by while its loader is
-- reloaded.
use ivorycom_governance.Common.{◌≡◌, ap, ◌∙◌, inl, inr, some, arith}
use ivorycom_governance.Common.Int.{pos, ◌≤ℤ◌, ◌<ℤ◌}
use ivorycom_governance.Policy.Model.{CompiledBundle}
use ivorycom_governance.Policy.Decide.Types.{DecisionRequest}
use ivorycom_governance.Policy.Decide.Stages.{decide}
use ivorycom_governance.Policy.Decide.Refusals.{loaded_version}
use ivorycom_governance.Policy.Decide.Clearance.{agent, other, decide-cases}
use ivorycom_governance.Policy.Bundle.{Externals, Loader, current}
use ivorycom_governance.Policy.Bundle.Cache.{HoldsAtLeast}
use ivorycom_governance.Policy.Bundle.Concurrent.{World, quiet, Reach, Reach-trans}
use ivorycom_governance.Policy.Bundle.Concurrent.Invariants.{Reach-HoldsAtLeast}
use ivorycom_governance.Policy.Service.{engine_decide, service_engine}
use ivorycom_governance.Policy.Service.Safety.{current-eq}

loaded_version-eq : (b : CompiledBundle) → pos 0 <ℤ b.version → loaded_version b ≡ b.version
loaded_version-eq b h = ground arith

-- Every result names the version of the first bundle, if that is loaded.
decide-version :
    (first second : CompiledBundle) (req : DecisionRequest)
    → pos 0 <ℤ first.version
    → (decide first second req).policy_version ≡ first.version
decide-version first second req h = elim (decide-cases first second req) [
  | inl denial ↦ denial.names_version ∙ loaded_version-eq first h
  | inr (agent profile cap _ common delegated e) ↦ ap (λ r. r.policy_version) e
  | inr (other _ common e) ↦ ap (λ r. r.policy_version) e
]

-- Let a loader hold a loaded bundle at a moment when no reload runs. However many goroutines reload
-- it from then on, in whatever order their steps come, and however they come between the two reads
-- of `Decide`: both reads find a bundle at least as new, and the result, a denial included, names a
-- version that is at least as high.
pub engine_decide-HoldsAtLeast :
    (x : Externals) (l : Loader) (b : CompiledBundle) (w v : World) (req : DecisionRequest)
    → l.cur ≡ some b
    → pos 0 <ℤ b.version
    → Reach x (quiet l) w
    → Reach x w v
    → HoldsAtLeast w.loader b
      × HoldsAtLeast v.loader b
      × (b.version ≤ℤ (engine_decide service_engine w v req).policy_version)
unfolding engine_decide service_engine
engine_decide-HoldsAtLeast x l b w v req e h p q =
    let (c, e', newer) = Reach-HoldsAtLeast x l b w e p in
    let same = current-eq w.loader c e' in
    let named : (decide (current w.loader) (current v.loader) req).policy_version ≡ c.version =
      decide-version (current w.loader) (current v.loader) req (rw same (omega arith))
      ∙ ap (λ d. d.version) same in
    ((c, e', newer), Reach-HoldsAtLeast x l b v e (Reach-trans p q), rw named newer)
