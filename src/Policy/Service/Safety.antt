-- ===== src/Policy/Service/Safety.antt =====
-- go/policy/engine.go, go/policy/bundle.go: where the bundles come from that a service decides by.
use ivorycom_governance.Common.{◌≡◌, ◌≢◌, refl, ap, ◌∙◌, inl, inr, some, Option-cases, arith}
use ivorycom_governance.Common.Int.{ℤ, pos, ◌<ℤ◌}
use ivorycom_governance.Policy.Model.{CompiledBundle}
use ivorycom_governance.Policy.Decide.Types.{effect_deny, DecisionRequest}
use ivorycom_governance.Policy.Decide.Stages.{decide}
use ivorycom_governance.Policy.Decide.Clearance.{
  IsCleared, agent, other, decide-cases, decide-IsCleared_iff,
}
use ivorycom_governance.Policy.Bundle.{Bytes, Externals, Loader, new_loader, current}
use ivorycom_governance.Policy.Bundle.Published.{IsUnforged, IsFrom}
use ivorycom_governance.Policy.Bundle.Concurrent.{
  World, quiet, Step, reads, stores, Reach, here, next, Reach-trans, finish-cases,
}
use ivorycom_governance.Policy.Bundle.Concurrent.Invariants.{Reach-IsFrom}
use ivorycom_governance.Policy.Service.{engine_decide, service_engine}

-- A loaded bundle is replaced, never dropped.
abbrev IsLoaded : World → Type 0
IsLoaded w = (b : CompiledBundle) × (w.loader.cur ≡ some b)

Step-IsLoaded : {x : Externals} {w v : World} → Step x w v → IsLoaded w → IsLoaded v
Step-IsLoaded (reads fetched r h) loaded = loaded
Step-IsLoaded {w} (stores r rest t) loaded = elim (finish-cases w.loader r) [
  | inl (_, e) ↦ rw e loaded
  | inr (_, e) ↦ rw e (r.bundle, refl)
]

Reach-IsLoaded : {x : Externals} {w v : World} → Reach x w v → IsLoaded w → IsLoaded v
Reach-IsLoaded here loaded = loaded
Reach-IsLoaded (next p s) loaded = Step-IsLoaded s (Reach-IsLoaded p loaded)

current-IsLoaded : (w : World) → pos 0 <ℤ (current w.loader).version → IsLoaded w
unfolding current
current-IsLoaded w h = elim (Option-cases w.loader.cur) [
  | inl empty ↦ absurd (ground arith)
  | inr (b, e) ↦ (b, e)
]

pub current-eq : (l : Loader) (b : CompiledBundle) → l.cur ≡ some b → current l ≡ b
unfolding current
current-eq l b h = rw (current, h) refl

-- An answer that is no denial names the version of the first bundle.
version_of_answer :
    (first second : CompiledBundle) (req : DecisionRequest)
    → (decide first second req).effect ≢ effect_deny
    → (decide first second req).policy_version ≡ first.version
version_of_answer first second req h = elim (decide-cases first second req) [
  | inl denial ↦ absurd (h denial.denies)
  | inr (agent profile cap _ common delegated e) ↦ ap (λ r. r.policy_version) e
  | inr (other _ common e) ↦ ap (λ r. r.policy_version) e
]

-- Suppose that a signature which verifies under the key was made for a published version and body.
-- Let goroutines reload a new loader with that key, in whatever order their steps come, and let
-- `Decide` read the loader twice on the way. If it does not deny, then both reads found a bundle,
-- each is what a body decodes to that was published under that bundle's version, the two clear the
-- request, and the result names the published version of the first.
pub engine_decide-IsFrom :
    (x : Externals) (key : Bytes) (IsPublished : ℤ → Bytes → Type 0)
    → IsUnforged x key IsPublished
    → (w v : World) (req : DecisionRequest) → Reach x (quiet (new_loader key)) w
    → Reach x w v
    → (engine_decide service_engine w v req).effect ≢ effect_deny
    → (b : CompiledBundle) × (c : CompiledBundle) × IsFrom x IsPublished b
      × IsFrom x IsPublished c
      × IsCleared b c req
      × ((engine_decide service_engine w v req).policy_version ≡ b.version)
unfolding engine_decide service_engine
engine_decide-IsFrom x key IsPublished unforged w v req p q h =
    let cleared = (decide-IsCleared_iff (current w.loader) (current v.loader) req).0 h in
    let (b, e) = current-IsLoaded w cleared.common.admissible.loaded in
    let (c, e') = Reach-IsLoaded q (b, e) in
    let same = current-eq w.loader b e in
    let same' = current-eq v.loader c e' in
    (
      b,
      c,
      Reach-IsFrom x key IsPublished unforged w b p e,
      Reach-IsFrom x key IsPublished unforged v c (Reach-trans p q) e',
      rw (← same, ← same') cleared,
      version_of_answer (current w.loader) (current v.loader) req h ∙ ap (λ d. d.version) same,
    )
