-- ===== src/Policy/Service/Halt.antt =====
-- go/policy/engine.go, go/policy/bundle.go: how a tenant's switch for its agents reaches a service
-- whose loader is reloaded.
use ivorycom_governance.Common.{String, ◌≡◌, some, true}
use ivorycom_governance.Common.Int.{ℤ, ◌≤ℤ◌}
use ivorycom_governance.Policy.Model.{CompiledBundle, autonomy_for}
use ivorycom_governance.Policy.Decide.Types.{effect_deny, DecisionRequest, is_agent_class}
use ivorycom_governance.Policy.Decide.Gates.{actor_of}
use ivorycom_governance.Policy.Decide.Halt.{IsHalted, decide-deny_of_IsHalted}
use ivorycom_governance.Policy.Bundle.{Bytes, Externals, Loader, new_loader, current}
use ivorycom_governance.Policy.Bundle.Published.{IsUnforged}
use ivorycom_governance.Policy.Bundle.Concurrent.{World, quiet, Reach}
use ivorycom_governance.Policy.Service.{engine_decide, service_engine}
use ivorycom_governance.Policy.Service.Held.{HoldsSince, current-HoldsSince}

-- The tenant's agents are switched off in every published bundle from this version on.
abbrev pub IsOffSince : Externals → (ℤ → Bytes → Type 0) → String → ℤ → Type 0
IsOffSince x IsPublished tenant since =
    HoldsSince x IsPublished (λ b. IsHalted (autonomy_for b tenant)) since

-- Suppose that a signature which verifies under the key was made for a published version and body,
-- and that a tenant's agents are switched off in every published bundle from some version on. Let a
-- loader that was new, however it was reloaded, hold a bundle of that version or a later one at a
-- moment when no reload runs. Then from that moment, however many goroutines reload it, in whatever
-- order their steps come, and however they come between the two reads of `Decide`, every request by
-- an agent-class actor of that tenant is denied.
pub engine_decide-deny_of_IsOffSince :
    (x : Externals) (key : Bytes) (IsPublished : ℤ → Bytes → Type 0) (since : ℤ) (l : Loader)
    (b : CompiledBundle) (w v : World) (req : DecisionRequest)
    → IsUnforged x key IsPublished
    → IsOffSince x IsPublished req.identity.tenant_id since
    → Reach x (quiet (new_loader key)) (quiet l)
    → l.cur ≡ some b
    → since ≤ℤ b.version
    → Reach x (quiet l) w
    → Reach x w v
    → is_agent_class (actor_of req) ≡ true
    → (engine_decide service_engine w v req).effect ≡ effect_deny
unfolding engine_decide service_engine
engine_decide-deny_of_IsOffSince x key IsPublished since l b w v req unforged off loading holds late
      p q is_agent =
    decide-deny_of_IsHalted (current w.loader) (current v.loader) req is_agent (
      current-HoldsSince x key IsPublished (λ c. IsHalted (autonomy_for c req.identity.tenant_id))
        since l b w unforged off loading holds late p)
