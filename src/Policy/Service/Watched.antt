-- ===== src/Policy/Service/Watched.antt =====
-- go/policy/engine.go, go/policy/bundle.go: how a tenant's switch for its agents reaches a service by
-- the polls of `Watch`.
use ivorycom_governance.Common.{◌≡◌, inr, true, List, ◌∷◌, arith}
use ivorycom_governance.Common.Int.{ℤ, ◌≤ℤ◌}
use ivorycom_governance.Policy.Model.{CompiledBundle}
use ivorycom_governance.Policy.Decide.Types.{effect_deny, DecisionRequest, is_agent_class}
use ivorycom_governance.Policy.Decide.Gates.{actor_of}
use ivorycom_governance.Policy.Bundle.{
  Bytes, Externals, Loader, new_loader, Fetched, WatchEvent, tick, poll, watch,
}
use ivorycom_governance.Policy.Bundle.Cache.{Delivers}
use ivorycom_governance.Policy.Bundle.Published.{IsUnforged}
use ivorycom_governance.Policy.Bundle.Versions.{IsPolled, watch-HoldsAtLeast}
use ivorycom_governance.Policy.Bundle.Concurrent.{World, quiet, Reach, poll-Reach}
use ivorycom_governance.Policy.Service.{engine_decide, service_engine}
use ivorycom_governance.Policy.Service.Halt.{IsOffSince, engine_decide-deny_of_IsOffSince}

watch-Reach :
    (x : Externals) (l : Loader) (first : Fetched) (events : List WatchEvent)
    → Reach x (quiet l) (quiet (watch x l first events))
unfolding watch poll
watch-Reach x l first events = poll-Reach x l (tick first ∷ events)

-- Suppose that a signature which verifies under the key was made for a published version and body,
-- and that a tenant's agents are switched off in every published bundle from some version on. Let
-- `Watch` run on a new loader with that key, and let one of the answers that it polls before its
-- context ends deliver a bundle of that version or a later one, whatever the other answers are,
-- failures and older bundles among them. Then what `Watch` leaves denies every request by an
-- agent-class actor of that tenant, however many goroutines reload the loader from then on, in
-- whatever order their steps come, and however they come between the two reads of `Decide`.
pub watch-deny_of_IsOffSince :
    (x : Externals) (key : Bytes) (IsPublished : ℤ → Bytes → Type 0) (since : ℤ)
    (first fetched : Fetched) (events : List WatchEvent) (b : CompiledBundle) (w v : World)
    (req : DecisionRequest)
    → IsUnforged x key IsPublished
    → IsOffSince x IsPublished req.identity.tenant_id since
    → IsPolled fetched (tick first ∷ events)
    → Delivers x key fetched b
    → since ≤ℤ b.version
    → Reach x (quiet (watch x (new_loader key) first events)) w
    → Reach x w v
    → is_agent_class (actor_of req) ≡ true
    → (engine_decide service_engine w v req).effect ≡ effect_deny
unfolding new_loader
watch-deny_of_IsOffSince x key IsPublished since first fetched events b w v req unforged off polled
      delivers late p q is_agent =
    let l = new_loader key in
    let (c, holds, newer) =
      watch-HoldsAtLeast x l first fetched events b (inr (polled, delivers)) in
    engine_decide-deny_of_IsOffSince x key IsPublished since (watch x l first events) c w v req
      unforged off (watch-Reach x l first events) holds (omega arith) p q is_agent
