-- ===== src/Policy/Service.antt =====
-- go/policy/engine.go: an engine over a getter, and the engine of a service, whose getter is the
-- `Current` of a loader. `S` is the state that the getter reads; an evaluation that calls the
-- getter twice reads it in two states, since a reload may come between.
mod Safety
mod Freshness
mod Held
mod Halt
mod Revoked
mod Watched
mod Tests
use ivorycom_governance.Common.{String}
use ivorycom_governance.Common.Map.{Map}
use ivorycom_governance.Policy.Model.{CompiledBundle, Decision, Identity}
use ivorycom_governance.Policy.Engine.{can}
use ivorycom_governance.Policy.Abac.{Value, can_record}
use ivorycom_governance.Policy.Decide.Types.{DecisionRequest, DecisionResult}
use ivorycom_governance.Policy.Decide.Stages.{decide}
use ivorycom_governance.Policy.Bundle.{current}
use ivorycom_governance.Policy.Bundle.Concurrent.{World}

pub record Engine (S : Type 0) : Type 0 where
  pub get : S → CompiledBundle

unfoldable pub new_engine : {S : Type 0} → (S → CompiledBundle) → Engine S
new_engine get = record { get = get }

module _ {S : Type 0} (e : Engine S) where
  unfoldable pub engine_can : S → Identity → String → String → String → Decision
  engine_can s id action object_type field = can (e.get s) id action object_type field

  unfoldable pub engine_can_record :
      {Other : Type 0}
      → (Other → String)
      → S
      → S
      → Identity
      → String
      → String
      → Map String (Value Other)
      → Decision
  engine_can_record sprint s s' id action object_type attributes =
      can_record sprint (e.get s) (e.get s') id action object_type attributes

  unfoldable pub engine_decide : S → S → DecisionRequest → DecisionResult
  engine_decide s s' req = decide (e.get s) (e.get s') req

-- `NewEngine(loader.Current)`
unfoldable pub service_engine : Engine World
unfolding new_engine current
service_engine = new_engine (λ w. current w.loader)
