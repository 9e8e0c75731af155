-- ===== src/Policy/Service/Revoked.antt =====
-- go/policy/engine.go, go/policy/bundle.go: how the withdrawal of a role's rules reaches a service
-- whose loader is reloaded.
use ivorycom_governance.Common.{String, ◌≡◌, ◌⊎◌, inl, inr, some, true, false, Bool-cases}
use ivorycom_governance.Common.Int.{ℤ, ◌≤ℤ◌}
use ivorycom_governance.Common.Map.{Map}
use ivorycom_governance.Policy.Model.{CompiledBundle, Identity}
use ivorycom_governance.Policy.Abac.{Value}
use ivorycom_governance.Policy.Abac.Reload.{HasNoRule, can-HasNoRule, can_record-HasNoRule}
use ivorycom_governance.Policy.Decide.Types.{effect_deny, DecisionRequest}
use ivorycom_governance.Policy.Decide.Reload.{deny_of_rbac}
use ivorycom_governance.Policy.Bundle.{Bytes, Externals, Loader, new_loader, current}
use ivorycom_governance.Policy.Bundle.Published.{IsUnforged}
use ivorycom_governance.Policy.Bundle.Concurrent.{World, quiet, Reach, Reach-trans}
use ivorycom_governance.Policy.Service.{
  engine_can, engine_can_record, engine_decide, service_engine,
}
use ivorycom_governance.Policy.Service.Held.{HoldsSince, current-HoldsSince}

-- No published bundle from this version on has a rule of the system or of the caller's tenant for
-- the caller's role on the object type.
abbrev pub IsRevokedSince : Externals → (ℤ → Bytes → Type 0) → Identity → String → ℤ → Type 0
IsRevokedSince x IsPublished id object_type since =
    HoldsSince x IsPublished (λ b. HasNoRule b id object_type) since

-- Suppose that a signature which verifies under the key was made for a published version and body,
-- and that no published bundle from some version on has a rule for the role of the request's caller
-- on its object type. Let a loader that was new, however it was reloaded, hold a bundle of that
-- version or a later one at a moment when no reload runs. Then from that moment, however many
-- goroutines reload it, in whatever order their steps come, and however they come between the two
-- reads of an evaluation: `Can` denies the request's action on the object type and on any field,
-- `CanRecord` denies it on every record, and `Decide` denies the request or has a verified approval.
pub engine-deny_of_IsRevokedSince :
    {Other : Type 0} (sprint : Other → String) (x : Externals) (key : Bytes)
    (IsPublished : ℤ → Bytes → Type 0) (since : ℤ) (l : Loader) (b : CompiledBundle) (w v : World)
    (req : DecisionRequest) (field : String) (attributes : Map String (Value Other))
    → IsUnforged x key IsPublished
    → IsRevokedSince x IsPublished req.identity req.object_type since
    → Reach x (quiet (new_loader key)) (quiet l)
    → l.cur ≡ some b
    → since ≤ℤ b.version
    → Reach x (quiet l) w
    → Reach x w v
    → ((engine_can service_engine w req.identity req.action_verb req.object_type field).allow
        ≡ false)
      × ((engine_can_record service_engine sprint w v req.identity req.action_verb req.object_type
            attributes).allow
          ≡ false)
      × (((engine_decide service_engine w v req).effect ≡ effect_deny)
          ⊎ (req.approval_verified ≡ true))
unfolding engine_can engine_can_record engine_decide service_engine
engine-deny_of_IsRevokedSince sprint x key IsPublished since l b w v req field attributes unforged
      revoked loading holds late p q =
    let HasNone = λ (c : CompiledBundle). HasNoRule c req.identity req.object_type in
    let gone =
      current-HoldsSince x key IsPublished HasNone since l b w unforged revoked loading holds late
        p in
    let gone' =
      current-HoldsSince x key IsPublished HasNone since l b v unforged revoked loading holds late
        (Reach-trans p q) in
    (
      can-HasNoRule (current w.loader) req.identity req.object_type req.action_verb field gone,
      can_record-HasNoRule sprint (current w.loader) (current v.loader) req.identity req.action_verb
          req.object_type attributes gone,
      elim (Bool-cases req.approval_verified) [
        | inl approved ↦ inr approved
        | inr unapproved ↦ inl (
            deny_of_rbac (current w.loader) (current v.loader) req unapproved (
              can-HasNoRule (current v.loader) req.identity req.object_type req.action_verb
                req.field gone'))
      ],
    )
