-- ===== src/Policy/Service/Held.antt =====
-- go/policy/bundle.go: what `Current` returns once a loader has held a late enough bundle.
use ivorycom_governance.Common.{◌≡◌, some, arith}
use ivorycom_governance.Common.Int.{ℤ, ◌≤ℤ◌}
use ivorycom_governance.Policy.Model.{CompiledBundle}
use ivorycom_governance.Policy.Bundle.{Bytes, Externals, Loader, new_loader, current}
use ivorycom_governance.Policy.Bundle.Published.{IsUnforged, IsFrom}
use ivorycom_governance.Policy.Bundle.Concurrent.{World, quiet, Reach, Reach-trans}
use ivorycom_governance.Policy.Bundle.Concurrent.Invariants.{Reach-HoldsAtLeast, Reach-IsFrom}
use ivorycom_governance.Policy.Service.Safety.{current-eq}

-- It holds of every published bundle from this version on.
abbrev pub HoldsSince : Externals → (ℤ → Bytes → Type 0) → (CompiledBundle → Type 0) → ℤ → Type 0
HoldsSince x IsPublished P since =
    (b : CompiledBundle) → IsFrom x IsPublished b → since ≤ℤ b.version → P b

module _ (x : Externals) (key : Bytes) (IsPublished : ℤ → Bytes → Type 0)
    (P : CompiledBundle → Type 0) (since : ℤ) (l : Loader) (b : CompiledBundle) where
  pub current-HoldsSince :
      (w : World)
      → IsUnforged x key IsPublished
      → HoldsSince x IsPublished P since
      → Reach x (quiet (new_loader key)) (quiet l)
      → l.cur ≡ some b
      → since ≤ℤ b.version
      → Reach x (quiet l) w
      → P (current w.loader)
  current-HoldsSince w unforged always loading holds late p =
      let (c, found, newer) = Reach-HoldsAtLeast x l b w holds p in
      let from = Reach-IsFrom x key IsPublished unforged w c (Reach-trans loading p) found in
      rw (current-eq w.loader c found) (always c from (omega arith))
