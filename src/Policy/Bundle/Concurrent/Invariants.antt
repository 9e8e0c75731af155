-- ===== src/Policy/Bundle/Concurrent/Invariants.antt =====
-- go/policy/bundle.go: the cache under every interleaving of reloads.
use ivorycom_governance.Common.{
  List, ◌∷◌, ◌≡◌, refl, sym, ap, ◌∙◌, inl, inr, ◌⊎◌, false, Bool-cases, some, arith, All, not,
}
use ivorycom_governance.Common.Int.{ℤ, ◌≤ℤ◌, ◌<ℤ◌}
use ivorycom_governance.Policy.Model.{CompiledBundle}
use ivorycom_governance.Policy.Wire.RoundTrip.{IsWellFormed}
use ivorycom_governance.Policy.Wire.Decoded.{unmarshal_json-IsWellFormed}
use ivorycom_governance.Policy.Bundle.{
  WatchEvent, tick, watch, poll, Fetched, Bytes, Externals, Loader, new_loader, is_current,
}
use ivorycom_governance.Policy.Bundle.Cache.{Delivers, HoldsAtLeast, is_current-IsNewer_iff}
use ivorycom_governance.Policy.Bundle.Published.{IsUnforged, IsFrom, Delivers-IsFrom}
use ivorycom_governance.Policy.Bundle.Race.{Reloading}
use ivorycom_governance.Policy.Bundle.Concurrent.{
  poll-Reach, World, quiet, Step, reads, stores, Reach, here, next, All-Takes, begin-Delivers,
  finish-cases,
}

-- Everything cached, and everything that may still be stored, satisfies `P`.
record IsUniform (key : Bytes) (P : CompiledBundle → Type 0) (w : World) : Type 0 where
  same_key : w.loader.key ≡ key
  cached : (b : CompiledBundle) → w.loader.cur ≡ some b → P b
  waiting : All (λ r. P r.bundle) w.pending

module _ (x : Externals) (key : Bytes) (P : CompiledBundle → Type 0)
    (each : (fetched : Fetched) (b : CompiledBundle) → Delivers x key fetched b → P b) where
  Step-IsUniform : {w v : World} → Step x w v → IsUniform key P w → IsUniform key P v
  Step-IsUniform {w} (reads fetched r h) a =
      let (d, _) = begin-Delivers x w.loader fetched r h in
      record {
        same_key = a.same_key;
        cached = a.cached;
        waiting = (each fetched r.bundle (rw (← a.same_key) d), a.waiting);
      }
  Step-IsUniform {w} (stores r rest t) a =
      let (from, waiting) = All-Takes (λ r. P r.bundle) t a.waiting in
      elim (finish-cases w.loader r) [
        | inl (_, e) ↦ rw e (record { same_key = a.same_key; cached = a.cached; waiting = waiting })
        | inr (_, e) ↦ rw e (record {
          same_key = a.same_key;
          cached = λ b h. let same : r.bundle ≡ b = cc in rw (← same) from;
          waiting = waiting;
        })
      ]

  Reach-IsUniform : {w v : World} → Reach x w v → IsUniform key P w → IsUniform key P v
  Reach-IsUniform here a = a
  Reach-IsUniform (next p s) a = Step-IsUniform s (Reach-IsUniform p a)

  -- What all delivered bundles satisfy, a cached one does.
  cached-of_Reach :
      (w : World) (b : CompiledBundle)
      → Reach x (quiet (new_loader key)) w
      → w.loader.cur ≡ some b
      → P b
  unfolding new_loader
  cached-of_Reach w b p h =
      (Reach-IsUniform p (record { same_key = refl; cached = λ c e. cc; waiting = tt })).cached b h

-- Suppose that a signature which verifies under the key was made for a published version and body.
-- However many goroutines reload a new loader with that key, in whatever order their steps come: a
-- bundle that the cache holds is what some published body decodes to, and that body was published
-- under the bundle's own version.
pub Reach-IsFrom :
    (x : Externals) (key : Bytes) (IsPublished : ℤ → Bytes → Type 0)
    → IsUnforged x key IsPublished
    → (w : World) (b : CompiledBundle) → Reach x (quiet (new_loader key)) w
    → w.loader.cur ≡ some b
    → IsFrom x IsPublished b
Reach-IsFrom x key IsPublished unforged =
    cached-of_Reach x key (IsFrom x IsPublished) (Delivers-IsFrom x key IsPublished unforged)

-- A goroutine that alone runs `Watch` is a special case.
watch-IsFrom :
    (x : Externals) (key : Bytes) (IsPublished : ℤ → Bytes → Type 0)
    → IsUnforged x key IsPublished
    → (first : Fetched) (events : List WatchEvent) (b : CompiledBundle)
    → (watch x (new_loader key) first events).cur ≡ some b
    → IsFrom x IsPublished b
unfolding watch poll
watch-IsFrom x key IsPublished unforged first events b h =
    let l = new_loader key in
    Reach-IsFrom x key IsPublished unforged (quiet (watch x l first events)) b
      (poll-Reach x l (tick first ∷ events)) h

-- However many goroutines reload a new loader, in whatever order their steps come, each map of a
-- bundle that the cache holds has each of its keys once.
Reach-IsWellFormed :
    (x : Externals) (key : Bytes) (w : World) (b : CompiledBundle)
    → Reach x (quiet (new_loader key)) w
    → w.loader.cur ≡ some b
    → IsWellFormed b
Reach-IsWellFormed x key =
    cached-of_Reach x key IsWellFormed
      λ fetched b d. unmarshal_json-IsWellFormed x.decode_wire d.env.body b d.body_decodes

-- The cache is at least as new as the bundle, and stays so when a pending reload stores.
record IsFloor (b : CompiledBundle) (w : World) : Type 0 where
  holds : HoldsAtLeast w.loader b
  waiting : All (λ r. (r.stores ≡ false) ⊎ (b.version ≤ℤ r.bundle.version)) w.pending

read-floor :
    (b : CompiledBundle) (l : Loader) (r : Reloading)
    → HoldsAtLeast l b
    → r.stores ≡ not (is_current l.cur r.bundle)
    → (r.stores ≡ false) ⊎ (b.version ≤ℤ r.bundle.version)
read-floor b l r (c, e, older) h = elim (Bool-cases (is_current l.cur r.bundle)) [
  | inl held ↦ inl (h ∙ ap not held)
  | inr fresh ↦
      let higher : c.version <ℤ r.bundle.version =
        (is_current-IsNewer_iff (some c) r.bundle).0
          (ap (λ o. is_current o r.bundle) (sym e) ∙ fresh) in
      inr (omega arith)
]

module _ (x : Externals) (b : CompiledBundle) where
  Step-IsFloor : {w v : World} → Step x w v → IsFloor b w → IsFloor b v
  Step-IsFloor {w} (reads fetched r h) f =
      let (_, kept) = begin-Delivers x w.loader fetched r h in
      record { holds = f.holds; waiting = (read-floor b w.loader r f.holds kept, f.waiting) }
  Step-IsFloor {w} (stores r rest t) f =
      let (bound, waiting) =
        All-Takes (λ r. (r.stores ≡ false) ⊎ (b.version ≤ℤ r.bundle.version)) t f.waiting in
      elim (finish-cases w.loader r) [
        | inl (_, e) ↦ rw e (record { holds = f.holds; waiting = waiting })
        | inr (kept, e) ↦ rw e (elim bound [
          | inl dropped ↦ cc
          | inr older ↦ record { holds = (r.bundle, refl, older); waiting = waiting }
        ])
      ]

  Reach-IsFloor : {w v : World} → Reach x w v → IsFloor b w → IsFloor b v
  Reach-IsFloor here f = f
  Reach-IsFloor (next p s) f = Step-IsFloor s (Reach-IsFloor p f)

-- Let a loader hold a bundle at a moment when no reload runs. However many goroutines reload it from
-- then on, in whatever order their steps come, its cache never falls below that bundle's version.
pub Reach-HoldsAtLeast :
    (x : Externals) (l : Loader) (b : CompiledBundle) (w : World)
    → l.cur ≡ some b
    → Reach x (quiet l) w
    → HoldsAtLeast w.loader b
Reach-HoldsAtLeast x l b w e p =
    (Reach-IsFloor x b p (record { holds = (b, e, omega arith); waiting = tt })).holds
