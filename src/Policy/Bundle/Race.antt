-- ===== src/Policy/Bundle/Race.antt =====
-- go/policy/bundle.go: `Reload` as the two steps that other goroutines can come between: it
-- reads the cached pointer and compares, and later it stores.
use ivorycom_governance.Common.{
  ◌≡◌, refl, inl, inr, Bool, true, not, Bool-cases, Option, none, some, arith, if◌then◌else◌,
}
use ivorycom_governance.Common.Int.{◌<ℤ◌}
use ivorycom_governance.Common.Result.{Result, ok, err, ◌>>=◌, Result-cases}
use ivorycom_governance.Policy.Model.{CompiledBundle}
use ivorycom_governance.Policy.Bundle.{
  Externals, Loader, LoadError, Fetched, verified, is_current, store, reload,
}
use ivorycom_governance.Policy.Bundle.Cache.{
  Delivers, IsNewer, is_current-IsNewer_iff, reload_of_verified, Delivers-verified,
}

-- A run of `Reload` after the comparison: the bundle, and whether it will be stored.
pub record Reloading : Type 0 where
  pub bundle : CompiledBundle
  pub stores : Bool

-- up to the comparison with the pointer that is read
unfoldable pub begin : Externals → Loader → Fetched → Result LoadError Reloading
begin x l fetched = do
  bundle ← verified x l.key fetched
  ok (record { bundle = bundle; stores = not (is_current l.cur bundle) })

-- the store, into what the loader is by then
unfoldable pub finish : Loader → Reloading → Loader
finish l r = if r.stores then record l { cur = some r.bundle } else l

IsNewer-trans :
    (cur : Option CompiledBundle) (b c : CompiledBundle)
    → IsNewer cur b
    → b.version <ℤ c.version
    → IsNewer cur c
IsNewer-trans none b c h h' = tt
IsNewer-trans (some d) b c h h' = omega arith

module _ (x : Externals) where
  begin_of_Delivers :
      (l : Loader) (fetched : Fetched) (b : CompiledBundle)
      → Delivers x l.key fetched b
      → IsNewer l.cur b
      → begin x l fetched ≡ ok (record { bundle = b; stores = true })
  unfolding begin
  begin_of_Delivers l fetched b d newer =
      rw (Delivers-verified x l.key fetched b d, (is_current-IsNewer_iff l.cur b).1 newer) refl

  reload-cur_of_Delivers :
      (l : Loader) (fetched : Fetched) (b : CompiledBundle)
      → Delivers x l.key fetched b
      → IsNewer l.cur b
      → (reload x l fetched).1.cur ≡ some b
  unfolding store
  reload-cur_of_Delivers l fetched b d newer =
      rw
        (
          reload_of_verified x l fetched b (Delivers-verified x l.key fetched b d),
          (is_current-IsNewer_iff l.cur b).1 newer,
        )
        refl

  -- Let two answers deliver bundles under the loader's key, the second with the higher version, and
  -- let both versions be newer than the cache. If one `Reload` reads the pointer for the first
  -- answer, then another runs for the second answer, and then the one stores, the cache held the
  -- newer bundle in between and holds the older one at the end.
  pub finish-reload :
      (l : Loader) (slow fast : Fetched) (older newer : CompiledBundle)
      → Delivers x l.key slow older
      → Delivers x l.key fast newer
      → IsNewer l.cur older
      → older.version <ℤ newer.version
      → (r : Reloading) × (begin x l slow ≡ ok r)
        × ((reload x l fast).1.cur ≡ some newer)
        × ((finish (reload x l fast).1 r).cur ≡ some older)
  unfolding finish
  finish-reload l slow fast older newer d d' h higher = (
    record { bundle = older; stores = true },
    begin_of_Delivers l slow older d h,
    reload-cur_of_Delivers l fast newer d' (IsNewer-trans l.cur older newer h higher),
    refl,
  )

  -- Alone, the two steps are `Reload`: it returns their error, or no error and the loader that the
  -- second step leaves.
  pub begin-finish :
      (l : Loader) (fetched : Fetched)
      → reload x l fetched
        ≡ (elim (begin x l fetched) [ err e ↦ (err e, l) | ok r ↦ (ok tt, finish l r) ])
  unfolding reload store begin finish
  begin-finish l fetched = elim (Result-cases (verified x l.key fetched)) [
    | inl (b, e) ↦ elim (Bool-cases (is_current l.cur b)) [
      | inl held ↦ rw (reload, e, store, held) refl
      | inr fresh ↦ rw (reload, e, store, fresh) refl
    ]
    | inr (e, h) ↦ rw (reload, h) refl
  ]
