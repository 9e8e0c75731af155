-- ===== src/Policy/Bundle/Tests.antt =====
-- Runs of the loader, and the theorems at them.
use ivorycom_governance.Common.{
  ℕ, zero, suc, zero, suc, ◌≡◌, ◌≢◌, ◌↔◌, ◌⊎◌, refl, some, [], ◌∷◌, nat_eq, string_eq, arith,
}
use ivorycom_governance.Common.Result.{ok, err}
use ivorycom_governance.Policy.Bundle.Loop.{
  loop, watch_for, returned, running, panicked, Ends, watch_for-Ends,
}
use ivorycom_governance.Common.Int.{pos}
use ivorycom_governance.Policy.Model.{CompiledBundle}
use ivorycom_governance.Policy.Bundle.{
  WatchEvent, new_loader, current, fetch_failed, verification_failed, reload, tick, done, watch,
}
use ivorycom_governance.Policy.Bundle.Cache.{Delivers, IsNewer, reload_iff}
use ivorycom_governance.Policy.Bundle.Race.{Reloading, begin, finish, finish-reload}
use ivorycom_governance.Policy.Bundle.Published.{reload-to_wire}
use ivorycom_governance.Policy.Bundle.Sample.{
  loader, bundle, wire, envelope, externals, key, holding, answer, trusting, trusting-Delivers,
}
use ivorycom_governance.Policy.Bundle.Latest.{fetched_by, delivered, newest, IsNewest, watch-newest}

reload_test : reload externals (holding 1) (answer 2) ≡ (ok tt, holding 2)
unfolding loader externals
reload_test = refl

not_newer_test : reload externals (holding 3) (answer 2) ≡ (ok tt, holding 3)
unfolding loader externals
not_newer_test = refl

unsigned_test : reload externals (holding 1) (answer 3) ≡ (err verification_failed, holding 1)
unfolding loader externals
unsigned_test = refl

outage_test :
    reload externals (new_loader key) (err "timeout")
    ≡ (err (fetch_failed "timeout"), new_loader key)
unfolding loader externals
outage_test = refl

current_test :
    current (watch externals (new_loader key) (err "timeout") (tick (answer 2) ∷ done ∷ []))
    ≡ bundle 2
unfolding loader externals
current_test = refl

one-ne-two : (holding 1).cur ≢ some (bundle 2)
one-ne-two h = cc

reload_iff_example :
    (((reload externals (holding 1) (answer 2)).1.cur ≡ some (bundle 2))
      ↔ (Delivers externals key (answer 2) (bundle 2) × IsNewer (some (bundle 1)) (bundle 2)))
    × (((reload externals (holding 1) (answer 2)).0 ≡ ok tt)
        ↔ ((c : CompiledBundle) × Delivers externals key (answer 2) c))
    × (((reload externals (holding 1) (answer 2)).0 ≡ ok tt)
        ⊎ ((reload externals (holding 1) (answer 2)).1 ≡ holding 1))
reload_iff_example = reload_iff externals (holding 1) (answer 2) (bundle 2) one-ne-two

reload-to_wire_example :
    ((reload externals (holding 1) (answer 2)).0 ≡ ok tt)
    × (current (reload externals (holding 1) (answer 2)).1 ≡ bundle 2)
unfolding loader externals
reload-to_wire_example =
    reload-to_wire externals (holding 1) (bundle 2) (wire 2) (2 ∷ []) (0 ∷ []) (envelope 2)
      ((refl, tt), (tt, tt), (tt, tt), (refl, tt)) refl refl refl refl refl refl (omega arith)

finish-reload_example :
    (r : Reloading) × (begin trusting (holding 1) (answer 2) ≡ ok r)
    × ((reload trusting (holding 1) (answer 3)).1.cur ≡ some (bundle 3))
    × ((finish (reload trusting (holding 1) (answer 3)).1 r).cur ≡ some (bundle 2))
finish-reload_example =
    finish-reload trusting (holding 1) (answer 2) (answer 3) (bundle 2) (bundle 3)
      (trusting-Delivers 2) (trusting-Delivers 3) (omega arith) (omega arith)

watch-newest_example :
    let bs = delivered externals key (answer 3 ∷ fetched_by (tick (answer 2) ∷ done ∷ [])) in
    let cur = (watch externals (new_loader key) (answer 3) (tick (answer 2) ∷ done ∷ [])).cur in
    (cur ≡ newest bs) × IsNewest bs cur
watch-newest_example = watch-newest externals key (answer 3) (tick (answer 2) ∷ done ∷ [])

-- an outage, the signed bundle, and then the end of the context
abbrev selected : ℕ → WatchEvent
selected zero = tick (err "timeout")
selected (suc zero) = tick (answer 2)
selected (suc (suc n)) = done

loop_test : loop externals selected 5 (holding 1) ≡ returned (holding 2)
unfolding loader externals loop
loop_test = refl

watch_for_tests :
    (watch_for externals (pos 60) selected 2 (new_loader key) (answer 1) ≡ running (holding 2))
    × (watch_for externals (pos 0) selected 2 (new_loader key) (answer 2) ≡ panicked (holding 2))
unfolding loader externals loop watch_for
watch_for_tests = (refl, refl)

watch_for-Ends_example :
    Ends externals key
      (pos 60)
      (answer 1)
      selected
      5
      (watch_for externals (pos 60) selected 5 (new_loader key) (answer 1))
watch_for-Ends_example = watch_for-Ends externals key (pos 60) (answer 1) selected 5
