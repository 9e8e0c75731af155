-- ===== src/Policy/Bundle/Versions.antt =====
-- go/policy/bundle.go: the versions in the cache while `Watch` polls.
use ivorycom_governance.Common.{
  ◌≡◌, refl, sym, ap, ◌⊎◌, ◌∙◌, inl, inr, true, Bool-cases, Option, none, some, List, [], ◌∷◌,
  arith,
}
use ivorycom_governance.Common.Int.{◌≤ℤ◌, ◌<ℤ◌}
use ivorycom_governance.Policy.Model.{CompiledBundle}
use ivorycom_governance.Policy.Bundle.{
  Externals, Loader, Fetched, is_current, store, reload, WatchEvent, tick, done, poll, watch,
}
use ivorycom_governance.Policy.Bundle.Cache.{
  is_current-IsNewer_iff, Delivers, HoldsAtLeast, reload-cases, reload_of_verified,
  Delivers-verified,
}

-- The cache is not worse than the given one.
abbrev IsKept : Loader → Loader → Type 0
IsKept l l' = (b : CompiledBundle) → HoldsAtLeast l b → HoldsAtLeast l' b

is_current-HoldsAtLeast :
    (cur : Option CompiledBundle) (c : CompiledBundle)
    → is_current cur c ≡ true
    → (d : CompiledBundle) × (cur ≡ some d) × (c.version ≤ℤ d.version)
unfolding is_current
is_current-HoldsAtLeast none c h = cc
is_current-HoldsAtLeast (some d) c h = (d, refl, ground arith)

store-IsKept : (l : Loader) (c : CompiledBundle) → IsKept l (store l c)
unfolding store
store-IsKept l c b (d, e, older) = elim (Bool-cases (is_current l.cur c)) [
  | inl held ↦ rw held (d, e, older)
  | inr fresh ↦
      let newer : d.version <ℤ c.version =
        (is_current-IsNewer_iff (some d) c).0 (ap (λ o. is_current o c) (sym e) ∙ fresh) in
      rw fresh (c, refl, omega arith)
]

store-HoldsAtLeast : (l : Loader) (c : CompiledBundle) → HoldsAtLeast (store l c) c
unfolding store
store-HoldsAtLeast l c = elim (Bool-cases (is_current l.cur c)) [
  | inl held ↦ rw held (is_current-HoldsAtLeast l.cur c held)
  | inr fresh ↦ rw fresh (c, refl, omega arith)
]

pub store-key : (l : Loader) (c : CompiledBundle) → (store l c).key ≡ l.key
unfolding store
store-key l c = ground arith

-- The loop gets this answer before its context ends.
pub data IsPolled (fetched : Fetched) : List WatchEvent → Type 0 where
  now : {events : List WatchEvent} → IsPolled fetched (tick fetched ∷ events)
  later :
      {other : Fetched} {events : List WatchEvent}
      → IsPolled fetched events
      → IsPolled fetched (tick other ∷ events)

module _ (x : Externals) where
  reload-IsKept : (l : Loader) (fetched : Fetched) → IsKept l (reload x l fetched).1
  reload-IsKept l fetched = elim (reload-cases x l fetched) [
    | inl (c, d, e) ↦ rw e (store-IsKept l c)
    | inr (e, refused, same) ↦ rw same (λ b h. h)
  ]

  reload-HoldsAtLeast :
      (l : Loader) (fetched : Fetched) (b : CompiledBundle)
      → Delivers x l.key fetched b
      → HoldsAtLeast (reload x l fetched).1 b
  reload-HoldsAtLeast l fetched b d =
      rw (reload_of_verified x l fetched b (Delivers-verified x l.key fetched b d))
        (store-HoldsAtLeast l b)

  pub reload-key : (l : Loader) (fetched : Fetched) → (reload x l fetched).1.key ≡ l.key
  reload-key l fetched = elim (reload-cases x l fetched) [
    | inl (c, d, e) ↦ rw e (store-key l c)
    | inr (e, refused, same) ↦ rw same refl
  ]

  poll-IsKept : (l : Loader) (events : List WatchEvent) → IsKept l (poll x l events)
  unfolding poll
  poll-IsKept l [] b h = h
  poll-IsKept l (done ∷ events) b h = h
  poll-IsKept l (tick fetched ∷ events) b h =
      poll-IsKept (reload x l fetched).1 events b (reload-IsKept l fetched b h)

  poll-HoldsAtLeast :
      {fetched : Fetched} {events : List WatchEvent} (l : Loader) (b : CompiledBundle)
      → IsPolled fetched events
      → Delivers x l.key fetched b
      → HoldsAtLeast (poll x l events) b
  unfolding poll
  poll-HoldsAtLeast {fetched} l b (now {events}) d =
      poll-IsKept (reload x l fetched).1 events b (reload-HoldsAtLeast l fetched b d)
  poll-HoldsAtLeast {fetched} l b (later {other} {events} p) d =
      poll-HoldsAtLeast (reload x l other).1 b p (rw (reload-key l other) d)

  -- Let the cache hold a bundle, or let some answer that `Watch` polls deliver one under the
  -- loader's key, whatever the other answers are. Then after `Watch` the cache holds a bundle whose
  -- version is at least that one's.
  pub watch-HoldsAtLeast :
      (l : Loader) (first fetched : Fetched) (events : List WatchEvent) (b : CompiledBundle)
      → (l.cur ≡ some b) ⊎ (IsPolled fetched (tick first ∷ events) × Delivers x l.key fetched b)
      → HoldsAtLeast (watch x l first events) b
  unfolding watch poll
  watch-HoldsAtLeast l first fetched events b (inl held) =
      poll-IsKept l (tick first ∷ events) b (b, held, omega arith)
  watch-HoldsAtLeast l first fetched events b (inr (polled, d)) = poll-HoldsAtLeast l b polled d
