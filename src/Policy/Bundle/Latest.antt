-- ===== src/Policy/Bundle/Latest.antt =====
-- go/policy/bundle.go: `Watch` against its specification, a maximum over what was delivered.
use mathlib.Core.List.{Memᴰ}
use ivorycom_governance.Common.{
  ◌≡◌, refl, sym, ap, ◌∙◌, inl, inr, Bool-cases, Option, none, some, List, [], ◌∷◌, arith, All,
  All-mono, if◌then◌else◌,
}
use ivorycom_governance.Common.Int.{ltb_ℤ, ◌≤ℤ◌}
use ivorycom_governance.Common.Result.{Result, ok, err, Result-cases}
use ivorycom_governance.Policy.Model.{CompiledBundle}
use ivorycom_governance.Policy.Bundle.{
  Bytes, Externals, LoadError, Loader, new_loader, Fetched, verified, is_current, store, WatchEvent,
  tick, done, poll, watch,
}
use ivorycom_governance.Policy.Bundle.Versions.{store-key}
use ivorycom_governance.Policy.Bundle.Cache.{reload_of_verified, reload_of_error}

-- the answers that are fetched before the context ends
abbrev pub fetched_by : List WatchEvent → List Fetched
fetched_by [] = []
fetched_by (done ∷ events) = []
fetched_by (tick fetched ∷ events) = fetched ∷ fetched_by events

abbrev pub keep_ok : Result LoadError CompiledBundle → List CompiledBundle → List CompiledBundle
keep_ok (ok b) bs = b ∷ bs
keep_ok (err e) bs = bs

-- the bundles that answers deliver, in their order
abbrev pub delivered : Externals → Bytes → List Fetched → List CompiledBundle
delivered x key [] = []
delivered x key (fetched ∷ rest) = keep_ok (verified x key fetched) (delivered x key rest)

-- the later one only if its version is higher
abbrev pub newer : Option CompiledBundle → Option CompiledBundle → Option CompiledBundle
newer none o = o
newer (some b) none = some b
newer (some b) (some c) = if ltb_ℤ b.version c.version then some c else some b

-- The bundle of the highest version, the first of them in the list.
abbrev pub newest : List CompiledBundle → Option CompiledBundle
newest [] = none
newest (b ∷ bs) = newer (some b) (newest bs)

newer-none : (o : Option CompiledBundle) → newer o none ≡ o
newer-none none = refl
newer-none (some b) = refl

newer_assoc : (o p q : Option CompiledBundle) → newer (newer o p) q ≡ newer o (newer p q)
newer_assoc none p q = refl
newer_assoc (some b) none q = refl
newer_assoc (some b) (some c) none = ap (λ o. o) (newer-none (newer (some b) (some c)))
newer_assoc (some b) (some c) (some d) = ground arith

-- It is one of them, and no version is above its own; there is none only where there is no bundle.
abbrev pub IsNewest : List CompiledBundle → Option CompiledBundle → Type 0
IsNewest bs none = bs ≡ []
IsNewest bs (some b) = Memᴰ b bs × All (λ c. c.version ≤ℤ b.version) bs

newer-IsNewest :
    (b : CompiledBundle) (bs : List CompiledBundle) (o : Option CompiledBundle)
    → IsNewest bs o
    → IsNewest (b ∷ bs) (newer (some b) o)
newer-IsNewest b bs none h = rw h (Memᴰ.head refl, (omega arith, tt))
newer-IsNewest b bs (some c) (m, bounds) = elim (Bool-cases (ltb_ℤ b.version c.version)) [
  | inl higher ↦ rw higher (Memᴰ.tail m, (ground arith, bounds))
  | inr lower ↦
      let least : c.version ≤ℤ b.version = ground arith in
      rw lower (Memᴰ.head refl, (omega arith, All-mono (λ d below. omega arith) bs bounds))
]

newest-IsNewest : (bs : List CompiledBundle) → IsNewest bs (newest bs)
newest-IsNewest [] = refl
newest-IsNewest (b ∷ bs) = newer-IsNewest b bs (newest bs) (newest-IsNewest bs)

newer_current :
    (cur : Option CompiledBundle) (b : CompiledBundle)
    → newer cur (some b) ≡ (if is_current cur b then cur else some b)
unfolding is_current
newer_current none b = refl
newer_current (some c) b = ground arith

store-newer : (l : Loader) (b : CompiledBundle) → (store l b).cur ≡ newer l.cur (some b)
unfolding store
store-newer l b =
    let e = newer_current l.cur b in
    elim (Bool-cases (is_current l.cur b)) [
      | inl held ↦ rw (e, held) refl
      | inr fresh ↦ rw (e, fresh) refl
    ]

module _ (x : Externals) where
  poll-newest :
      (l : Loader) (events : List WatchEvent)
      → (poll x l events).cur ≡ newer l.cur (newest (delivered x l.key (fetched_by events)))
  unfolding poll
  poll-newest l [] = sym (newer-none l.cur)
  poll-newest l (done ∷ events) = sym (newer-none l.cur)
  poll-newest l (tick fetched ∷ events) =
      let rest = delivered x l.key (fetched_by events) in
      elim (Result-cases (verified x l.key fetched)) [
        | inl (b, e) ↦
            ap (λ r. (poll x r.1 events).cur) (reload_of_verified x l fetched b e)
            ∙ poll-newest (store l b) events
            ∙ rw (store-newer l b, store-key l b) (newer_assoc l.cur (some b) (newest rest))
            ∙ ap (λ r. newer l.cur (newest (keep_ok r rest))) (sym e)
        | inr (e, h) ↦
            ap (λ r. (poll x r.1 events).cur) (reload_of_error x l fetched e h)
            ∙ poll-newest l events
            ∙ ap (λ r. newer l.cur (newest (keep_ok r rest))) (sym h)
      ]

  -- What `Watch` makes of a new loader is the specification's value on what was delivered: whatever
  -- is fetched, until the context ends, the cache then holds the bundle of the highest version of
  -- all that the answers delivered, the first if there are several, and nothing if there is none.
  pub watch-newest :
      (key : Bytes) (first : Fetched) (events : List WatchEvent)
      → let bs = delivered x key (first ∷ fetched_by events) in
        let cur = (watch x (new_loader key) first events).cur in (cur ≡ newest bs) × IsNewest bs cur
  unfolding watch new_loader poll
  watch-newest key first events =
      let e = poll-newest (new_loader key) (tick first ∷ events) in
      (e, rw e (newest-IsNewest (delivered x key (first ∷ fetched_by events))))
