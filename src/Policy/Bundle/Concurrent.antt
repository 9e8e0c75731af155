-- ===== src/Policy/Bundle/Concurrent.antt =====
-- go/policy/bundle.go: any number of goroutines that reload one loader at once. Each reads the
-- pointer, and stores later; the steps of all of them come in any order.
pub mod Invariants
use ivorycom_governance.Common.{
  ◌≡◌, refl, sym, ap, ◌∙◌, inl, inr, ◌⊎◌, true, false, Bool-cases, Option, none, some, List, [],
  ◌∷◌, arith, All, not, if◌then◌else◌,
}
use ivorycom_governance.Common.Int.{ℤ, ◌≤ℤ◌, ◌<ℤ◌}
use ivorycom_governance.Common.Result.{Result, ok, err, ◌>>=◌, >>=-eq-ok, Result-cases}
use ivorycom_governance.Policy.Model.{CompiledBundle}
use ivorycom_governance.Policy.Bundle.{
  Bytes, Externals, Loader, new_loader, Fetched, verified, is_current, store, reload, WatchEvent,
  tick, done, poll, watch,
}
use ivorycom_governance.Policy.Bundle.Cache.{
  Delivers, HoldsAtLeast, verified-Delivers, reload-cases,
}
use ivorycom_governance.Policy.Bundle.Published.{IsUnforged, IsFrom, Delivers-IsFrom}
use ivorycom_governance.Policy.Bundle.Race.{Reloading, begin, finish, begin-finish}

-- the loader, and the reloads that have read the pointer and not yet stored
pub record World : Type 0 where
  pub loader : Loader
  pub pending : List Reloading

-- a loader on which no reload runs
abbrev pub quiet : Loader → World
quiet l = record { loader = l; pending = [] }

-- The second list is the first without one member.
pub data Takes (r : Reloading) : List Reloading → List Reloading → Type 0 where
  this : {rs : List Reloading} → Takes r (r ∷ rs) rs
  other : {p : Reloading} {rs rest : List Reloading} → Takes r rs rest → Takes r (p ∷ rs) (p ∷ rest)

-- One goroutine moves: it reads and compares, it returns an error, or it stores.
pub data Step (x : Externals) (w : World) : World → Type 0 where
  reads :
      (fetched : Fetched) (r : Reloading)
      → begin x w.loader fetched ≡ ok r
      → Step x w (record w { pending = r ∷ w.pending })
  stores :
      (r : Reloading) (rest : List Reloading)
      → Takes r w.pending rest
      → Step x w (record { loader = finish w.loader r; pending = rest })

pub data Reach (x : Externals) (w : World) : World → Type 0 where
  here : Reach x w w
  next : {u v : World} → Reach x w u → Step x u v → Reach x w v

pub All-Takes :
    (P : Reloading → Type 0) {r : Reloading} {rs rest : List Reloading}
    → Takes r rs rest
    → All P rs
    → P r × All P rest
All-Takes P this (p, ps) = (p, ps)
All-Takes P (other t) (p, ps) = let (q, qs) = All-Takes P t ps in (q, (p, qs))

-- What a read has found: the bundle was delivered, and it will be stored if it is newer than the
-- cache that was read.
pub begin-Delivers :
    (x : Externals) (l : Loader) (fetched : Fetched) (r : Reloading)
    → begin x l fetched ≡ ok r
    → Delivers x l.key fetched r.bundle × (r.stores ≡ not (is_current l.cur r.bundle))
unfolding begin
begin-Delivers x l fetched r h =
    let (b, e, h') = >>=-eq-ok (verified x l.key fetched) _ h in
    let same : record { bundle = b; stores = not (is_current l.cur b) } ≡ r = cc in
    rw (← same) (verified-Delivers x l.key fetched b e, refl)

pub finish-cases :
    (l : Loader) (r : Reloading)
    → ((r.stores ≡ false) × (finish l r ≡ l))
      ⊎ ((r.stores ≡ true) × (finish l r ≡ record l { cur = some r.bundle }))
unfolding finish
finish-cases l r = elim (Bool-cases r.stores) [
  | inl kept ↦ inr (kept, rw kept refl)
  | inr drops ↦ inl (drops, rw drops refl)
]

-- A reload that runs alone is two of these steps, or none where it returns an error.
pub reload-Reach :
    (x : Externals) (w : World) (fetched : Fetched)
    → Reach x w (record w { loader = (reload x w.loader fetched).1 })
reload-Reach x w fetched =
    let e = begin-finish x w.loader fetched in
    elim (Result-cases (begin x w.loader fetched)) [
      | inl (r, h) ↦ rw (e, h) (next (next here (reads fetched r h)) (stores r w.pending this))
      | inr (error, h) ↦ rw (e, h) here
    ]

pub Reach-trans : {x : Externals} {u v w : World} → Reach x u v → Reach x v w → Reach x u w
Reach-trans p here = p
Reach-trans p (next q s) = next (Reach-trans p q) s

-- So every run of `Watch` is a run of these steps.
pub poll-Reach :
    (x : Externals) (l : Loader) (events : List WatchEvent)
    → Reach x (quiet l) (quiet (poll x l events))
unfolding poll
poll-Reach x l [] = here
poll-Reach x l (done ∷ events) = here
poll-Reach x l (tick fetched ∷ events) =
    Reach-trans (reload-Reach x (quiet l) fetched) (poll-Reach x (reload x l fetched).1 events)
