-- ===== src/Policy/Bundle/Loop.antt =====
-- go/policy/bundle.go: `Watch` with its interval, on an endless run of events, and how it ends.
use ivorycom_governance.Common.{
  ℕ, zero, suc, ◌<◌, ◌≡◌, ◌≢◌, ◌⊎◌, inl, inr, refl, Bool-cases, List, [], ◌∷◌, arith, if◌then◌else◌,
}
use ivorycom_governance.Common.Int.{ℤ, pos, ltb_ℤ, ◌≤ℤ◌, ◌<ℤ◌}
use ivorycom_governance.Policy.Bundle.{
  Bytes, Externals, Loader, new_loader, Fetched, reload, WatchEvent, tick, done, poll, watch,
}
use ivorycom_governance.Policy.Bundle.Latest.{fetched_by, delivered, newest, IsNewest, watch-newest}

-- What is seen of `Watch` after a number of rounds, with the loader as it then is: it has returned,
-- it is still in its loop, or it has panicked.
pub data WatchEnd : Type 0 where
  returned : Loader → WatchEnd
  running : Loader → WatchEnd
  panicked : Loader → WatchEnd

-- The `for` of `Watch`, for a number of rounds; what each round selects is an event.
unfoldable pub loop : Externals → (ℕ → WatchEvent) → ℕ → Loader → WatchEnd
loop x selected zero l = running l
loop x selected (suc rounds) l = elim (selected 0) [
  | done ↦ returned l
  | tick fetched ↦ loop x (λ n. selected (suc n)) rounds (reload x l fetched).1
]

-- The whole of `Watch`: a first reload, `time.NewTicker`, which panics for an interval that is not
-- positive, and the loop.
unfoldable pub watch_for : Externals → ℤ → (ℕ → WatchEvent) → ℕ → Loader → Fetched → WatchEnd
watch_for x interval selected rounds l fetched =
    let after = (reload x l fetched).1 in
    if ltb_ℤ (pos 0) interval then loop x selected rounds after else panicked after

-- the first `n` events
abbrev first_events : ℕ → (ℕ → WatchEvent) → List WatchEvent
first_events zero selected = []
first_events (suc n) selected = selected 0 ∷ first_events n λ i. selected (suc i)

WatchEvent-cases : (e : WatchEvent) → (e ≡ done) ⊎ ((fetched : Fetched) × (e ≡ tick fetched))
WatchEvent-cases done = inl refl
WatchEvent-cases (tick fetched) = inr (fetched, refl)

-- None of the first events is the end of the context.
abbrev pub GoesOn : ℕ → (ℕ → WatchEvent) → Type 0
GoesOn rounds selected = (n : ℕ) → n < rounds → selected n ≢ done

GoesOn-suc :
    (rounds : ℕ) (selected : ℕ → WatchEvent) (fetched : Fetched)
    → selected 0 ≡ tick fetched
    → GoesOn rounds (λ n. selected (suc n))
    → GoesOn (suc rounds) selected
GoesOn-suc rounds selected fetched e h zero below = λ h'. cc
GoesOn-suc rounds selected fetched e h (suc n) below = h n (omega arith)

loop-poll :
    (x : Externals) (selected : ℕ → WatchEvent) (rounds : ℕ) (l : Loader)
    → ((n : ℕ) × (n < rounds)
        × (selected n ≡ done)
        × GoesOn n selected
        × (loop x selected rounds l ≡ returned (poll x l (first_events n selected))))
      ⊎ (GoesOn rounds selected
          × (loop x selected rounds l ≡ running (poll x l (first_events rounds selected))))
unfolding loop poll
loop-poll x selected zero l = inr ((λ n below. absurd (omega arith)), refl)
loop-poll x selected (suc rounds) l = elim (WatchEvent-cases (selected 0)) [
  | inl e ↦ inl (0, omega arith, e, (λ n below. absurd (omega arith)), rw (loop, e) refl)
  | inr (fetched, e) ↦ elim (loop-poll x (λ n. selected (suc n)) rounds (reload x l fetched).1) [
    | inl (n, below, ends, before, same) ↦
        inl (suc n, omega arith, ends, GoesOn-suc n selected fetched e before, rw (loop, e) same)
    | inr (goes_on, same) ↦ inr (GoesOn-suc rounds selected fetched e goes_on, rw (loop, e) same)
  ]
]

module _ (x : Externals) (key : Bytes) (interval : ℤ) (first : Fetched)
    (selected : ℕ → WatchEvent) where
  -- The loader's cache is the bundle of the highest version of all that the first answer and those of
  -- the first `n` events delivered, the first if there are several, and empty if there is none.
  abbrev pub HoldsNewest : ℕ → Loader → Type 0
  HoldsNewest n l =
      let bs = delivered x key (first ∷ fetched_by (first_events n selected)) in
      (l.cur ≡ newest bs) × IsNewest bs l.cur

  -- How `Watch` on a new loader is to be found after a number of rounds.
  pub data Ends (rounds : ℕ) : WatchEnd → Type 0 where
    panics : (l : Loader) → interval ≤ℤ pos 0 → HoldsNewest 0 l → Ends rounds (panicked l)
    returns :
        (n : ℕ) (l : Loader)
        → pos 0 <ℤ interval
        → n < rounds
        → selected n ≡ done
        → GoesOn n selected
        → HoldsNewest n l
        → Ends rounds (returned l)
    runs :
        (l : Loader)
        → pos 0 <ℤ interval
        → GoesOn rounds selected
        → HoldsNewest rounds l
        → Ends rounds (running l)

  -- `Watch` on a new loader, with any interval and whatever its `select` meets, ends as `Ends` says.
  -- With an interval above 0 it returns, within a number of rounds, exactly if the context ends within
  -- them, at the round in which it first does, and is in its loop otherwise; with any other it panics.
  -- The cache then holds the bundle of the highest version of all that was delivered until then, by
  -- the first reload and by every tick, the first if there are several, and nothing if there is none.
  pub watch_for-Ends :
      (rounds : ℕ) → Ends rounds (watch_for x interval selected rounds (new_loader key) first)
  unfolding watch_for watch poll
  watch_for-Ends rounds =
      let after = (reload x (new_loader key) first).1 in
      elim (Bool-cases (ltb_ℤ (pos 0) interval)) [
        | inl positive ↦ rw positive (elim (loop-poll x selected rounds after) [
          | inl (n, below, ends, before, same) ↦ rw same (
              returns n _ (ground arith) below ends before
                (watch-newest x key first (first_events n selected)))
          | inr (goes_on, same) ↦ rw same (
              runs _ (ground arith) goes_on
                (watch-newest x key first (first_events rounds selected)))
        ])
        | inr not_positive ↦
            rw not_positive (panics after (ground arith) (watch-newest x key first []))
      ]
