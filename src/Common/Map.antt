-- ===== src/Common/Map.antt =====
-- Go maps: association lists that hold a key once, in the order of their first writes. A nil map
-- is the empty one, which a reader of the program cannot tell from it.
use mathlib.Core.Path.{◌≡◌, refl, sym, ◌∙◌}
use mathlib.Core.Logic.{inl, inr}
use mathlib.Core.Option.{Option, none, some}
use mathlib.Core.List.{List, [], ◌∷◌}
use native.Mathlib.Omega.{arith}
use ivorycom_governance.Common.Lists.{is_empty}
use ivorycom_governance.Common.Tests.{Comparable, ◌==◌, Bool-cases, if◌then◌else◌}

abbrev pub Map {ℓ κ} : Type ℓ → Type κ → Type (ℓ ⊔ κ)
Map K V = List (K × V)

abbrev pub or_else {ℓ} : {V : Type ℓ} → Option V → Option V → Option V
or_else (some v) o = some v
or_else none o = o

pub or_else-none {ℓ} : {V : Type ℓ} (o : Option V) → or_else o none ≡ o
or_else-none none = refl
or_else-none (some v) = refl

module _ {ℓ κ} {K : Type ℓ} {V : Type κ} ⦃e : Comparable K⦄ where
  -- `m[key] = value`
  unfoldable pub insert : K → V → Map K V → Map K V
  insert key value [] = (key, value) ∷ []
  insert key value ((k, v) ∷ rest) =
      if k == key then (key, value) ∷ rest else (k, v) ∷ insert key value rest

  -- `value, ok := m[key]`
  unfoldable pub lookup : K → Map K V → Option V
  lookup key [] = none
  lookup key ((k, v) ∷ rest) = if k == key then some v else lookup key rest

  -- `for k, v := range m { out[k] = v }`
  unfoldable pub insert_all : Map K V → Map K V → Map K V
  insert_all [] out = out
  insert_all ((k, v) ∷ m) out = insert_all m (insert k v out)

  -- No key stands twice.
  abbrev pub HasUniqueKeys : Map K V → Type κ
  HasUniqueKeys [] = Unit
  HasUniqueKeys ((k, v) ∷ m) = (lookup k m ≡ none) × HasUniqueKeys m

  -- The two maps hold the same entries, in whatever order.
  abbrev pub SameEntries : Map K V → Map K V → Type (ℓ ⊔ κ)
  SameEntries m m' = (k : K) → lookup k m ≡ lookup k m'

  pub lookup-insert :
      (key other : K) (value : V) (m : Map K V)
      → lookup other (insert key value m) ≡ (if key == other then some value else lookup other m)
  unfolding insert lookup
  lookup-insert key other value [] = refl
  lookup-insert key other value ((k, v) ∷ rest) = ground (
    arith,
    lookup-insert key other value rest,
    e.equal_iff k key,
    e.equal_iff k other,
    e.equal_iff key other,
  )

  pub insert-HasUniqueKeys :
      (k : K) (v : V) (m : Map K V) → HasUniqueKeys m → HasUniqueKeys (insert k v m)
  unfolding lookup insert
  insert-HasUniqueKeys k v [] h = (refl, tt)
  insert-HasUniqueKeys k v ((i, w) ∷ m) (h, hs) = elim (Bool-cases (i == k)) [
    | inl same ↦ rw same (rw (← (e.equal_iff i k).0 same) h, hs)
    | inr other ↦ rw other (
      (ground (arith, e.equal_iff k i, e.equal_iff i k, lookup-insert k i v m)),
      insert-HasUniqueKeys k v m hs,
    )
  ]

  pub insert_all-HasUniqueKeys :
      (m out : Map K V) → HasUniqueKeys out → HasUniqueKeys (insert_all m out)
  unfolding insert_all
  insert_all-HasUniqueKeys [] out h = h
  insert_all-HasUniqueKeys ((k, v) ∷ m) out h =
      insert_all-HasUniqueKeys m (insert k v out) (insert-HasUniqueKeys k v out h)

  pub lookup-insert_all :
      (j : K) (m out : Map K V)
      → HasUniqueKeys m
      → lookup j (insert_all m out) ≡ or_else (lookup j m) (lookup j out)
  unfolding lookup insert_all
  lookup-insert_all j [] out h = refl
  lookup-insert_all j ((k, v) ∷ m) out (h, hs) =
      ground
        (arith, e.equal_iff k j, lookup-insert k j v out, lookup-insert_all j m (insert k v out) hs)

  pub lookup-head : (k : K) (v : V) (m : Map K V) → lookup k ((k, v) ∷ m) ≡ some v
  unfolding lookup
  lookup-head k v m = let same = (e.equal_iff k k).1 refl in rw same refl

  pub is_empty-SameEntries : (m m' : Map K V) → SameEntries m m' → is_empty m ≡ is_empty m'
  unfolding lookup
  is_empty-SameEntries [] [] s = refl
  is_empty-SameEntries ((k, v) ∷ m) ((j, w) ∷ m') s = refl
  is_empty-SameEntries [] ((j, w) ∷ m') s = let h = s j ∙ lookup-head j w m' in cc
  is_empty-SameEntries ((k, v) ∷ m) [] s = let h = sym (s k) ∙ lookup-head k v m in cc
