-- ===== src/Common/Codec/Keys.antt =====
-- The keys and the values of a translated map.
use ivorycom_governance.Common.{◌≡◌, inl, inr, All, [], ◌∷◌, Bool-cases, ◌==◌}
use ivorycom_governance.Common.Tests.{Comparable}
use ivorycom_governance.Common.Map.{Map, insert, HasUniqueKeys, insert-HasUniqueKeys}
use ivorycom_governance.Common.Result.{Result, ok, >>=-eq-ok}
use ivorycom_governance.Common.Codec.{translate}

module _ {ℓ} {K V : Type ℓ} ⦃c : Comparable K⦄ (P : V → Type ℓ) where
  insert-All :
      (k : K) (v : V) (m : Map K V) → P v → All (λ e. P e.1) m → All (λ e. P e.1) (insert k v m)
  unfolding insert
  insert-All k v [] p h = (p, tt)
  insert-All k v ((j, w) ∷ m) p (q, h) = elim (Bool-cases (j == k)) [
    | inl same ↦ rw same (p, h)
    | inr other ↦ rw other (q, insert-All k v m p h)
  ]

module _ {ℓ} {K V : Type ℓ} ⦃c : Comparable K⦄ (P : K → Type ℓ) where
  insert-All_keys :
      (k : K) (v : V) (m : Map K V) → P k → All (λ e. P e.0) m → All (λ e. P e.0) (insert k v m)
  unfolding insert
  insert-All_keys k v [] p h = (p, tt)
  insert-All_keys k v ((j, w) ∷ m) p (q, h) = elim (Bool-cases (j == k)) [
    | inl same ↦ rw same (p, h)
    | inr other ↦ rw other (q, insert-All_keys k v m p h)
  ]

module _ {ℓ} {E K V K' V' : Type ℓ} ⦃c : Comparable K'⦄ (key : K → Result E K')
    (value : V → Result E V') where
  -- The translation into a map with unique keys has unique keys.
  pub translate-HasUniqueKeys :
      (m : Map K V) (out w : Map K' V')
      → HasUniqueKeys out
      → translate key value m out ≡ ok w
      → HasUniqueKeys w
  unfolding translate
  translate-HasUniqueKeys [] out w u h = let same : out ≡ w = cc in rw (← same) u
  translate-HasUniqueKeys ((k, v) ∷ m) out w u h =
      let (k', _, h') = >>=-eq-ok (key k) _ h in
      let (v', _, h'') = >>=-eq-ok (value v) _ h' in
      translate-HasUniqueKeys m (insert k' v' out) w (insert-HasUniqueKeys k' v' out u) h''

  -- What every result of `value` satisfies, all values of the translation do.
  pub translate-All :
      (P : V' → Type ℓ)
      → ((v : V) (v' : V') → value v ≡ ok v' → P v')
      → (m : Map K V) (out w : Map K' V') → All (λ e. P e.1) out
      → translate key value m out ≡ ok w
      → All (λ e. P e.1) w
  unfolding translate
  translate-All P f [] out w a h = let same : out ≡ w = cc in rw (← same) a
  translate-All P f ((k, v) ∷ m) out w a h =
      let (k', _, h') = >>=-eq-ok (key k) _ h in
      let (v', valued, h'') = >>=-eq-ok (value v) _ h' in
      translate-All P f m (insert k' v' out) w (insert-All P k' v' out (f v v' valued) a) h''

  -- What every result of `key` satisfies, all keys of the translation do.
  pub translate-All_keys :
      (P : K' → Type ℓ)
      → ((k : K) (k' : K') → key k ≡ ok k' → P k')
      → (m : Map K V) (out w : Map K' V') → All (λ e. P e.0) out
      → translate key value m out ≡ ok w
      → All (λ e. P e.0) w
  unfolding translate
  translate-All_keys P f [] out w a h = let same : out ≡ w = cc in rw (← same) a
  translate-All_keys P f ((k, v) ∷ m) out w a h =
      let (k', encoded, h') = >>=-eq-ok (key k) _ h in
      let (v', _, h'') = >>=-eq-ok (value v) _ h' in
      translate-All_keys P f m (insert k' v' out) w (insert-All_keys P k' v' out (f k k' encoded) a)
        h''
