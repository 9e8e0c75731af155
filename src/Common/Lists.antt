-- ===== src/Common/Lists.antt =====
-- Lists: length, tests and predicates over all members, membership.
use Prim.Native.Nat.{ℕ, suc}
use mathlib.Core.Bool.{Bool, true, false, ◌&&◌, ◌||◌}
use mathlib.Core.Path.{sym}
use mathlib.Core.Logic.{◌≢◌, ◌↔◌, inl, inr}
use mathlib.Core.List.Memᴰ
use mathlib.Core.List.{Memᴰ, List, [], ◌∷◌, ◌++◌}

module _ {ℓ} {A : Type ℓ} where
  abbrev pub length : List A → ℕ
  length [] = 0
  length (x ∷ xs) = suc (length xs)

  abbrev pub is_empty : List A → Bool
  is_empty [] = true
  is_empty (x ∷ xs) = false

  abbrev pub all : (A → Bool) → List A → Bool
  all p [] = true
  all p (x ∷ xs) = p x && all p xs

  abbrev pub any : (A → Bool) → List A → Bool
  any p [] = false
  any p (x ∷ xs) = p x || any p xs

module _ {ℓ κ} {A : Type ℓ} (P : A → Type κ) where
  abbrev pub All : List A → Type κ
  All [] = Unit
  All (x ∷ xs) = P x × All xs

  pub All-concat_iff : (xs : List A) (y : A) → All (xs ++ y ∷ []) ↔ (All xs × P y)
  All-concat_iff [] y = (λ h. (tt, h.0), λ h. (h.1, tt))
  All-concat_iff (x ∷ xs) y =
      let (to, from) = All-concat_iff xs y in
      (λ h. ((h.0, (to h.1).0), (to h.1).1), λ h. (h.0.0, from (h.0.1, h.1)))

module _ {ℓ} {A : Type ℓ} where
  -- No member stands twice.
  abbrev pub IsDistinct : List A → Type ℓ
  IsDistinct [] = Unit
  IsDistinct (x ∷ xs) = All (λ y. y ≢ x) xs × IsDistinct xs

  pub concat-IsDistinct :
      (xs : List A) (y : A) → IsDistinct xs → All (λ x. x ≢ y) xs → IsDistinct (xs ++ y ∷ [])
  concat-IsDistinct [] y d h = (tt, tt)
  concat-IsDistinct (x ∷ xs) y (d, ds) (h, hs) =
      ((All-concat_iff (λ z. z ≢ x) xs y).1 (d, λ e. h (sym e)), concat-IsDistinct xs y ds hs)

module _ {ℓ κ} {A : Type ℓ} {P : A → Type κ} where
  pub All-of_each : ((x : A) → P x) → (xs : List A) → All P xs
  All-of_each f [] = tt
  All-of_each f (x ∷ xs) = (f x, All-of_each f xs)

module _ {ℓ κ μ} {A : Type ℓ} {P : A → Type κ} {Q : A → Type μ} where
  pub All-mono : ((x : A) → P x → Q x) → (xs : List A) → All P xs → All Q xs
  All-mono f [] h = tt
  All-mono f (x ∷ xs) (h, hs) = (f x h, All-mono f xs hs)

pub All-Mem {ℓ κ} : {A : Type ℓ} (P : A → Type κ) (x : A) (xs : List A) → All P xs → Memᴰ x xs → P x
All-Mem P x [] h m = absurd (Memᴰ.not-nil m)
All-Mem P x (y ∷ ys) (h, hs) m = elim (Memᴰ.cases_cons m) [
  | inl same ↦ rw same h
  | inr later ↦ All-Mem P x ys hs later
]
