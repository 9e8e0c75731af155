-- ===== src/Policy/Fls/Order.antt =====
-- go/policy/fls.go: the order of `sort.Strings`, and the results that sorting can have.
use Prim.Native.Char.{code}
use text.Mathlib.TextEquality.{Char-path}
use ivorycom_governance.Common.{
  String, ◌≡◌, ◌≢◌, refl, sym, ap, ◌∙◌, inl, inr, Bool, true, false, ◌||◌, List, [], ◌∷◌, arith,
  All, IsDistinct, Bool-cases, ◌==◌, string_eq, nat_eq, eq_iff, any,
}
use ivorycom_governance.Policy.Fls.{string_leb, insert_sorted, sort_strings}

string_leb_total : (s t : String) → string_leb s t ≡ false → string_leb t s ≡ true
unfolding string_leb
string_leb_total String.[] t h = cc
string_leb_total (String.◌∷◌ c s) String.[] h = refl
string_leb_total (String.◌∷◌ c s) (String.◌∷◌ d t) h = ground (arith, string_leb_total s t)

string_leb_trans :
    (s t u : String) → string_leb s t ≡ true → string_leb t u ≡ true → string_leb s u ≡ true
unfolding string_leb
string_leb_trans String.[] t u h k = refl
string_leb_trans (String.◌∷◌ c s) (String.◌∷◌ d t) (String.◌∷◌ e u) h k =
    ground (arith, string_leb_trans s t u)
string_leb_trans (String.◌∷◌ c s) String.[] u h k = cc
string_leb_trans (String.◌∷◌ c s) (String.◌∷◌ d t) String.[] h k = cc

string_leb_antisymm : (s t : String) → string_leb s t ≡ true → string_leb t s ≡ true → s ≡ t
unfolding string_leb
string_leb_antisymm String.[] String.[] h k = refl
string_leb_antisymm String.[] (String.◌∷◌ d t) h k = cc
string_leb_antisymm (String.◌∷◌ c s) String.[] h k = cc
string_leb_antisymm (String.◌∷◌ c s) (String.◌∷◌ d t) h k =
    let heads : code c ≡ code d = ground arith in
    let same : c ≡ d = Char-path c d heads in
    let tails : s ≡ t = string_leb_antisymm s t (ground arith) (ground arith) in cc

-- Each member is at most those after it.
abbrev pub IsSorted : List String → Type 0
IsSorted [] = Unit
IsSorted (s ∷ ss) = All (λ t. string_leb s t ≡ true) ss × IsSorted ss

module _ {κ} (P : String → Type κ) where
  insert_sorted-All : (s : String) (ss : List String) → P s → All P ss → All P (insert_sorted s ss)
  unfolding insert_sorted
  insert_sorted-All s [] p h = (p, tt)
  insert_sorted-All s (t ∷ ts) p h = elim (Bool-cases (string_leb s t)) [
    | inl le ↦ rw le (p, h)
    | inr gt ↦ rw gt (h.0, insert_sorted-All s ts p h.1)
  ]

  sort_strings-All : (ss : List String) → All P ss → All P (sort_strings ss)
  unfolding sort_strings
  sort_strings-All [] h = tt
  sort_strings-All (s ∷ ss) h = insert_sorted-All s (sort_strings ss) h.0 (sort_strings-All ss h.1)

All-imp {κ ν} :
    {A : Type 0} (P : A → Type κ) (Q : A → Type ν) (xs : List A)
    → ((x : A) → P x → Q x)
    → All P xs
    → All Q xs
All-imp P Q [] f h = tt
All-imp P Q (x ∷ xs) f h = (f x h.0, All-imp P Q xs f h.1)

insert_sorted-IsSorted :
    (s : String) (ss : List String) → IsSorted ss → IsSorted (insert_sorted s ss)
unfolding insert_sorted
insert_sorted-IsSorted s [] h = (tt, tt)
insert_sorted-IsSorted s (t ∷ ts) h = elim (Bool-cases (string_leb s t)) [
  | inl le ↦ rw le ((le, All-imp _ _ ts (λ u k. string_leb_trans s t u le k) h.0), h)
  | inr gt ↦ rw gt (
    insert_sorted-All (λ u. string_leb t u ≡ true) s ts (string_leb_total s t gt) h.0,
    insert_sorted-IsSorted s ts h.1,
  )
]

insert_sorted-IsDistinct :
    (s : String) (ss : List String)
    → All (λ t. t ≢ s) ss
    → IsDistinct ss
    → IsDistinct (insert_sorted s ss)
unfolding insert_sorted
insert_sorted-IsDistinct s [] h d = (tt, tt)
insert_sorted-IsDistinct s (t ∷ ts) h d = elim (Bool-cases (string_leb s t)) [
  | inl le ↦ rw le (h, d)
  | inr gt ↦ rw gt (
    insert_sorted-All (λ u. u ≢ t) s ts (λ e. h.0 (sym e)) d.0,
    insert_sorted-IsDistinct s ts h.1 d.1,
  )
]

pub sort_strings-IsSorted : (ss : List String) → IsSorted (sort_strings ss)
unfolding sort_strings
sort_strings-IsSorted [] = tt
sort_strings-IsSorted (s ∷ ss) =
    insert_sorted-IsSorted s (sort_strings ss) (sort_strings-IsSorted ss)

pub sort_strings-IsDistinct : (ss : List String) → IsDistinct ss → IsDistinct (sort_strings ss)
unfolding sort_strings
sort_strings-IsDistinct [] d = tt
sort_strings-IsDistinct (s ∷ ss) d =
    insert_sorted-IsDistinct s (sort_strings ss) (sort_strings-All (λ t. t ≢ s) ss d.0)
      (sort_strings-IsDistinct ss d.1)

-- whether the list holds the name
abbrev pub holds : String → List String → Bool
holds s ss = any (λ t. t == s) ss

holds-insert_sorted :
    (x s : String) (ss : List String) → holds x (insert_sorted s ss) ≡ ((s == x) || holds x ss)
unfolding insert_sorted
holds-insert_sorted x s [] = refl
holds-insert_sorted x s (t ∷ ts) = ground (arith, holds-insert_sorted x s ts)

pub holds-sort_strings : (x : String) (ss : List String) → holds x (sort_strings ss) ≡ holds x ss
unfolding sort_strings
holds-sort_strings x [] = refl
holds-sort_strings x (s ∷ ss) =
    rw (holds-insert_sorted x s (sort_strings ss))
      (ap (λ b. (s == x) || b) (holds-sort_strings x ss))

holds-All :
    (x : String) (ss : List String) (P : String → Type 0) → holds x ss ≡ true → All P ss → P x
holds-All x [] P h a = cc
holds-All x (s ∷ ss) P h a = elim (Bool-cases (s == x)) [
  | inl same ↦ rw (← (eq_iff s x).0 same) a.0
  | inr other ↦ holds-All x ss P (rw other at h) a.1
]

not-holds : (x : String) (ss : List String) → All (λ t. t ≢ x) ss → holds x ss ≡ false
not-holds x [] a = refl
not-holds x (s ∷ ss) a = ground (arith, eq_iff s x, not-holds x ss a.1)

holds-cons_self : (x : String) (xs : List String) → holds x (x ∷ xs) ≡ true
holds-cons_self x xs = ground (arith, eq_iff x x)

string_leb_refl : (s : String) → string_leb s s ≡ true
string_leb_refl s = elim (Bool-cases (string_leb s s)) [
  | inl le ↦ le
  | inr gt ↦ string_leb_total s s gt
]

holds_tail :
    (x y z : String) (xs ys : List String)
    → x ≡ y
    → All (λ t. t ≢ x) xs
    → All (λ t. t ≢ y) ys
    → holds z (x ∷ xs) ≡ holds z (y ∷ ys)
    → holds z xs ≡ holds z ys
holds_tail x y z xs ys same fx fy h = elim (Bool-cases (x == z)) [
  | inl here ↦
      let x_is_z : x ≡ z = (eq_iff x z).0 here in
      not-holds z xs (rw x_is_z at fx) ∙ sym (not-holds z ys (rw (← same, x_is_z) at fy))
  | inr there ↦ let there' : (y == z) ≡ false = rw (← same) there in rw (there, there') at h
]

-- Two sorted lists with the same members, each once, are one list.
pub sorted_unique :
    (xs ys : List String)
    → IsSorted xs
    → IsDistinct xs
    → IsSorted ys
    → IsDistinct ys
    → ((z : String) → holds z xs ≡ holds z ys)
    → xs ≡ ys
sorted_unique [] [] sx dx sy dy h = refl
sorted_unique [] (y ∷ ys) sx dx sy dy h =
    let e : true ≡ false = sym (holds-cons_self y ys) ∙ sym (h y) in cc
sorted_unique (x ∷ xs) [] sx dx sy dy h =
    let e : true ≡ false = sym (holds-cons_self x xs) ∙ h x in cc
sorted_unique (x ∷ xs) (y ∷ ys) sx dx sy dy h =
    let le : string_leb y x ≡ true =
      holds-All x (y ∷ ys) (λ t. string_leb y t ≡ true) (sym (h x) ∙ holds-cons_self x xs)
        (string_leb_refl y, sy.0) in
    let ge : string_leb x y ≡ true =
      holds-All y (x ∷ xs) (λ t. string_leb x t ≡ true) (h y ∙ holds-cons_self y ys)
        (string_leb_refl x, sx.0) in
    let same : x ≡ y = string_leb_antisymm x y ge le in
    let tails : xs ≡ ys =
      sorted_unique xs ys sx.1 dx.1 sy.1 dy.1 (λ z. holds_tail x y z xs ys same dx.0 dy.0 (h z)) in
    cc
