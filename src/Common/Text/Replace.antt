-- ===== src/Common/Text/Replace.antt =====
-- `strings.ReplaceAll` on texts between separators that the replaced text does not hold.
use Prim.Native.Nat.{ℕ, zero, suc, ◌≤◌, ◌-◌}
use Prim.Native.Char.{Char, code}
use Prim.Native.String
use Prim.Native.String.{String, [], ◌∷◌}
use Prim.Native.String.append
use mathlib.Core.Path.{◌≡◌, refl, sym, ap, ◌∙◌}
use mathlib.Core.Logic.{◌≢◌, inl, inr}
use mathlib.Core.Bool.{true, false}
use mathlib.Core.List
use mathlib.Core.List.{List}
use native.Mathlib.Omega.{arith}
use ivorycom_governance.Common.Tests.{Bool-cases, nat_eq}
use ivorycom_governance.Common.Text.{begins_with, size, replace_from, replace_all, contains, join}

begins_with-concat :
    (sep : Char) (old s t : String)
    → contains old (code sep) ≡ false
    → begins_with old (String.◌++◌ s (sep ∷ t)) ≡ begins_with old s
unfolding begins_with contains
begins_with-concat sep [] s t h = refl
begins_with-concat sep (c ∷ old) [] t h = rw (append.nil (sep ∷ t)) (ground arith)
begins_with-concat sep (c ∷ old) (d ∷ s) t h =
    rw (append.cons d s (sep ∷ t)) (ground (arith, begins_with-concat sep old s t))

size_of_begins_with : (old s : String) → begins_with old s ≡ true → size old ≤ size s
unfolding begins_with
size_of_begins_with [] s h = omega arith
size_of_begins_with (c ∷ old) [] h = cc
size_of_begins_with (c ∷ old) (d ∷ s) h = ground (arith, size_of_begins_with old s)

begins_with-nil : (old : String) → old ≢ "" → begins_with old "" ≡ false
unfolding begins_with
begins_with-nil [] some = absurd (some refl)
begins_with-nil (c ∷ old) some = refl

append_assoc : (s t u : String) → String.◌++◌ (String.◌++◌ s t) u ≡ String.◌++◌ s (String.◌++◌ t u)
append_assoc [] t u = rw (append.nil t, append.nil (String.◌++◌ t u)) refl
append_assoc (c ∷ s) t u =
    rw (append.cons c s t, append.cons c (String.◌++◌ s t) u, append.cons c s (String.◌++◌ t u))
      (ap (λ u. c ∷ u) (append_assoc s t u))

module _ (old new : String) where
  replace_from_hit :
      (c : Char) (s : String)
      → begins_with old (c ∷ s) ≡ true
      → replace_from old new 0 (c ∷ s) ≡ String.◌++◌ new (replace_from old new (size old - 1) s)
  unfolding replace_from
  replace_from_hit c s hit = rw hit refl

  replace_from_miss :
      (c : Char) (s : String)
      → begins_with old (c ∷ s) ≡ false
      → replace_from old new 0 (c ∷ s) ≡ c ∷ replace_from old new 0 s
  unfolding replace_from
  replace_from_miss c s miss = rw miss refl

  replace_from_skip :
      (c : Char) (skip : ℕ) (s : String)
      → replace_from old new (suc skip) (c ∷ s) ≡ replace_from old new skip s
  unfolding replace_from
  replace_from_skip c skip s = refl

  replace_from-nil : (skip : ℕ) → replace_from old new skip "" ≡ ""
  unfolding replace_from
  replace_from-nil skip = refl

module _ (sep : Char) (old new t : String) (h : contains old (code sep) ≡ false)
    (some : old ≢ "") where
  replace_from-concat :
      (skip : ℕ) (s : String)
      → skip ≤ size s
      → replace_from old new skip (String.◌++◌ s (sep ∷ t))
        ≡ String.◌++◌ (replace_from old new skip s) (sep ∷ replace_from old new 0 t)
  replace_from-concat zero [] fits =
      let miss = begins_with-concat sep old "" t h ∙ begins_with-nil old some in
      rw
        (
          append.nil (sep ∷ t),
          replace_from-nil old new 0,
          append.nil (sep ∷ replace_from old new 0 t),
        )
        (replace_from_miss old new sep t (rw (append.nil (sep ∷ t)) at miss))
  replace_from-concat (suc skip) [] fits = absurd (omega arith)
  replace_from-concat (suc skip) (c ∷ s) fits =
      rw
        (
          append.cons c s (sep ∷ t),
          replace_from_skip old new c skip (String.◌++◌ s (sep ∷ t)),
          replace_from_skip old new c skip s,
        )
        (replace_from-concat skip s (omega arith))
  replace_from-concat zero (c ∷ s) fits =
      let same = begins_with-concat sep old (c ∷ s) t h in
      elim (Bool-cases (begins_with old (c ∷ s))) [
        | inl hit ↦ rw (append.cons c s (sep ∷ t)) (
            replace_from_hit old new c _ (rw (append.cons c s (sep ∷ t)) at same ∙ hit)
            ∙ ap (String.◌++◌ new) (
                replace_from-concat (size old - 1) s
                  (let long = size_of_begins_with old (c ∷ s) hit in omega arith))
            ∙ sym (append_assoc new _ _)
            ∙ ap (λ u. String.◌++◌ u (sep ∷ replace_from old new 0 t))
                (sym (replace_from_hit old new c s hit)))
        | inr miss ↦ rw (append.cons c s (sep ∷ t)) (
            replace_from_miss old new c _ (rw (append.cons c s (sep ∷ t)) at same ∙ miss)
            ∙ ap (λ u. c ∷ u) (replace_from-concat 0 s (omega arith))
            ∙ sym (append.cons c _ _)
            ∙ ap (λ u. String.◌++◌ u (sep ∷ replace_from old new 0 t))
                (sym (replace_from_miss old new c s miss)))
      ]

contains-append :
    (sep : ℕ) (s t : String)
    → contains s sep ≡ false
    → contains t sep ≡ false
    → contains (String.◌++◌ s t) sep ≡ false
unfolding contains
contains-append sep [] t h h' = rw (append.nil t) h'
contains-append sep (c ∷ s) t h h' =
    rw (append.cons c s t) (ground (arith, contains-append sep s t))

contains-cons :
    (sep : ℕ) (c : Char) (s : String)
    → contains (c ∷ s) sep ≡ false
    → (contains s sep ≡ false)
      × ((t : String) → contains t sep ≡ false → contains (c ∷ t) sep ≡ false)
unfolding contains
contains-cons sep c s h = (ground arith, λ t h'. ground arith)

module _ (sep : ℕ) (old new : String) (fresh : contains new sep ≡ false) where
  replace_from-contains :
      (skip : ℕ) (s : String)
      → contains s sep ≡ false
      → contains (replace_from old new skip s) sep ≡ false
  replace_from-contains skip [] h = rw (replace_from-nil old new skip) h
  replace_from-contains (suc skip) (c ∷ s) h =
      rw (replace_from_skip old new c skip s)
        (replace_from-contains skip s (contains-cons sep c s h).0)
  replace_from-contains zero (c ∷ s) h =
      let (later, keep) = contains-cons sep c s h in
      elim (Bool-cases (begins_with old (c ∷ s))) [
        | inl hit ↦
            rw (replace_from_hit old new c s hit)
              (contains-append sep new _ fresh (replace_from-contains (size old - 1) s later))
        | inr miss ↦
            rw (replace_from_miss old new c s miss) (keep _ (replace_from-contains 0 s later))
      ]

  -- A character that neither the text nor the new text holds is not in the result.
  pub replace_all-contains :
      (s : String) → contains s sep ≡ false → contains (replace_all s old new) sep ≡ false
  unfolding replace_all
  replace_all-contains s h = replace_from-contains 0 s h

-- Texts between separators are replaced one by one.
pub replace_all-join :
    (sep : Char) (old new s : String) (ts : List String)
    → contains old (code sep) ≡ false
    → old ≢ ""
    → replace_all (join sep s ts) old new
      ≡ join sep (replace_all s old new) (List.map (λ t. replace_all t old new) ts)
unfolding replace_all
replace_all-join sep old new s List.[] h some = refl
replace_all-join sep old new s (List.◌∷◌ t ts) h some =
    replace_from-concat sep old new (join sep t ts) h some 0 s (omega arith)
    ∙ ap (λ u. String.◌++◌ (replace_all s old new) (sep ∷ u))
        (replace_all-join sep old new t ts h some)
