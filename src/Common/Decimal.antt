-- ===== src/Common/Decimal.antt =====
-- `strconv.Itoa`, as the bytes of its text, and that it is injective.
use Prim.Native.Nat.{ℕ, zero, suc, ◌+◌, ◌-◌, ◌*◌, ◌/◌, ◌%◌, ◌≤◌, ◌<◌}
use mathlib.Core.Path.{◌≡◌, refl, sym, ap, ◌∙◌}
use mathlib.Core.Logic.{◌≢◌, inl, inr}
use mathlib.Core.List.{List, [], ◌∷◌, ◌++◌}
use native.Mathlib.Omega.{arith}
use ivorycom_governance.Common.Tests.{ltb, if◌then◌else◌, Bool-cases}
use ivorycom_governance.Common.Lists.{All, All-concat_iff}
use ivorycom_governance.Common.Int.{ℤ, pos, negsuc}

-- The decimal digits of `n`; a fuel above `n` is enough, since each round divides by 10.
digits : ℕ → ℕ → List ℕ
digits zero n = []
digits (suc fuel) n =
    let front = digits fuel (n / 10) in
    if ltb n 10 then (48 + n) ∷ [] else front ++ (48 + n % 10) ∷ []

unfoldable pub itoa : ℤ → List ℕ
unfolding digits
itoa (pos n) = digits (suc n) n
itoa (negsuc n) = 45 ∷ digits (suc (suc n)) (suc n)

-- what a text of digits stands for
value_from : ℕ → List ℕ → ℕ
value_from acc [] = acc
value_from acc (c ∷ cs) = value_from (acc * 10 + (c - 48)) cs

value_from-concat :
    (acc c : ℕ) (cs : List ℕ) → value_from acc (cs ++ c ∷ []) ≡ value_from acc cs * 10 + (c - 48)
unfolding value_from
value_from-concat acc c [] = refl
value_from-concat acc c (d ∷ cs) = value_from-concat (acc * 10 + (d - 48)) c cs

-- With enough fuel the digits stand for their number.
value_from-digits : (fuel n : ℕ) → n < fuel → value_from 0 (digits fuel n) ≡ n
unfolding digits value_from
value_from-digits zero n h = elim h [ ]
value_from-digits (suc fuel) n h = elim (Bool-cases (ltb n 10)) [
  | inl small ↦ rw small (omega arith)
  | inr large ↦ rw large (
      value_from-concat 0 (48 + n % 10) (digits fuel (n / 10))
      ∙ let rest = value_from-digits fuel (n / 10) (ground arith) in omega arith)
]

abbrev pub IsDigit : ℕ → Type 0
IsDigit c = (48 ≤ c) × (c ≤ 57)

digits-IsDigit : (fuel n : ℕ) → All IsDigit (digits fuel n)
unfolding digits
digits-IsDigit zero n = tt
digits-IsDigit (suc fuel) n = elim (Bool-cases (ltb n 10)) [
  | inl small ↦ rw small (ground arith)
  | inr large ↦ rw large (
      (All-concat_iff IsDigit (digits fuel (n / 10)) _).1
        (digits-IsDigit fuel (n / 10), ground arith))
]

digits_inj : (n m : ℕ) → digits (suc n) n ≡ digits (suc m) m → n ≡ m
digits_inj n m h =
    sym (value_from-digits (suc n) n (omega arith))
    ∙ ap (value_from 0) h
    ∙ value_from-digits (suc m) m (omega arith)

abbrev drop_first : List ℕ → List ℕ
drop_first [] = []
drop_first (c ∷ cs) = cs

-- A text of digits does not begin with a minus sign.
minus-ne-digits : (cs ds : List ℕ) → All IsDigit ds → 45 ∷ cs ≢ ds
minus-ne-digits cs [] a h = cc
minus-ne-digits cs (d ∷ ds) (b, a) h = ground arith

pub itoa_inj : (a b : ℤ) → itoa a ≡ itoa b → a ≡ b
unfolding itoa
itoa_inj (pos n) (pos m) h = ap pos (digits_inj n m h)
itoa_inj (negsuc n) (negsuc m) h =
    let e : suc n ≡ suc m = digits_inj (suc n) (suc m) (ap drop_first h) in ap negsuc (omega arith)
itoa_inj (pos n) (negsuc m) h =
    absurd (minus-ne-digits _ (digits (suc n) n) (digits-IsDigit (suc n) n) (sym h))
itoa_inj (negsuc n) (pos m) h =
    absurd (minus-ne-digits _ (digits (suc m) m) (digits-IsDigit (suc m) m) h)

digits-All_ne : (sep : ℕ) (ds : List ℕ) → 57 < sep → All IsDigit ds → All (λ c. c ≢ sep) ds
digits-All_ne sep [] h a = tt
digits-All_ne sep (d ∷ ds) h (b, a) = (omega arith, digits-All_ne sep ds h a)

-- No byte of the text is the given one, which is no digit and no minus sign.
pub itoa-All_ne : (sep : ℕ) (a : ℤ) → 57 < sep → All (λ c. c ≢ sep) (itoa a)
unfolding itoa
itoa-All_ne sep (pos n) h = digits-All_ne sep (digits (suc n) n) h (digits-IsDigit (suc n) n)
itoa-All_ne sep (negsuc n) h =
    (omega arith, digits-All_ne sep _ h (digits-IsDigit (suc (suc n)) (suc n)))
