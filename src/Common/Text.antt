-- ===== src/Common/Text.antt =====
-- The functions of Go's `strings` package that the program calls, over the code points of a text.
pub mod Replace
use Prim.Native.Nat.{ℕ, zero, suc, ◌-◌}
use Prim.Native.Char.{Char, code}
use Prim.Native.String
use Prim.Native.String.{String, [], ◌∷◌}
use Prim.Native.String.append
use mathlib.Core.Path.{◌≡◌, refl, ap, ◌∙◌}
use mathlib.Core.Option.{Option, none, some}
use mathlib.Core.Bool.{Bool, true, false, ◌&&◌, ◌||◌}
use native.Mathlib.Omega.{arith}
use mathlib.Core.List
use mathlib.Core.List.{List}
use ivorycom_governance.Common.Lists.{All}
use ivorycom_governance.Common.Tests.{leb, ◌==◌, nat_eq, string_eq, if◌then◌else◌}

-- `unicode.IsSpace`
unfoldable pub is_space : Char → Bool
is_space c =
    (leb 9 (code c) && leb (code c) 13)
    || code c == 32
    || code c == 0x85
    || code c == 0xA0
    || code c == 0x1680
    || (leb 0x2000 (code c) && leb (code c) 0x200A)
    || code c == 0x2028
    || code c == 0x2029
    || code c == 0x202F
    || code c == 0x205F
    || code c == 0x3000

unfoldable pub trim_left : String → String
unfolding is_space
trim_left [] = []
trim_left (c ∷ s) = if is_space c then trim_left s else c ∷ s

unfoldable pub trim_right : String → String
unfolding is_space
trim_right [] = []
trim_right (c ∷ s) = let rest = trim_right s in if rest == "" && is_space c then "" else c ∷ rest

-- `strings.TrimSpace`
unfoldable pub trim_space : String → String
unfolding trim_left trim_right
trim_space s = trim_right (trim_left s)

abbrev cons_head : Char → List String → List String
cons_head c List.[] = List.◌∷◌ (c ∷ []) List.[]
cons_head c (List.◌∷◌ p ps) = List.◌∷◌ (c ∷ p) ps

-- `strings.Split(s, sep)` for a separator of one character, given by its code
unfoldable pub split : ℕ → String → List String
split sep [] = List.◌∷◌ "" List.[]
split sep (c ∷ s) =
    let rest = split sep s in if code c == sep then List.◌∷◌ "" rest else cons_head c rest

-- whether `s` begins with `t`
unfoldable pub begins_with : String → String → Bool
begins_with [] s = true
begins_with (c ∷ t) [] = false
begins_with (c ∷ t) (d ∷ s) = code c == code d && begins_with t s

abbrev pub size : String → ℕ
size [] = 0
size (c ∷ s) = suc (size s)

-- the scan of `replace_all`; `skip` characters of a match are still to be dropped
replace_from : String → String → ℕ → String → String
replace_from old new skip [] = []
replace_from old new (suc skip) (c ∷ s) = replace_from old new skip s
replace_from old new zero (c ∷ s) =
    let hit = begins_with old (c ∷ s) in
    let rest = replace_from old new (if hit then size old - 1 else 0) s in
    if hit then String.◌++◌ new rest else c ∷ rest

-- `strings.ReplaceAll(s, old, new)` for an `old` that is not empty
unfoldable pub replace_all : String → String → String → String
unfolding replace_from begins_with
replace_all s old new = replace_from old new 0 s

-- `strings.Contains(s, sep)` for a text of one character, given by its code
unfoldable pub contains : String → ℕ → Bool
contains [] sep = false
contains (c ∷ s) sep = code c == sep || contains s sep

replace_all_test : replace_all "a$user_id,$user_i" "$user_id" "$user" ≡ "a$user,$user_i"
unfolding replace_all
replace_all_test = refl

split_trim_test :
    List.map trim_space (split b',' " a, b,,c ")
    ≡ List.◌∷◌ "a" (List.◌∷◌ "b" (List.◌∷◌ "" (List.◌∷◌ "c" List.[])))
unfolding trim_space split
split_trim_test = refl

-- whether `t` stands somewhere in `s`, for a `t` that is not empty
unfoldable pub mentions : String → String → Bool
unfolding begins_with
mentions t [] = false
mentions t (c ∷ s) = begins_with t (c ∷ s) || mentions t s

replace_from_absent : (old new s : String) → mentions old s ≡ false → replace_from old new 0 s ≡ s
unfolding mentions replace_from
replace_from_absent old new [] h = refl
replace_from_absent old new (c ∷ s) h = ground (arith, replace_from_absent old new s)

-- Nothing is replaced in a text that does not hold the old one.
pub replace_all_absent : (s old new : String) → mentions old s ≡ false → replace_all s old new ≡ s
unfolding replace_all
replace_all_absent s old new h = replace_from_absent old new s h

-- `strings.SplitN(s, sep, 2)`: the texts before and after the first `sep`, if there are two parts
unfoldable pub split_first : ℕ → String → Option (String × String)
split_first sep [] = none
split_first sep (c ∷ s) =
    let rest = split_first sep s in
    if code c == sep
    then some ("", s)
    else elim rest [ none ↦ none | some (before, after) ↦ some (c ∷ before, after) ]

-- The cut is at the first separator.
pub split_first-concat :
    (sep : Char) (s t : String)
    → contains s (code sep) ≡ false
    → split_first (code sep) (String.◌++◌ s (sep ∷ t)) ≡ some (s, t)
unfolding split_first contains
split_first-concat sep [] t h = rw (append.nil (sep ∷ t)) (ground arith)
split_first-concat sep (c ∷ s) t h =
    rw (append.cons c s (sep ∷ t)) (ground (arith, split_first-concat sep s t))

-- The part before the first separator is the head of the split, and the rest is split as it is.
pub split-concat :
    (sep : Char) (s t : String)
    → contains s (code sep) ≡ false
    → split (code sep) (String.◌++◌ s (sep ∷ t)) ≡ List.◌∷◌ s (split (code sep) t)
unfolding split contains
split-concat sep [] t h = rw (append.nil (sep ∷ t)) (ground arith)
split-concat sep (c ∷ s) t h = rw (append.cons c s (sep ∷ t)) (ground (arith, split-concat sep s t))

pub split_absent :
    (sep : ℕ) (s : String) → contains s sep ≡ false → split sep s ≡ List.◌∷◌ s List.[]
unfolding split contains
split_absent sep [] h = refl
split_absent sep (c ∷ s) h = ground (arith, split_absent sep s)

-- the texts with a separator between each two, `strings.Join(s, sep)` for at least one text
abbrev pub join : Char → String → List String → String
join sep s List.[] = s
join sep s (List.◌∷◌ t ts) = String.◌++◌ s (sep ∷ join sep t ts)

-- Texts without the separator are restored from their join.
pub split-join :
    (sep : Char) (s : String) (ts : List String)
    → contains s (code sep) ≡ false
    → All (λ t. contains t (code sep) ≡ false) ts
    → split (code sep) (join sep s ts) ≡ List.◌∷◌ s ts
split-join sep s List.[] h hs = split_absent (code sep) s h
split-join sep s (List.◌∷◌ t ts) h (h', hs) =
    split-concat sep s (join sep t ts) h ∙ ap (List.◌∷◌ s) (split-join sep t ts h' hs)
