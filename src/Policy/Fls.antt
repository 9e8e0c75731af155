-- ===== src/Policy/Fls.antt =====
-- go/policy/fls.go: field-level security.
pub mod Order
pub mod Visible
use Prim.Native.Char.{code}
use ivorycom_governance.Common.{
  String, Bool, true, false, ◌&&◌, ◌||◌, Option, none, some, List, [], ◌∷◌, ltb, ◌==◌, nat_eq,
  string_eq, if◌then◌else◌,
}
use ivorycom_governance.Common.Map
use ivorycom_governance.Common.Map.{Map}
use ivorycom_governance.Policy.Model.{FieldRule, PolicyRule, Decision, decided}

-- An exact entry, else the default under "*".
unfoldable pub field_rule_for : PolicyRule → String → Option FieldRule
field_rule_for rule field = elim (Map.lookup field rule.fields) [
  | some fr ↦ some fr
  | none ↦ Map.lookup "*" rule.fields
]

-- the checks of `decideField` once the field's rule is known
unfoldable pub decide_by_field_rule : FieldRule → String → Decision
decide_by_field_rule fr action =
    if action == "read"
    then (if fr.read then decided true "" else decided false "field not readable")
    else if fr.write
    then decided true ""
    else decided false "field not writable"

unfoldable pub decide_field : PolicyRule → String → String → Bool → Decision
unfolding decide_by_field_rule
decide_field rule action field grant =
    if grant
    then (elim (field_rule_for rule field) [
      | none ↦ decided true ""
      | some fr ↦ decide_by_field_rule fr action
    ])
    else decided false "action denied"

-- `sort.Strings` orders by bytes, which for UTF-8 is the order of the code points.
unfoldable pub string_leb : String → String → Bool
string_leb String.[] t = true
string_leb (String.◌∷◌ c s) String.[] = false
string_leb (String.◌∷◌ c s) (String.◌∷◌ d t) =
    ltb (code c) (code d) || (code c == code d && string_leb s t)

unfoldable pub insert_sorted : String → List String → List String
insert_sorted s [] = s ∷ []
insert_sorted s (t ∷ ts) = if string_leb s t then s ∷ t ∷ ts else t ∷ insert_sorted s ts

unfoldable pub sort_strings : List String → List String
unfolding string_leb insert_sorted
sort_strings [] = []
sort_strings (s ∷ ss) = insert_sorted s (sort_strings ss)

-- the two results of the loop of `visibleAndMasked`; `visible` is not sorted yet
pub record Seen : Type 0 where
  pub visible : List String
  pub masked : Map String String

unfoldable pub scan_fields : Map String FieldRule → Seen
scan_fields [] = record { visible = []; masked = [] }
scan_fields ((name, fr) ∷ fields) =
    let rest = scan_fields fields in
    if name == "*"
    then rest
    else if fr.read
    then record {
      visible = name ∷ rest.visible;
      masked =
          if fr.mask_strategy == "" then rest.masked else (name, fr.mask_strategy) ∷ rest.masked;
    }
    else rest

-- the sorted readable names, and the mask strategies of those that have one
unfoldable pub visible_and_masked : PolicyRule → List String × Map String String
unfolding scan_fields sort_strings
visible_and_masked rule = let s = scan_fields rule.fields in (sort_strings s.visible, s.masked)
