-- ===== src/Policy/Fls/Visible.antt =====
-- go/policy/fls.go: which fields a whole-object read lists and masks.
use ivorycom_governance.Common.{
  String, ◌≡◌, ◌≢◌, refl, sym, ap, ◌∙◌, Bool, true, false, not, ◌&&◌, Option, none, some, [], ◌∷◌,
  arith, All, IsDistinct, ◌==◌, string_eq, eq_iff, if◌then◌else◌,
}
use ivorycom_governance.Common.Map
use ivorycom_governance.Common.Map.{Map, HasUniqueKeys}
use ivorycom_governance.Policy.Model.{FieldRule, PolicyRule}
use ivorycom_governance.Policy.Fls.{
  scan_fields, visible_and_masked, decide_field, field_rule_for, decide_by_field_rule,
}
use ivorycom_governance.Policy.Fls.Order.{
  holds, holds-sort_strings, IsSorted, sort_strings-IsSorted, sort_strings-IsDistinct,
  sorted_unique,
}

-- A field is listed if its own rule, not the default, lets it be read.
abbrev pub is_listed : String → Option FieldRule → Bool
is_listed name none = false
is_listed name (some fr) = not (name == "*") && fr.read

-- Its mask is the strategy of that rule, unless it is empty.
abbrev pub mask_of : String → Option FieldRule → Option String
mask_of name none = none
mask_of name (some fr) =
    if is_listed name (some fr) && not (fr.mask_strategy == "") then some fr.mask_strategy else none

scan_fields-holds :
    (name : String) (fields : Map String FieldRule)
    → HasUniqueKeys fields
    → holds name (scan_fields fields).visible ≡ is_listed name (Map.lookup name fields)
unfolding scan_fields Map.lookup
scan_fields-holds name [] u = refl
scan_fields-holds name ((k, fr) ∷ fields) u =
    ground (arith, eq_iff k name, eq_iff k "*", eq_iff name "*", scan_fields-holds name fields u.1)

scan_fields-mask :
    (name : String) (fields : Map String FieldRule)
    → HasUniqueKeys fields
    → Map.lookup name (scan_fields fields).masked ≡ mask_of name (Map.lookup name fields)
unfolding scan_fields Map.lookup
scan_fields-mask name [] u = refl
scan_fields-mask name ((k, fr) ∷ fields) u =
    ground (arith, eq_iff k name, eq_iff k "*", eq_iff name "*", scan_fields-mask name fields u.1)

scan_fields-fresh :
    (name : String) (fields : Map String FieldRule)
    → Map.lookup name fields ≡ none
    → All (λ t. t ≢ name) (scan_fields fields).visible
unfolding scan_fields Map.lookup
scan_fields-fresh name [] h = tt
scan_fields-fresh name ((k, fr) ∷ fields) h =
    ground (arith, eq_iff k name, scan_fields-fresh name fields)

scan_fields-IsDistinct :
    (fields : Map String FieldRule) → HasUniqueKeys fields → IsDistinct (scan_fields fields).visible
unfolding scan_fields
scan_fields-IsDistinct [] u = tt
scan_fields-IsDistinct ((k, fr) ∷ fields) u =
    ground (arith, scan_fields-fresh k fields u.0, scan_fields-IsDistinct fields u.1)

visible_and_masked-holds :
    (rule : PolicyRule) (name : String)
    → HasUniqueKeys rule.fields
    → holds name (visible_and_masked rule).0 ≡ is_listed name (Map.lookup name rule.fields)
unfolding visible_and_masked
visible_and_masked-holds rule name u =
    holds-sort_strings name (scan_fields rule.fields).visible ∙ scan_fields-holds name rule.fields u

pub visible_and_masked-mask :
    (rule : PolicyRule) (name : String)
    → HasUniqueKeys rule.fields
    → Map.lookup name (visible_and_masked rule).1 ≡ mask_of name (Map.lookup name rule.fields)
unfolding visible_and_masked
visible_and_masked-mask rule name u = scan_fields-mask name rule.fields u

-- For a rule that holds each field once, a whole-object read lists exactly the fields, other than
-- "*", whose own rule lets them be read, and it masks exactly the listed fields with a strategy that
-- is not empty, by that strategy.
pub visible_and_masked_lem :
    (rule : PolicyRule) (name : String)
    → HasUniqueKeys rule.fields
    → (holds name (visible_and_masked rule).0 ≡ is_listed name (Map.lookup name rule.fields))
      × (Map.lookup name (visible_and_masked rule).1 ≡ mask_of name (Map.lookup name rule.fields))
visible_and_masked_lem rule name u =
    (visible_and_masked-holds rule name u, visible_and_masked-mask rule name u)

pub visible_and_masked-IsDistinct :
    (rule : PolicyRule) → HasUniqueKeys rule.fields → IsDistinct (visible_and_masked rule).0
unfolding visible_and_masked
visible_and_masked-IsDistinct rule u =
    sort_strings-IsDistinct (scan_fields rule.fields).visible (scan_fields-IsDistinct rule.fields u)

pub visible_and_masked-IsSorted : (rule : PolicyRule) → IsSorted (visible_and_masked rule).0
unfolding visible_and_masked
visible_and_masked-IsSorted rule = sort_strings-IsSorted (scan_fields rule.fields).visible

-- The order in which Go iterates over a map does not show: two rules whose field maps hold the same
-- entries, each field once, give the same list of visible fields.
pub visible_and_masked_unordered :
    (rule rule' : PolicyRule)
    → HasUniqueKeys rule.fields
    → HasUniqueKeys rule'.fields
    → ((name : String) → Map.lookup name rule.fields ≡ Map.lookup name rule'.fields)
    → (visible_and_masked rule).0 ≡ (visible_and_masked rule').0
visible_and_masked_unordered rule rule' u u' same =
    sorted_unique _ _ (visible_and_masked-IsSorted rule) (visible_and_masked-IsDistinct rule u)
      (visible_and_masked-IsSorted rule') (visible_and_masked-IsDistinct rule' u')
      λ name.
        visible_and_masked-holds rule name u
        ∙ ap (is_listed name) (same name)
        ∙ sym (visible_and_masked-holds rule' name u')

-- What a whole-object read lists, a read of that field alone is granted.
listed-readable :
    (rule : PolicyRule) (name : String)
    → HasUniqueKeys rule.fields
    → holds name (visible_and_masked rule).0 ≡ true
    → (decide_field rule "read" name true).allow ≡ true
unfolding decide_field decide_by_field_rule field_rule_for
listed-readable rule name u h =
    let listed = sym (visible_and_masked-holds rule name u) ∙ h in ground arith
