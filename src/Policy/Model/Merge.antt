-- ===== src/Policy/Model/Merge.antt =====
-- go/policy/model.go: the conditions that `mergeRule` keeps of the two layers.
use ivorycom_governance.Common.{
  ◌≡◌, ◌≢◌, ◌↔◌, inl, inr, none, some, List, [], ◌∷◌, ◌++◌, All, All-concat_iff, IsDistinct,
  concat-IsDistinct, Option-cases, Bool-cases, ◌==◌,
}
use ivorycom_governance.Common.Map
use ivorycom_governance.Common.Map.{lookup-insert}
use ivorycom_governance.Policy.Model.{
  Condition, condition_eq, condition_beq_iff, Merged, add_condition, add_conditions,
  merge_conditions, PolicyRule, merge_rule,
}

-- `seen` holds the conditions of `merged`, which are distinct.
record Agrees (s : Merged) : Type 1 where
  fresh : (c : Condition) → Map.lookup c s.seen ≡ none → All (λ d. d ≢ c) s.merged
  present :
      (P : Condition → Type 0) (c : Condition)
      → Map.lookup c s.seen ≡ some tt
      → All P s.merged
      → P c
  distinct : IsDistinct s.merged

module _ (s : Merged) (c : Condition) where
  abbrev added : Merged
  added = record { seen = Map.insert c tt s.seen; merged = s.merged ++ c ∷ [] }

  add_condition_new : Map.lookup c s.seen ≡ none → add_condition s c ≡ added
  unfolding add_condition
  add_condition_new h = rw (h, add_condition)

  add_condition_old : {u : Unit} → Map.lookup c s.seen ≡ some u → add_condition s c ≡ s
  unfolding add_condition
  add_condition_old h = rw (h, add_condition)

  module _ (h : Agrees s) where
    add_condition-All_iff :
        (P : Condition → Type 0) → All P (add_condition s c).merged ↔ (All P s.merged × P c)
    add_condition-All_iff P = elim (Option-cases (Map.lookup c s.seen)) [
      | inl new ↦ rw (add_condition_new new) (All-concat_iff P s.merged c)
      | inr (u, old) ↦ rw (add_condition_old old) (λ a. (a, h.present P c old a), λ a. a.0)
    ]

    added-fresh : (d : Condition) → Map.lookup d added.seen ≡ none → All (λ x. x ≢ d) added.merged
    added-fresh d e = elim (Bool-cases (c == d)) [
      | inl same ↦ let e' = rw (lookup-insert, same) at e in cc
      | inr other ↦
          (All-concat_iff (λ x. x ≢ d) s.merged c).1 (
            h.fresh d (rw (lookup-insert, other) at e),
            λ same. cc ((condition_beq_iff c d).1 same),
          )
    ]

    added-present :
        (P : Condition → Type 0) (d : Condition)
        → Map.lookup d added.seen ≡ some tt
        → All P added.merged
        → P d
    added-present P d e a =
        let (before, last) = (All-concat_iff P s.merged c).0 a in
        elim (Bool-cases (c == d)) [
          | inl same ↦ rw (← (condition_beq_iff c d).0 same) last
          | inr other ↦ h.present P d (rw (lookup-insert, other) at e) before
        ]

    add_condition-Agrees : Agrees (add_condition s c)
    add_condition-Agrees = elim (Option-cases (Map.lookup c s.seen)) [
      | inl new ↦ rw (add_condition_new new) (record {
        fresh = added-fresh;
        present = added-present;
        distinct = concat-IsDistinct s.merged c h.distinct (h.fresh c new);
      })
      | inr (u, old) ↦ rw (add_condition_old old) h
    ]

add_conditions-Agrees : (s : Merged) (cs : List Condition) → Agrees s → Agrees (add_conditions s cs)
unfolding add_conditions
add_conditions-Agrees s [] h = h
add_conditions-Agrees s (c ∷ cs) h =
    add_conditions-Agrees (add_condition s c) cs (add_condition-Agrees s c h)

add_conditions-All_iff :
    (P : Condition → Type 0) (s : Merged) (cs : List Condition)
    → Agrees s
    → All P (add_conditions s cs).merged ↔ (All P s.merged × All P cs)
unfolding add_conditions
add_conditions-All_iff P s [] h = (λ a. (a, tt), λ a. a.0)
add_conditions-All_iff P s (c ∷ cs) h =
    let (to, from) = add_conditions-All_iff P (add_condition s c) cs (add_condition-Agrees s c h) in
    let (to', from') = add_condition-All_iff s c h P in
    (λ a. ((to' (to a).0).0, ((to' (to a).0).1, (to a).1)), λ a. from (from' (a.0, a.1.0), a.1.1))

abbrev nothing : Merged
nothing = record { seen = []; merged = [] }

nothing-Agrees : Agrees nothing
unfolding Map.lookup
nothing-Agrees = record { fresh = λ c e. tt; present = λ P c e a. cc; distinct = tt }

-- Whatever is asked of a condition holds of all merged ones exactly when it holds of all of the
-- system's and of all of the tenant's: merging drops no condition and adds none.
pub merge_rule-All_iff :
    (P : Condition → Type 0) (base override : PolicyRule)
    → All P (merge_rule base override).record_conditions
      ↔ (All P base.record_conditions × All P override.record_conditions)
unfolding merge_rule merge_conditions
merge_rule-All_iff P base override =
    let s = add_conditions nothing base.record_conditions in
    let (to, from) = add_conditions-All_iff P nothing base.record_conditions nothing-Agrees in
    let (to', from') =
      add_conditions-All_iff P s override.record_conditions
        (add_conditions-Agrees nothing base.record_conditions nothing-Agrees) in
    (λ a. ((to (to' a).0).1, (to' a).1), λ a. from' (from (tt, a.0), a.1))

-- No condition stands twice in a merged rule, however often it stands in the two layers.
pub merge_rule-IsDistinct :
    (base override : PolicyRule) → IsDistinct (merge_rule base override).record_conditions
unfolding merge_rule merge_conditions
merge_rule-IsDistinct base override =
    let first = add_conditions-Agrees nothing base.record_conditions nothing-Agrees in
    (add_conditions-Agrees _ override.record_conditions first).distinct
