-- ===== src/Audit/Diff/Fields.antt =====
-- go/audit/diff.go: the fields that the two sides of a difference hold.
use ivorycom_governance.Common.{
  String, ◌≡◌, refl, ap, ◌∙◌, inl, inr, Bool, true, false, not, ◌&&◌, ◌||◌, Bool-cases, Option,
  none, some, [], ◌∷◌, ◌==◌, string_eq, eq_iff, arith, if◌then◌else◌,
}
use ivorycom_governance.Common.Map
use ivorycom_governance.Common.Map.{Map, lookup-insert, or_else}
use ivorycom_governance.Audit.Diff.{
  collect_keys, Sides, is_same, put, compare_key, compare_keys, changed,
}

abbrev is_some : {V : Type 0} → Option V → Bool
is_some none = false
is_some (some v) = true

abbrev has : {V : Type 0} → String → Map String V → Bool
has k m = is_some (Map.lookup k m)

has-collect_keys :
    (j : String) (m : Map String String) (keys : Map String (Unit {0}))
    → has j (collect_keys m keys) ≡ (if has j m then true else has j keys)
unfolding collect_keys Map.lookup
has-collect_keys j [] keys = refl
has-collect_keys j ((k, v) ∷ m) keys =
    ground (arith, has-collect_keys j m (Map.insert k tt keys), lookup-insert k j tt keys)

has-cons :
    {V : Type 0} (j k : String) (v : V) (m : Map String V)
    → has j ((k, v) ∷ m) ≡ (k == j || has j m)
unfolding Map.lookup
has-cons j k v m = ground arith

lookup-put :
    (k j : String) (o : Option String) (m : Map String String)
    → Map.lookup j (put k o m) ≡ (if k == j then or_else o (Map.lookup j m) else Map.lookup j m)
lookup-put k j none m = ground arith
lookup-put k j (some v) m = lookup-insert k j v m

-- a side's entry after the loop, from its entry before it
after_loop : Bool → Bool → Option String → Option String → Option String
after_loop seen same value entry = if seen && not same then or_else value entry else entry

after_loop-twice :
    (first second same : Bool) (value entry : Option String)
    → after_loop second same value (after_loop first same value entry)
      ≡ after_loop (first || second) same value entry
unfolding after_loop
after_loop-twice first second same none entry = ground arith
after_loop-twice first second same (some v) entry = ground arith

after_loop-step :
    (first second seen same : Bool) (value entry middle result : Option String)
    → result ≡ after_loop second same value middle
    → middle ≡ after_loop first same value entry
    → seen ≡ (first || second)
    → result ≡ after_loop seen same value entry
after_loop-step first second seen same value entry middle result later earlier both =
    rw (later, earlier, both) (after_loop-twice first second same value entry)

after_loop-seen :
    (o n : Option String) (seen : Bool)
    → seen ≡ (if is_some n then true else if is_some o then true else false)
    → (after_loop seen (is_same o n) o none ≡ (if is_same o n then none else o))
      × (after_loop seen (is_same o n) n none ≡ (if is_same o n then none else n))
unfolding after_loop
after_loop-seen none none seen h = rw h (refl, refl)
after_loop-seen none (some w) seen h = rw h (refl, refl)
after_loop-seen (some v) none seen h = rw h (refl, refl)
after_loop-seen (some v) (some w) seen h = rw h (ground arith)

module _ (j : String) (before after : Map String String) where
  lookup-compare_key :
      (k : String) (s : Sides)
      → let same = is_same (Map.lookup j before) (Map.lookup j after) in
        (Map.lookup j (compare_key before after k s).old_changed
          ≡ after_loop (k == j) same (Map.lookup j before) (Map.lookup j s.old_changed))
        × (Map.lookup j (compare_key before after k s).new_changed
            ≡ after_loop (k == j) same (Map.lookup j after) (Map.lookup j s.new_changed))
  unfolding compare_key after_loop
  lookup-compare_key k s =
      let old = lookup-put k j (Map.lookup k before) s.old_changed in
      let new = lookup-put k j (Map.lookup k after) s.new_changed in
      elim (Bool-cases (k == j)) [
        | inl e ↦
            let same : k ≡ j = (eq_iff k j).0 e in
            let b = ap (λ i. Map.lookup i before) same in
            let a = ap (λ i. Map.lookup i after) same in ground arith
        | inr e ↦ ground arith
      ]

  lookup-compare_keys :
      (keys : Map String (Unit {0})) (s : Sides)
      → let same = is_same (Map.lookup j before) (Map.lookup j after) in
        (Map.lookup j (compare_keys before after keys s).old_changed
          ≡ after_loop (has j keys) same (Map.lookup j before) (Map.lookup j s.old_changed))
        × (Map.lookup j (compare_keys before after keys s).new_changed
            ≡ after_loop (has j keys) same (Map.lookup j after) (Map.lookup j s.new_changed))
  unfolding compare_keys after_loop Map.lookup
  lookup-compare_keys [] s = (refl, refl)
  lookup-compare_keys ((k, u) ∷ keys) s =
      let (old, new) = lookup-compare_keys keys (compare_key before after k s) in
      let (step_old, step_new) = lookup-compare_key k s in
      let both = has-cons j k u keys in
      (
        after_loop-step _ _ _ _ _ _ _ _ old step_old both,
        after_loop-step _ _ _ _ _ _ _ _ new step_new both,
      )

-- For every field: the old side holds it with its old value, and the new side with its new value,
-- unless both states have it with the same value; then neither side holds it.
pub lookup-changed :
    (before after : Map String String) (k : String)
    → let same = is_same (Map.lookup k before) (Map.lookup k after) in
      (Map.lookup k (changed before after).old_changed
        ≡ (if same then none else Map.lookup k before))
      × (Map.lookup k (changed before after).new_changed
          ≡ (if same then none else Map.lookup k after))
unfolding changed Map.lookup
lookup-changed before after k =
    let (old, new) =
      lookup-compare_keys k before after (collect_keys after (collect_keys before []))
        (record { old_changed = []; new_changed = [] }) in
    let keys = has-collect_keys k after (collect_keys before []) in
    let first = has-collect_keys k before [] in
    let (seen_old, seen_new) =
      after_loop-seen (Map.lookup k before) (Map.lookup k after) _
        (keys ∙ ap (λ h. if has k after then true else h) first) in
    (old ∙ seen_old, new ∙ seen_new)

-- whether one of the sides holds the field
abbrev pub is_touched : String → Sides → Bool
is_touched k s = has k s.old_changed || has k s.new_changed

pub replay :
    (o n old new : Option String)
    → old ≡ (if is_same o n then none else o)
    → new ≡ (if is_same o n then none else n)
    → (n ≡ (if is_some old || is_some new then new else o))
      × (o ≡ (if is_some old || is_some new then old else n))
replay none none old new h h' = rw (h, h') (refl, refl)
replay none (some w) old new h h' = rw (h, h') (refl, refl)
replay (some v) none old new h h' = rw (h, h') (refl, refl)
replay (some v) (some w) old new h h' = rw (h, h') (ground (arith, eq_iff v w))

-- A reader of the two sides and of one state has the other state: a field that a side holds has, in
-- the other state, what that state's side holds (or is missing there with it), and any other field
-- is the same in both.
pub changed_replay :
    (before after : Map String String) (k : String)
    → let s = changed before after in
      (Map.lookup k after
        ≡ (if is_touched k s then Map.lookup k s.new_changed else Map.lookup k before))
      × (Map.lookup k before
          ≡ (if is_touched k s then Map.lookup k s.old_changed else Map.lookup k after))
changed_replay before after k =
    let (old, new) = lookup-changed before after k in
    replay (Map.lookup k before) (Map.lookup k after) _ _ old new
