-- ===== src/Audit/Diff/Document.antt =====
-- go/audit/diff.go: what a reader of the document of `Diff` gets from it.
use ivorycom_governance.Common.{
  String, ◌≡◌, refl, ◌∙◌, Option, none, some, [], string_eq, arith, if◌then◌else◌,
}
use ivorycom_governance.Common.Map
use ivorycom_governance.Common.Map.{Map, lookup-insert}
use ivorycom_governance.Common.Result.{Result, ok, err, ◌>>=◌}
use ivorycom_governance.Audit.Diff.{Operand, Json, to_map, Sides, is_same, changed, diff}
use ivorycom_governance.Audit.Diff.Fields.{lookup-changed, replay, is_touched}
use ivorycom_governance.Audit.Diff.Restored.{
  HasSameEntries, IsCanonical, IsJson, no_entries, state-IsRestored, must_marshal-IsRestored,
}

-- a text that must be there
abbrev pub required : Option String → Result String String
required none = err "missing side"
required (some text) = ok text

-- A reader of a document of `Diff`: it decodes the document and then its two sides.
unfoldable pub read_sides : {A : Type 0} → Json A → String → Result String Sides
read_sides x doc = do
  m ← x.unmarshal doc
  before ← required (Map.lookup "old" m)
  old ← x.unmarshal before
  after ← required (Map.lookup "new" m)
  new ← x.unmarshal after
  ok (record { old_changed = old; new_changed = new })

abbrev both : String → String → Map String String
both old new = Map.insert "new" new (Map.insert "old" old [])

both-lookups :
    (old new : String)
    → (Map.lookup "old" (both old new) ≡ some old) × (Map.lookup "new" (both old new) ≡ some new)
unfolding Map.lookup Map.insert
both-lookups old new = (refl, refl)

both-IsCanonical :
    {A : Type 0} (x : Json A) (Canonical : String → Type 0) (old new : String)
    → Canonical old
    → Canonical new
    → IsCanonical x Canonical (both old new)
both-IsCanonical x Canonical old new c c' k v h = ground (
  arith,
  lookup-insert "new" k new (Map.insert "old" old []),
  lookup-insert "old" k old [],
  no_entries k,
)

-- `Diff` returns a document in the form of `encoding/json`, and a reader of it finds two sides there.
pub record IsRead {A : Type 0} (x : Json A) (Canonical : String → Type 0) (before after : Operand A)
    (s : Sides) : Type 0 where
  pub doc : String
  pub canonical : Canonical doc
  pub returns : diff x before after ≡ ok doc
  pub reads : read_sides x doc ≡ ok s

-- The two states differ by the two sides: a field that a side holds has, in a state, what that
-- state's side holds, or is missing there with it, and any other field is the same in both.
abbrev pub Replays : Map String String → Map String String → Sides → Type 0
Replays b a s =
    (k : String)
    → (Map.lookup k a ≡ (if is_touched k s then Map.lookup k s.new_changed else Map.lookup k b))
      × (Map.lookup k b ≡ (if is_touched k s then Map.lookup k s.old_changed else Map.lookup k a))

Replays-HasSameEntries :
    (b a : Map String String) (s : Sides)
    → HasSameEntries s.old_changed (changed b a).old_changed
    → HasSameEntries s.new_changed (changed b a).new_changed
    → Replays b a s
Replays-HasSameEntries b a s same_old same_new k =
    let (old, new) = lookup-changed b a k in
    replay (Map.lookup k b) (Map.lookup k a) _ _ (same_old k ∙ old) (same_new k ∙ new)

-- Suppose that `encoding/json` decodes what it encodes, up to the order of the fields, for values in
-- the form in which it writes them. Then for two operands that encode to objects, or are nil, `Diff`
-- returns a document, and a reader who decodes the document and its two sides gets two maps by which
-- each of the two states follows from the other.
pub diff-Replays :
    {A : Type 0} (x : Json A) (Canonical : String → Type 0) (before after : Operand A)
    (b a : Map String String)
    → IsJson x Canonical
    → to_map x before ≡ ok b
    → to_map x after ≡ ok a
    → (s : Sides) × IsRead x Canonical before after s × Replays b a s
unfolding diff read_sides
diff-Replays x Canonical before after b a json first second =
    let changes = lookup-changed b a in
    let same = λ (k : String). is_same (Map.lookup k b) (Map.lookup k a) in
    let old = state-IsRestored x Canonical json before b _ same first (λ k. (changes k).0) in
    let new = state-IsRestored x Canonical json after a _ same second (λ k. (changes k).1) in
    let whole =
      must_marshal-IsRestored x Canonical json (both old.doc new.doc)
        (both-IsCanonical x Canonical old.doc new.doc old.canonical new.canonical) in
    let (at_old, at_new) = both-lookups old.doc new.doc in
    (
      record { old_changed = old.decoded; new_changed = new.decoded },
      record {
        doc = whole.doc;
        canonical = whole.canonical;
        returns = rw (first, second, old.encodes, new.encodes) (whole.encodes);
        reads =
            rw (whole.decodes, whole.same "old" ∙ at_old, whole.same "new" ∙ at_new)
              (rw (old.decodes, new.decodes) refl);
      },
      Replays-HasSameEntries b a _ old.same new.same,
    )
