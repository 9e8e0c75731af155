-- ===== src/Audit/Diff/Restored.antt =====
-- go/audit/diff.go: maps and sides that decoding restores.
use ivorycom_governance.Common.{
  String, ◌≡◌, refl, sym, ap, ◌∙◌, inl, inr, Bool, true, false, Bool-cases, Option, none, some, [],
  string_eq, arith, if◌then◌else◌,
}
use ivorycom_governance.Common.Map
use ivorycom_governance.Common.Map.{Map, lookup-insert}
use ivorycom_governance.Common.Result.{Result, ok, wrap->>=-eq-ok}
use ivorycom_governance.Audit.Diff.{
  Operand, Json, not_marshaled, is_nil, to_map, must_marshal, side,
}

abbrev pub HasSameEntries : Map String String → Map String String → Type 0
HasSameEntries m m' = (k : String) → Map.lookup k m ≡ Map.lookup k m'

module _ {A : Type 0} (x : Json A) (Canonical : String → Type 0) where
  -- Every value of the map is in the form in which `encoding/json` writes values.
  abbrev pub IsCanonical : Map String String → Type 0
  IsCanonical m = (k v : String) → Map.lookup k m ≡ some v → Canonical v

  -- The map is encoded, to a text in that form, and decoding gives a map with the same entries.
  pub record IsRestored {E : Type 0} (m : Map String String) (encoded : Result E String)
      : Type 0 where
    pub doc : String
    pub decoded : Map String String
    pub encodes : encoded ≡ ok doc
    pub canonical : Canonical doc
    pub decodes : x.unmarshal doc ≡ ok decoded
    pub same : HasSameEntries decoded m

  -- What `Diff` relies on in `encoding/json`: the fields of an encoded operand are in its form, `null`
  -- is and decodes to an empty map, and a map of values in its form is restored.
  pub record IsJson : Type 0 where
    pub fields :
        (v : Operand A) (text : String) (m : Map String String)
        → x.marshal v ≡ ok text
        → x.unmarshal text ≡ ok m
        → IsCanonical m
    pub null_canonical : Canonical "null"
    pub null : x.unmarshal "null" ≡ ok []
    pub restores : (m : Map String String) → IsCanonical m → IsRestored m (x.marshal_map m)

pub no_entries : (k : String) → Map.lookup {V = String} k [] ≡ none
unfolding Map.lookup
no_entries k = refl

-- an entry of a side is an entry of its state
entry_of_side :
    (same : Bool) (entry value : Option String) (v : String)
    → entry ≡ (if same then none else value)
    → entry ≡ some v
    → value ≡ some v
entry_of_side true entry value v h h' = cc
entry_of_side false entry value v h h' = sym h ∙ h'

no_entry_of_side :
    (same : Bool) (entry value : Option String)
    → entry ≡ (if same then none else value)
    → value ≡ none
    → entry ≡ none
no_entry_of_side true entry value h h' = h
no_entry_of_side false entry value h h' = h ∙ h'

module _ {A : Type 0} (x : Json A) (Canonical : String → Type 0) (json : IsJson x Canonical) where
  to_map-IsCanonical :
      (v : Operand A) (m : Map String String) → to_map x v ≡ ok m → IsCanonical x Canonical m
  unfolding to_map
  to_map-IsCanonical v m h k w e = elim (Bool-cases (is_nil v)) [
    | inl null ↦
        let empty : [] ≡ m = ground arith in
        let missing = ap (Map.lookup k) empty in let nothing = no_entries k in cc
    | inr present ↦
        let (text, encoded, h') = wrap->>=-eq-ok not_marshaled (x.marshal v) _ (rw present at h) in
        json.fields v text m encoded (ground arith) k w e
  ]

  pub must_marshal-IsRestored :
      (m : Map String String)
      → IsCanonical x Canonical m
      → IsRestored x Canonical m (must_marshal x m)
  unfolding must_marshal
  must_marshal-IsRestored m c =
      let r = json.restores m c in
      record {
        doc = r.doc;
        decoded = r.decoded;
        encodes = rw (r.encodes) refl;
        canonical = r.canonical;
        decodes = r.decodes;
        same = r.same;
      }

  side-IsRestored :
      (v : Operand A) (m : Map String String)
      → IsCanonical x Canonical m
      → (is_nil v ≡ true → (k : String) → Map.lookup k m ≡ none)
      → IsRestored x Canonical m (side x v m)
  unfolding side
  side-IsRestored v m c empty = elim (Bool-cases (is_nil v)) [
    | inl null ↦ rw null (record {
      doc = "null";
      decoded = [];
      encodes = refl;
      canonical = json.null_canonical;
      decodes = json.null;
      same = λ k. no_entries k ∙ sym (empty null k);
    })
    | inr present ↦ rw present (must_marshal-IsRestored m c)
  ]

  -- A side, whose entries are those of its state that the other state does not share, is restored.
  pub state-IsRestored :
      (v : Operand A) (state entries : Map String String) (same : String → Bool)
      → to_map x v ≡ ok state
      → ((k : String) → Map.lookup k entries ≡ (if same k then none else Map.lookup k state))
      → IsRestored x Canonical entries (side x v entries)
  unfolding to_map
  state-IsRestored v state entries same h kept =
      side-IsRestored v entries
        (λ k w e. to_map-IsCanonical v state h k w (entry_of_side (same k) _ _ w (kept k) e))
        (λ null k.
          no_entry_of_side (same k) _ _ (kept k)
            (let empty : [] ≡ state = ground arith in sym (ap (Map.lookup k) empty) ∙ no_entries k))
