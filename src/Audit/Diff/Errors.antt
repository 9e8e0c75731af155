-- ===== src/Audit/Diff/Errors.antt =====
-- go/audit/diff.go: when `Diff` returns a document.
use ivorycom_governance.Common.{
  String, ◌≡◌, ◌≢◌, ◌↔◌, ◌⊎◌, inl, inr, refl, true, Bool-cases, [], ◌==◌, string_eq, eq_iff, arith,
}
use ivorycom_governance.Common.Map.{Map}
use ivorycom_governance.Common.Result.{ok, >>=-eq-ok, wrap->>=-eq-ok}
use ivorycom_governance.Common.Codec.{Succeeds}
use ivorycom_governance.Audit.Diff.{Operand, Json, is_nil, to_map, diff}
use ivorycom_governance.Audit.Diff.Restored.{IsJson}
use ivorycom_governance.Audit.Diff.Document.{diff-Replays}

-- The operand encodes to the document `null`, or to another one that decodes to an object.
abbrev Encodes : {A : Type 0} → Json A → Operand A → Type 0
Encodes x v =
    (x.marshal v ≡ ok "null")
    ⊎ ((text : String) × (fields : Map String String) × (x.marshal v ≡ ok text)
        × (text ≢ "null")
        × (x.unmarshal text ≡ ok fields))

-- It is nil, or encodes so.
abbrev pub IsAccepted : {A : Type 0} → Json A → Operand A → Type 0
IsAccepted x v = (is_nil v ≡ true) ⊎ Encodes x v

module _ {A : Type 0} (x : Json A) where
  decoded-Encodes :
      (v : Operand A) (text : String) (m : Map String String)
      → x.marshal v ≡ ok text
      → x.unmarshal text ≡ ok m
      → Encodes x v
  decoded-Encodes v text m encoded decoded = elim (Bool-cases (text == "null")) [
    | inl null ↦ let e = (eq_iff text "null").0 null in inl (rw e at encoded)
    | inr other ↦ inr ((text, m, encoded, ground (arith, eq_iff text "null"), decoded))
  ]

  to_map-Succeeds_iff :
      x.unmarshal "null" ≡ ok [] → (v : Operand A) → Succeeds (to_map x v) ↔ IsAccepted x v
  unfolding to_map
  to_map-Succeeds_iff null_decodes v = elim (Bool-cases (is_nil v)) [
    | inl null ↦ rw null (λ _. inl refl, λ _. ([], refl))
    | inr present ↦ rw present (
      λ (m, h).
          let (text, encoded, h') = wrap->>=-eq-ok _ (x.marshal v) _ h in
          inr (decoded-Encodes v text m encoded (ground arith)),
      λ h. elim h [
        | inl null ↦ cc
        | inr (inl null) ↦ rw (null, null_decodes) ([], refl)
        | inr (inr (text, m, encoded, _, decoded)) ↦ rw (encoded, decoded) (m, refl)
      ],
    )
  ]

  -- Suppose that `encoding/json` decodes what it encodes, up to the order of the fields, for values in
  -- the form in which it writes them, and decodes `null` to an empty map. Then `Diff` returns a
  -- document, without an error or a panic, exactly when each of its two operands is nil, or encodes to
  -- `null`, or encodes to another document that decodes to an object. So it accepts an operand that is
  -- not nil and yet encodes to `null`.
  pub diff-Succeeds_iff :
      (Canonical : String → Type 0)
      → IsJson x Canonical
      → (before after : Operand A)
      → Succeeds (diff x before after) ↔ (IsAccepted x before × IsAccepted x after)
  unfolding diff
  diff-Succeeds_iff Canonical json before after = (
    λ (doc, h).
        let (b, first, h') = >>=-eq-ok (to_map x before) _ h in
        let (a, second, h'') = >>=-eq-ok (to_map x after) _ h' in
        (
          (to_map-Succeeds_iff (json.null) before).0 (b, first),
          (to_map-Succeeds_iff (json.null) after).0 (a, second),
        ),
    λ (o, n).
        let (b, first) = (to_map-Succeeds_iff (json.null) before).1 o in
        let (a, second) = (to_map-Succeeds_iff (json.null) after).1 n in
        let (_, read, _) = diff-Replays x Canonical before after b a json first second in
        (read.doc, read.returns),
  )
