-- ===== src/Policy/Wire/Tests.antt =====
-- Runs of the wire format, and the theorems at a bundle.
use ivorycom_governance.Common.{
  ℕ, suc, List, length, ◌↔◌, ap, ◌∙◌, ◌≡◌, refl, true, [], ◌∷◌, string_eq,
}
use ivorycom_governance.Common.Map.{Map, lookup, insert}
use ivorycom_governance.Common.Int.{pos}
use ivorycom_governance.Common.Text.{contains, split_first}
use ivorycom_governance.Common.Result.{Result, ok, err}
use ivorycom_governance.Common.Codec.{translate}
use ivorycom_governance.Common.Codec.Reordered.{Reordered, nil, cons, swap, trans}
use ivorycom_governance.Policy.Wire.Reordered.{
  SameFields, SameMaps, SameWire, marshal_json-SameMaps_iff,
}
use ivorycom_governance.Policy.Wire.Decoded.{HasWireKeys}
use ivorycom_governance.Policy.Wire.Canonical.{to_wire-of_wire_iff}
use ivorycom_governance.Policy.Model.{
  role_obj_eq, PolicyRule, zero_rule, cap_key_eq, CompiledBundle, zero_capability, zero_profile,
}
use ivorycom_governance.Policy.Wire.{
  WireError, marshal_json, BundleWire, separator_in_role, invalid_cap_key, role_obj_key,
  parse_role_obj_key, cap_key, parse_cap_key, encode_rules, encode_caps, decode_rules, decode_caps,
  to_wire, of_wire,
}
use ivorycom_governance.Policy.Wire.RoundTrip.{of_wire-to_wire}

-- opens what the wire format calls
wire : Unit {0}
unfolding to_wire of_wire encode_rules encode_caps decode_rules decode_caps role_obj_key
    parse_role_obj_key cap_key parse_cap_key contains split_first translate lookup insert
wire = tt

abbrev reader : PolicyRule
reader = record zero_rule { read = true }

abbrev two_roles : CompiledBundle
two_roles = record {
  version = pos 7;
  system =
      (record { role = "rep"; object_type = "lead" }, reader)
      ∷ (record { role = "rep"; object_type = "deal" }, zero_rule)
      ∷ [];
  tenant = ("t1", (record { role = "rep"; object_type = "lead" }, zero_rule) ∷ []) ∷ [];
  capabilities =
      ("t1", (record { agent_role = "scout"; tool_action = "lead.read" }, zero_capability) ∷ [])
      ∷ [];
  autonomy = ("t1", zero_profile) ∷ [];
}

abbrev two_roles_wire : BundleWire
two_roles_wire = record {
  version = pos 7;
  system = ("rep\u{1f}lead", reader) ∷ ("rep\u{1f}deal", zero_rule) ∷ [];
  tenant = ("t1", ("rep\u{1f}lead", zero_rule) ∷ []) ∷ [];
  capabilities = ("t1", ("scout\u{1f}lead.read", zero_capability) ∷ []) ∷ [];
  autonomy = ("t1", zero_profile) ∷ [];
}

to_wire_test : to_wire two_roles ≡ ok two_roles_wire
unfolding wire
to_wire_test = refl

separator_test :
    role_obj_key (record { role = "a\u{1f}b"; object_type = "lead" })
    ≡ err (separator_in_role "a\u{1f}b")
unfolding wire
separator_test = refl

no_separator_test : parse_cap_key "scout" ≡ err (invalid_cap_key "scout")
unfolding wire
no_separator_test = refl

second_separator_test :
    parse_role_obj_key "a\u{1f}b\u{1f}c" ≡ ok (record { role = "a"; object_type = "b\u{1f}c" })
unfolding wire
second_separator_test = refl

of_wire-to_wire_example : of_wire two_roles_wire ≡ ok two_roles
unfolding wire
of_wire-to_wire_example =
    of_wire-to_wire two_roles two_roles_wire
      (
        (refl, (refl, tt)),
        ((refl, tt), ((refl, tt), tt)),
        ((refl, tt), ((refl, tt), tt)),
        (refl, tt),
      )
      refl

to_wire-of_wire_iff_example :
    (((b : CompiledBundle) × (of_wire two_roles_wire ≡ ok b) × (to_wire b ≡ ok two_roles_wire))
      ↔ HasWireKeys two_roles_wire)
    × (((b : CompiledBundle) × (to_wire b ≡ ok two_roles_wire)) ↔ HasWireKeys two_roles_wire)
to_wire-of_wire_iff_example = to_wire-of_wire_iff two_roles_wire

-- the same bundle with its roles the other way round
abbrev two_roles_again : CompiledBundle
two_roles_again = record two_roles {
  system =
      (record { role = "rep"; object_type = "deal" }, zero_rule)
      ∷ (record { role = "rep"; object_type = "lead" }, reader)
      ∷ [];
}

length-Reordered :
    {K V : Type 0} {R : V → V → Type 0} {m n : Map K V} → Reordered R m n → length m ≡ length n
length-Reordered nil = refl
length-Reordered (cons r p) = ap suc (length-Reordered p)
length-Reordered (swap r r' p) = ap (λ l. suc (suc l)) (length-Reordered p)
length-Reordered (trans p q) = length-Reordered p ∙ length-Reordered q

-- It writes how many rules the system has, and how many tenants have some.
abbrev counts : BundleWire → Result WireError (List ℕ)
counts w = ok (length w.system ∷ length w.tenant ∷ [])

counts-SameWire : (v w : BundleWire) → SameWire v w → counts v ≡ counts w
counts-SameWire v w h =
    let (_, _, system) = h.system in
    let (_, _, tenant) = h.tenant in rw (length-Reordered system, length-Reordered tenant) refl

same_rule : (r : PolicyRule) → r.fields ≡ [] → SameFields r r
same_rule r h = record { rest = refl; fields = rw h (tt, tt, nil) }

two_roles-SameMaps : SameMaps two_roles two_roles_again
unfolding lookup
two_roles-SameMaps = record {
  version = refl;
  system = (
    (refl, (refl, tt)),
    (refl, (refl, tt)),
    swap (same_rule reader refl) (same_rule zero_rule refl) nil,
  );
  tenant = (
    (refl, tt),
    (refl, tt),
    cons ((refl, tt), (refl, tt), cons (same_rule zero_rule refl) nil) nil,
  );
  capabilities = ((refl, tt), (refl, tt), cons ((refl, tt), (refl, tt), cons refl nil) nil);
  autonomy = ((refl, tt), (refl, tt), cons refl nil);
}

marshal_json-SameMaps_iff_example :
    (marshal_json counts two_roles ≡ ok (2 ∷ 1 ∷ []))
    ↔ (marshal_json counts two_roles_again ≡ ok (2 ∷ 1 ∷ []))
marshal_json-SameMaps_iff_example =
    marshal_json-SameMaps_iff counts counts-SameWire two_roles two_roles_again (2 ∷ 1 ∷ [])
      two_roles-SameMaps
