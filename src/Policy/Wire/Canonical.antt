-- ===== src/Policy/Wire/Canonical.antt =====
-- go/policy/wire.go: which wire forms are read and written back the same.
use Prim.Native.String.{◌++◌}
use ivorycom_governance.Common.{String, ◌≡◌, ◌↔◌, sym, ◌∙◌, [], string_eq}
use ivorycom_governance.Common.Map.{Map}
use ivorycom_governance.Common.Result.{Result, ok}
use ivorycom_governance.Common.Codec.Keys.{
  translate-HasUniqueKeys, translate-All, translate-All_keys,
}
use ivorycom_governance.Policy.Model.{
  RoleObj, role_obj_eq, PolicyRule, CapKey, cap_key_eq, CapabilityRule, CompiledBundle,
}
use ivorycom_governance.Policy.Wire.{
  WireError, BundleWire, role_obj_sep, role_obj_key, cap_key, encode_rules, encode_caps, to_wire,
  of_wire,
}
use ivorycom_governance.Policy.Wire.Keys.{
  role_obj_key-clean, role_obj_key-Succeeds_iff, cap_key-clean, cap_key-Succeeds_iff,
}
use ivorycom_governance.Policy.Wire.RoundTrip.{to_wire-WireOf}
use ivorycom_governance.Policy.Wire.Decoded.{IsKey, HasKeys, HasWireKeys, to_wire-of_wire}

role_obj_key-IsKey : (k : RoleObj) (s : String) → role_obj_key k ≡ ok s → IsKey s
role_obj_key-IsKey k s h =
    let clean = (role_obj_key-Succeeds_iff k).0 (s, h) in
    let e : ◌≡◌ {A = Result WireError String} (ok s)
        (ok (k.role ++ role_obj_sep ++ k.object_type)) =
      sym h ∙ role_obj_key-clean k clean in
    (k.role, k.object_type, cc, clean.0, clean.1)

cap_key-IsKey : (k : CapKey) (s : String) → cap_key k ≡ ok s → IsKey s
cap_key-IsKey k s h =
    let clean = (cap_key-Succeeds_iff k).0 (s, h) in
    let e : ◌≡◌ {A = Result WireError String} (ok s)
        (ok (k.agent_role ++ role_obj_sep ++ k.tool_action)) =
      sym h ∙ cap_key-clean k clean in
    (k.agent_role, k.tool_action, cc, clean.0, clean.1)

encode_rules-HasKeys :
    (rules : Map RoleObj PolicyRule) (w : Map String PolicyRule)
    → encode_rules rules ≡ ok w
    → HasKeys w
unfolding encode_rules
encode_rules-HasKeys rules w h = (
  translate-HasUniqueKeys role_obj_key ok rules [] w tt h,
  translate-All_keys role_obj_key ok IsKey role_obj_key-IsKey rules [] w tt h,
)

encode_caps-HasKeys :
    (caps : Map CapKey CapabilityRule) (w : Map String CapabilityRule)
    → encode_caps caps ≡ ok w
    → HasKeys w
unfolding encode_caps
encode_caps-HasKeys caps w h = (
  translate-HasUniqueKeys cap_key ok caps [] w tt h,
  translate-All_keys cap_key ok IsKey cap_key-IsKey caps [] w tt h,
)

-- Every wire form that is written has the keys of one.
to_wire-HasWireKeys : (b : CompiledBundle) (w : BundleWire) → to_wire b ≡ ok w → HasWireKeys w
to_wire-HasWireKeys b w h =
    let parts = to_wire-WireOf b w h in
    (
      encode_rules-HasKeys b.system w.system parts.system,
      (
        translate-HasUniqueKeys ok encode_rules b.tenant [] w.tenant tt parts.tenant,
        translate-All ok encode_rules HasKeys encode_rules-HasKeys b.tenant [] w.tenant tt
            parts.tenant,
      ),
      (
        translate-HasUniqueKeys ok encode_caps b.capabilities [] w.capabilities tt
            parts.capabilities,
        translate-All ok encode_caps HasKeys encode_caps-HasKeys b.capabilities [] w.capabilities tt
            parts.capabilities,
      ),
      translate-HasUniqueKeys {E = WireError} ok ok b.autonomy [] w.autonomy tt parts.autonomy,
    )

-- A wire form is read without an error and written back the same exactly when its maps hold each key
-- once and its keys of rules and capabilities are two names without the separator around one
-- separator. These are, too, exactly the wire forms that `MarshalJSON` makes of any bundle.
pub to_wire-of_wire_iff :
    (w : BundleWire)
    → (((b : CompiledBundle) × (of_wire w ≡ ok b) × (to_wire b ≡ ok w)) ↔ HasWireKeys w)
      × (((b : CompiledBundle) × (to_wire b ≡ ok w)) ↔ HasWireKeys w)
to_wire-of_wire_iff w = (
  (λ (b, _, written). to_wire-HasWireKeys b w written, to_wire-of_wire w),
  (
    λ (b, written). to_wire-HasWireKeys b w written,
    λ keys. let (b, _, written) = to_wire-of_wire w keys in (b, written),
  ),
)
