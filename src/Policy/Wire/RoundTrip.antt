-- ===== src/Policy/Wire/RoundTrip.antt =====
-- go/policy/wire.go: when `MarshalJSON` writes a bundle, and what `UnmarshalJSON` makes of it.
use ivorycom_governance.Common.{◌≡◌, ◌↔◌, refl, [], All, All-of_each, All-mono, string_eq, arith}
use ivorycom_governance.Common.Map.{Map, HasUniqueKeys}
use ivorycom_governance.Common.Result.{ok}
use ivorycom_governance.Common.Codec.{
  translate, Succeeds, Restores, translate-Succeeds_iff, translate_keys-Succeeds_iff,
  translate_values-Succeeds_iff, translate-Restores, ok-Restores,
}
use ivorycom_governance.Policy.Model.{
  RoleObj, role_obj_eq, PolicyRule, CapKey, cap_key_eq, CapabilityRule, CompiledBundle,
}
use ivorycom_governance.Policy.Wire.{
  WireError, BundleWire, role_obj_key, parse_role_obj_key, cap_key, parse_cap_key, encode_rules,
  encode_caps, decode_rules, decode_caps, to_wire, of_wire,
}
use ivorycom_governance.Policy.Wire.Keys.{
  HasCleanNames, HasCleanCapNames, role_obj_key-Succeeds_iff, cap_key-Succeeds_iff,
  role_obj_key-Restores, cap_key-Restores,
}

pub encode_rules-Restores :
    (rules : Map RoleObj PolicyRule)
    → HasUniqueKeys rules
    → Restores encode_rules decode_rules rules
unfolding encode_rules decode_rules
encode_rules-Restores rules u =
    translate-Restores role_obj_key parse_role_obj_key ok ok rules u
      (All-of_each (λ e. (role_obj_key-Restores e.0, ok-Restores e.1)) rules)

pub encode_caps-Restores :
    (caps : Map CapKey CapabilityRule) → HasUniqueKeys caps → Restores encode_caps decode_caps caps
unfolding encode_caps decode_caps
encode_caps-Restores caps u =
    translate-Restores cap_key parse_cap_key ok ok caps u
      (All-of_each (λ e. (cap_key-Restores e.0, ok-Restores e.1)) caps)

-- Every map of the bundle holds a key once, as a Go map does.
abbrev pub IsWellFormed : CompiledBundle → Type 0
IsWellFormed b =
    HasUniqueKeys b.system
    × (HasUniqueKeys b.tenant × All (λ e. HasUniqueKeys e.1) b.tenant)
    × (HasUniqueKeys b.capabilities × All (λ e. HasUniqueKeys e.1) b.capabilities)
    × HasUniqueKeys b.autonomy

-- No role, object type or action of the bundle contains the separator of the keys.
abbrev pub HasCleanKeys : CompiledBundle → Type 0
HasCleanKeys b =
    All (λ e. HasCleanNames e.0) b.system
    × All (λ t. All (λ e. HasCleanNames e.0) t.1) b.tenant
    × All (λ t. All (λ e. HasCleanCapNames e.0) t.1) b.capabilities

-- what a wire form holds
pub record WireOf (b : CompiledBundle) (w : BundleWire) : Type 0 where
  pub version : w.version ≡ b.version
  pub system : encode_rules b.system ≡ ok w.system
  pub tenant : translate ok encode_rules b.tenant [] ≡ ok w.tenant
  pub capabilities : translate ok encode_caps b.capabilities [] ≡ ok w.capabilities
  pub autonomy : translate {E = WireError} ok ok b.autonomy [] ≡ ok w.autonomy

pub to_wire-WireOf : (b : CompiledBundle) (w : BundleWire) → to_wire b ≡ ok w → WireOf b w
unfolding to_wire
to_wire-WireOf b w h = ground arith

-- If the bundle's maps hold each key once and its wire form is made without an error, then reading
-- the wire form gives the bundle back, every map with every entry.
pub of_wire-to_wire :
    (b : CompiledBundle) (w : BundleWire) → IsWellFormed b → to_wire b ≡ ok w → of_wire w ≡ ok b
unfolding of_wire
of_wire-to_wire b w (us, (ut, uts), (uc, ucs), ua) h =
    let parts = to_wire-WireOf b w h in
    let system = encode_rules-Restores b.system us w.system parts.system in
    let tenant =
      translate-Restores ok ok encode_rules decode_rules b.tenant ut
        (All-mono (λ e u. (ok-Restores e.0, encode_rules-Restores e.1 u)) b.tenant uts) w.tenant
        parts.tenant in
    let capabilities =
      translate-Restores ok ok encode_caps decode_caps b.capabilities uc
        (All-mono (λ e u. (ok-Restores e.0, encode_caps-Restores e.1 u)) b.capabilities ucs)
        w.capabilities parts.capabilities in
    let autonomy =
      translate-Restores {E = WireError} ok ok ok ok b.autonomy ua
        (All-of_each (λ e. (ok-Restores e.0, ok-Restores e.1)) b.autonomy) w.autonomy
        parts.autonomy in
    rw (system, tenant, capabilities, autonomy, parts.version) refl

encode_rules-Succeeds_iff :
    (rules : Map RoleObj PolicyRule)
    → Succeeds (encode_rules rules) ↔ All (λ e. HasCleanNames e.0) rules
unfolding encode_rules
encode_rules-Succeeds_iff =
    translate_keys-Succeeds_iff role_obj_key HasCleanNames role_obj_key-Succeeds_iff

encode_caps-Succeeds_iff :
    (caps : Map CapKey CapabilityRule)
    → Succeeds (encode_caps caps) ↔ All (λ e. HasCleanCapNames e.0) caps
unfolding encode_caps
encode_caps-Succeeds_iff = translate_keys-Succeeds_iff cap_key HasCleanCapNames cap_key-Succeeds_iff

-- The wire form of a bundle is made without an error exactly when no role, object type, agent role
-- or action that names one of its rules or capabilities contains the separator byte.
pub to_wire-Succeeds_iff : (b : CompiledBundle) → Succeeds (to_wire b) ↔ HasCleanKeys b
unfolding to_wire
to_wire-Succeeds_iff b =
    let system = encode_rules-Succeeds_iff b.system in
    let tenant =
      translate_values-Succeeds_iff encode_rules (All (λ e. HasCleanNames e.0))
        encode_rules-Succeeds_iff b.tenant in
    let capabilities =
      translate_values-Succeeds_iff encode_caps (All (λ e. HasCleanCapNames e.0))
        encode_caps-Succeeds_iff b.capabilities in
    let autonomy =
      (translate-Succeeds_iff {E = WireError} ok ok b.autonomy []).1
        (All-of_each (λ e. ((e.0, refl), (e.1, refl))) b.autonomy) in
    (
      λ (w, h).
          let parts = to_wire-WireOf b w h in
          (
            system.0 (w.system, parts.system),
            tenant.0 (w.tenant, parts.tenant),
            capabilities.0 (w.capabilities, parts.capabilities),
          ),
      λ (s, t, c). rw ((system.1 s).1, (tenant.1 t).1, (capabilities.1 c).1, autonomy.1) (_, refl),
    )
