-- ===== src/Policy/Wire/Decoded.antt =====
-- go/policy/wire.go: `UnmarshalJSON` on any wire form, and on those with the keys that `MarshalJSON`
-- writes.
use Prim.Native.String.{◌++◌}
use ivorycom_governance.Common.{
  ℕ, List, String, ◌≡◌, refl, false, [], All, All-of_each, All-mono, string_eq, arith,
}
use ivorycom_governance.Common.Map.{Map, HasUniqueKeys}
use ivorycom_governance.Common.Text.{contains}
use ivorycom_governance.Common.Result.{Result, ok, >>=-eq-ok}
use ivorycom_governance.Common.Codec.{translate}
use ivorycom_governance.Policy.Model.{
  RoleObj, role_obj_eq, PolicyRule, CapKey, cap_key_eq, CapabilityRule, CompiledBundle,
}
use ivorycom_governance.Policy.Wire.{
  WireError, BundleWire, role_obj_sep, separator, role_obj_key, parse_role_obj_key, cap_key,
  parse_cap_key, encode_rules, encode_caps, decode_rules, decode_caps, to_wire, of_wire,
  unmarshal_json,
}
use ivorycom_governance.Common.Codec.Recodes.{Recodes, ok-Recodes, translate-Recodes}
use ivorycom_governance.Common.Codec.Keys.{translate-HasUniqueKeys, translate-All}
use ivorycom_governance.Policy.Wire.RoundTrip.{IsWellFormed}
use ivorycom_governance.Policy.Wire.Keys.{split_first-sep, role_obj_key-clean, cap_key-clean}

-- Two names, neither with the separator in it, and the separator between them.
abbrev pub IsKey : String → Type 0
IsKey s =
    (before : String) × (after : String) × (s ≡ before ++ role_obj_sep ++ after)
    × (contains before separator ≡ false)
    × (contains after separator ≡ false)

parse_role_obj_key-Recodes : (s : String) → IsKey s → Recodes parse_role_obj_key role_obj_key s
unfolding parse_role_obj_key
parse_role_obj_key-Recodes s (before, after, e, h, h') = (
  record { role = before; object_type = after },
  rw (e, parse_role_obj_key, split_first-sep before after h) refl,
  rw e (role_obj_key-clean _ (h, h')),
)

parse_cap_key-Recodes : (s : String) → IsKey s → Recodes parse_cap_key cap_key s
unfolding parse_cap_key
parse_cap_key-Recodes s (before, after, e, h, h') = (
  record { agent_role = before; tool_action = after },
  rw (e, parse_cap_key, split_first-sep before after h) refl,
  rw e (cap_key-clean _ (h, h')),
)

-- Each key stands once and is one that the encoder writes.
abbrev pub HasKeys {ℓ} : {V : Type ℓ} → Map String V → Type ℓ
HasKeys m = HasUniqueKeys m × All (λ e. IsKey e.0) m

decode_rules-Recodes :
    (rules : Map String PolicyRule) → HasKeys rules → Recodes decode_rules encode_rules rules
unfolding decode_rules encode_rules
decode_rules-Recodes rules (u, keys) =
    translate-Recodes parse_role_obj_key role_obj_key ok ok rules u
      (All-mono (λ e key. (parse_role_obj_key-Recodes e.0 key, ok-Recodes e.1)) rules keys)

decode_caps-Recodes :
    (caps : Map String CapabilityRule) → HasKeys caps → Recodes decode_caps encode_caps caps
unfolding decode_caps encode_caps
decode_caps-Recodes caps (u, keys) =
    translate-Recodes parse_cap_key cap_key ok ok caps u
      (All-mono (λ e key. (parse_cap_key-Recodes e.0 key, ok-Recodes e.1)) caps keys)

-- The maps of a wire form hold each key once, and all keys of rules and capabilities are of two
-- names without the separator.
abbrev pub HasWireKeys : BundleWire → Type 0
HasWireKeys w =
    HasKeys w.system
    × (HasUniqueKeys w.tenant × All (λ e. HasKeys e.1) w.tenant)
    × (HasUniqueKeys w.capabilities × All (λ e. HasKeys e.1) w.capabilities)
    × HasUniqueKeys w.autonomy

-- A wire form whose maps hold each key once, and whose keys of rules and capabilities are two names
-- without the separator around one separator, is read without an error, and writing what was read
-- gives the wire form back.
pub to_wire-of_wire :
    (w : BundleWire)
    → HasWireKeys w
    → (b : CompiledBundle) × (of_wire w ≡ ok b) × (to_wire b ≡ ok w)
unfolding of_wire to_wire
to_wire-of_wire w (ks, (ut, ts), (uc, cs), ua) =
    let (system, s, s') = decode_rules-Recodes w.system ks in
    let (tenant, t, t') =
      translate-Recodes ok ok decode_rules encode_rules w.tenant ut
        (All-mono (λ e keys. (ok-Recodes e.0, decode_rules-Recodes e.1 keys)) w.tenant ts) in
    let (capabilities, c, c') =
      translate-Recodes ok ok decode_caps encode_caps w.capabilities uc
        (All-mono (λ e keys. (ok-Recodes e.0, decode_caps-Recodes e.1 keys)) w.capabilities cs) in
    let (autonomy, a, a') =
      translate-Recodes {E = WireError} ok ok ok ok w.autonomy ua
        (All-of_each (λ e. (ok-Recodes e.0, ok-Recodes e.1)) w.autonomy) in
    let b : CompiledBundle = record {
      version = w.version;
      system = system;
      tenant = tenant;
      capabilities = capabilities;
      autonomy = autonomy;
    } in
    (b, rw (s, t, c, a) refl, rw (s', t', c', a') refl)

-- what a bundle that was read holds
record OfWire (w : BundleWire) (b : CompiledBundle) : Type 0 where
  system : decode_rules w.system ≡ ok b.system
  tenant : translate ok decode_rules w.tenant [] ≡ ok b.tenant
  capabilities : translate ok decode_caps w.capabilities [] ≡ ok b.capabilities
  autonomy : translate {E = WireError} ok ok w.autonomy [] ≡ ok b.autonomy

of_wire-OfWire : (w : BundleWire) (b : CompiledBundle) → of_wire w ≡ ok b → OfWire w b
unfolding of_wire
of_wire-OfWire w b h = ground arith

decode_rules-HasUniqueKeys :
    (rules : Map String PolicyRule) (m : Map RoleObj PolicyRule)
    → decode_rules rules ≡ ok m
    → HasUniqueKeys m
unfolding decode_rules
decode_rules-HasUniqueKeys rules m h = translate-HasUniqueKeys parse_role_obj_key ok rules [] m tt h

decode_caps-HasUniqueKeys :
    (caps : Map String CapabilityRule) (m : Map CapKey CapabilityRule)
    → decode_caps caps ≡ ok m
    → HasUniqueKeys m
unfolding decode_caps
decode_caps-HasUniqueKeys caps m h = translate-HasUniqueKeys parse_cap_key ok caps [] m tt h

-- Whatever wire form a bundle is read from, each of the bundle's maps holds a key once.
of_wire-IsWellFormed : (w : BundleWire) (b : CompiledBundle) → of_wire w ≡ ok b → IsWellFormed b
of_wire-IsWellFormed w b h =
    let parts = of_wire-OfWire w b h in
    (
      decode_rules-HasUniqueKeys w.system b.system parts.system,
      (
        translate-HasUniqueKeys ok decode_rules w.tenant [] b.tenant tt parts.tenant,
        translate-All ok decode_rules HasUniqueKeys decode_rules-HasUniqueKeys w.tenant [] b.tenant
            tt parts.tenant,
      ),
      (
        translate-HasUniqueKeys ok decode_caps w.capabilities [] b.capabilities tt
            parts.capabilities,
        translate-All ok decode_caps HasUniqueKeys decode_caps-HasUniqueKeys w.capabilities []
            b.capabilities tt parts.capabilities,
      ),
      translate-HasUniqueKeys {E = WireError} ok ok w.autonomy [] b.autonomy tt parts.autonomy,
    )

-- So is a bundle that a text decodes to, whatever `encoding/json` makes of the text.
pub unmarshal_json-IsWellFormed :
    (unmarshal : List ℕ → Result WireError BundleWire) (raw : List ℕ) (b : CompiledBundle)
    → unmarshal_json unmarshal raw ≡ ok b
    → IsWellFormed b
unfolding unmarshal_json
unmarshal_json-IsWellFormed unmarshal raw b h =
    let (w, _, read) = >>=-eq-ok (unmarshal raw) of_wire h in of_wire-IsWellFormed w b read
