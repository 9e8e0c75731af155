-- ===== src/Policy/Wire/Reordered.antt =====
-- go/policy/wire.go: the order in which `MarshalJSON` iterates over a bundle's maps.
use ivorycom_governance.Common.{ℕ, String, List, [], ◌≡◌, ◌↔◌, refl, sym, ◌∙◌, string_eq}
use ivorycom_governance.Common.Map.{Map}
use ivorycom_governance.Common.Result.{Result, ok, >>=-eq-ok}
use ivorycom_governance.Common.Codec.{translate, ok-Restores}
use ivorycom_governance.Common.Codec.Reordered.{
  SameTable, SameTable-sym, Respects, translate-SameTable,
}
use ivorycom_governance.Policy.Model.{
  RoleObj, role_obj_eq, FieldRule, PolicyRule, CapKey, cap_key_eq, CapabilityRule, AutonomyProfile,
  CompiledBundle,
}
use ivorycom_governance.Policy.Wire.{
  WireError, BundleWire, role_obj_key, parse_role_obj_key, cap_key, parse_cap_key, encode_rules,
  encode_caps, decode_rules, decode_caps, to_wire, marshal_json,
}
use ivorycom_governance.Policy.Wire.Keys.{role_obj_key-Restores, cap_key-Restores}
use ivorycom_governance.Policy.Wire.RoundTrip.{
  to_wire-WireOf, encode_rules-Restores, encode_caps-Restores,
}

-- The rules differ at most in the order of their field rules.
pub record SameFields (r s : PolicyRule) : Type 0 where
  pub rest : s ≡ record r { fields = s.fields }
  pub fields : SameTable (λ (f g : FieldRule). f ≡ g) r.fields s.fields

SameFields-sym : (r s : PolicyRule) → SameFields r s → SameFields s r
SameFields-sym r s h = record {
  rest = rw h.rest refl;
  fields = SameTable-sym (λ f g e. sym e) r.fields s.fields h.fields;
}

-- The bundles differ at most in the order in which their maps are iterated.
pub record SameMaps (b c : CompiledBundle) : Type 0 where
  pub version : b.version ≡ c.version
  pub system : SameTable SameFields b.system c.system
  pub tenant : SameTable (SameTable SameFields) b.tenant c.tenant
  pub capabilities :
      SameTable (SameTable (λ (r s : CapabilityRule). r ≡ s)) b.capabilities c.capabilities
  pub autonomy : SameTable (λ (p q : AutonomyProfile). p ≡ q) b.autonomy c.autonomy

-- The same for wire forms.
pub record SameWire (b c : BundleWire) : Type 0 where
  pub version : b.version ≡ c.version
  pub system : SameTable SameFields b.system c.system
  pub tenant : SameTable (SameTable SameFields) b.tenant c.tenant
  pub capabilities :
      SameTable (SameTable (λ (r s : CapabilityRule). r ≡ s)) b.capabilities c.capabilities
  pub autonomy : SameTable (λ (p q : AutonomyProfile). p ≡ q) b.autonomy c.autonomy

SameMaps-sym : (b c : CompiledBundle) → SameMaps b c → SameMaps c b
SameMaps-sym b c h = record {
  version = sym h.version;
  system = SameTable-sym SameFields-sym b.system c.system h.system;
  tenant = SameTable-sym (SameTable-sym SameFields-sym) b.tenant c.tenant h.tenant;
  capabilities =
      SameTable-sym (SameTable-sym (λ r s e. sym e)) b.capabilities c.capabilities h.capabilities;
  autonomy = SameTable-sym (λ p q e. sym e) b.autonomy c.autonomy h.autonomy;
}

ok-Respects : {V : Type 0} (R : V → V → Type 0) → Respects {E = WireError} ok R R
ok-Respects R v w v' r e = let same : v ≡ v' = cc in (w, refl, rw (← same) r)

encode_rules-Respects : Respects encode_rules (SameTable SameFields) (SameTable SameFields)
unfolding encode_rules
encode_rules-Respects =
    translate-SameTable role_obj_key parse_role_obj_key ok ok role_obj_key-Restores
      (λ v w _. (ok-Restores v, ok-Restores w)) (ok-Respects SameFields)

encode_caps-Respects :
    Respects encode_caps
      (SameTable (λ (r s : CapabilityRule). r ≡ s))
      (SameTable (λ (r s : CapabilityRule). r ≡ s))
unfolding encode_caps
encode_caps-Respects =
    translate-SameTable cap_key parse_cap_key ok ok cap_key-Restores
      (λ v w _. (ok-Restores v, ok-Restores w)) (ok-Respects (λ r s. r ≡ s))

tenant-Respects :
    Respects
      (λ (m : Map String (Map RoleObj PolicyRule)). translate ok encode_rules m [])
      (SameTable (SameTable SameFields))
      (SameTable (SameTable SameFields))
tenant-Respects =
    translate-SameTable ok ok encode_rules decode_rules ok-Restores
      (λ v w (u, u', _). (encode_rules-Restores v u, encode_rules-Restores w u'))
      encode_rules-Respects

capabilities-Respects :
    Respects
      (λ (m : Map String (Map CapKey CapabilityRule)). translate ok encode_caps m [])
      (SameTable (SameTable (λ (r s : CapabilityRule). r ≡ s)))
      (SameTable (SameTable (λ (r s : CapabilityRule). r ≡ s)))
capabilities-Respects =
    translate-SameTable ok ok encode_caps decode_caps ok-Restores
      (λ v w (u, u', _). (encode_caps-Restores v u, encode_caps-Restores w u')) encode_caps-Respects

autonomy-Respects :
    Respects {E = WireError}
      (λ (m : Map String AutonomyProfile). translate ok ok m [])
      (SameTable (λ (p q : AutonomyProfile). p ≡ q))
      (SameTable (λ (p q : AutonomyProfile). p ≡ q))
autonomy-Respects =
    translate-SameTable ok ok ok ok ok-Restores (λ v w _. (ok-Restores v, ok-Restores w))
      (ok-Respects (λ p q. p ≡ q))

-- The order of the maps does not show in the wire form, but for the order of its maps.
to_wire-Respects : Respects to_wire SameMaps SameWire
unfolding to_wire
to_wire-Respects b c w h e =
    let parts = to_wire-WireOf b w e in
    let (system, e1, s1) = encode_rules-Respects b.system c.system w.system h.system parts.system in
    let (tenant, e2, s2) = tenant-Respects b.tenant c.tenant w.tenant h.tenant parts.tenant in
    let (caps, e3, s3) =
      capabilities-Respects b.capabilities c.capabilities w.capabilities h.capabilities
        parts.capabilities in
    let (autonomy, e4, s4) =
      autonomy-Respects b.autonomy c.autonomy w.autonomy h.autonomy parts.autonomy in
    (
      record {
        version = c.version;
        system = system;
        tenant = tenant;
        capabilities = caps;
        autonomy = autonomy;
      },
      rw (e1, e2, e3, e4) refl,
      record {
        version = parts.version ∙ h.version;
        system = s1;
        tenant = s2;
        capabilities = s3;
        autonomy = s4;
      },
    )

module _ (marshal : BundleWire → Result WireError (List ℕ))
    (sorts : (v w : BundleWire) → SameWire v w → marshal v ≡ marshal w) where
  marshal_json_to :
      (b c : CompiledBundle) (body : List ℕ)
      → SameMaps b c
      → marshal_json marshal b ≡ ok body
      → marshal_json marshal c ≡ ok body
  unfolding marshal_json
  marshal_json_to b c body h e =
      let (w, made, e') = >>=-eq-ok (to_wire b) marshal e in
      let (w', made', same) = to_wire-Respects b c w h made in rw made' (sym (sorts w w' same) ∙ e')

-- Suppose that `encoding/json` sorts the keys of the maps that it writes: it writes wire forms alike
-- that differ at most in the order of their maps, the maps of field rules included. Then
-- `MarshalJSON` gives a body for a bundle exactly when it gives that very body for a bundle that
-- differs at most in the order in which Go iterates over its maps, so that a signature of the body
-- does not depend on that order.
pub marshal_json-SameMaps_iff :
    (marshal : BundleWire → Result WireError (List ℕ))
    → ((v w : BundleWire) → SameWire v w → marshal v ≡ marshal w)
    → (b c : CompiledBundle) (body : List ℕ) → SameMaps b c
    → (marshal_json marshal b ≡ ok body) ↔ (marshal_json marshal c ≡ ok body)
marshal_json-SameMaps_iff marshal sorts b c body h = (
  marshal_json_to marshal sorts b c body h,
  marshal_json_to marshal sorts c b body (SameMaps-sym b c h),
)
