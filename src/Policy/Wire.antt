-- ===== src/Policy/Wire.antt =====
-- go/policy/wire.go: the bundle with the keys of its maps written as texts.
mod Keys
pub mod RoundTrip
pub mod Decoded
pub mod Reordered
pub mod Canonical
mod Tests
use Prim.Native.String.{◌++◌}
use ivorycom_governance.Common.{
  String, ℕ, Bool, true, false, Option, none, some, List, [], string_eq, if◌then◌else◌,
}
use ivorycom_governance.Common.Int.{ℤ}
use ivorycom_governance.Common.Text.{contains, split_first}
use ivorycom_governance.Common.Map.{Map}
use ivorycom_governance.Common.Result.{Result, ok, err, ◌>>=◌}
use ivorycom_governance.Common.Codec.{translate}
use ivorycom_governance.Policy.Model.{
  RoleObj, role_obj_eq, PolicyRule, CapKey, cap_key_eq, CapabilityRule, AutonomyProfile,
  CompiledBundle,
}

-- The errors, with the text that each message quotes. `json` is an error of `encoding/json`.
pub data WireError : Type 0 where
  separator_in_role : String → WireError
  separator_in_object_type : String → WireError
  separator_in_agent_role : String → WireError
  separator_in_tool_action : String → WireError
  invalid_role_obj_key : String → WireError
  invalid_cap_key : String → WireError
  json : String → WireError

abbrev pub role_obj_sep : String
role_obj_sep = "\u{1f}"

-- the code of the one character of `role_obj_sep`
abbrev pub separator : ℕ
separator = 0x1f

unfoldable pub role_obj_key : RoleObj → Result WireError String
role_obj_key k =
    if contains k.role separator
    then err (separator_in_role k.role)
    else if contains k.object_type separator
    then err (separator_in_object_type k.object_type)
    else ok (k.role ++ role_obj_sep ++ k.object_type)

unfoldable pub parse_role_obj_key : String → Result WireError RoleObj
parse_role_obj_key s = elim (split_first separator s) [
  | none ↦ err (invalid_role_obj_key s)
  | some (before, after) ↦ ok (record { role = before; object_type = after })
]

unfoldable pub cap_key : CapKey → Result WireError String
cap_key k =
    if contains k.agent_role separator
    then err (separator_in_agent_role k.agent_role)
    else if contains k.tool_action separator
    then err (separator_in_tool_action k.tool_action)
    else ok (k.agent_role ++ role_obj_sep ++ k.tool_action)

unfoldable pub parse_cap_key : String → Result WireError CapKey
parse_cap_key s = elim (split_first separator s) [
  | none ↦ err (invalid_cap_key s)
  | some (before, after) ↦ ok (record { agent_role = before; tool_action = after })
]

pub record BundleWire : Type 0 where
  pub version : ℤ
  pub system : Map String PolicyRule
  pub tenant : Map String (Map String PolicyRule)
  pub capabilities : Map String (Map String CapabilityRule)
  pub autonomy : Map String AutonomyProfile

-- one tenant's rules, and its capabilities
unfoldable pub encode_rules : Map RoleObj PolicyRule → Result WireError (Map String PolicyRule)
encode_rules rules = translate role_obj_key ok rules []

unfoldable pub encode_caps :
    Map CapKey CapabilityRule → Result WireError (Map String CapabilityRule)
encode_caps caps = translate cap_key ok caps []

-- `MarshalJSON` up to its call of `json.Marshal`
unfoldable pub to_wire : CompiledBundle → Result WireError BundleWire
to_wire b = do
  system ← encode_rules b.system
  tenant ← translate ok encode_rules b.tenant []
  capabilities ← translate ok encode_caps b.capabilities []
  autonomy ← translate ok ok b.autonomy []
  ok (record {
    version = b.version;
    system = system;
    tenant = tenant;
    capabilities = capabilities;
    autonomy = autonomy;
  })

unfoldable pub decode_rules : Map String PolicyRule → Result WireError (Map RoleObj PolicyRule)
decode_rules rules = translate parse_role_obj_key ok rules []

unfoldable pub decode_caps :
    Map String CapabilityRule → Result WireError (Map CapKey CapabilityRule)
decode_caps caps = translate parse_cap_key ok caps []

-- `UnmarshalJSON` after its call of `json.Unmarshal`
unfoldable pub of_wire : BundleWire → Result WireError CompiledBundle
of_wire w = do
  system ← decode_rules w.system
  tenant ← translate ok decode_rules w.tenant []
  capabilities ← translate ok decode_caps w.capabilities []
  autonomy ← translate ok ok w.autonomy []
  ok (record {
    version = w.version;
    system = system;
    tenant = tenant;
    capabilities = capabilities;
    autonomy = autonomy;
  })

-- The methods, with `encoding/json` as a parameter. A nil `Fields` or `RecordConditions`, for which
-- `json.Marshal` writes null, and an empty one, for which it writes {} or [], are one value here, so
-- `marshal` stands for either text of it; decoding takes both to a value without entries.
unfoldable pub marshal_json :
    (BundleWire → Result WireError (List ℕ)) → CompiledBundle → Result WireError (List ℕ)
marshal_json marshal b = to_wire b >>= marshal

unfoldable pub unmarshal_json :
    (List ℕ → Result WireError BundleWire) → List ℕ → Result WireError CompiledBundle
unmarshal_json unmarshal raw = unmarshal raw >>= of_wire
