-- ===== src/Policy/Wire/Keys.antt =====
-- go/policy/wire.go: the keys of the wire format, written and read.
use Prim.Native.Char.{Char}
use Prim.Native.String.{◌∷◌, ◌++◌}
use Prim.Native.String.append
use ivorycom_governance.Common.{String, ◌≡◌, ◌↔◌, refl, sym, ap, ◌∙◌, false, arith, some}
use ivorycom_governance.Common.Text.{contains, split_first, split_first-concat}
use ivorycom_governance.Common.Result.{Result, ok}
use ivorycom_governance.Common.Codec.{Succeeds, Restores}
use ivorycom_governance.Policy.Model.{RoleObj, CapKey}
use ivorycom_governance.Policy.Wire.{
  WireError, role_obj_sep, separator, role_obj_key, parse_role_obj_key, cap_key, parse_cap_key,
}

abbrev separator_char : Char
separator_char = "\u{1f}"

pub split_first-sep :
    (s t : String)
    → contains s separator ≡ false
    → split_first separator (s ++ role_obj_sep ++ t) ≡ some (s, t)
split_first-sep s t h =
    ap (λ u. split_first separator (s ++ u))
      (append.cons separator_char "" t ∙ ap (λ u. separator_char ∷ u) (append.nil t))
    ∙ split_first-concat separator_char s t h

-- Both names are free of the separator.
abbrev pub HasCleanNames : RoleObj → Type 0
HasCleanNames k = (contains k.role separator ≡ false) × (contains k.object_type separator ≡ false)

abbrev pub HasCleanCapNames : CapKey → Type 0
HasCleanCapNames k =
    (contains k.agent_role separator ≡ false) × (contains k.tool_action separator ≡ false)

pub role_obj_key-clean :
    (k : RoleObj) → HasCleanNames k → role_obj_key k ≡ ok (k.role ++ role_obj_sep ++ k.object_type)
unfolding role_obj_key
role_obj_key-clean k (a, b) = rw (a, b) refl

pub role_obj_key-Succeeds_iff : (k : RoleObj) → Succeeds (role_obj_key k) ↔ HasCleanNames k
unfolding role_obj_key
role_obj_key-Succeeds_iff k = (λ (w, h). ground arith, λ clean. (_, role_obj_key-clean k clean))

pub role_obj_key-Restores : (k : RoleObj) → Restores role_obj_key parse_role_obj_key k
unfolding parse_role_obj_key
role_obj_key-Restores k s h =
    let clean = (role_obj_key-Succeeds_iff k).0 (s, h) in
    let e : ◌≡◌ {A = Result WireError String} (ok (k.role ++ role_obj_sep ++ k.object_type))
        (ok s) =
      sym (role_obj_key-clean k clean) ∙ h in
    let same : k.role ++ role_obj_sep ++ k.object_type ≡ s = cc in
    rw (sym same, parse_role_obj_key, split_first-sep k.role k.object_type clean.0) refl

pub cap_key-clean :
    (k : CapKey)
    → HasCleanCapNames k
    → cap_key k ≡ ok (k.agent_role ++ role_obj_sep ++ k.tool_action)
unfolding cap_key
cap_key-clean k (a, b) = rw (a, b) refl

pub cap_key-Succeeds_iff : (k : CapKey) → Succeeds (cap_key k) ↔ HasCleanCapNames k
unfolding cap_key
cap_key-Succeeds_iff k = (λ (w, h). ground arith, λ clean. (_, cap_key-clean k clean))

pub cap_key-Restores : (k : CapKey) → Restores cap_key parse_cap_key k
unfolding parse_cap_key
cap_key-Restores k s h =
    let clean = (cap_key-Succeeds_iff k).0 (s, h) in
    let e : ◌≡◌ {A = Result WireError String} (ok (k.agent_role ++ role_obj_sep ++ k.tool_action))
        (ok s) =
      sym (cap_key-clean k clean) ∙ h in
    let same : k.agent_role ++ role_obj_sep ++ k.tool_action ≡ s = cc in
    rw (sym same, parse_cap_key, split_first-sep k.agent_role k.tool_action clean.0) refl
