-- ===== src/Policy/Abac.antt =====
-- go/policy/abac.go: conditions on the attributes of a record.
pub mod Conditions
pub mod Meaning
pub mod Membership
pub mod Reload
use Prim.Native.String
use ivorycom_governance.Common.{
  String, Bool, false, not, none, some, List, [], ◌∷◌, any, ◌==◌, string_eq, if◌then◌else◌,
}
use ivorycom_governance.Common.Map
use ivorycom_governance.Common.Map.{Map}
use ivorycom_governance.Common.Text.{split, trim_space, replace_all}
use ivorycom_governance.Policy.Model.{
  Condition, Decision, decided, CompiledBundle, Identity, rule_for,
}
use ivorycom_governance.Policy.Engine.{can}

-- A value of Go's type `any`: nil, a string, or a value of another dynamic type.
pub data Value (Other : Type 0) : Type 0 where
  nil : Value Other
  string : String → Value Other
  other : Other → Value Other

unfoldable pub substitute : String → Identity → String
substitute value id =
    replace_all (replace_all value "$user_id" id.user_id) "$tenant_id" id.tenant_id

-- `record[field]`, which is nil for a missing key
unfoldable pub attribute : {Other : Type 0} → Map String (Value Other) → String → Value Other
attribute attributes field = elim (Map.lookup field attributes) [ none ↦ nil | some v ↦ v ]

-- `sprint` is `fmt.Sprintf("%v", v)` on the values that are neither nil nor strings.
module _ {Other : Type 0} (sprint : Other → String) where
  unfoldable pub stringify : Value Other → String
  stringify nil = ""
  stringify (string s) = s
  stringify (other v) = sprint v

  unfoldable pub eval_condition : Condition → Identity → Map String (Value Other) → Bool
  eval_condition c id attributes =
      let want = substitute c.value id in
      let got = stringify (attribute attributes c.field) in
      if c.op == "=="
      then got == want
      else if c.op == "!="
      then not (got == want)
      else if c.op == "in"
      then any (λ cand. got == trim_space cand) (split b',' want)
      else false

  -- the loop of `CanRecord`: the decision stands unless a condition fails
  unfoldable pub check_conditions :
      List Condition → Identity → Map String (Value Other) → Decision → Decision
  check_conditions [] id attributes dec = dec
  check_conditions (c ∷ cs) id attributes dec =
      let rest = check_conditions cs id attributes dec in
      if eval_condition c id attributes
      then rest
      else decided false (String.◌++◌ "record condition failed: " c.field)

  -- The getter is called twice: `first` by `Can`, `second` for the conditions.
  unfoldable pub can_record :
      CompiledBundle
      → CompiledBundle
      → Identity
      → String
      → String
      → Map String (Value Other)
      → Decision
  can_record first second id action object_type attributes =
      let dec = can first id action object_type "" in
      if dec.allow
      then check_conditions
          (rule_for second id.tenant_id id.user_role object_type).record_conditions id attributes
          dec
      else dec
