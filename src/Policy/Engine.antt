-- ===== src/Policy/Engine.antt =====
-- go/policy/engine.go: the decision on an action, an object type and a field.
pub mod Access
pub mod Tenants
pub mod Unordered
use ivorycom_governance.Common.{
  String, Bool, false, not, ◌||◌, Option, none, some, [], ◌==◌, string_eq, if◌then◌else◌, is_empty,
}
use ivorycom_governance.Policy.Model.{
  PolicyRule, Decision, decided, CompiledBundle, Identity, rule_for,
}
use ivorycom_governance.Policy.Fls.{visible_and_masked, decide_field}

-- `none` for an unknown action
unfoldable pub action_grant : PolicyRule → String → Option Bool
action_grant rule action =
    if action == "create"
    then some rule.create
    else if action == "read"
    then some rule.read
    else if action == "update"
    then some rule.update
    else if action == "delete"
    then some rule.delete
    else if action == "view_all"
    then some rule.view_all
    else if action == "modify_all"
    then some rule.modify_all
    else none

unfoldable pub has_rule : PolicyRule → Bool
has_rule r =
    r.create
    || r.read
    || r.update
    || r.delete
    || r.view_all
    || r.modify_all
    || not (is_empty r.fields)
    || not (is_empty r.record_conditions)

-- the whole-object decision, `field == ""`
unfoldable pub decide_object : PolicyRule → String → Bool → Decision
decide_object rule action grant =
    let (visible, masked) = (if action == "read" then visible_and_masked rule else ([], [])) in
    record {
      allow = grant;
      visible_fields = visible;
      masked_fields = masked;
      reason = if grant then "" else "action denied";
    }

-- `Can` once the rule is known
unfoldable pub can_by_rule : PolicyRule → String → String → Decision
can_by_rule rule action field =
    if not (has_rule rule) then decided false "no policy" else elim (action_grant rule action) [
      | none ↦ decided false "unknown action"
      | some grant ↦
          if field == ""
          then decide_object rule action grant
          else decide_field rule action field grant
    ]

-- `bundle` is what the call of the getter returns.
unfoldable pub can : CompiledBundle → Identity → String → String → String → Decision
can bundle id action object_type field =
    can_by_rule (rule_for bundle id.tenant_id id.user_role object_type) action field
