-- ===== src/Policy/Abac/Meaning.antt =====
-- go/policy/abac.go: what an owner condition means, `field == $user_id`.
use text.Mathlib.TextLemmas.{append-nil}
use ivorycom_governance.Common.{String, ◌≡◌, ◌↔◌, ap, ◌∙◌, true, false, eq_iff}
use ivorycom_governance.Common.Map.{Map}
use ivorycom_governance.Common.Text.{replace_all, mentions, replace_all_absent}
use ivorycom_governance.Policy.Model.{Condition, Identity}
use ivorycom_governance.Policy.Abac.{Value, substitute, stringify, attribute, eval_condition}

-- The caller must own the record by this field.
abbrev pub owned_by : String → Condition
owned_by field = record { field = field; op = "=="; value = "$user_id" }

substitute-user_id :
    (id : Identity)
    → mentions "$tenant_id" id.user_id ≡ false
    → substitute "$user_id" id ≡ id.user_id
unfolding substitute
substitute-user_id id h =
    ap (λ v. replace_all v "$tenant_id" id.tenant_id) (replaced id.user_id)
    ∙ replace_all_absent id.user_id "$tenant_id" id.tenant_id h
  where
    replaced : (new : String) → replace_all "$user_id" "$user_id" new ≡ new
    replaced new = unfold replace_all in append-nil new

-- An owner condition is met exactly by a record whose attribute prints as the caller's user id, for
-- a user id that does not hold the other token. A missing attribute prints as the empty text, so
-- it is met there by a caller without a user id, and by no other.
pub eval_condition-owned_by_iff :
    {Other : Type 0} (sprint : Other → String) (field : String) (id : Identity)
    (attributes : Map String (Value Other))
    → mentions "$tenant_id" id.user_id ≡ false
    → (eval_condition sprint (owned_by field) id attributes ≡ true)
      ↔ (stringify sprint (attribute attributes field) ≡ id.user_id)
unfolding eval_condition
eval_condition-owned_by_iff sprint field id attributes h =
    rw (substitute-user_id id h) (eq_iff _ id.user_id)
