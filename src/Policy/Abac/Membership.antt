-- ===== src/Policy/Abac/Membership.antt =====
-- go/policy/abac.go: what a condition with the operator `in` means.
use mathlib.Core.List.Memᴰ
use mathlib.Core.List.{Memᴰ}
use Prim.Native.Char.{Char}
use ivorycom_governance.Common.{
  String, ◌≡◌, ◌↔◌, ap, ◌∙◌, inl, inr, refl, true, false, Bool-cases, List, [], ◌∷◌, map, any, All,
  ◌==◌, string_eq, eq_iff,
}
use ivorycom_governance.Common.Map.{Map}
use ivorycom_governance.Common.Text.{
  contains, replace_all, join, mentions, replace_all_absent, split-join, trim_space,
}
use ivorycom_governance.Common.Text.Replace.{replace_all-join, replace_all-contains}
use ivorycom_governance.Policy.Model.{Condition, Identity}
use ivorycom_governance.Policy.Abac.{Value, substitute, stringify, attribute, eval_condition}

abbrev comma : Char
comma = ","

-- The field must be one of the candidates, which the condition's value lists between commas.
abbrev pub one_of : String → String → List String → Condition
one_of field s ss = record { field = field; op = "in"; value = join comma s ss }

-- No token of an identity stands in the text.
abbrev pub IsLiteral : String → Type 0
IsLiteral value = (mentions "$user_id" value ≡ false) × (mentions "$tenant_id" value ≡ false)

substitute_literal :
    (value : String) (id : Identity) → IsLiteral value → substitute value id ≡ value
unfolding substitute
substitute_literal value id (user, tenant) =
    ap (λ v. replace_all v "$tenant_id" id.tenant_id)
      (replace_all_absent value "$user_id" id.user_id user)
    ∙ replace_all_absent value "$tenant_id" id.tenant_id tenant

any-Mem_iff :
    (got : String) (ss : List String)
    → (any (λ s. got == trim_space s) ss ≡ true) ↔ Memᴰ got (map trim_space ss)
any-Mem_iff got [] = (λ h. cc, λ m. absurd (Memᴰ.not-nil m))
any-Mem_iff got (s ∷ ss) =
    let (to, from) = any-Mem_iff got ss in
    elim (Bool-cases (got == trim_space s)) [
      | inl hit ↦ rw hit (λ _. Memᴰ.head ((eq_iff got (trim_space s)).0 hit), λ _. refl)
      | inr miss ↦ rw miss (
        λ h. Memᴰ.tail (to h),
        λ m. elim (Memᴰ.cases_cons m) [
          | inl same ↦ let hit = (eq_iff got (trim_space s)).1 same in cc
          | inr later ↦ from later
        ],
      )
    ]

-- Let a condition list candidates between commas, none of which holds a comma, and let the whole
-- list hold no token. Then a record meets the condition exactly when its attribute prints as one of
-- the candidates, each without the spaces around it.
pub eval_condition-one_of_iff :
    {Other : Type 0} (sprint : Other → String) (field s : String) (ss : List String) (id : Identity)
    (attributes : Map String (Value Other))
    → contains s b',' ≡ false
    → All (λ t. contains t b',' ≡ false) ss
    → IsLiteral (join comma s ss)
    → (eval_condition sprint (one_of field s ss) id attributes ≡ true)
      ↔ Memᴰ (stringify sprint (attribute attributes field)) (map trim_space (s ∷ ss))
unfolding eval_condition
eval_condition-one_of_iff sprint field s ss id attributes h hs literal =
    rw (substitute_literal (join comma s ss) id literal, split-join comma s ss h hs)
      (any-Mem_iff (stringify sprint (attribute attributes field)) (s ∷ ss))

-- The caller's identifiers hold no comma.
abbrev pub IsPlain : Identity → Type 0
IsPlain id = (contains id.user_id b',' ≡ false) × (contains id.tenant_id b',' ≡ false)

substitute-join :
    (id : Identity) (s : String) (ss : List String)
    → substitute (join comma s ss) id
      ≡ join comma (substitute s id) (
          map
            (λ t. replace_all t "$tenant_id" id.tenant_id)
            (map (λ t. replace_all t "$user_id" id.user_id) ss))
unfolding substitute contains
substitute-join id s ss =
    ap (λ t. replace_all t "$tenant_id" id.tenant_id)
      (replace_all-join comma "$user_id" id.user_id s ss refl (λ h. cc))
    ∙ replace_all-join comma "$tenant_id" id.tenant_id (replace_all s "$user_id" id.user_id)
        (map (λ t. replace_all t "$user_id" id.user_id) ss) refl (λ h. cc)

substitutes :
    (id : Identity) (ss : List String)
    → map
        (λ t. replace_all t "$tenant_id" id.tenant_id)
        (map (λ t. replace_all t "$user_id" id.user_id) ss)
      ≡ map (λ t. substitute t id) ss
unfolding substitute
substitutes id [] = refl
substitutes id (s ∷ ss) = ap (λ us. substitute s id ∷ us) (substitutes id ss)

substitute-contains :
    (id : Identity) (s : String)
    → IsPlain id
    → contains s b',' ≡ false
    → contains (substitute s id) b',' ≡ false
unfolding substitute
substitute-contains id s (user, tenant) h =
    replace_all-contains b',' "$tenant_id" id.tenant_id tenant _
      (replace_all-contains b',' "$user_id" id.user_id user s h)

substitute-All :
    (id : Identity) (ss : List String)
    → IsPlain id
    → All (λ t. contains t b',' ≡ false) ss
    → All (λ t. contains t b',' ≡ false) (map (λ t. substitute t id) ss)
substitute-All id [] plain h = tt
substitute-All id (s ∷ ss) plain (h, hs) =
    (substitute-contains id s plain h, substitute-All id ss plain hs)

-- Let a condition list candidates between commas, none of which holds a comma, and let no identifier
-- of the caller hold one. Then a record meets the condition exactly when its attribute prints as one
-- of the candidates, each with the caller's identifiers in place of the tokens, and without the
-- spaces around it.
pub eval_condition-one_of_caller_iff :
    {Other : Type 0} (sprint : Other → String) (field s : String) (ss : List String) (id : Identity)
    (attributes : Map String (Value Other))
    → contains s b',' ≡ false
    → All (λ t. contains t b',' ≡ false) ss
    → IsPlain id
    → (eval_condition sprint (one_of field s ss) id attributes ≡ true)
      ↔ Memᴰ
          (stringify sprint (attribute attributes field))
          (map trim_space (map (λ t. substitute t id) (s ∷ ss)))
unfolding eval_condition
eval_condition-one_of_caller_iff sprint field s ss id attributes h hs plain =
    rw
      (
        substitute-join id s ss ∙ ap (join comma (substitute s id)) (substitutes id ss),
        split-join comma (substitute s id) (map (λ t. substitute t id) ss)
            (substitute-contains id s plain h) (substitute-All id ss plain hs),
      )
      (any-Mem_iff (stringify sprint (attribute attributes field))
        (map (λ t. substitute t id) (s ∷ ss)))
