-- ===== src/Policy/Decide/Executor.antt =====
-- go/policy/decide.go: a verified approval as what it stands for, a grant of RBAC.
use ivorycom_governance.Common.{ℕ, ◌≡◌, ◌≢◌, ◌⊎◌, refl, inl, inr, true, Bool-cases, string_eq}
use ivorycom_governance.Policy.Model.{Decision, CompiledBundle}
use ivorycom_governance.Policy.Decide.Types.{
  effect_deny, DecisionRequest, DecisionResult, is_agent_class,
}
use ivorycom_governance.Policy.Decide.Stages.{
  Gate, refused, passed, ◌>>=◌, preconditions, stage_a, check_profile, check_capability, finish,
  ladder, decide,
}
use ivorycom_governance.Policy.Decide.Gates.{actor_of}
use ivorycom_governance.Policy.Decide.Refusals.{ladder-Refuses}
use ivorycom_governance.Policy.Decide.Clearance.{rbac_of, ladder-Cleared, Cleared-effect}
use ivorycom_governance.Policy.Decide.Guardrails.{permits}
use ivorycom_governance.Policy.Decide.Approval.{approve, approved-permits}

-- Two runs are refused alike, or both pass.
data RefusedAlike {ℓ} {A : Type ℓ} : Gate A → Gate A → Type ℓ where
  refuse : (r : DecisionResult) → RefusedAlike (refused r) (refused r)
  pass : (a b : A) → RefusedAlike (passed a) (passed b)

>>=-RefusedAlike {ℓ κ} :
    {A : Type ℓ} {B : Type κ} (g : Gate A) (k l : A → Gate B)
    → ((a : A) → RefusedAlike (k a) (l a))
    → RefusedAlike (g >>= k) (g >>= l)
>>=-RefusedAlike (refused r) k l h = refuse r
>>=-RefusedAlike (passed a) k l h = h a

module _ (first second granting : CompiledBundle) (req : DecisionRequest) where
  preconditions-approve : preconditions first (approve req) ≡ preconditions first req
  unfolding preconditions
  preconditions-approve = refl

  stage_a-approve :
      (n : ℕ) (rbac rbac' : Decision)
      → rbac'.allow ≡ true
      → stage_a first (approve req) n rbac ≡ stage_a first req n rbac'
  unfolding stage_a
  stage_a-approve n rbac rbac' granted = elim (Bool-cases rbac.allow) [
    | inl allowed ↦ rw (granted, allowed) refl
    | inr denied ↦ rw (granted, denied) refl
  ]

  finish-approve :
      (n : ℕ) (rbac rbac' : Decision)
      → RefusedAlike (finish first (approve req) n rbac) (finish first req n rbac')
  unfolding finish check_profile check_capability
  finish-approve n rbac rbac' = elim (Bool-cases (is_agent_class (actor_of req))) [
    | inl is_agent ↦ rw is_agent (
        >>=-RefusedAlike (check_profile first req) _ _
          λ profile. >>=-RefusedAlike (check_capability first req profile) _ _ λ cap. pass _ _)
    | inr not_agent ↦ rw not_agent (pass _ _)
  ]

  ladder-approve :
      (rbac_of first granting req).allow ≡ true
      → RefusedAlike (ladder first second (approve req)) (ladder first granting req)
  unfolding ladder
  ladder-approve granted = rw preconditions-approve (
      >>=-RefusedAlike (preconditions first req) _ _ λ n.
        rw (stage_a-approve n (rbac_of first second req) (rbac_of first granting req) granted) (
          >>=-RefusedAlike (stage_a first req n (rbac_of first granting req)) _ _
            λ _. finish-approve n (rbac_of first second req) (rbac_of first granting req)))

  -- What `decide` makes of two such runs, given that the runs are these.
  decide-RefusedAlike :
      (g h : Gate DecisionResult)
      → RefusedAlike g h
      → ladder first second (approve req) ≡ g
      → ladder first granting req ≡ h
      → (((decide first granting req).effect ≡ effect_deny)
          × (decide first second (approve req) ≡ decide first granting req))
        ⊎ (((decide first granting req).effect ≢ effect_deny)
            × (permits (decide first second (approve req)).effect ≡ true))
  unfolding decide
  decide-RefusedAlike g h (refuse r) e e' =
      inl ((rw e' ((ladder-Refuses first req granting).at r e').denies), rw (e, e') refl)
  decide-RefusedAlike g h (pass a b) e e' = inr (
    (rw e' (Cleared-effect first granting req (ladder-Cleared first granting req b e'))),
    approved-permits first second (approve req) refl (
        rw e (
          Cleared-effect first second (approve req)
            (ladder-Cleared first second (approve req) a e))),
  )

-- A verified approval stands for a grant of RBAC and for nothing else. Let RBAC allow a request under
-- some bundle, which `Can` may read. Then the request with a verified approval, under whatever
-- bundle `Can` reads for it, gets the very denial that the request gets under that grant, its code,
-- its text and its version included, or neither is denied, and the approved one goes through: an
-- approval relaxes who may carry an action out, and not what may be carried out.
pub approve-stands_for_rbac :
    (first second granting : CompiledBundle) (req : DecisionRequest)
    → (rbac_of first granting req).allow ≡ true
    → (((decide first granting req).effect ≡ effect_deny)
        × (decide first second (approve req) ≡ decide first granting req))
      ⊎ (((decide first granting req).effect ≢ effect_deny)
          × (permits (decide first second (approve req)).effect ≡ true))
approve-stands_for_rbac first second granting req granted =
    decide-RefusedAlike first second granting req _ _
      (ladder-approve first second granting req granted) refl refl
