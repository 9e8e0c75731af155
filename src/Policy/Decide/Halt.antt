-- ===== src/Policy/Decide/Halt.antt =====
-- go/policy/decide.go: a tenant's switch for its agents, and the limits that `Decide` returns.
use ivorycom_governance.Common.{
  ℕ, zero, suc, false, ◌≡◌, ◌≢◌, ◌⊎◌, refl, ap, ◌∙◌, inl, inr, true, Option, none, some, arith,
}
use ivorycom_governance.Common.Int.{ℤ, pos, negsuc, ◌≤ℤ◌, ◌<ℤ◌}
use ivorycom_governance.Policy.Model.{
  CompiledBundle, Decision, CapabilityRule, AutonomyProfile, Limits, zero_limits, autonomy_for,
  autonomy_enabled, autonomy_restricted,
}
use ivorycom_governance.Policy.Decide.Types.{effect_deny, DecisionRequest, is_agent_class}
use ivorycom_governance.Policy.Decide.Choice.{outcome}
use ivorycom_governance.Policy.Decide.Stages.{decide}
use ivorycom_governance.Policy.Decide.Gates.{actor_of}
use ivorycom_governance.Policy.Decide.Clearance.{agent, other, decide-cases}

-- The tenant has not switched its agents on: it has no profile, or one whose mode is neither of the
-- two that let agents act.
abbrev pub IsHalted : Option AutonomyProfile → Type 0
IsHalted none = Unit
IsHalted (some profile) = (profile.mode ≢ autonomy_enabled) × (profile.mode ≢ autonomy_restricted)

IsHalted-not-running :
    (o : Option AutonomyProfile) (profile : AutonomyProfile)
    → IsHalted o
    → o ≡ some profile
    → (profile.mode ≡ autonomy_enabled) ⊎ (profile.mode ≡ autonomy_restricted)
    → ⊥
IsHalted-not-running none profile h e r = cc
IsHalted-not-running (some p) profile (off, off') e r = ground arith

-- Where a tenant has not switched its agents on, every request by an agent-class actor is denied,
-- whatever its risk, the rules and the capabilities, and with a verified approval too.
pub decide-deny_of_IsHalted :
    (first second : CompiledBundle) (req : DecisionRequest)
    → is_agent_class (actor_of req) ≡ true
    → IsHalted (autonomy_for first req.identity.tenant_id)
    → (decide first second req).effect ≡ effect_deny
decide-deny_of_IsHalted first second req is_agent halted = elim (decide-cases first second req) [
  | inl denial ↦ denial.denies
  | inr (agent profile cap _ common delegated e) ↦
      absurd
        (IsHalted-not-running _ profile halted delegated.usable.configured delegated.usable.running)
  | inr (other not_agent common e) ↦ cc
]

-- No limit is negative.
pub record IsBounded (l : Limits) : Type 0 where
  pub per_run : pos 0 ≤ℤ l.max_actions_per_run
  pub per_hour : pos 0 ≤ℤ l.max_actions_per_hour
  pub money : pos 0 ≤ℤ l.max_money_movement_minor

zero_limits-IsBounded : IsBounded zero_limits
zero_limits-IsBounded = record {
  per_run = omega arith;
  per_hour = omega arith;
  money = omega arith;
}

outcome-limits :
    (req : DecisionRequest) (n : ℕ) (profile : AutonomyProfile) (cap : CapabilityRule)
    (rbac : Decision)
    → (outcome req n profile cap rbac).limits_required ≡ zero_limits
unfolding outcome
outcome-limits req n profile cap rbac = refl

positive : (limit : ℤ) → pos 0 ≤ℤ limit → limit ≢ pos 0 → pos 0 <ℤ limit
positive (pos zero) h h' = absurd (h' refl)
positive (pos (suc n)) h h' = omega arith
positive (negsuc n) h h' = omega arith

-- The limits of every result are at least 0. For an agent-class actor that moves money, a result
-- that is not a denial has a limit on money above 0.
pub decide-IsBounded :
    (first second : CompiledBundle) (req : DecisionRequest)
    → IsBounded (decide first second req).limits_required
      × ((is_agent_class (actor_of req) ≡ false)
          ⊎ (req.amount_minor ≤ℤ pos 0)
          ⊎ ((decide first second req).effect ≡ effect_deny)
          ⊎ (pos 0 <ℤ (decide first second req).limits_required.max_money_movement_minor))
decide-IsBounded first second req = elim (decide-cases first second req) [
  | inl denial ↦ (rw denial.no_limits zero_limits-IsBounded, inr (inr (inl denial.denies)))
  | inr (agent profile cap _ common delegated e) ↦
      let limits : (decide first second req).limits_required ≡ profile.limits =
        ap (λ r. r.limits_required) e in
      let usable = delegated.usable in
      rw limits (
        record { per_run = usable.per_run; per_hour = usable.per_hour; money = usable.money },
        elim delegated.capable.funded [
          | inl no_money ↦ inr (inl no_money)
          | inr funded ↦ inr (inr (inr (positive _ usable.money funded)))
        ],
      )
  | inr (other not_agent common e) ↦
      let limits : (decide first second req).limits_required ≡ zero_limits =
        ap (λ r. r.limits_required) e ∙ outcome-limits req _ _ _ _ in
      rw limits (zero_limits-IsBounded, inl not_agent)
]
