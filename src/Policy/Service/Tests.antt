-- ===== src/Policy/Service/Tests.antt =====
-- A decision of a service whose loader has loaded one published bundle.
use ivorycom_governance.Common.{◌⊎◌, ◌∷◌, arith, false, ◌≢◌, ◌≡◌, refl, true, [], string_eq}
use ivorycom_governance.Common.Int.{pos, ◌≤ℤ◌}
use ivorycom_governance.Policy.Model.{CompiledBundle}
use ivorycom_governance.Policy.Decide.Types.{
  effect_deny, effect_allow, DecisionRequest, is_agent_class,
}
use ivorycom_governance.Policy.Decide.Clearance.{IsCleared}
use ivorycom_governance.Policy.Decide.Sample.{program}
use ivorycom_governance.Policy.Bundle.{new_loader, tick, done}
use ivorycom_governance.Policy.Bundle.Sample.{
  loader, envelope, bundle, holding, answer, externals, trusting, key, IsTwo, externals-IsUnforged,
}
use ivorycom_governance.Policy.Bundle.Published.{IsFrom}
use ivorycom_governance.Policy.Bundle.Race.{Reloading, begin, finish}
use ivorycom_governance.Policy.Bundle.Concurrent.{
  World, quiet, Reach, here, next, reads, stores, this,
}
use ivorycom_governance.Policy.Service.{
  engine_can, engine_can_record, engine_decide, service_engine,
}
use ivorycom_governance.Policy.Bundle.Cache.{HoldsAtLeast, Delivers}
use ivorycom_governance.Policy.Bundle.Versions.{now, later}
use ivorycom_governance.Policy.Service.Watched.{watch-deny_of_IsOffSince}
use ivorycom_governance.Policy.Service.Freshness.{engine_decide-HoldsAtLeast}
use ivorycom_governance.Policy.Service.Revoked.{IsRevokedSince, engine-deny_of_IsRevokedSince}
use ivorycom_governance.Policy.Service.Halt.{IsOffSince, engine_decide-deny_of_IsOffSince}
use ivorycom_governance.Policy.Wire.{unmarshal_json}
use ivorycom_governance.Common.Result.{ok}
use ivorycom_governance.Policy.Service.Safety.{engine_decide-IsFrom}

abbrev storing : Reloading
storing = record { bundle = bundle 2; stores = true }

loaded-Reach : Reach externals (quiet (new_loader key)) (quiet (holding 2))
unfolding loader externals begin finish
loaded-Reach = next (next here (reads (answer 2) storing refl)) (stores storing [] this)

abbrev storing_newer : Reloading
storing_newer = record { bundle = bundle 3; stores = true }

-- Two goroutines have read before either stores, and the one with the newer bundle has stored.
abbrev raced : World
raced = record { loader = holding 3; pending = storing ∷ [] }

raced-Reach : Reach trusting (quiet (holding 1)) raced
unfolding loader externals begin finish
raced-Reach =
    next (next (next here (reads (answer 2) storing refl)) (reads (answer 3) storing_newer refl))
      (stores storing_newer (storing ∷ []) this)

-- Then the other stores the older one.
overwritten-Reach : Reach trusting raced (quiet (holding 2))
unfolding finish
overwritten-Reach = next here (stores storing [] this)

abbrev reading : DecisionRequest
reading = record {
  identity = record {
    actor_type = "USER";
    agent_id = "";
    tenant_id = "t1";
    user_id = "u1";
    user_role = "reader";
  };
  action = "crm.read";
  object_type = "lead";
  action_verb = "read";
  field = "";
  risk = "LOW";
  approval_verified = false;
  amount_minor = pos 0;
  service_allowed = false;
  mutates_tenant_data = false;
}

reads_test :
    (engine_decide service_engine (quiet (holding 2)) (quiet (holding 2)) reading).effect
    ≡ effect_allow
unfolding engine_decide service_engine program loader
reads_test = refl

not_denied :
    (engine_decide service_engine (quiet (holding 2)) (quiet (holding 2)) reading).effect
    ≢ effect_deny
not_denied h = let e = reads_test in cc

engine_decide-IsFrom_example :
    (b : CompiledBundle) × (c : CompiledBundle) × IsFrom externals IsTwo b
    × IsFrom externals IsTwo c
    × IsCleared b c reading
    × ((engine_decide service_engine (quiet (holding 2)) (quiet (holding 2)) reading).policy_version
        ≡ b.version)
engine_decide-IsFrom_example =
    engine_decide-IsFrom externals key IsTwo externals-IsUnforged (quiet (holding 2))
      (quiet (holding 2)) reading loaded-Reach here not_denied

engine_decide-HoldsAtLeast_example :
    HoldsAtLeast (holding 3) (bundle 1)
    × HoldsAtLeast (holding 2) (bundle 1)
    × (pos 1 ≤ℤ (engine_decide service_engine raced (quiet (holding 2)) reading).policy_version)
engine_decide-HoldsAtLeast_example =
    engine_decide-HoldsAtLeast trusting (holding 1) (bundle 1) raced (quiet (holding 2)) reading
      refl (omega arith) raced-Reach overwritten-Reach

-- an agent of the tenant, whose profile in the bundle has no mode
abbrev acting : DecisionRequest
acting = record reading {
  identity = record reading.identity { actor_type = "AGENT"; agent_id = "a1" };
  approval_verified = true;
}

two_of_IsFrom : (b : CompiledBundle) → IsFrom externals IsTwo b → bundle 2 ≡ b
unfolding loader externals
two_of_IsFrom b (body, (two, same), decoded) =
    let e : unmarshal_json externals.decode_wire (2 ∷ []) ≡ ok b = rw same at decoded in cc

IsTwo-IsOffSince : IsOffSince externals IsTwo "t1" (pos 2)
unfolding program
IsTwo-IsOffSince b from late = rw (← two_of_IsFrom b from) ((λ h. cc), (λ h. cc))

-- The bundle is fetched again, and the reload that finds it ends.
abbrev refetched : World
refetched = record {
  loader = holding 2;
  pending = record { bundle = bundle 2; stores = false } ∷ [];
}

refetched-Reach : Reach externals (quiet (holding 2)) refetched
unfolding loader externals begin finish
refetched-Reach = next here (reads (answer 2) (record { bundle = bundle 2; stores = false }) refl)

settled-Reach : Reach externals refetched (quiet (holding 2))
unfolding finish
settled-Reach = next here (stores (record { bundle = bundle 2; stores = false }) [] this)

agent_is_agent : is_agent_class "AGENT" ≡ true
unfolding is_agent_class
agent_is_agent = refl

engine_decide-deny_of_IsOffSince_example :
    (engine_decide service_engine refetched (quiet (holding 2)) acting).effect ≡ effect_deny
engine_decide-deny_of_IsOffSince_example =
    engine_decide-deny_of_IsOffSince externals key IsTwo (pos 2) (holding 2) (bundle 2) refetched
      (quiet (holding 2)) acting externals-IsUnforged IsTwo-IsOffSince loaded-Reach refl
      (omega arith) refetched-Reach settled-Reach agent_is_agent

-- a caller whose role has no rule in the bundle
abbrev withdrawn : DecisionRequest
withdrawn = record reading { identity = record reading.identity { user_role = "former" } }

IsTwo-IsRevokedSince : IsRevokedSince externals IsTwo withdrawn.identity "lead" (pos 2)
unfolding program
IsTwo-IsRevokedSince b from late =
    rw (← two_of_IsFrom b from) (record { system = refl; tenant = refl })

engine-deny_of_IsRevokedSince_example :
    ((engine_can service_engine refetched withdrawn.identity "read" "lead" "name").allow ≡ false)
    × ((engine_can_record service_engine
          (λ (u : Unit {0}). "")
          refetched
          (quiet (holding 2))
          withdrawn.identity
          "read"
          "lead"
          []).allow
        ≡ false)
    × (((engine_decide service_engine refetched (quiet (holding 2)) withdrawn).effect ≡ effect_deny)
        ⊎ (false ≡ true))
engine-deny_of_IsRevokedSince_example =
    engine-deny_of_IsRevokedSince (λ (u : Unit {0}). "") externals key IsTwo (pos 2) (holding 2)
      (bundle 2) refetched (quiet (holding 2)) withdrawn "name" [] externals-IsUnforged
      IsTwo-IsRevokedSince loaded-Reach refl (omega arith) refetched-Reach settled-Reach

two-Delivers : Delivers externals key (answer 2) (bundle 2)
unfolding loader externals
two-Delivers = record {
  raw = 2 ∷ [];
  env = envelope 2;
  sig = 0 ∷ [];
  arrives = refl;
  decodes = refl;
  sig_decodes = refl;
  signs = refl;
  body_decodes = refl;
  same_version = refl;
}

watch-deny_of_IsOffSince_example :
    (engine_decide service_engine refetched (quiet (holding 2)) acting).effect ≡ effect_deny
unfolding loader externals
watch-deny_of_IsOffSince_example =
    watch-deny_of_IsOffSince externals key IsTwo (pos 2) (answer 3) (answer 2)
      (tick (answer 2) ∷ done ∷ []) (bundle 2) refetched (quiet (holding 2)) acting
      externals-IsUnforged IsTwo-IsOffSince (later now) two-Delivers (omega arith) refetched-Reach
      settled-Reach agent_is_agent
