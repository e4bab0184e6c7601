-- ===== src/Examples/SandboxCases.antt =====
-- A pool of two sandboxes (internal/sandbox/pool.go), one claim through its life, and the theorems.
use agenova.Prelude.{
  String, List, [], ◌∷◌, ok, err, map, length, All, ◌≡◌, ◌≢◌, refl, arith, false_ne, string_eq,
}
use agenova.Prelude.Int.{pos}
use agenova.Prelude.Decimal.{decimal}
use agenova.Sandbox.{
  Sandbox, WarmPool, PoolSpec, idle, Call, claims, runs, succeeds, replaces, new_warm_pool, after,
  after_all, on_sandbox, claim_first, claim_idle, name_required, replicas_required,
}
use agenova.Sandbox.Ids.{sandbox_id}
use agenova.Sandbox.Steps.{Step, after-Step}
use agenova.Sandbox.Invariant.{IsValid}
use agenova.Sandbox.Creation.{new_warm_pool-IsValid}
use agenova.Sandbox.Isolation.{IsReserved, after_all-IsReserved}
use agenova.Sandbox.Accounting.{Outcome, claim_idle-Outcome}

abbrev spec : PoolSpec
spec = record { name = "pool"; template_ref = "engineer"; replicas = pos 2 }

abbrev pool : WarmPool
pool = record {
  name = "pool";
  template_ref = "engineer";
  next_ordinal = 2;
  replaced_count = 0;
  sandboxes =
      record { id = "pool-1"; template_ref = "engineer"; claim_id = ""; phase = idle }
      ∷ record { id = "pool-2"; template_ref = "engineer"; claim_id = ""; phase = idle }
      ∷ [];
}

-- What has to be opened to run the pool.
evaluation : Unit {0}
unfolding new_warm_pool sandbox_id decimal after after_all on_sandbox claim_first
evaluation = tt

made : new_warm_pool spec ≡ ok pool
unfolding evaluation
made = refl

no_name : new_warm_pool (record spec { name = "" }) ≡ err name_required
unfolding new_warm_pool
no_name = refl

no_replicas : new_warm_pool (record spec { replicas = pos 0 }) ≡ err replicas_required
unfolding new_warm_pool
no_replicas = refl

abbrev life : List Call
life =
    claims "claim-a"
    ∷ runs "pool-1" "claim-a"
    ∷ succeeds "pool-1" "claim-a"
    ∷ replaces "pool-1" "claim-a"
    ∷ []

lived : map (λ (s : Sandbox). s.id) (after_all pool life).sandboxes ≡ "pool-3" ∷ "pool-2" ∷ []
unfolding evaluation
lived = refl

wrong_claim : after pool (runs "pool-1" "claim-b") ≡ pool
unfolding evaluation
wrong_claim = refl

claim_named : ◌≢◌ {A = String} "claim-a" ""
claim_named = false_ne {A = String} "claim-a" "" refl

after-Step_example : Step pool (after pool (claims "claim-a"))
after-Step_example = after-Step pool (claims "claim-a")

new_warm_pool-IsValid_example :
    All (λ s. s.phase ≡ idle) pool.sandboxes
    × (length pool.sandboxes ≡ 2)
    × IsValid (after_all pool life)
    × (length (after_all pool life).sandboxes ≡ 2)
new_warm_pool-IsValid_example = new_warm_pool-IsValid spec pool life made

pool-IsValid : IsValid pool
unfolding after_all
pool-IsValid = (new_warm_pool-IsValid spec pool [] made).2

abbrev busy : WarmPool
busy = after pool (claims "claim-a")

busy-IsValid : IsValid busy
unfolding after_all
busy-IsValid = (new_warm_pool-IsValid spec pool (claims "claim-a" ∷ []) made).2

busy-IsReserved : IsReserved "pool-1" "claim-a" busy
unfolding evaluation
busy-IsReserved = record {
  ordinal = 1;
  counted = omega arith;
  printed = refl;
  serves = (λ e. refl, (λ e. absurd (false_ne {A = String} "pool-2" "pool-1" refl e), tt));
}

after_all-IsReserved_example : IsReserved "pool-1" "claim-a" (after_all busy life)
after_all-IsReserved_example =
    after_all-IsReserved "pool-1" "claim-a" busy life claim_named busy-IsValid busy-IsReserved

claim_idle-Outcome_example : Outcome "claim-a" pool (claim_idle pool "claim-a")
claim_idle-Outcome_example = claim_idle-Outcome pool "claim-a" claim_named
