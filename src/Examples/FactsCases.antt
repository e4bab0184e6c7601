-- ===== src/Examples/FactsCases.antt =====
-- A journal with one governed tool call (internal/facts/journal.go), and the theorems at it.
use agenova.Prelude.{
  ◌≤◌, String, true, List, [], ◌∷◌, ◌++◌, Option, some, none, map, count, ◌≡◌, ◌≢◌, ◌↔◌, refl,
  arith, false_ne, string_eq,
}
use mathlib.Core.List.{Memᴰ}
use agenova.Prelude.Int.{pos, leb_ℤ}
use agenova.Api.{Principal, PolicyReference, SandboxClaim, BackendIdentity}
use agenova.Facts.{Fact, Journal, new_journal}
use agenova.Facts.Registration.{register_request, bind_claim}
use agenova.Facts.Append.{Sink, append_with, append, chosen}
use agenova.Facts.Reserve.{reserve_model_call, reservation}
use agenova.Facts.Checks.{
  content_check, claim_check, action_check, action_ref_check, budget_check, decision_check,
  authority_check, backend_check, invocation_check,
}
use agenova.Prelude.Decimal.{decimal}
use agenova.Facts.Stages.{decides, allows, attempts, concludes}
use agenova.Facts.Reach.{Reach, created, registered, claimed, appended}
use agenova.Facts.Gate.{provider_gate}
use agenova.Facts.Order.{IsOrdered, journal_order}
use agenova.Facts.Correlation.{fact_correlation, claims_one_to_one}
use agenova.Facts.Budget.{reserves, budget_bound}
use agenova.Facts.Backends.{worker_exclusive}
use agenova.Facts.Commit.{
  IsAtomic, append_with-IsAtomic, IsReservation, reserve_model_call-IsReservation,
}

abbrev alice : Principal
alice = record { subject = "alice"; team = "team-a"; authentication_context = "oidc" }

abbrev claim : SandboxClaim
claim = record {
  id = "claim-1";
  request_ref = "request-1";
  template_ref = "engineer";
  authority_ref = "authority-1";
  phase = "Running";
  backend_identity = none;
}

abbrev worker : BackendIdentity
worker = record { backend = "agent-sandbox"; worker_id = "worker-1"; allocation_id = "" }

abbrev policy : PolicyReference
policy = record { id = "reference"; version = "1" }

-- A fact of invocation `invocation-1`, of the given kind.
abbrev observed : String → Fact
observed kind = record (reservation "request-1" "claim-1" "invocation-1" (pos 0) 0) {
  kind = kind;
  model_call_count = pos 0;
  reason_code = "reason";
  operation = "tool.invoke";
}

abbrev decision : Fact
decision = record (observed "ToolDecision") { result = "Allow"; policy_ref = some policy }

abbrev placement : Fact
placement = record (observed "Runtime") { invocation_id = ""; backend_identity = some worker }

-- The durable store is the list of what was committed; it never fails.
abbrev keep : Sink (List Fact)
keep log f = (log ++ f ∷ [], none)

abbrev store : Option (Sink (List Fact))
store = some keep

abbrev one_more : Journal → Fact → Journal
one_more j f = (append_with store none j [] 1000 f).0

abbrev opened : Journal
opened = (bind_claim (register_request (new_journal 0) "request-1" alice).0 "request-1" claim).0

abbrev final : Journal
final =
    one_more
      (one_more
        (one_more (one_more (one_more opened placement) decision) (observed "ProviderAttempt"))
        (record (observed "ProviderOutcome") { provider_status = "Succeeded" }))
      (reservation "request-1" "claim-1" "invocation-2" (pos 5) 0)

abbrev opened_reach : Reach (List Fact) opened
opened_reach = claimed "request-1" claim (registered "request-1" alice (created 0 (omega arith)))

abbrev step_reach :
    {j : Journal} (f : Fact) → Reach (List Fact) j → Reach (List Fact) (one_more j f)
step_reach f r = appended store none [] 1000 f r

final_reach : Reach (List Fact) final
final_reach = step_reach (reservation "request-1" "claim-1" "invocation-2" (pos 5) 0) (
    step_reach (record (observed "ProviderOutcome") { provider_status = "Succeeded" })
      (step_reach (observed "ProviderAttempt")
        (step_reach decision (step_reach placement opened_reach))))

-- What has to be opened to run the journal.
evaluation : Unit {0}
unfolding append_with append new_journal register_request bind_claim reserve_model_call
    content_check claim_check action_check action_ref_check budget_check decision_check
    authority_check backend_check invocation_check decimal
evaluation = tt

five_facts :
    map (λ (f : Fact). f.kind) final.facts
    ≡ "Runtime" ∷ "ToolDecision" ∷ "ProviderAttempt" ∷ "ProviderOutcome" ∷ "ModelBudgetReservation"
      ∷ []
unfolding evaluation
five_facts = refl

-- A second attempt is refused.
no_second_attempt : one_more final (observed "ProviderAttempt") ≡ final
unfolding evaluation
no_second_attempt = refl

abbrev allowed : Journal
allowed = one_more (one_more opened placement) decision

allowed_reach : Reach (List Fact) allowed
allowed_reach = step_reach decision (step_reach placement opened_reach)

abbrev placed : Fact
placed = record placement { id = "fact:1"; sequence = 1; timestamp = 1000 }

abbrev decided : Fact
decided = record decision { id = "fact:2"; sequence = 2; timestamp = 1000 }

placed_recorded : Memᴰ placed allowed.facts
unfolding evaluation
placed_recorded = Memᴰ.head refl

decided_recorded : Memᴰ decided allowed.facts
unfolding evaluation
decided_recorded = Memᴰ.tail (Memᴰ.head refl)

invocation_named : ◌≢◌ {A = String} "invocation-1" ""
invocation_named = false_ne {A = String} "invocation-1" "" refl

provider_gate_example :
    (count (concludes "invocation-1") final.facts ≤ count (attempts "invocation-1") final.facts)
    × (count (attempts "invocation-1") final.facts ≤ count (allows "invocation-1") final.facts)
    × (count (allows "invocation-1") final.facts ≤ count (decides "invocation-1") final.facts)
    × (count (decides "invocation-1") final.facts ≤ 1)
provider_gate_example = provider_gate (List Fact) final "invocation-1" final_reach invocation_named

journal_order_example : IsOrdered final
journal_order_example = journal_order (List Fact) final final_reach

fact_correlation_example :
    (decided.claim_id ≡ decided.claim_id) × (decided.request_ref ≡ decided.request_ref)
fact_correlation_example =
    fact_correlation (List Fact) allowed decided decided allowed_reach decided_recorded
      decided_recorded invocation_named refl

claims_one_to_one_example :
    (opened.claims "claim-1" ≡ some "request-1")
    ↔ (opened.request_claims "request-1" ≡ some "claim-1")
claims_one_to_one_example = claims_one_to_one (List Fact) opened "claim-1" "request-1" opened_reach

worker_exclusive_example : (placed.claim_id ≡ placed.claim_id) ↔ (worker ≡ worker)
worker_exclusive_example =
    worker_exclusive (List Fact) allowed placed placed worker worker allowed_reach placed_recorded
      placed_recorded refl refl

abbrev budgeted : Journal
budgeted = one_more opened (reservation "request-1" "claim-1" "invocation-2" (pos 5) 0)

budgeted_reach : Reach (List Fact) budgeted
budgeted_reach =
    step_reach (reservation "request-1" "claim-1" "invocation-2" (pos 5) 0) opened_reach

abbrev reserved_call : Fact
reserved_call = record (reservation "request-1" "claim-1" "invocation-2" (pos 5) 0) {
  id = "fact:1";
  sequence = 1;
  timestamp = 1000;
}

reserved_recorded : Memᴰ reserved_call budgeted.facts
unfolding evaluation
reserved_recorded = Memᴰ.head refl

budget_bound_example :
    (leb_ℤ (pos (count (reserves "request-1") budgeted.facts)) (pos 5) ≡ true)
    × (leb_ℤ (pos 5) (pos 1000) ≡ true)
budget_bound_example =
    budget_bound (List Fact) budgeted reserved_call budgeted_reach reserved_recorded refl

append_with-IsAtomic_example :
    IsAtomic (chosen store none) opened [] decision (append_with store none opened [] 1000 decision)
append_with-IsAtomic_example = append_with-IsAtomic store none opened [] 1000 decision

reserve_model_call-IsReservation_example :
    IsReservation "request-1"
      (pos 1)
      budgeted
      []
      (reserve_model_call store budgeted [] 1000 "request-1" "claim-1" "invocation-3" (pos 1))
reserve_model_call-IsReservation_example =
    reserve_model_call-IsReservation store budgeted [] 1000 "request-1" "claim-1" "invocation-3"
      (pos 1)
