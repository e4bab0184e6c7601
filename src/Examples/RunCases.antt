-- ===== src/Examples/RunCases.antt =====
-- Runs of an issued claim (internal/app/run_service.go).
use agenova.Prelude.{
  ℕ, suc, String, true, false, List, [], ◌∷◌, Option, some, none, ok, ◌≡◌, ◌≢◌, ◌⊎◌, refl,
  string_eq, nat_eq, ◌==◌, arith,
}
use agenova.Prelude.Int.{pos}
use agenova.Prelude.Texts.{is_blank, is_trimmed}
use agenova.Api.{BackendIdentity, SandboxClaim, allow}
use agenova.Api.Credentials.{find_reserved_credential_field_name}
use agenova.Api.Errors.{validate_network_profiles}
use agenova.Api.Issued.{
  IssuedState, validate_issued_state, decision_matches, grant_check, evidence_check,
}
use agenova.Run.Backend.{Ports, work_done}
use agenova.Run.Service.{
  RunService, Errors, Call, allocated, started, activated, worked, revoked, terminated, cleaned,
  Execution, new_run_service, succeeded, failed_phase, expired, allowed_transition, transition,
  reserve_identity, publish, insert, record_event, next_state, validate_allocation,
  validate_observation, validate_network_evidence,
}
use agenova.Run.Teardown.{finish, teardown, give_up, revoke_network, context_first, deadline_first}
use agenova.Run.Stages.{
  bound_stage, poll, start_stage, running_stage, network_stage, activated_stage, before_work,
  work_stage, stop_work,
}
use agenova.Run.Context.{
  ResolvedLaunch, Initial, validate_initial_run, allocation_stage, inserted_stage, run_context,
}
use agenova.Run.Ending.Polled.{IsTimed}
use agenova.Run.Ending.Termination.{run_context-Given}
use agenova.Run.Phases.{IsAt}
use agenova.Run.Owners.{Steps, transition-Steps, reserve_identity-owner}

abbrev worker : BackendIdentity
worker = record { backend = "kubernetes"; worker_id = "worker-1"; allocation_id = "" }

abbrev state : IssuedState
state = record {
  request_ref = "request-1";
  principal = record { subject = "alice"; team = "team-a"; authentication_context = "oidc" };
  action = record { name = "claim.create"; project = "payments"; template_ref = "engineer" };
  policy_ref = record { id = "reference"; version = "1" };
  effective_authority = some (record {
    id = "authority-1";
    tools = [];
    resource_scopes = [];
    model_profile = "small";
    memory_scopes = [];
    network_profiles = [];
    runtime = record { max_model_calls = pos 0; profile_ref = "sandbox"; timeout = pos 30 };
  });
  claim = some (record {
    id = "claim-1";
    request_ref = "request-1";
    template_ref = "engineer";
    authority_ref = "authority-1";
    phase = "Pending";
    backend_identity = none;
  });
  decision = record {
    id = "decision-1";
    principal_ref = "alice";
    action = "claim.create";
    result = allow;
    policy_ref = record { id = "reference"; version = "1" };
    reason = "matched";
  };
  evidence = record {
    request_ref = "request-1";
    claim_id = "claim-1";
    decision_ids = "decision-1" ∷ [];
    runtime_events = [];
    tool_invocations = [];
    model_invocations = [];
  };
}

-- The world is the time. The worker is ready from 2 on.
abbrev ports : Ports ℕ
ports = record {
  allocate = λ request w. (w, ok (record { claim_id = "claim-1"; identity = worker }));
  observe = λ id w. (w, ok (record { claim_id = "claim-1"; identity = worker; ready = w == 2 }));
  start = λ id w. (w, none);
  terminate = λ id w. (w, none);
  cleanup = λ id w. (w, ok (record { identity = worker; released = true }));
  network = true;
  activate_network = λ id w. (
    w,
    record {
      evidence = ok (record {
        claim_id = "claim-1";
        identity = worker;
        profiles = [];
        expires_at = 30;
        state = "Active";
        evidence_level = "Simulated";
      });
      context = none;
    },
  );
  revoke_network = λ id w. (
    w,
    ok (record {
      claim_id = "claim-1";
      identity = worker;
      profiles = [];
      expires_at = 30;
      state = "Revoked";
      evidence_level = "Simulated";
    }),
  );
  now = λ w. (w, w);
  wait = λ w. suc w;
  on_event = none;
  context = λ w. (w, none);
  context_deadline = none;
  begin_work = λ w. w;
  select_work = λ w. (w, work_done none);
  join_work = λ w. w;
}

abbrev launch : ResolvedLaunch
launch = record { profile_ref = "sandbox"; template_ref = "pool"; input = [] }

abbrev start : Execution ℕ
start = record { service = new_run_service; world = 0; calls = [] }

opened : Unit {0}
unfolding new_run_service validate_initial_run validate_issued_state decision_matches grant_check
    evidence_check is_blank is_trimmed validate_network_profiles find_reserved_credential_field_name
    run_context insert publish inserted_stage allocation_stage bound_stage poll start_stage
    running_stage network_stage activated_stage before_work work_stage stop_work finish teardown
    give_up revoke_network context_first deadline_first transition record_event next_state
    allowed_transition reserve_identity validate_allocation validate_observation
    validate_network_evidence
opened = tt

abbrev calls_of : Option (Execution ℕ × Errors) → List Call
calls_of none = []
calls_of (some r) = r.0.calls

abbrev initial_claim : SandboxClaim
initial_claim = record {
  id = "claim-1";
  request_ref = "request-1";
  template_ref = "engineer";
  authority_ref = "authority-1";
  phase = "Pending";
  backend_identity = none;
}

abbrev initial : Initial
initial = record {
  issued = state;
  claim = initial_claim;
  authority = record {
    id = "authority-1";
    tools = [];
    resource_scopes = [];
    model_profile = "small";
    memory_scopes = [];
    network_profiles = [];
    runtime = record { max_model_calls = pos 0; profile_ref = "sandbox"; timeout = pos 30 };
  };
}

-- The calls of a run that succeeds, the latest first.
calls_made :
    calls_of (run_context ports 4 (some state) launch start)
    ≡ cleaned worker
      ∷ terminated worker
      ∷ revoked worker
      ∷ worked
      ∷ activated worker
      ∷ started worker
      ∷ allocated "claim-1"
      ∷ []
unfolding opened
calls_made = refl

timed : IsTimed ports
timed = record {
  time = λ w. w;
  read = λ w. omega arith;
  now_later = λ w. omega arith;
  context_later = λ w. omega arith;
  observe_later = λ id w. omega arith;
  wait_later = λ w. omega arith;
}

run_context-Given_example :
    (fuel : ℕ) × ((r : Execution ℕ × Errors) × (run_context ports fuel (some state) launch start
        ≡ some r))
run_context-Given_example = run_context-Given ports (some state) launch start timed

abbrev result_of : Option (Execution ℕ × Errors) → Execution ℕ × Errors
result_of none = (start, [])
result_of (some r) = r

abbrev result : Execution ℕ × Errors
result = result_of (run_context ports 4 (some state) launch start)

ran : run_context ports 4 (some state) launch start ≡ some result
unfolding opened
ran = refl

transition-Steps_example :
    Steps "claim-1" failed_phase none result.0.service
      (transition ports "claim-1" failed_phase "Failed" none result.0).0.service
    × (allowed_transition succeeded failed_phase ≡ false)
    × (allowed_transition failed_phase failed_phase ≡ false)
    × (allowed_transition expired failed_phase ≡ false)
transition-Steps_example = transition-Steps ports "claim-1" failed_phase "Failed" none result.0

reserve_identity-owner_example :
    let (s', e) = reserve_identity "claim-2" worker result.0.service in
    ((other : BackendIdentity) (owner : String)
      → result.0.service.identity_owner other ≡ some owner
      → s'.identity_owner other ≡ some owner)
    × (((e ≡ []) × (s'.identity_owner worker ≡ some "claim-2"))
        ⊎ ((e ≢ []) × (s' ≡ result.0.service)))
reserve_identity-owner_example = reserve_identity-owner "claim-2" worker result.0.service

-- The service after the run.
abbrev pub ended_service : RunService
ended_service = result.0.service

abbrev state_of : Option IssuedState → IssuedState
state_of none = state
state_of (some st) = st

abbrev claim_of_state : Option SandboxClaim → SandboxClaim
claim_of_state none = initial_claim
claim_of_state (some c) = c

pub ended-IsAt : IsAt "claim-1" succeeded ended_service
unfolding opened
ended-IsAt = record {
  state = state_of (ended_service.state "claim-1");
  claim = claim_of_state (state_of (ended_service.state "claim-1")).claim;
  stored = refl;
  claimed = refl;
  at = refl;
  valid = refl;
}
