-- ===== src/Examples/GatewayCases.antt =====
-- Calls of the two gateways (internal/toolgateway, internal/modelgateway).
use agenova.Prelude.{
  ℕ, suc, true, [], ◌∷◌, some, none, ok, ◌≡◌, refl, string_eq, if◌then◌else◌, ◌==◌,
}
use agenova.Prelude.Int.{pos}
use agenova.Prelude.Texts.{is_blank}
use agenova.Api.{EffectiveAuthority, SandboxClaim}
use agenova.Api.Credentials.{find_reserved_credential_field_name}
use agenova.Facts.Store.{new_store}
use agenova.WorkloadIdentity.{Identity}
use agenova.Run.Eligibility.{ClaimAuthorityReader, require_running_claim_snapshot}
use agenova.Gateway.Decisions.{allowed, normalize}
use agenova.Gateway.Ports.{Gateway, Host, claim_baseline, notify, record_decision, dispatch}
use agenova.Gateway.Tool
use agenova.Gateway.Model
use agenova.Gateway.Governed.ToolCalls
use agenova.Gateway.Governed.ToolFacts
use agenova.Gateway.Governed.ModelCalls
use agenova.Gateway.Governed.ModelCallers

abbrev claim : SandboxClaim
claim = record {
  id = "claim-1";
  request_ref = "request-1";
  template_ref = "engineer";
  authority_ref = "authority-1";
  phase = "Running";
  backend_identity =
      some (record { backend = "kubernetes"; worker_id = "worker-1"; allocation_id = "" });
}

abbrev authority : EffectiveAuthority
authority = record {
  id = "authority-1";
  tools = "github.read" ∷ [];
  resource_scopes = "repo:pay" ∷ [];
  model_profile = "small";
  memory_scopes = [];
  network_profiles = [];
  runtime = record { max_model_calls = pos 2; profile_ref = "sandbox"; timeout = pos 30 };
}

abbrev reader : ClaimAuthorityReader
reader = record {
  claim = λ id. if id == "claim-1" then some claim else none;
  claim_authority = λ id.
      if id == "claim-1"
      then some (record { claim = claim; effective_authority = authority })
      else none;
}

abbrev worker : Identity
worker = record {
  claim_id = "claim-1";
  worker_id = "worker-1";
  audience = "tool-gateway";
  issuer = "agenova-workload";
  issued_at = pos 1;
  expires = pos 9;
  id = "nonce";
}

-- The world counts the identities that were given out.

abbrev tools : Gateway ℕ agenova.Gateway.Tool.Request
tools = record {
  claims = some (λ w. reader);
  lineage = none;
  adapter = λ id req w. (w, none);
  ids = λ w. (suc w, "inv-1");
  policy = λ req w. (w, allowed);
  observer = none;
  identity = some (λ w token audience. ok worker);
  require_identity = true;
  clock = λ w. w;
  quote = λ s. s;
}

abbrev tool_request : agenova.Gateway.Tool.Request
tool_request = record {
  claim_id = "claim-1";
  tool = "github";
  action = "read";
  resource_scope = "repo:pay";
  parameters = [];
  caller_reference = "";
}

abbrev tool_host : Host ℕ agenova.Gateway.Tool.Request
tool_host = record { world = 0; store = new_store; dispatched = [] }

-- The call is made.
called :
    (agenova.Gateway.Tool.invoke tools tool_request tool_host).host.dispatched
    ≡ ("inv-1", tool_request) ∷ []
unfolding agenova.Gateway.Tool.invoke agenova.Gateway.Tool.admit_request
    agenova.Gateway.Tool.validate agenova.Gateway.Tool.enforce_authority claim_baseline
    require_running_claim_snapshot is_blank find_reserved_credential_field_name notify
    record_decision dispatch normalize
called = refl

-- A scope that is not granted is not.
not_called :
    (agenova.Gateway.Tool.invoke tools
      (record tool_request { resource_scope = "repo:other" })
      tool_host).host.dispatched
    ≡ []
unfolding agenova.Gateway.Tool.invoke agenova.Gateway.Tool.admit_request
    agenova.Gateway.Tool.validate agenova.Gateway.Tool.enforce_authority claim_baseline
    require_running_claim_snapshot is_blank find_reserved_credential_field_name notify
    record_decision dispatch normalize
not_called = refl

invoke-Governed_example :
    agenova.Gateway.Governed.ToolCalls.Governed tools tool_request 1 "inv-1" tool_host
      (agenova.Gateway.Tool.invoke tools tool_request tool_host)
invoke-Governed_example =
    agenova.Gateway.Governed.ToolCalls.invoke-Governed tools tool_request tool_host

invoke-Stored_example :
    agenova.Gateway.Governed.ToolFacts.Stored tools tool_request 1 "inv-1" tool_host
      (agenova.Gateway.Tool.invoke tools tool_request tool_host)
invoke-Stored_example =
    agenova.Gateway.Governed.ToolFacts.invoke-Stored tools tool_request tool_host

invoke_authenticated-Authenticated_example :
    agenova.Gateway.Governed.ToolFacts.Authenticated tools tool_request [] tool_host
      (agenova.Gateway.Tool.invoke_authenticated tools tool_request [] tool_host)
    × (true ≡ true
        → (agenova.Gateway.Tool.invoke_unauthenticated tools tool_request tool_host).host.dispatched
          ≡ [])
invoke_authenticated-Authenticated_example =
    agenova.Gateway.Governed.ToolFacts.invoke_authenticated-Authenticated tools tool_request []
      tool_host

abbrev models : agenova.Gateway.Model.ModelGateway ℕ
models = record {
  base = record {
    claims = some (λ w. reader);
    lineage = none;
    adapter = λ id req w. (w, none);
    ids = λ w. (suc w, "inv-1");
    policy = λ req w. (w, allowed);
    observer = none;
    identity = some (λ w token audience. ok worker);
    require_identity = true;
    clock = λ w. w;
    quote = λ s. s;
  };
  reserve_budget = some (λ req snapshot id w. (suc w, ok true));
}

abbrev model_request : agenova.Gateway.Model.Request
model_request = record {
  claim_id = "claim-1";
  profile = "small";
  parameters = [];
  caller_reference = "";
}

abbrev model_host : Host ℕ agenova.Gateway.Model.Request
model_host = record { world = 0; store = new_store; dispatched = [] }

invoke-Reserved_example :
    agenova.Gateway.Governed.ModelCalls.Governed models model_request 1 "inv-1" model_host
      (agenova.Gateway.Model.invoke models model_request model_host)
invoke-Reserved_example =
    agenova.Gateway.Governed.ModelCalls.invoke-Reserved models model_request model_host

invoke_authenticated-Bound_example :
    agenova.Gateway.Governed.ModelCallers.Authenticated models model_request [] model_host
      (agenova.Gateway.Model.invoke_authenticated models model_request [] model_host)
    × (true ≡ true
        → (agenova.Gateway.Model.invoke_unauthenticated models model_request
            model_host).host.dispatched
          ≡ [])
invoke_authenticated-Bound_example =
    agenova.Gateway.Governed.ModelCallers.invoke_authenticated-Bound models model_request []
      model_host
