-- ===== src/Examples/EndedCases.antt =====
-- A claim that has ended calls nothing (internal/app/run_service.go and the gateways).
use agenova.Prelude.{Bool, ℕ, suc, List, [], ◌∷◌, some, none, ok, ◌≡◌, refl}
use agenova.Facts.Store.{new_store}
use agenova.Run.Reader.{reader_of}
use agenova.Gateway.Decisions.{allowed}
use agenova.Gateway.Ports.{Gateway, Host}
use agenova.Gateway.Options.{
  GatewayOption, with_adapter, with_workload_identity, new_gateway, new_gateway-requires,
}
use agenova.Gateway.Tool
use agenova.Gateway.Model
use agenova.Gateway.Governed.AfterRun.{ended-dispatched}
use agenova.Examples.RunCases.{ended_service, ended-IsAt}

abbrev gateway_of : (R : Type 0) → Gateway ℕ R
gateway_of R = record {
  claims = some (λ w. reader_of ended_service);
  lineage = none;
  adapter = λ id req w. (w, none);
  ids = λ w. (suc w, "inv-1");
  policy = λ req w. (w, allowed);
  observer = none;
  identity = none;
  require_identity = Bool.false;
  clock = λ w. w;
  quote = λ s. s;
}

abbrev tool_request : agenova.Gateway.Tool.Request
tool_request = record {
  claim_id = "claim-1";
  tool = "github";
  action = "read";
  resource_scope = "repo:pay";
  parameters = [];
  caller_reference = "";
}

abbrev model_request : agenova.Gateway.Model.Request
model_request = record {
  claim_id = "claim-1";
  profile = "small";
  parameters = [];
  caller_reference = "";
}

abbrev models : agenova.Gateway.Model.ModelGateway ℕ
models = record {
  base = gateway_of agenova.Gateway.Model.Request;
  reserve_budget = some (λ req snapshot id w. (w, ok Bool.true));
}

abbrev tool_host : Host ℕ agenova.Gateway.Tool.Request
tool_host = record { world = 0; store = new_store; dispatched = [] }

abbrev model_host : Host ℕ agenova.Gateway.Model.Request
model_host = record { world = 0; store = new_store; dispatched = [] }

ended-dispatched_example :
    ((agenova.Gateway.Tool.invoke
        (gateway_of agenova.Gateway.Tool.Request)
        tool_request
        tool_host).host.dispatched
      ≡ [])
    × ((agenova.Gateway.Model.invoke models model_request model_host).host.dispatched ≡ [])
ended-dispatched_example =
    ended-dispatched ended_service "Succeeded" (gateway_of agenova.Gateway.Tool.Request)
      tool_request tool_host models model_request model_host refl ended-IsAt refl refl refl

abbrev options : List (GatewayOption ℕ agenova.Gateway.Tool.Request)
options = with_workload_identity none ∷ with_adapter none ∷ []

new_gateway-requires_example :
    let g = new_gateway (λ w. (suc w, "inv-1")) (λ w. w) (λ s. s) none none options in
    (g.require_identity ≡ Bool.true) × (g.claims ≡ none) × (g.lineage ≡ none)
new_gateway-requires_example =
    new_gateway-requires (λ w. (suc w, "inv-1")) (λ w. w) (λ s. s) none none options
