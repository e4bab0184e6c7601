-- ===== src/Gateway/Decisions.antt =====
-- internal/gateway: the contract of a decision (contract.go) and the check of a scope (validate.go).
-- strconv.Quote (%q) is a parameter.
use Prim.Native.String.{◌++◌}
use agenova.Prelude.{String, Bool, ◌||◌, any, ◌==◌, string_eq, nat_eq, if◌then◌else◌}
use agenova.Prelude.Texts.{codes, is_blank}
use agenova.Api.{allow, deny, approval_required}

-- gateway.Decision
pub record GatewayDecision : Type 0 where
  pub invocation_id : String
  pub result : String
  pub category : String
  pub reason : String

pub record Outcome : Type 0 where
  pub result : String
  pub category : String
  pub reason : String

abbrev pub allowed : Outcome
allowed = record { result = allow; category = ""; reason = "" }

-- An Outcome that denies.
abbrev pub denial : String → String → Outcome
denial category reason = record { result = deny; category = category; reason = reason }

unfoldable pub normalize : (quote : String → String) → Outcome → Outcome
normalize quote o =
    if o.result == allow || (o.result == deny || o.result == approval_required)
    then o
    else denial "invalid-policy-outcome"
        ("policy returned unsupported result " ++ quote o.result ++ "; denying")

-- Trimming space takes no star away.
unfoldable pub ambiguous_resource_scope : String → Bool
unfolding is_blank
ambiguous_resource_scope scope = is_blank scope || any (λ c. c == b'*') (codes scope)

-- The helper `decision` of both gateways.
abbrev pub decision : String → Outcome → GatewayDecision
decision id outcome = record {
  invocation_id = id;
  result = outcome.result;
  category = outcome.category;
  reason = outcome.reason;
}
