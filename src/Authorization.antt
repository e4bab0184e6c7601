-- ===== src/Authorization.antt =====
-- internal/authorization/authorization.go: the assignment admission, Authorizer.Evaluate and Gate.Admit.
-- SHA-256 and the encoding of an evaluation's content are parameters.
pub mod Requests
pub mod Gate
pub mod Admitted
pub mod Granted
use agenova.Prelude.{String}
use agenova.Api.{Principal, Action, Decision}
use agenova.Policy.{Evaluation}

-- authorization.Request
pub record Request : Type 0 where
  pub request_ref : String
  pub principal : Principal
  pub action : Action

-- authorization.Evaluation
pub record BoundEvaluation : Type 0 where
  pub request : Request
  pub policy_evaluation : Evaluation
  pub decision : Decision

-- The Admission that Gate hands on is its evaluation.
pub record Admission : Type 0 where
  pub evaluation : BoundEvaluation
