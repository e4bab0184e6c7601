-- ===== src/Policy.antt =====
-- internal/policy/evaluator.go and bundle.go: the evaluation context, the evaluation and the bundle.
-- A clone of a value is the value, and a nil slice is the empty list.
pub mod Check
pub mod Equality
pub mod Validation
pub mod Bundle
pub mod Loading
pub mod Grants
use Prim.Native.String.{String}
use agenova.Prelude.{ℕ, List, Option}
use agenova.Prelude.Int.{ℤ}
use agenova.Api.{PolicyReference}

pub record Attribute : Type 0 where
  pub name : String
  pub values : List String

pub record PrincipalContext : Type 0 where
  pub subject : String
  pub authentication_context : String
  pub attributes : List Attribute

pub record ResourceContext : Type 0 where
  pub resource_type : String
  pub id : String
  pub attributes : List Attribute

pub record EnvironmentFact : Type 0 where
  pub name : String
  pub value : String

pub record EvaluationContext : Type 0 where
  pub principal : PrincipalContext
  pub action : String
  pub resource : ResourceContext
  pub environment : List EnvironmentFact

pub record Reason : Type 0 where
  pub code : String
  pub message : String

-- A cap is absent, or the list of its values (StringSetConstraint).
pub record AuthorityConstraints : Type 0 where
  pub max_model_calls : Option ℤ
  pub tools : Option (List String)
  pub resource_scopes : Option (List String)
  pub model_profiles : Option (List String)
  pub memory_scopes : Option (List String)
  pub runtime_profiles : Option (List String)
  pub network_profiles : Option (List String)
  pub max_timeout : Option ℤ

pub record Evaluation : Type 0 where
  pub context : EvaluationContext
  pub decision : String
  pub policy_ref : PolicyReference
  pub reasons : List Reason
  pub constraints : Option AuthorityConstraints

pub record Rule : Type 0 where
  pub subject : String
  pub team : String
  pub action : String
  pub project : String
  pub template_ref : String
  pub constraints : Option AuthorityConstraints

pub record PolicyBundle : Type 0 where
  pub id : String
  pub version : String
  pub rules : List Rule

pub record Match : Type 0 where
  pub subject : String
  pub team : String
  pub action : String
  pub project : String
  pub template_ref : String

-- An error's text; `naming` quotes a name in it, and `in_rule` wraps the error of a rule.
pub data PolicyError : Type 0 where
  message : String → PolicyError
  naming : String → String → PolicyError
  in_rule : (index : ℕ) → PolicyError → PolicyError
