-- ===== src/Api.antt =====
-- api/v1alpha1: the types of issued state that the components share (sandbox_claim.go, types.go).
-- A Go string is a text; a time.Duration is its count of nanoseconds.
pub mod Equality
pub mod Errors
pub mod Credentials
pub mod TaskInput
pub mod Requests
pub mod Templates
pub mod Guide
pub mod TemplateCheck
pub mod Issued
use agenova.Prelude.{String, List, Option}
use agenova.Prelude.Int.{ℤ}

pub record Principal : Type 0 where
  pub subject : String
  pub team : String
  pub authentication_context : String

pub record Action : Type 0 where
  pub name : String
  pub project : String
  pub template_ref : String

pub record PolicyReference : Type 0 where
  pub id : String
  pub version : String

pub record EffectiveAuthorityRuntime : Type 0 where
  pub max_model_calls : ℤ
  pub profile_ref : String
  pub timeout : ℤ

pub record EffectiveAuthority : Type 0 where
  pub id : String
  pub tools : List String
  pub resource_scopes : List String
  pub model_profile : String
  pub memory_scopes : List String
  pub network_profiles : List String
  pub runtime : EffectiveAuthorityRuntime

-- SandboxClaimBackendIdentity
pub record BackendIdentity : Type 0 where
  pub backend : String
  pub worker_id : String
  pub allocation_id : String

pub record SandboxClaim : Type 0 where
  pub id : String
  pub request_ref : String
  pub template_ref : String
  pub authority_ref : String
  pub phase : String
  pub backend_identity : Option BackendIdentity

pub record Decision : Type 0 where
  pub id : String
  pub principal_ref : String
  pub action : String
  pub result : String
  pub policy_ref : PolicyReference
  pub reason : String

-- The DecisionResult vocabulary.
abbrev pub allow : String
allow = "Allow"

abbrev pub deny : String
deny = "Deny"

abbrev pub approval_required : String
approval_required = "ApprovalRequired"
