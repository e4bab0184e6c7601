-- ===== src/Api/Templates.antt =====
-- api/v1alpha1/agent_template.go and access_guide.go: the agent template's types.
use agenova.Prelude.{String, List, Option}
use agenova.Prelude.Int.{ℤ}
use agenova.Api.Requests.{ClaimRequestedAccess}

pub record AgentTemplateEntrypoint : Type 0 where
  pub protocol : String
  pub command : List String

pub record AgentTemplateDefaults : Type 0 where
  pub model_profile : String
  pub memory_scopes : List String

pub record AgentTemplateCapabilityCeiling : Type 0 where
  pub max_model_calls : Option ℤ
  pub tools : List String
  pub resource_scopes : List String
  pub model_profiles : List String
  pub memory_scopes : List String
  pub runtime_profiles : List String
  pub network_profiles : List String
  pub max_timeout : Option ℤ

pub record TaskAccessProfile : Type 0 where
  pub id : String
  pub task_type : String
  pub description : String
  pub requested_access : ClaimRequestedAccess

pub record AgentAccessGuide : Type 0 where
  pub version : String
  pub markdown : String
  pub profiles : List TaskAccessProfile

-- The artifact is its image.
pub record AgentTemplateSpec : Type 0 where
  pub access_guide : Option AgentAccessGuide
  pub artifact : Option String
  pub entrypoint : Option AgentTemplateEntrypoint
  pub defaults : AgentTemplateDefaults
  pub capability_ceiling : Option AgentTemplateCapabilityCeiling

pub record AgentTemplate : Type 0 where
  pub api_version : String
  pub kind : String
  pub name : String
  pub spec : AgentTemplateSpec
