-- ===== src/Api/Requests.antt =====
-- api/v1alpha1/claim_request.go: the claim request and ValidateClaimRequest.
use agenova.Prelude.{
  String, Bool, List, Option, none, some, err, ◌>>◌, refuse_if, ◌&&◌, ◌||◌, ◌!=◌, string_eq,
}
use agenova.Prelude.Int.{ℤ, pos, ltb_ℤ, leb_ℤ}
use agenova.Prelude.Texts.{is_blank}
use agenova.Api.Errors.{
  Check, required, invalid, invalid_value, validation_error, required_field, require,
  validate_request_list, validate_network_profiles,
}
use agenova.Api.TaskInput.{TaskFields, mapping, validate_task_input_value}

pub record ClaimRequestTask : Type 0 where
  pub task_type : String
  pub input : TaskFields

pub record ClaimRequestedAccess : Type 0 where
  pub tools : List String
  pub resource_scopes : List String
  pub model_profile : String
  pub memory_scopes : List String
  pub network_profiles : List String

pub record ClaimRuntimeRequirements : Type 0 where
  pub max_model_calls : Option ℤ
  pub profile_ref : String
  pub timeout : Option ℤ

pub record ClaimRequestSpec : Type 0 where
  pub template_ref : String
  pub project_ref : String
  pub task : Option ClaimRequestTask
  pub requested_access : ClaimRequestedAccess
  pub runtime : Option ClaimRuntimeRequirements

pub record ClaimRequest : Type 0 where
  pub api_version : String
  pub kind : String
  pub name : String
  pub spec : ClaimRequestSpec

-- `p != nil && (*p < 1 || *p > 1000)`
abbrev pub calls_out_of_range : Option ℤ → Bool
calls_out_of_range none = Bool.false
calls_out_of_range (some n) = ltb_ℤ n (pos 1) || ltb_ℤ (pos 1000) n

unfoldable pub task_check : Option ClaimRequestTask → Check
unfolding validate_task_input_value
task_check none = err (required "spec.task")
task_check (some task) = do
  refuse_if (task.task_type != "" && is_blank task.task_type)
      (invalid "spec.task.type" "optional type must be non-blank when supplied")
  validate_task_input_value "spec.task.input" (mapping Bool.true task.input)

unfoldable pub access_check : ClaimRequestedAccess → Check
unfolding validate_request_list validate_network_profiles
access_check access = do
  validate_request_list "spec.requestedAccess.tools" access.tools
  validate_request_list "spec.requestedAccess.resourceScopes" access.resource_scopes
  validate_request_list "spec.requestedAccess.memoryScopes" access.memory_scopes
  validate_network_profiles "spec.requestedAccess.networkProfiles" access.network_profiles
      invalid_value

abbrev pub timeout_check : Option ℤ → Check
timeout_check none = err (required "spec.runtime.timeout")
timeout_check (some t) =
    refuse_if (leb_ℤ t (pos 0)) (invalid "spec.runtime.timeout" "timeout must be positive")

abbrev pub runtime_check : Option ClaimRuntimeRequirements → Check
runtime_check none = err (required "spec.runtime")
runtime_check (some runtime) = do
  require "spec.runtime.profileRef" runtime.profile_ref
  timeout_check runtime.timeout
  refuse_if (calls_out_of_range runtime.max_model_calls)
      (invalid "spec.runtime.maxModelCalls" "model call limit must be between 1 and 1000")

-- The checks in front of the task.
unfoldable pub request_head_check : ClaimRequest → Check
request_head_check request = do
  require "apiVersion" request.api_version
  refuse_if (request.api_version != "agenova.io/v1alpha1")
      (invalid "apiVersion" "unsupported API version")
  require "kind" request.kind
  refuse_if (request.kind != "ClaimRequest") (invalid "kind" "unsupported kind")
  require "metadata.name" request.name
  require "spec.templateRef" request.spec.template_ref

unfoldable pub validate_claim_request : Option ClaimRequest → Check
unfolding request_head_check task_check access_check
validate_claim_request none = err (validation_error required_field "$" "request is required")
validate_claim_request (some request) = do
  request_head_check request
  task_check request.spec.task
  access_check request.spec.requested_access
  runtime_check request.spec.runtime
