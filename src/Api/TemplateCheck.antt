-- ===== src/Api/TemplateCheck.antt =====
-- api/v1alpha1/agent_template.go: ValidateAgentTemplate.
use agenova.Prelude.{
  ℕ, suc, String, Bool, true, false, not, ◌&&◌, List, [], ◌∷◌, Option, none, some, ok, err, ◌>>◌,
  refuse_if, ◌!=◌, string_eq, contains, ◌≡◌, refl, >>=-eq-ok,
}
use agenova.Prelude.Int.{ℤ, pos, leb_ℤ}
use agenova.Prelude.Texts.{place}
use agenova.Api.Errors.{
  Check, required, invalid, validation_error, required_field, require, invalid_capability_ceiling,
  validate_unique_non_blank_list, validate_network_profiles,
}
use agenova.Api.Requests.{calls_out_of_range}
use agenova.Api.Templates.{
  AgentTemplateEntrypoint, AgentTemplateDefaults, AgentTemplateCapabilityCeiling, AgentTemplate,
}
use agenova.Api.Guide.{validate_access_guide}

abbrev artifact_check : Option String → Check
artifact_check none = err (required "spec.artifact")
artifact_check (some image) = require "spec.artifact.image" image

abbrev commands_check : ℕ → List String → Check
commands_check i [] = ok tt
commands_check i (command ∷ commands) = do
  require (place "spec.entrypoint.command" i) command
  commands_check (suc i) commands

abbrev is_empty : List String → Bool
is_empty [] = true
is_empty (x ∷ xs) = false

abbrev entrypoint_check : Option AgentTemplateEntrypoint → Check
entrypoint_check none = err (required "spec.entrypoint")
entrypoint_check (some entry) = do
  refuse_if
      (entry.protocol != ""
        && entry.protocol != "research-discovery-v2"
        && entry.protocol != "research-discovery-v3")
      (invalid "spec.entrypoint.protocol" "unsupported execution protocol")
  refuse_if (is_empty entry.command) (
      validation_error required_field "spec.entrypoint.command"
        "at least one command element is required")
  commands_check 0 entry.command

-- `p != nil && *p <= 0`
abbrev pub not_positive : Option ℤ → Bool
not_positive none = false
not_positive (some t) = leb_ℤ t (pos 0)

ceiling_check : AgentTemplateCapabilityCeiling → Check
unfolding validate_unique_non_blank_list validate_network_profiles
ceiling_check ceiling = do
  validate_unique_non_blank_list "spec.capabilityCeiling.tools" ceiling.tools
  validate_unique_non_blank_list "spec.capabilityCeiling.resourceScopes" ceiling.resource_scopes
  validate_unique_non_blank_list "spec.capabilityCeiling.modelProfiles" ceiling.model_profiles
  validate_unique_non_blank_list "spec.capabilityCeiling.memoryScopes" ceiling.memory_scopes
  validate_unique_non_blank_list "spec.capabilityCeiling.runtimeProfiles" ceiling.runtime_profiles
  validate_network_profiles "spec.capabilityCeiling.networkProfiles" ceiling.network_profiles
      invalid_capability_ceiling
  refuse_if (calls_out_of_range ceiling.max_model_calls) (
      invalid "spec.capabilityCeiling.maxModelCalls"
        "model call ceiling must be between 1 and 1000")
  refuse_if (not_positive ceiling.max_timeout) (
      validation_error invalid_capability_ceiling "spec.capabilityCeiling.maxTimeout"
        "duration must be positive")

-- The loop over the default memory scopes.
abbrev default_scopes_check : AgentTemplateCapabilityCeiling → ℕ → List String → Check
default_scopes_check ceiling i [] = ok tt
default_scopes_check ceiling i (scope ∷ scopes) = do
  refuse_if (not (contains ceiling.memory_scopes scope)) (
      validation_error invalid_capability_ceiling (place "spec.defaults.memoryScopes" i)
        "default is outside capability ceiling")
  default_scopes_check ceiling (suc i) scopes

defaults_check : AgentTemplateCapabilityCeiling → AgentTemplateDefaults → Check
unfolding validate_unique_non_blank_list
defaults_check ceiling defaults = do
  refuse_if
      (defaults.model_profile != "" && not (contains ceiling.model_profiles defaults.model_profile))
      (validation_error invalid_capability_ceiling "spec.defaults.modelProfile"
        "default is outside capability ceiling")
  validate_unique_non_blank_list "spec.defaults.memoryScopes" defaults.memory_scopes
  default_scopes_check ceiling 0 defaults.memory_scopes

-- The checks in front of the capability ceiling.
template_head_check : AgentTemplate → Check
template_head_check template = do
  require "apiVersion" template.api_version
  refuse_if (template.api_version != "agenova.io/v1alpha1")
      (invalid "apiVersion" "unsupported API version")
  require "kind" template.kind
  refuse_if (template.kind != "AgentTemplate") (invalid "kind" "unsupported kind")
  require "metadata.name" template.name
  artifact_check template.spec.artifact
  entrypoint_check template.spec.entrypoint

-- The checks of the ceiling, where the template has one, and of what stays under it.
template_limits_check : AgentTemplate → Option AgentTemplateCapabilityCeiling → Check
unfolding ceiling_check defaults_check validate_access_guide
template_limits_check template none = err (required "spec.capabilityCeiling")
template_limits_check template (some ceiling) = do
  ceiling_check ceiling
  defaults_check ceiling template.spec.defaults
  validate_access_guide template

unfoldable pub validate_agent_template : Option AgentTemplate → Check
unfolding template_head_check template_limits_check
validate_agent_template none = err (validation_error required_field "$" "template is required")
validate_agent_template (some template) = do
  template_head_check template
  template_limits_check template template.spec.capability_ceiling

limits_need_ceiling :
    (t : AgentTemplate) (o : Option AgentTemplateCapabilityCeiling)
    → template_limits_check t o ≡ ok tt
    → (c : AgentTemplateCapabilityCeiling) × (o ≡ some c)
unfolding template_limits_check
limits_need_ceiling t none h = cc
limits_need_ceiling t (some c) h = (c, refl)

-- A validated template has a ceiling.
pub validate_agent_template-ceiling :
    (t : AgentTemplate)
    → validate_agent_template (some t) ≡ ok tt
    → (c : AgentTemplateCapabilityCeiling) × (t.spec.capability_ceiling ≡ some c)
unfolding validate_agent_template
validate_agent_template-ceiling t h =
    limits_need_ceiling t t.spec.capability_ceiling (>>=-eq-ok (template_head_check t) h).2
