-- ===== src/Authority/Resolve.antt =====
-- internal/authority/resolver.go: Resolve.
use agenova.Prelude.{
  String, Bool, true, false, not, ◌&&◌, List, [], ◌∷◌, Option, none, some, Result, ok, err, ◌>>=◌,
  ◌>>◌, refuse_if, ◌==◌, ◌!=◌, string_eq, contains, if◌then◌else◌,
}
use agenova.Prelude.Int.{ℤ, pos, ltb_ℤ, leb_ℤ, int_eq}
use agenova.Api.{EffectiveAuthority}
use agenova.Api.Errors.{Check, ValidationError, invalid}
use agenova.Api.Requests.{
  ClaimRequest, ClaimRequestedAccess, ClaimRuntimeRequirements, validate_claim_request,
}
use agenova.Api.Templates.{AgentTemplate, AgentTemplateCapabilityCeiling}
use agenova.Api.TemplateCheck.{validate_agent_template}
use agenova.Policy.{AuthorityConstraints}
use agenova.Authorization.{Admission}
use agenova.Authorization.Requests.{admission_matches, constraints}
use agenova.Authority.{
  exact_intersection, apply_set_cap, resource_intersection, validate_scope_ceiling,
}

-- capSet, for a field of the caps.
abbrev pub cap_set :
    Option AuthorityConstraints
    → (AuthorityConstraints → Option (List String))
    → Option (List String)
cap_set none dimension = none
cap_set (some caps) dimension = dimension caps

-- The loop over one cap: every value of it was requested.
abbrev pub all_requested : String → List String → List String → Check
all_requested path requested [] = ok tt
all_requested path requested (value ∷ values) = do
  refuse_if (not (contains requested value))
      (invalid path "policy constraint contains unrequested authority")
  all_requested path requested values

abbrev pub cap_requested : String → List String → Option (List String) → Check
cap_requested path requested none = ok tt
cap_requested path requested (some values) = all_requested path requested values

abbrev pub is_empty : List String → Bool
is_empty [] = true
is_empty (x ∷ xs) = false

-- len(requested) > 0 && len(resolved) == 0
abbrev pub not_emptied : String → String → List String → List String → Check
not_emptied path what requested resolved =
    refuse_if (not (is_empty requested) && is_empty resolved) (invalid path what)

-- cap == nil || !contains(cap.Values, profile)
abbrev pub uncapped : Option (List String) → String → Bool
uncapped none profile = true
uncapped (some values) profile = not (contains values profile)

-- The loop over the requested network profiles.
abbrev pub network_check : List String → Option (List String) → List String → Check
network_check ceiling cap [] = ok tt
network_check ceiling cap (profile ∷ profiles) = do
  refuse_if (not (contains ceiling profile)) (
      invalid "spec.requestedAccess.networkProfiles"
        "requested network profile is outside the template ceiling")
  refuse_if (uncapped cap profile) (
      invalid "spec.requestedAccess.networkProfiles"
        "requested network profile requires an explicit matching policy constraint")
  network_check ceiling cap profiles

-- cap != nil && !contains(cap.Values, value)
abbrev pub excluded : Option (List String) → String → Bool
excluded none value = false
excluded (some values) value = not (contains values value)

abbrev pub model_check : List String → Option (List String) → String → Check
model_check ceiling cap model = do
  refuse_if (model != "" && not (contains ceiling model)) (
      invalid "spec.requestedAccess.modelProfile"
        "requested model profile is outside the template ceiling")
  refuse_if (model != "" && excluded cap model) (
      invalid "spec.requestedAccess.modelProfile"
        "policy constraint excludes requested model profile")

abbrev pub profile_check : List String → Option (List String) → String → Check
profile_check ceiling cap profile = do
  refuse_if (not (contains ceiling profile)) (
      invalid "spec.runtime.profileRef" "requested runtime profile is outside the template ceiling")
  refuse_if (excluded cap profile)
      (invalid "spec.runtime.profileRef" "policy constraint excludes requested runtime profile")

-- `if limit != nil && *limit < value { value = *limit }`
abbrev pub lowered : Option ℤ → ℤ → ℤ
lowered none value = value
lowered (some limit) value = if ltb_ℤ limit value then limit else value

abbrev pub cap_of : Option AuthorityConstraints → (AuthorityConstraints → Option ℤ) → Option ℤ
cap_of none limit = none
cap_of (some caps) limit = limit caps

-- The ceiling has a positive timeout.
abbrev pub timeout_ceiling : Option ℤ → Result ValidationError ℤ
timeout_ceiling none =
    err
      (invalid "spec.capabilityCeiling.maxTimeout" "a positive runtime timeout ceiling is required")
timeout_ceiling (some t) =
    if leb_ℤ t (pos 0)
    then err (
        invalid "spec.capabilityCeiling.maxTimeout"
          "a positive runtime timeout ceiling is required")
    else ok t

-- DefaultModelCalls
abbrev pub default_model_calls : ℤ
default_model_calls = pos 6

abbrev pub or_default : Option ℤ → ℤ
or_default none = default_model_calls
or_default (some n) = n

-- The encoded call budget, under the server's ceiling: 0 stands for the default.
abbrev pub resolved_calls : Option ℤ → ℤ → Result ValidationError ℤ
resolved_calls none ceiling =
    let calls = if ltb_ℤ ceiling default_model_calls then ceiling else default_model_calls in
    ok (if calls == default_model_calls then pos 0 else calls)
resolved_calls (some calls) ceiling =
    if ltb_ℤ ceiling calls
    then err
        (invalid "spec.runtime.maxModelCalls" "requested model calls exceed the server ceiling")
    else ok calls

-- The caps may only name what was requested.
abbrev pub caps_check : ClaimRequestedAccess → String → Option AuthorityConstraints → Check
caps_check access profile caps = do
  cap_requested "spec.requestedAccess.tools" access.tools (cap_set caps (λ c. c.tools))
  cap_requested "spec.requestedAccess.resourceScopes" access.resource_scopes
      (cap_set caps (λ c. c.resource_scopes))
  cap_requested "spec.requestedAccess.memoryScopes" access.memory_scopes
      (cap_set caps (λ c. c.memory_scopes))
  cap_requested "spec.requestedAccess.modelProfile" (access.model_profile ∷ [])
      (cap_set caps (λ c. c.model_profiles))
  cap_requested "spec.runtime.profileRef" (profile ∷ []) (cap_set caps (λ c. c.runtime_profiles))

abbrev pub tools_of :
    ClaimRequestedAccess
    → AgentTemplateCapabilityCeiling
    → Option AuthorityConstraints
    → List String
tools_of access ceiling caps =
    apply_set_cap (exact_intersection access.tools ceiling.tools) (cap_set caps (λ c. c.tools))

abbrev pub memory_of :
    ClaimRequestedAccess
    → AgentTemplateCapabilityCeiling
    → Option AuthorityConstraints
    → List String
memory_of access ceiling caps =
    apply_set_cap (exact_intersection access.memory_scopes ceiling.memory_scopes)
      (cap_set caps (λ c. c.memory_scopes))

-- The part of Resolve after the admission is matched; the pointers it follows are not nil.
unfoldable pub resolve_dimensions :
    ClaimRequestedAccess
    → ClaimRuntimeRequirements
    → ℤ
    → AgentTemplateCapabilityCeiling
    → Option AuthorityConstraints
    → Result ValidationError EffectiveAuthority
unfolding validate_scope_ceiling resource_intersection apply_set_cap
resolve_dimensions access runtime timeout ceiling caps = do
  caps_check access runtime.profile_ref caps
  validate_scope_ceiling ceiling.resource_scopes
  not_emptied "spec.requestedAccess.tools" "requested tools resolved completely empty" access.tools
      (tools_of access ceiling caps)
  found ← resource_intersection access.resource_scopes ceiling.resource_scopes
  let resources = apply_set_cap found (cap_set caps (λ c. c.resource_scopes))
  not_emptied "spec.requestedAccess.resourceScopes"
      "requested resource scopes resolved completely empty" access.resource_scopes resources
  not_emptied "spec.requestedAccess.memoryScopes"
      "requested memory scopes resolved completely empty" access.memory_scopes
      (memory_of access ceiling caps)
  network_check ceiling.network_profiles (cap_set caps (λ c. c.network_profiles))
      access.network_profiles
  model_check ceiling.model_profiles (cap_set caps (λ c. c.model_profiles)) access.model_profile
  profile_check ceiling.runtime_profiles (cap_set caps (λ c. c.runtime_profiles))
      runtime.profile_ref
  longest ← timeout_ceiling ceiling.max_timeout
  calls ←
      resolved_calls runtime.max_model_calls
        (lowered (cap_of caps (λ c. c.max_model_calls)) (or_default ceiling.max_model_calls))
  ok (record {
    id = "";
    tools = tools_of access ceiling caps;
    resource_scopes = resources;
    model_profile = access.model_profile;
    memory_scopes = memory_of access ceiling caps;
    network_profiles = access.network_profiles;
    runtime = record {
      max_model_calls = calls;
      profile_ref = runtime.profile_ref;
      timeout = lowered (cap_of caps (λ c. c.max_timeout)) (lowered (some longest) timeout);
    };
  })

-- What the validations guarantee to be there. Resolve would panic without it; it is never reached.
abbrev pub nil_dereference : ValidationError
nil_dereference = invalid "$" "nil dereference"

abbrev pub with_timeout :
    ClaimRequestedAccess
    → ClaimRuntimeRequirements
    → Option ℤ
    → AgentTemplateCapabilityCeiling
    → Option AuthorityConstraints
    → Result ValidationError EffectiveAuthority
with_timeout access runtime none ceiling caps = err nil_dereference
with_timeout access runtime (some timeout) ceiling caps =
    resolve_dimensions access runtime timeout ceiling caps

abbrev pub with_pointers :
    ClaimRequestedAccess
    → Option ClaimRuntimeRequirements
    → Option AgentTemplateCapabilityCeiling
    → Option AuthorityConstraints
    → Result ValidationError EffectiveAuthority
with_pointers access (some runtime) (some ceiling) caps =
    with_timeout access runtime runtime.timeout ceiling caps
with_pointers access _ _ caps = err nil_dereference

unfoldable pub resolve :
    ClaimRequest → AgentTemplate → Admission → Result ValidationError EffectiveAuthority
unfolding resolve_dimensions admission_matches constraints validate_claim_request
    validate_agent_template
resolve request template admission = do
  validate_claim_request (some request)
  validate_agent_template (some template)
  refuse_if (request.spec.template_ref != template.name)
      (invalid "spec.templateRef" "must match the resolved AgentTemplate")
  refuse_if
      (not (
        admission_matches admission request.name request.spec.project_ref
          request.spec.template_ref))
      (invalid "admission"
        "must be issued by the authorization Gate for this request, project, and template")
  with_pointers request.spec.requested_access request.spec.runtime template.spec.capability_ceiling
      (constraints admission)
