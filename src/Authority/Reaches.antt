-- ===== src/Authority/Reaches.antt =====
-- Resolve follows no nil pointer (internal/authority/resolver.go).
use agenova.Prelude.{true, Option, none, some, ok, string_eq, ◌≡◌, refl, >>=-eq-ok, ==_self}
use agenova.Prelude.Int.{ℤ}
use agenova.Api.Errors.{require}
use agenova.Api.Requests.{
  ClaimRequest, ClaimRuntimeRequirements, validate_claim_request, request_head_check, task_check,
  access_check, runtime_check, timeout_check,
}
use agenova.Api.Templates.{AgentTemplate, AgentTemplateCapabilityCeiling}
use agenova.Api.TemplateCheck.{validate_agent_template, validate_agent_template-ceiling}
use agenova.Authorization.{Admission}
use agenova.Authorization.Requests.{admission_matches, constraints}
use agenova.Authority.Resolve.{resolve, resolve_dimensions}

timeout_given : (o : Option ℤ) → timeout_check o ≡ ok tt → (t : ℤ) × (o ≡ some t)
timeout_given none h = cc h
timeout_given (some t) h = (t, refl)

-- The runtime requirements of a request, and its timeout.
abbrev pub HasRuntime : Option ClaimRuntimeRequirements → Type 0
HasRuntime o = (r : ClaimRuntimeRequirements) × (o ≡ some r) × ((t : ℤ) × (r.timeout ≡ some t))

runtime_given : (o : Option ClaimRuntimeRequirements) → runtime_check o ≡ ok tt → HasRuntime o
runtime_given none h = cc h
runtime_given (some r) h =
    let (_, _, h₁) = >>=-eq-ok (require "spec.runtime.profileRef" r.profile_ref) h in
    let (_, t, _) = >>=-eq-ok (timeout_check r.timeout) h₁ in (r, refl, timeout_given r.timeout t)

pub validate_claim_request-HasRuntime :
    (request : ClaimRequest)
    → validate_claim_request (some request) ≡ ok tt
    → HasRuntime request.spec.runtime
unfolding validate_claim_request
validate_claim_request-HasRuntime request h =
    let (_, _, h₁) = >>=-eq-ok (request_head_check request) h in
    let (_, _, h₂) = >>=-eq-ok (task_check request.spec.task) h₁ in
    let (_, _, h₃) = >>=-eq-ok (access_check request.spec.requested_access) h₂ in
    runtime_given request.spec.runtime h₃

-- For a validated request and template that name one another, and an admission for them, the pointers
-- that Resolve follows are there: its result is that of its part on the values they point to.
pub resolve-resolve_dimensions :
    (request : ClaimRequest) (template : AgentTemplate) (admission : Admission)
    → validate_claim_request (some request) ≡ ok tt
    → validate_agent_template (some template) ≡ ok tt
    → request.spec.template_ref ≡ template.name
    → admission_matches admission request.name request.spec.project_ref request.spec.template_ref
      ≡ true
    → (r : ClaimRuntimeRequirements) × (t : ℤ) × (c : AgentTemplateCapabilityCeiling)
      × (request.spec.runtime ≡ some r)
      × (r.timeout ≡ some t)
      × (template.spec.capability_ceiling ≡ some c)
      × (resolve request template admission
          ≡ resolve_dimensions request.spec.requested_access r t c (constraints admission))
unfolding resolve
resolve-resolve_dimensions request template admission v w n m =
    let (r, er, (t, et)) = validate_claim_request-HasRuntime request v in
    let (c, ec) = validate_agent_template-ceiling template w in
    (r, t, c, er, et, ec, rw (v, w, m, n, ==_self template.name, er, ec, et) refl)
