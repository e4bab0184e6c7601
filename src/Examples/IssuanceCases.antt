-- ===== src/Examples/IssuanceCases.antt =====
-- A resolution and what is issued for it (internal/authority/resolution.go, internal/issuance).
use agenova.Prelude.{String, true, [], ◌∷◌, some, none, ok, ◌≡◌, ◌↔◌, refl, any, string_eq}
use agenova.Prelude.Int.{ℤ}
use agenova.Prelude.Texts.{is_blank}
use agenova.Api.{EffectiveAuthority, SandboxClaim, allow}
use agenova.Api.TaskInput.{validate_task_input_value}
use agenova.Api.Requests.{ClaimRuntimeRequirements, validate_claim_request}
use agenova.Api.Templates.{AgentTemplateCapabilityCeiling}
use agenova.Api.Guide.{validate_access_guide}
use agenova.Api.TemplateCheck.{validate_agent_template}
use agenova.Api.Issued.{
  IssuedState, pending, validate_issued_state, decision_matches, grant_check, evidence_check,
}
use agenova.Authorization.Requests.{admission_matches, constraints, matches_context}
use agenova.Authority.{
  exact_intersection, apply_set_cap, resource_intersection, validate_scope_ceiling,
}
use agenova.Authority.Resolve.{resolve, resolve_dimensions}
use agenova.Authority.Bounded.{Limiting}
use agenova.Authority.Resolution.{
  Resolution, Digest, resolve_for_issuance, authority_for, changes_of,
}
use agenova.Authority.Serving.{authority_for-served}
use agenova.Authority.Changes.{changes_of-lost, names, lost}
use agenova.Authority.Reaches.{resolve-resolve_dimensions}
use agenova.Issuance.{Encoders, issued_state, context_of, issuance_digest, issue, issue_request}
use agenova.Issuance.Outcome.{issue-correlated, issue-Limiting}
use agenova.Examples.PolicyCases.{caps, request, hex, claim_request, template, admission, resolved}

-- Stands for a digest that tells requests apart by their name.
abbrev digest : Digest
digest r = some r.name

abbrev show_duration : ℤ → String
show_duration t = "60ns"

abbrev encode : Encoders
encode = record {
  request = λ r. some r.name;
  principal = λ p. some p.subject;
  action = λ a. some a.name;
  decision = λ d. some d.id;
  authority = λ a. some a.id;
}

abbrev resolution : Resolution
resolution = record {
  request_digest = "request-1";
  authority = some resolved;
  changes =
      record {
        field = "tools";
        requested = "browser";
        effective = "";
        reason_code = "outside-policy-constraint";
      }
      ∷ record {
        field = "runtime.timeout";
        requested = "60ns";
        effective = "60ns";
        reason_code = "policy-timeout-cap";
      }
      ∷ [];
}

opened : Unit {0}
unfolding resolve resolve_dimensions validate_claim_request validate_agent_template
    validate_access_guide admission_matches constraints validate_scope_ceiling resource_intersection
    apply_set_cap exact_intersection is_blank validate_task_input_value resolve_for_issuance
    authority_for changes_of matches_context issuance_digest issue issue_request
    validate_issued_state decision_matches grant_check evidence_check
opened = tt

resolves_for_issuance :
    resolve_for_issuance digest show_duration claim_request template admission ≡ ok resolution
unfolding opened
resolves_for_issuance = refl

authority_for-served_example :
    ((authority_for digest (some resolution) (some claim_request) ≡ some resolved) ↔ (
      (validate_claim_request (some claim_request) ≡ ok tt)
      × (digest claim_request ≡ digest claim_request)
      × (resolve claim_request template admission ≡ ok resolved)))
    × ((a : EffectiveAuthority) × (authority_for digest (some resolution) (some claim_request)
          ≡ some a))
authority_for-served_example =
    authority_for-served digest show_duration claim_request claim_request template admission
      resolution resolved resolves_for_issuance

changes_of-lost_example :
    let access = claim_request.spec.requested_access in
    let changes = changes_of show_duration claim_request resolved (some caps) in
    (any (names "tools" "browser") changes ≡ lost access.tools resolved.tools "browser")
    × (any (names "resourceScopes" "browser") changes
        ≡ lost access.resource_scopes resolved.resource_scopes "browser")
    × (any (names "memoryScopes" "browser") changes
        ≡ lost access.memory_scopes resolved.memory_scopes "browser")
    × (any (names "networkProfiles" "browser") changes
        ≡ lost access.network_profiles resolved.network_profiles "browser")
changes_of-lost_example = changes_of-lost show_duration claim_request resolved (some caps) "browser"

well_formed :
    (validate_claim_request (some claim_request) ≡ ok tt)
    × (validate_agent_template (some template) ≡ ok tt)
    × (admission_matches admission "request-1" "payments" "engineer" ≡ true)
unfolding opened
well_formed = (refl, refl, refl)

resolve-resolve_dimensions_example :
    (r : ClaimRuntimeRequirements) × (t : ℤ) × (c : AgentTemplateCapabilityCeiling)
    × (claim_request.spec.runtime ≡ some r)
    × (r.timeout ≡ some t)
    × (template.spec.capability_ceiling ≡ some c)
    × (resolve claim_request template admission
        ≡ resolve_dimensions claim_request.spec.requested_access r t c (constraints admission))
resolve-resolve_dimensions_example =
    resolve-resolve_dimensions claim_request template admission well_formed.0 well_formed.1 refl
      well_formed.2

abbrev state : IssuedState
state =
    issued_state claim_request request.principal admission.evaluation.decision resolved
      (hex "9:request-15:alice12:claim.create10:decision-10:")

issues :
    issue digest encode hex
      (some claim_request)
      request.principal
      admission.evaluation.decision
      (some resolution)
      admission
    ≡ ok state
unfolding opened
issues = refl

issue-correlated_example :
    (validate_claim_request (some claim_request) ≡ ok tt)
    × (admission.evaluation.request ≡ context_of claim_request request.principal)
    × (admission.evaluation.decision ≡ admission.evaluation.decision)
    × (validate_issued_state (some state) ≡ ok tt)
    × (state.decision ≡ admission.evaluation.decision)
    × (admission.evaluation.decision.result ≡ allow)
    × (state.principal ≡ request.principal)
    × ((claim : SandboxClaim) × (authority : EffectiveAuthority) × (state.claim ≡ some claim)
        × (state.effective_authority ≡ some authority)
        × (claim.phase ≡ pending)
        × (claim.backend_identity ≡ none)
        × (claim.request_ref ≡ "request-1")
        × (claim.template_ref ≡ "engineer")
        × (claim.authority_ref ≡ authority.id)
        × (state.evidence.claim_id ≡ claim.id))
issue-correlated_example =
    issue-correlated digest encode hex claim_request request.principal admission.evaluation.decision
      (some resolution) admission state issues

issue-Limiting_example :
    (digest claim_request ≡ digest claim_request)
    × ((a : EffectiveAuthority) × (id : String) × (state.effective_authority
          ≡ some (record a { id = id }))
        × (resolve claim_request template admission ≡ ok a)
        × Limiting claim_request template admission a)
issue-Limiting_example =
    issue-Limiting digest show_duration encode hex claim_request claim_request template admission
      admission resolution request.principal admission.evaluation.decision state
      resolves_for_issuance issues
