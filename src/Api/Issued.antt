-- ===== src/Api/Issued.antt =====
-- api/v1alpha1/sandbox_claim.go: the issued state and ValidateIssuedState.
use Prim.Native.String.{len}
use agenova.Prelude.{
  String, Bool, not, ◌&&◌, ◌||◌, List, [], ◌∷◌, Option, none, some, ok, err, ◌>>◌, refuse_if, ◌==◌,
  ◌!=◌, string_eq, ltb, is_some, contains, if◌then◌else◌,
}
use agenova.Prelude.Int.{pos, ltb_ℤ, leb_ℤ}
use agenova.Prelude.Texts.{codes, is_trimmed}
use agenova.Api.{
  Principal, Action, PolicyReference, EffectiveAuthority, BackendIdentity, SandboxClaim, Decision,
  allow, deny, approval_required,
}
use agenova.Api.Equality.{policy_reference_eq}
use agenova.Api.Errors.{
  Check, invalid, invalid_value, validation_error, required_field, require, require_all,
  validate_network_profiles,
}

-- The evidence-view items carry one name each.
pub record Evidence : Type 0 where
  pub request_ref : String
  pub claim_id : String
  pub decision_ids : List String
  pub runtime_events : List String
  pub tool_invocations : List String
  pub model_invocations : List String

pub record IssuedState : Type 0 where
  pub request_ref : String
  pub principal : Principal
  pub action : Action
  pub policy_ref : PolicyReference
  pub effective_authority : Option EffectiveAuthority
  pub claim : Option SandboxClaim
  pub decision : Decision
  pub evidence : Evidence

abbrev pub pending : String
pending = "Pending"

abbrev is_decision_result : String → Bool
is_decision_result r = r == allow || r == deny || r == approval_required

abbrev pub is_claim_phase : String → Bool
is_claim_phase p =
    p == pending
    || p == "Bound"
    || p == "Running"
    || p == "Succeeded"
    || p == "Failed"
    || p == "Expired"

unfoldable pub decision_matches : IssuedState → Check
decision_matches state = do
  require_all (
      ("requestRef", state.request_ref)
      ∷ ("principal.subject", state.principal.subject)
      ∷ ("action.name", state.action.name)
      ∷ ("action.project", state.action.project)
      ∷ ("action.templateRef", state.action.template_ref)
      ∷ ("policyRef.id", state.policy_ref.id)
      ∷ ("policyRef.version", state.policy_ref.version)
      ∷ ("decision.id", state.decision.id)
      ∷ ("decision.reason", state.decision.reason)
      ∷ [])
  refuse_if (not (is_decision_result state.decision.result))
      (invalid "decision.result" "must be one of Allow, Deny, ApprovalRequired")
  refuse_if (state.decision.principal_ref != state.principal.subject)
      (invalid "decision.principalRef" "must match principal.subject")
  refuse_if (state.decision.action != state.action.name)
      (invalid "decision.action" "must match action.name")
  refuse_if (state.decision.policy_ref != state.policy_ref)
      (invalid "decision.policyRef" "must match the issued policyRef")

backend_identity_check : Option BackendIdentity → Check
backend_identity_check none = ok tt
backend_identity_check (some id) = do
  require "claim.backendIdentity.backend" id.backend
  require "claim.backendIdentity.workerId" id.worker_id
  refuse_if
      (id.allocation_id != ""
        && (not (is_trimmed (codes id.allocation_id)) || ltb 256 (len id.allocation_id)))
      (invalid "claim.backendIdentity.allocationID"
        "allocation identity must be bounded opaque UTF-8 without surrounding whitespace")

unfoldable pub grant_check : IssuedState → SandboxClaim → EffectiveAuthority → Check
unfolding backend_identity_check validate_network_profiles
grant_check state claim authority = do
  require "claim.id" claim.id
  require "effectiveAuthority.id" authority.id
  require "effectiveAuthority.runtime.profileRef" authority.runtime.profile_ref
  validate_network_profiles "effectiveAuthority.networkProfiles" authority.network_profiles
      invalid_value
  refuse_if (not (is_claim_phase claim.phase))
      (invalid "claim.phase" "must be one of the known ClaimPhase lifecycle values")
  refuse_if (claim.request_ref != state.request_ref)
      (invalid "claim.requestRef" "must match the top-level requestRef")
  refuse_if (claim.template_ref != state.action.template_ref)
      (invalid "claim.templateRef" "must match action.templateRef")
  refuse_if (claim.authority_ref != authority.id)
      (invalid "claim.authorityRef" "must match effectiveAuthority.id")
  refuse_if (claim.phase == pending && is_some claim.backend_identity)
      (invalid "claim.backendIdentity" "must be absent while the claim is Pending")
  backend_identity_check claim.backend_identity
  refuse_if
      (ltb_ℤ authority.runtime.max_model_calls (pos 0)
        || ltb_ℤ (pos 1000) authority.runtime.max_model_calls)
      (invalid "effectiveAuthority.runtime.maxModelCalls" "must be omitted or between 1 and 1000")
  refuse_if (leb_ℤ authority.runtime.timeout (pos 0))
      (invalid "effectiveAuthority.runtime.timeout" "must be a positive duration")

-- The branch for Allow, by the two pointers.
abbrev pub allowed_check : IssuedState → Option SandboxClaim → Option EffectiveAuthority → Check
allowed_check state none authority = err (invalid "claim" "required when decision.result is Allow")
allowed_check state (some claim) none =
    err (invalid "effectiveAuthority" "required when decision.result is Allow")
allowed_check state (some claim) (some authority) = grant_check state claim authority

abbrev pub refused_check : Option SandboxClaim → Option EffectiveAuthority → Check
refused_check claim authority = do
  refuse_if (is_some claim) (invalid "claim" "must be absent unless decision.result is Allow")
  refuse_if (is_some authority)
      (invalid "effectiveAuthority" "must be absent unless decision.result is Allow")

abbrev pub claim_id_of : Option SandboxClaim → String → Check
claim_id_of none id =
    err (invalid "evidence.claimId" "must be absent unless decision.result is Allow")
claim_id_of (some claim) id =
    refuse_if (id != claim.id) (invalid "evidence.claimId" "must match claim.id")

unfoldable pub evidence_check : IssuedState → Check
evidence_check state = do
  require "evidence.requestRef" state.evidence.request_ref
  refuse_if (state.evidence.request_ref != state.request_ref)
      (invalid "evidence.requestRef" "must match the top-level requestRef")
  refuse_if (not (contains state.evidence.decision_ids state.decision.id))
      (invalid "evidence.decisionIds" "must contain the emitted decision id")
  if state.evidence.claim_id == "" then ok tt else claim_id_of state.claim state.evidence.claim_id

unfoldable pub validate_issued_state : Option IssuedState → Check
unfolding decision_matches grant_check evidence_check
validate_issued_state none = err (validation_error required_field "$" "issued state is required")
validate_issued_state (some state) = do
  decision_matches state
  if state.decision.result == allow
      then allowed_check state state.claim state.effective_authority
      else refused_check state.claim state.effective_authority
  evidence_check state
