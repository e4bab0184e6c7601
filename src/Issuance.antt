-- ===== src/Issuance.antt =====
-- internal/issuance/issuance.go: Issue. The JSON encodings (none where encoding/json fails) and the
-- first 16 bytes of SHA-256 in hexadecimal are parameters.
pub mod Outcome
use Prim.Native.String.{◌++◌, len}
use agenova.Prelude.{
  ℕ, suc, String, Bool, not, List, [], ◌∷◌, Option, none, some, Result, ok, err, ◌>>=◌, ◌>>◌,
  refuse_if, ◌!=◌, string_eq,
}
use agenova.Prelude.Decimal.{decimal}
use agenova.Prelude.Int.{pos, leb_ℤ}
use agenova.Prelude.Texts.{is_blank, place}
use agenova.Api.{Principal, Action, Decision, EffectiveAuthority, SandboxClaim}
use agenova.Api.Errors.{Check, ValidationError, validation_error, required_field, invalid, require}
use agenova.Api.Requests.{ClaimRequest, validate_claim_request}
use agenova.Api.Issued.{IssuedState, pending, validate_issued_state}
use agenova.Authorization.{Request, Admission}
use agenova.Authorization.Requests.{assignment_create_action, matches_context}
use agenova.Authority.Resolution.{Resolution, Digest, authority_for}

-- json.Marshal of the five values that an issuance is bound to.
pub record Encoders : Type 0 where
  pub request : ClaimRequest → Option String
  pub principal : Principal → Option String
  pub action : Action → Option String
  pub decision : Decision → Option String
  pub authority : EffectiveAuthority → Option String

-- The loop that writes `%d:` and the encoding of each value.
abbrev pub payload : List (Option String) → Option String
payload [] = some ""
payload (none ∷ values) = none
payload (some encoded ∷ values) = framed encoded (payload values)
  where
    framed : String → Option String → Option String
    framed encoded none = none
    framed encoded (some rest) = some (decimal (len encoded) ++ ":" ++ encoded ++ rest)

abbrev pub hashed : (hex : String → String) → Option String → Result ValidationError String
hashed hex none =
    err (invalid "metadata.name" "validated request could not be encoded for issuance")
hashed hex (some text) = ok (hex text)

-- issuanceDigest, of which Issue uses the first 16 bytes in hexadecimal.
unfoldable pub issuance_digest :
    Encoders
    → (hex : String → String) → ClaimRequest
    → Principal
    → Action
    → Decision
    → EffectiveAuthority
    → Result ValidationError String
issuance_digest encode hex request principal action decision authority = hashed hex (
    payload (
      encode.request request
      ∷ encode.principal principal
      ∷ encode.action action
      ∷ encode.decision decision
      ∷ encode.authority authority
      ∷ []))

abbrev pub non_blank_from : String → ℕ → List String → Check
non_blank_from path i [] = ok tt
non_blank_from path i (value ∷ values) = do
  refuse_if (is_blank value) (invalid (place path i) "value must be non-blank")
  non_blank_from path (suc i) values

-- The loop over the four dimensions, one after the other.
abbrev pub dimensions_check : EffectiveAuthority → Check
dimensions_check resolved = do
  non_blank_from "effectiveAuthority.tools" 0 resolved.tools
  non_blank_from "effectiveAuthority.resourceScopes" 0 resolved.resource_scopes
  non_blank_from "effectiveAuthority.memoryScopes" 0 resolved.memory_scopes
  non_blank_from "effectiveAuthority.networkProfiles" 0 resolved.network_profiles

abbrev pub matched : Option EffectiveAuthority → Result ValidationError EffectiveAuthority
matched none =
    err (invalid "resolution" "must be produced by authority resolution for this full ClaimRequest")
matched (some resolved) = ok resolved

abbrev pub action_of : ClaimRequest → Action
action_of request = record {
  name = assignment_create_action;
  project = request.spec.project_ref;
  template_ref = request.spec.template_ref;
}

abbrev pub context_of : ClaimRequest → Principal → Request
context_of request principal = record {
  request_ref = request.name;
  principal = principal;
  action = action_of request;
}

-- The identities, and the authority with its own.
abbrev pub issued_id : String → ClaimRequest → String → String
issued_id kind request id = kind ++ ":" ++ request.name ++ ":issuance:" ++ id

abbrev pub named_authority : ClaimRequest → String → EffectiveAuthority → EffectiveAuthority
named_authority request id resolved = record resolved { id = issued_id "authority" request id }

abbrev pub issued_claim : ClaimRequest → String → SandboxClaim
issued_claim request id = record {
  id = issued_id "claim" request id;
  request_ref = request.name;
  template_ref = request.spec.template_ref;
  authority_ref = issued_id "authority" request id;
  phase = pending;
  backend_identity = none;
}

abbrev pub issued_state :
    ClaimRequest → Principal → Decision → EffectiveAuthority → String → IssuedState
issued_state request principal decision resolved id = record {
  request_ref = request.name;
  principal = principal;
  action = action_of request;
  policy_ref = decision.policy_ref;
  effective_authority = some (named_authority request id resolved);
  claim = some (issued_claim request id);
  decision = decision;
  evidence = record {
    request_ref = request.name;
    claim_id = issued_id "claim" request id;
    decision_ids = decision.id ∷ [];
    runtime_events = [];
    tool_invocations = [];
    model_invocations = [];
  };
}

-- The guards on the resolved authority.
abbrev pub resolved_check : EffectiveAuthority → Check
resolved_check resolved = do
  refuse_if (resolved.id != "")
      (invalid "effectiveAuthority.id" "identity must be assigned by issuance")
  require "effectiveAuthority.runtime.profileRef" resolved.runtime.profile_ref
  refuse_if (leb_ℤ resolved.runtime.timeout (pos 0))
      (invalid "effectiveAuthority.runtime.timeout" "must be a positive duration")
  dimensions_check resolved

-- Issue, for a request that is not nil.
unfoldable pub issue_request :
    Digest
    → Encoders
    → (hex : String → String) → ClaimRequest
    → Principal
    → Decision
    → Option Resolution
    → Admission
    → Result ValidationError IssuedState
unfolding validate_claim_request matches_context authority_for issuance_digest validate_issued_state
issue_request digest encode hex request principal decision resolution admission = do
  validate_claim_request (some request)
  refuse_if (not (matches_context admission (context_of request principal) decision))
      (invalid "admission" "must be Gate-issued for this request, trusted principal, and decision")
  resolved ← matched (authority_for digest resolution (some request))
  resolved_check resolved
  id ← issuance_digest encode hex request principal (action_of request) decision resolved
  let state = issued_state request principal decision resolved id
  validate_issued_state (some state)
  ok state

-- Issue
unfoldable pub issue :
    Digest
    → Encoders
    → (hex : String → String) → Option ClaimRequest
    → Principal
    → Decision
    → Option Resolution
    → Admission
    → Result ValidationError IssuedState
unfolding issue_request
issue digest encode hex none principal decision resolution admission =
    err (validation_error required_field "$" "request is required")
issue digest encode hex (some request) principal decision resolution admission =
    issue_request digest encode hex request principal decision resolution admission
