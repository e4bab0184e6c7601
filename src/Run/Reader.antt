-- ===== src/Run/Reader.antt =====
-- internal/app/run_service.go: the claims and authorities that RunService shows to the gateways.
use agenova.Prelude.{String, Option, none, some, []}
use agenova.Prelude.Int.{pos}
use agenova.Api.{SandboxClaim, EffectiveAuthority}
use agenova.Api.Issued.{IssuedState}
use agenova.Run.Eligibility.{ClaimAuthoritySnapshot, ClaimAuthorityReader}
use agenova.Run.Service.{RunService, claim}

-- The zero values of a nil pointer.
abbrev pub claim_or_zero : Option SandboxClaim → SandboxClaim
claim_or_zero (some c) = c
claim_or_zero none = record {
  id = "";
  request_ref = "";
  template_ref = "";
  authority_ref = "";
  phase = "";
  backend_identity = none;
}

abbrev pub authority_or_zero : Option EffectiveAuthority → EffectiveAuthority
authority_or_zero (some a) = a
authority_or_zero none = record {
  id = "";
  tools = [];
  resource_scopes = [];
  model_profile = "";
  memory_scopes = [];
  network_profiles = [];
  runtime = record { max_model_calls = pos 0; profile_ref = ""; timeout = pos 0 };
}

abbrev pub snapshot_of : Option IssuedState → Option ClaimAuthoritySnapshot
snapshot_of none = none
snapshot_of (some state) = some (record {
  claim = claim_or_zero state.claim;
  effective_authority = authority_or_zero state.effective_authority;
})

-- ClaimAuthority, of a service that is not nil.
unfoldable pub claim_authority : RunService → String → Option ClaimAuthoritySnapshot
claim_authority s claim_id = snapshot_of (s.state claim_id)

-- RunService as the ClaimAuthorityReader of a gateway.
unfoldable pub reader_of : RunService → ClaimAuthorityReader
unfolding claim claim_authority
reader_of s = record { claim = claim s; claim_authority = claim_authority s }
