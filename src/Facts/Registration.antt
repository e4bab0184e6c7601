-- ===== src/Facts/Registration.antt =====
-- internal/facts/journal.go: RegisterRequest and BindClaim.
use agenova.Prelude.{
  String, not, ◌&&◌, ◌||◌, Option, none, some, is_some, ◌==◌, ◌!=◌, string_eq, nat_eq,
  if◌then◌else◌, get_or, update,
}
use agenova.Prelude.Int.{int_eq}
use agenova.Api.{Principal, SandboxClaim}
use agenova.Api.Equality.{policy_reference_eq, backend_identity_eq}
use agenova.Facts.{Journal}

unfoldable pub register_request : Journal → String → Principal → Journal × Option String
register_request j ref principal =
    if ref == "" || principal.subject == ""
    then (j, some "request reference and trusted principal are required")
    else if is_some (j.requests ref)
    then (j, some "request already registered")
    else (record j { requests = update j.requests ref principal }, none)

-- The new maps, when neither the claim nor the request has a partner.
abbrev pub bound_claim : Journal → String → SandboxClaim → Journal
bound_claim j ref claim = record j {
  claims = update j.claims claim.id ref;
  request_claims = update j.request_claims ref claim.id;
  authorities = update j.authorities claim.id claim.authority_ref;
}

-- The rest of BindClaim, by the claim's owner.
abbrev pub join_claim : Journal → String → SandboxClaim → Option String → Journal × Option String
join_claim j ref claim (some owner) =
    if owner == ref && get_or "" (j.request_claims ref) == claim.id
    then (j, none)
    else (j, some "claim already belongs to another request")
join_claim j ref claim none =
    if is_some (j.request_claims ref)
    then (j, some "request already has a claim")
    else (bound_claim j ref claim, none)

unfoldable pub bind_claim : Journal → String → SandboxClaim → Journal × Option String
bind_claim j ref claim =
    if not (is_some (j.requests ref))
    then (j, some "request is not registered")
    else if claim.id == "" || claim.request_ref != ref
    then (j, some "claim/request correlation mismatch")
    else join_claim j ref claim (j.claims claim.id)
