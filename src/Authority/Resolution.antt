-- ===== src/Authority/Resolution.antt =====
-- internal/authority/resolution.go: ResolveForIssuance, ChangesFor and AuthorityFor. The digest of a
-- request (SHA-256 of its JSON encoding, none where that fails) and time.Duration's String are parameters.
use agenova.Prelude.{
  String, Bool, false, List, [], ◌∷◌, ◌++◌, Option, none, some, Result, ok, err, ◌>>=◌, ◌==◌,
  string_eq, contains, if◌then◌else◌,
}
use agenova.Prelude.Int.{ℤ, leb_ℤ, int_eq}
use agenova.Api.{EffectiveAuthority}
use agenova.Api.Errors.{Check, ValidationError, invalid}
use agenova.Api.Requests.{ClaimRequest, ClaimRuntimeRequirements, validate_claim_request}
use agenova.Api.Templates.{AgentTemplate}
use agenova.Policy.{AuthorityConstraints}
use agenova.Authorization.{Admission}
use agenova.Authorization.Requests.{constraints}
use agenova.Facts.{Change}
use agenova.Authority.Resolve.{cap_set, excluded, cap_of, resolve}

-- A zero Resolution has no authority.
pub record Resolution : Type 0 where
  pub request_digest : String
  pub authority : Option EffectiveAuthority
  pub changes : List Change

abbrev pub Digest : Type 0
Digest = ClaimRequest → Option String

-- The loop over the requested values of one dimension.
abbrev pub dimension_changes :
    String → List String → List String → Option (List String) → List Change
dimension_changes field [] effective cap = []
dimension_changes field (value ∷ requested) effective cap =
    let rest = dimension_changes field requested effective cap in
    if contains effective value
    then rest
    else record {
      field = field;
      requested = value;
      effective = "";
      reason_code =
          if excluded cap value then "outside-policy-constraint" else "outside-template-ceiling";
    }
      ∷ rest

-- caps.MaxTimeout != nil && *caps.MaxTimeout <= resolved
abbrev pub capped_by_policy : Option ℤ → ℤ → Bool
capped_by_policy none resolved = false
capped_by_policy (some cap) resolved = leb_ℤ cap resolved

abbrev pub timeout_changes : (show_duration : ℤ → String) → Option ℤ → Option ℤ → ℤ → List Change
timeout_changes show_duration cap none resolved = []
timeout_changes show_duration cap (some asked) resolved =
    if asked == resolved
    then []
    else record {
      field = "runtime.timeout";
      requested = show_duration asked;
      effective = show_duration resolved;
      reason_code =
          if capped_by_policy cap resolved then "policy-timeout-cap" else "template-timeout-cap";
    }
      ∷ []

abbrev pub asked_timeout : Option ClaimRuntimeRequirements → Option ℤ
asked_timeout none = none
asked_timeout (some runtime) = runtime.timeout

unfoldable pub changes_of :
    (show_duration : ℤ → String)
    → ClaimRequest
    → EffectiveAuthority
    → Option AuthorityConstraints
    → List Change
changes_of show_duration request resolved caps =
    let access = request.spec.requested_access in
    dimension_changes "tools" access.tools resolved.tools (cap_set caps (λ c. c.tools))
    ++ (dimension_changes "resourceScopes" access.resource_scopes resolved.resource_scopes
          (cap_set caps (λ c. c.resource_scopes))
        ++ (dimension_changes "memoryScopes" access.memory_scopes resolved.memory_scopes
              (cap_set caps (λ c. c.memory_scopes))
            ++ (dimension_changes "networkProfiles" access.network_profiles
                  resolved.network_profiles (cap_set caps (λ c. c.network_profiles))
                ++ timeout_changes show_duration (cap_of caps (λ c. c.max_timeout))
                    (asked_timeout request.spec.runtime) resolved.runtime.timeout)))

abbrev pub encoded : Option String → Result ValidationError String
encoded none = err (invalid "$" "request could not be losslessly encoded for authority binding")
encoded (some digest) = ok digest

unfoldable pub resolve_for_issuance :
    Digest
    → (show_duration : ℤ → String) → ClaimRequest
    → AgentTemplate
    → Admission
    → Result ValidationError Resolution
unfolding resolve changes_of constraints
resolve_for_issuance digest show_duration request template admission = do
  resolved ← resolve request template admission
  request_digest ← encoded (digest request)
  ok (record {
    request_digest = request_digest;
    authority = some resolved;
    changes = changes_of show_duration request resolved (constraints admission);
  })

-- The digests agree, where the request has one.
abbrev pub same_digest : Option String → String → Bool
same_digest none expected = false
same_digest (some digest) expected = digest == expected

abbrev pub served : Option EffectiveAuthority → Check → Bool → Option EffectiveAuthority
served none valid same = none
served (some authority) (err e) same = none
served (some authority) (ok u) same = if same then some authority else none

-- AuthorityFor; a nil resolution serves nothing, and a nil request is not valid.
unfoldable pub authority_for :
    Digest → Option Resolution → Option ClaimRequest → Option EffectiveAuthority
unfolding validate_claim_request
authority_for digest none request = none
authority_for digest (some r) none = none
authority_for digest (some r) (some request) =
    served r.authority (validate_claim_request (some request))
      (same_digest (digest request) r.request_digest)

abbrev pub if_served : Option EffectiveAuthority → List Change → Option (List Change)
if_served none changes = none
if_served (some authority) changes = some changes

-- ChangesFor
unfoldable pub changes_for : Digest → Resolution → Option ClaimRequest → Option (List Change)
unfolding authority_for
changes_for digest r request = if_served (authority_for digest (some r) request) r.changes
