-- ===== src/Issuance/Outcome.antt =====
-- What an issued state says, and what its authority is (internal/issuance/issuance.go).
use agenova.Prelude.{
  String, Bool, true, false, not, Option, none, some, Result, ok, refuse_if, ◌==◌, ◌&&◌, string_eq,
  ◌≡◌, refl, sym, ap, ◌∙◌, subst, arith, ==_iff, >>=-eq-ok, ok_injective,
}
use agenova.Prelude.Int.{ℤ}
use agenova.Api.{Principal, Decision, EffectiveAuthority, SandboxClaim, allow}
use agenova.Api.Equality.{principal_eq, action_eq, decision_eq}
use agenova.Api.Requests.{ClaimRequest, validate_claim_request}
use agenova.Api.Templates.{AgentTemplate}
use agenova.Api.Issued.{IssuedState, pending, validate_issued_state}
use agenova.Authorization.{Admission}
use agenova.Authorization.Requests.{matches_context, request_eq}
use agenova.Authority.Resolution.{Resolution, Digest, resolve_for_issuance, authority_for}
use agenova.Authority.Serving.{authority_for-served}
use agenova.Authority.Bounded.{Limiting, resolve-IsBounded}
use agenova.Authority.Resolve.{resolve}
use agenova.Issuance.{
  Encoders, matched, resolved_check, action_of, context_of, issuance_digest, issued_id,
  named_authority, issued_claim, issued_state, issue_request, issue,
}

-- What Issue has established when it returns a state.
pub record IsIssued (digest : Digest) (request : ClaimRequest) (principal : Principal)
    (decision : Decision) (resolution : Option Resolution) (admission : Admission)
    (state : IssuedState) : Type 0 where
  pub resolved : EffectiveAuthority
  pub id : String
  pub well_formed : validate_claim_request (some request) ≡ ok tt
  pub admitted : matches_context admission (context_of request principal) decision ≡ true
  pub served : authority_for digest resolution (some request) ≡ some resolved
  pub shape : issued_state request principal decision resolved id ≡ state
  pub valid : validate_issued_state (some state) ≡ ok tt

accepted :
    {E : Type 0} (b : Bool) (u : E)
    → ◌≡◌ {A = Result E Unit} (refuse_if (not b) u) (ok tt)
    → b ≡ true
accepted true u h = refl
accepted false u h = cc h

matched-some :
    (o : Option EffectiveAuthority) (a : EffectiveAuthority) → matched o ≡ ok a → o ≡ some a
matched-some none a h = cc h
matched-some (some x) a h = ap some (ok_injective h)

module _ (digest : Digest) (encode : Encoders) (hex : String → String) (request : ClaimRequest)
    (principal : Principal) (decision : Decision) (resolution : Option Resolution)
    (admission : Admission) where
  pub issue-IsIssued :
      (state : IssuedState)
      → issue digest encode hex (some request) principal decision resolution admission ≡ ok state
      → IsIssued digest request principal decision resolution admission state
  unfolding issue issue_request
  issue-IsIssued state h =
      let (_, v, h₁) = >>=-eq-ok (validate_claim_request (some request)) h in
      let (_, m, h₂) =
        >>=-eq-ok
          (refuse_if (not (matches_context admission (context_of request principal) decision)) _)
          h₁ in
      let (a, s, h₃) = >>=-eq-ok (matched (authority_for digest resolution (some request))) h₂ in
      let (_, _, h₄) = >>=-eq-ok (resolved_check a) h₃ in
      let (id, _, h₅) =
        >>=-eq-ok (issuance_digest encode hex request principal (action_of request) decision a)
          h₄ in
      let made = issued_state request principal decision a id in
      let (_, w, h₆) = >>=-eq-ok (validate_issued_state (some made)) h₅ in
      record {
        resolved = a;
        id = id;
        well_formed = v;
        admitted = accepted _ _ m;
        served = matched-some _ a s;
        shape = ok_injective h₆;
        valid = subst (λ st. validate_issued_state (some st) ≡ ok tt) (ok_injective h₆) w;
      }

  matches_context-same :
      matches_context admission (context_of request principal) decision ≡ true
      → (admission.evaluation.request ≡ context_of request principal)
        × (admission.evaluation.decision ≡ decision)
        × (decision.result ≡ allow)
  unfolding matches_context
  matches_context-same h =
      let e = admission.evaluation in
      let r = ==_iff e.request (context_of request principal) in
      let d = ==_iff e.decision decision in
      let a = ==_iff e.decision.result allow in
      let (ha, hr, hd) =
        three (e.decision.result == allow) (e.request == context_of request principal)
          (e.decision == decision) h in
      (r.0 hr, d.0 hd, ap (λ (x : Decision). x.result) (sym (d.0 hd)) ∙ a.0 ha)
    where
      three : (a b c : Bool) → (a && b && c) ≡ true → (a ≡ true) × (b ≡ true) × (c ≡ true)
      three a b c h = ground (arith, h)

  -- When Issue returns a state, the request is valid, the admission is the gate's for this request, this
  -- principal and this decision, and the decision is Allow; the state passes ValidateIssuedState and has a
  -- Pending claim without a backend identity, and the claim, its evidence and the authority carry the
  -- identities and references of one another.
  pub issue-correlated :
      (state : IssuedState)
      → issue digest encode hex (some request) principal decision resolution admission ≡ ok state
      → (validate_claim_request (some request) ≡ ok tt)
        × (admission.evaluation.request ≡ context_of request principal)
        × (admission.evaluation.decision ≡ decision)
        × (validate_issued_state (some state) ≡ ok tt)
        × (state.decision ≡ decision)
        × (decision.result ≡ allow)
        × (state.principal ≡ principal)
        × ((claim : SandboxClaim) × (authority : EffectiveAuthority) × (state.claim ≡ some claim)
            × (state.effective_authority ≡ some authority)
            × (claim.phase ≡ pending)
            × (claim.backend_identity ≡ none)
            × (claim.request_ref ≡ request.name)
            × (claim.template_ref ≡ request.spec.template_ref)
            × (claim.authority_ref ≡ authority.id)
            × (state.evidence.claim_id ≡ claim.id))
  issue-correlated state h =
      let p = issue-IsIssued state h in
      let (r, d, a) = matches_context-same p.admitted in
      (
        p.well_formed,
        r,
        d,
        p.valid,
        sym (ap (λ (s : IssuedState). s.decision) p.shape),
        a,
        sym (ap (λ (s : IssuedState). s.principal) p.shape),
        (
          issued_claim request p.id,
          named_authority request p.id p.resolved,
          sym (ap (λ (s : IssuedState). s.claim) p.shape),
          sym (ap (λ (s : IssuedState). s.effective_authority) p.shape),
          refl,
          refl,
          refl,
          refl,
          refl,
          sym (ap (λ (s : IssuedState). s.evidence.claim_id) p.shape),
        ),
      )

module _ (digest : Digest) (show_duration : ℤ → String) (encode : Encoders)
    (hex : String → String) where
  -- When Issue returns a state for a resolution that ResolveForIssuance made, the request has the digest
  -- of the one that was resolved, and the authority of the state is, but for its identity, the one that
  -- Resolve gave: it stays within the request, the template's ceiling and the constraints of the admission
  -- that were resolved.
  pub issue-Limiting :
      (original request : ClaimRequest) (template : AgentTemplate) (admission used : Admission)
      (r : Resolution) (principal : Principal) (decision : Decision) (state : IssuedState)
      → resolve_for_issuance digest show_duration original template admission ≡ ok r
      → issue digest encode hex (some request) principal decision (some r) used ≡ ok state
      → (digest request ≡ digest original)
        × ((a : EffectiveAuthority) × (id : String) × (state.effective_authority
              ≡ some (record a { id = id }))
            × (resolve original template admission ≡ ok a)
            × Limiting original template admission a)
  issue-Limiting original request template admission used r principal decision state h k =
      let p = issue-IsIssued digest encode hex request principal decision (some r) used state k in
      let (served, _) =
        authority_for-served digest show_duration original request template admission r p.resolved
          h in
      let (_, same, resolved) = served.0 p.served in
      (
        same,
        (
          p.resolved,
          issued_id "authority" request p.id,
          sym (ap (λ (s : IssuedState). s.effective_authority) p.shape),
          resolved,
          (resolve-IsBounded original template admission p.resolved resolved).3,
        ),
      )
