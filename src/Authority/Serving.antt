-- ===== src/Authority/Serving.antt =====
-- What a resolution serves, and what its changes say (internal/authority/resolution.go).
use agenova.Prelude.{
  String, Bool, true, false, Option, none, some, ok, err, string_eq, ◌≡◌, ◌↔◌, refl, sym, ap, ◌∙◌,
  ==_iff, >>=-eq-ok, ok_injective,
}
use agenova.Prelude.Int.{ℤ}
use agenova.Api.{EffectiveAuthority}
use agenova.Api.Errors.{Check}
use agenova.Api.Requests.{ClaimRequest, validate_claim_request}
use agenova.Api.Templates.{AgentTemplate}
use agenova.Authorization.{Admission}
use agenova.Authorization.Requests.{constraints}
use agenova.Authority.Resolve.{resolve}
use agenova.Authority.Bounded.{resolve-IsBounded}
use agenova.Authority.Resolution.{
  Resolution, Digest, encoded, resolve_for_issuance, same_digest, served, authority_for, changes_of,
}

encoded-some : (o : Option String) (d : String) → encoded o ≡ ok d → o ≡ some d
encoded-some none d h = cc h
encoded-some (some x) d h = ap some (ok_injective h)

-- A resolution of a request: its authority is that of Resolve, bound to the request's digest.
pub record IsResolved (digest : Digest) (show_duration : ℤ → String) (request : ClaimRequest)
    (template : AgentTemplate) (admission : Admission) (r : Resolution) (a : EffectiveAuthority)
    : Type 0 where
  pub resolved : resolve request template admission ≡ ok a
  pub authority : r.authority ≡ some a
  pub bound : digest request ≡ some r.request_digest
  pub changes : r.changes ≡ changes_of show_duration request a (constraints admission)

pub resolve_for_issuance-IsResolved :
    (digest : Digest) (show_duration : ℤ → String) (request : ClaimRequest)
    (template : AgentTemplate) (admission : Admission) (r : Resolution)
    → resolve_for_issuance digest show_duration request template admission ≡ ok r
    → (a : EffectiveAuthority) × IsResolved digest show_duration request template admission r a
unfolding resolve_for_issuance
resolve_for_issuance-IsResolved digest show_duration request template admission r h =
    let (a, e, rest) = >>=-eq-ok (resolve request template admission) h in
    let (d, m, made) = >>=-eq-ok (encoded (digest request)) rest in
    let same = ok_injective made in
    (
      a,
      record {
        resolved = e;
        authority = sym (ap (λ (r : Resolution). r.authority) same);
        bound =
            encoded-some (digest request) d m ∙ ap (λ (r : Resolution). some r.request_digest) same;
        changes = sym (ap (λ (r : Resolution). r.changes) same);
      },
    )

served-cases :
    (a x : EffectiveAuthority) (valid : Check) (same : Bool)
    → (served (some a) valid same ≡ some x) ↔ ((valid ≡ ok tt) × (same ≡ true) × (a ≡ x))
served-cases a x (err e) same = (λ h. cc h, λ (v, _, _). cc v)
served-cases a x (ok u) true = (λ h. (refl, refl, cc h), λ (_, _, e). ap some e)
served-cases a x (ok u) false = (λ h. cc h, λ (_, s, _). cc s)

same_digest_iff : (o : Option String) (d : String) → (same_digest o d ≡ true) ↔ (o ≡ some d)
same_digest_iff none d = (λ h. cc h, λ h. cc h)
same_digest_iff (some x) d =
    (λ h. ap some ((==_iff x d).0 h), λ h. (==_iff x d).1 (some_injective h))
  where
    some_injective : {a b : String} → ◌≡◌ {A = Option String} (some a) (some b) → a ≡ b
    some_injective h = cc h

-- A resolution serves a request exactly when the request is valid and has the digest of the one that
-- was resolved, and then it gives the authority that Resolve gave; so it serves the resolved request.
pub authority_for-served :
    (digest : Digest) (show_duration : ℤ → String) (request other : ClaimRequest)
    (template : AgentTemplate) (admission : Admission) (r : Resolution) (x : EffectiveAuthority)
    → resolve_for_issuance digest show_duration request template admission ≡ ok r
    → ((authority_for digest (some r) (some other) ≡ some x) ↔ (
        (validate_claim_request (some other) ≡ ok tt)
        × (digest other ≡ digest request)
        × (resolve request template admission ≡ ok x)))
      × ((a : EffectiveAuthority) × (authority_for digest (some r) (some request) ≡ some a))
unfolding authority_for
authority_for-served digest show_duration request other template admission r x h =
    let (a, p) =
      resolve_for_issuance-IsResolved digest show_duration request template admission r h in
    let valid = validate_claim_request (some other) in
    let same = same_digest (digest other) r.request_digest in
    let shown : (o : ClaimRequest)
        → authority_for digest (some r) (some o)
          ≡ served (some a) (validate_claim_request (some o))
              (same_digest (digest o) r.request_digest) =
      λ o. rw p.authority refl in
    let cases = served-cases a x valid same in
    (
      (
        λ e.
            let (v, s, k) = cases.0 (sym (shown other) ∙ e) in
            (
              v,
              (same_digest_iff (digest other) r.request_digest).0 s ∙ sym p.bound,
              p.resolved ∙ ap ok k,
            ),
        λ (v, d, k).
            shown other
            ∙ cases.1 (
              v,
              (same_digest_iff (digest other) r.request_digest).1 (d ∙ p.bound),
              ok_injective (sym p.resolved ∙ k),
            ),
      ),
      (
        a,
        shown request
            ∙ (served-cases a a (validate_claim_request (some request)) _).1 (
              (resolve-IsBounded request template admission a p.resolved).0,
              (same_digest_iff (digest request) r.request_digest).1 p.bound,
              refl,
            ),
      ),
    )
