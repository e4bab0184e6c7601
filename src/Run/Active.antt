-- ===== src/Run/Active.antt =====
-- A claim that has not ended can always be ended (internal/app/run_service.go, transition).
use agenova.Prelude.{
  String, Bool, true, false, not, ◌&&◌, Option, none, some, Result, ok, err, ◌>>◌, refuse_if,
  is_some, ◌==◌, ◌!=◌, string_eq, if◌then◌else◌, ◌≡◌, refl, sym, ap, ◌∙◌, subst, >>=-eq-ok,
}
use agenova.Api.{SandboxClaim, EffectiveAuthority, allow}
use agenova.Api.Errors.{Check, require, validate_network_profiles, invalid_value}
use agenova.Api.Issued.{
  IssuedState, pending, is_claim_phase, validate_issued_state, decision_matches, grant_check,
  allowed_check, refused_check, evidence_check,
}
use agenova.Run.Backend.{Ports}
use agenova.Run.Service.{
  Errors, Execution, bound, succeeded, failed_phase, expired, allowed_transition, with_event,
  with_claim, next_state, publish, publish_next, transition,
}
use agenova.Run.Phases.{Owners, IsHeldAt, publish_same, publish-IsHeldAt}

-- Replacing the rest of a chain, or its first check too.
mono :
    {E : Type 0} (m k k' : Result E (Unit {0}))
    → (k ≡ ok tt → k' ≡ ok tt)
    → (m >> k) ≡ ok tt
    → (m >> k') ≡ ok tt
mono (ok u) k k' f h = f h
mono (err e) k k' f h = cc h

replaced :
    {E : Type 0} (m m' k k' : Result E (Unit {0}))
    → m' ≡ ok tt
    → (k ≡ ok tt → k' ≡ ok tt)
    → (m >> k) ≡ ok tt
    → (m' >> k') ≡ ok tt
replaced (ok u) m' k k' e f h = rw e (f h)
replaced (err x) m' k k' e f h = cc h

-- A phase that a claim may be given once it is no longer Pending or Bound.
pub record IsFinal (phase : String) : Type 0 where
  pub known : is_claim_phase phase ≡ true
  pub not_pending : (phase == pending) ≡ false
  pub not_bound : (phase == bound) ≡ false

pub succeeded-IsFinal : IsFinal succeeded
succeeded-IsFinal = record { known = refl; not_pending = refl; not_bound = refl }

pub failed-IsFinal : IsFinal failed_phase
failed-IsFinal = record { known = refl; not_pending = refl; not_bound = refl }

pub expired-IsFinal : IsFinal expired
expired-IsFinal = record { known = refl; not_pending = refl; not_bound = refl }

module _ (st : IssuedState) (c : SandboxClaim) (to event : String) (final : IsFinal to) where
  abbrev moved : SandboxClaim
  moved = record c { phase = to }

  abbrev after : IssuedState
  after = with_event (record st { claim = some moved }) event

  grant_check-moved :
      (a : EffectiveAuthority) → grant_check st c a ≡ ok tt → grant_check after moved a ≡ ok tt
  unfolding grant_check
  grant_check-moved a h =
      mono (require "claim.id" c.id) _ _
        (mono (require "effectiveAuthority.id" a.id) _ _ (
          mono (require "effectiveAuthority.runtime.profileRef" a.runtime.profile_ref) _ _ (
            mono
              (validate_network_profiles "effectiveAuthority.networkProfiles" a.network_profiles
                invalid_value)
              _ _
              (replaced (refuse_if (not (is_claim_phase c.phase)) _)
                (refuse_if (not (is_claim_phase to)) _) _ _ (rw final.known refl)
                (mono (refuse_if (c.request_ref != st.request_ref) _) _ _ (
                  mono (refuse_if (c.template_ref != st.action.template_ref) _) _ _ (
                    mono (refuse_if (c.authority_ref != a.id) _) _ _ (
                      replaced (refuse_if (c.phase == pending && is_some c.backend_identity) _)
                        (refuse_if (to == pending && is_some c.backend_identity) _) _ _
                        (rw final.not_pending refl) (λ k. k)))))))))
        h

  allowed_check-moved :
      (o : Option EffectiveAuthority)
      → allowed_check st (some c) o ≡ ok tt
      → allowed_check after (some moved) o ≡ ok tt
  allowed_check-moved none h = cc h
  allowed_check-moved (some a) h = grant_check-moved a h

  branch-moved :
      (b : Bool) (o : Option EffectiveAuthority)
      → (if b then allowed_check st (some c) o else refused_check (some c) o) ≡ ok tt
      → (if b then allowed_check after (some moved) o else refused_check (some moved) o) ≡ ok tt
  branch-moved true o h = allowed_check-moved o h
  branch-moved false o h = h

  decision_matches-moved : decision_matches after ≡ decision_matches st
  unfolding decision_matches
  decision_matches-moved = refl

  evidence_check-moved : st.claim ≡ some c → evidence_check after ≡ evidence_check st
  unfolding evidence_check
  evidence_check-moved e = rw e refl

  validate-moved :
      st.claim ≡ some c
      → validate_issued_state (some st) ≡ ok tt
      → validate_issued_state (some after) ≡ ok tt
  unfolding validate_issued_state
  validate-moved e h =
      replaced (decision_matches st) (decision_matches after) _ _
        (decision_matches-moved ∙ first (decision_matches st) _ h)
        (replaced
          (if st.decision.result == allow
            then allowed_check st st.claim st.effective_authority
            else refused_check st.claim st.effective_authority)
          (if st.decision.result == allow
            then allowed_check after (some moved) st.effective_authority
            else refused_check (some moved) st.effective_authority)
          _ _
          (branch-moved (st.decision.result == allow) st.effective_authority (
            subst
              (λ o.
                (if st.decision.result == allow
                  then allowed_check st o st.effective_authority
                  else refused_check o st.effective_authority)
                ≡ ok tt)
              e (middle h)))
          (λ k. evidence_check-moved e ∙ k))
        h
    where
      first : (m k : Check) → (m >> k) ≡ ok tt → m ≡ ok tt
      first (ok u) k h = refl
      first (err x) k h = cc h

      middle :
          validate_issued_state (some st) ≡ ok tt
          → (if st.decision.result == allow
              then allowed_check st st.claim st.effective_authority
              else refused_check st.claim st.effective_authority)
            ≡ ok tt
      middle h = let (_, _, h₁) = >>=-eq-ok (decision_matches st) h in first _ _ h₁

  -- The transition is made, when the table allows it.
  with_claim-moved :
      st.claim ≡ some c
      → validate_issued_state (some st) ≡ ok tt
      → allowed_transition c.phase to ≡ true
      → with_claim st (some c) to event none ≡ ok after
  with_claim-moved e v a = rw (a, final.not_bound, validate-moved e v) refl

module _ {W : Type 0} (p : Ports W) (owners : Owners) (claim_id : String) where
  -- Ending a claim whose phase allows it succeeds, whatever the event sink says.
  pub transition-IsHeldAt :
      (from to event : String) (x : Execution W)
      → IsFinal to
      → allowed_transition from to ≡ true
      → IsHeldAt owners claim_id from x.service
      → IsHeldAt owners claim_id to (transition p claim_id to event none x).0.service
        × ((transition p claim_id to event none x).0.calls ≡ x.calls)
  unfolding transition next_state
  transition-IsHeldAt from to event x final a k =
      let made = after k.state k.claim to event final in
      let able : allowed_transition k.claim.phase to ≡ true =
        ap (λ ph. allowed_transition ph to) k.at ∙ a in
      let next : next_state (x.service.state claim_id) to event none ≡ ok made =
        ap (λ o. next_state o to event none) k.stored
        ∙ (ap (λ o. with_claim k.state o to event none) k.claimed
            ∙ with_claim-moved k.state k.claim to event final k.claimed k.valid able) in
      let valid = validate-moved k.state k.claim to event final k.claimed k.valid in
      let done =
        publish-IsHeldAt p owners claim_id made (moved k.state k.claim to event final) event x refl
          valid k.held in
      let same : transition p claim_id to event none x ≡ publish p claim_id made event x =
        ap (λ r. publish_next p claim_id event r x) next in
      (
        subst (λ (r : Execution W × Errors). IsHeldAt owners claim_id to r.0.service) (sym same)
            done,
        ap (λ (r : Execution W × Errors). r.0.calls) same
            ∙ (publish_same p claim_id made event x).1,
      )
