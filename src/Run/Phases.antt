-- ===== src/Run/Phases.antt =====
-- What publishing, recording and moving a claim leave of the service (internal/app/run_service.go).
use agenova.Prelude.{
  String, not, ◌||◌, [], ◌∷◌, Option, none, some, Result, ok, err, refuse_if, ◌==◌, string_eq, Map,
  update, update_self, ◌≡◌, ◌⊎◌, inl, inr, refl, sym, ap, ◌∙◌, subst, Bool-cases, ==_iff, >>=-eq-ok,
  ok_injective,
}
use agenova.Api.{SandboxClaim, BackendIdentity}
use agenova.Api.Errors.{Check}
use agenova.Api.Issued.{
  IssuedState, validate_issued_state, decision_matches, grant_check, evidence_check,
}
use agenova.Run.Backend.{RunError, Ports}
use agenova.Run.Service.{
  Errors, RunService, Execution, bound, allowed_transition, bound_claim, moved_claim, next_claim,
  with_event, or_rejected, with_claim, next_state, notify, publish, publish_next, transition,
  record_of, record_event,
}

-- The claim that owns each worker.
abbrev pub Owners : Type 0
Owners = Map BackendIdentity String

-- The claim is stored in this phase, in a state that validates.
pub record IsAt (claim_id : String) (phase : String) (s : RunService) : Type 0 where
  pub state : IssuedState
  pub claim : SandboxClaim
  pub stored : s.state claim_id ≡ some state
  pub claimed : state.claim ≡ some claim
  pub at : claim.phase ≡ phase
  pub valid : validate_issued_state (some state) ≡ ok tt

-- The same, and the workers have these owners.
pub record IsHeldAt (owners : Owners) (claim_id : String) (phase : String) (s : RunService)
    : Type 0 where
  pub state : IssuedState
  pub claim : SandboxClaim
  pub stored : s.state claim_id ≡ some state
  pub claimed : state.claim ≡ some claim
  pub at : claim.phase ≡ phase
  pub valid : validate_issued_state (some state) ≡ ok tt
  pub held : s.identity_owner ≡ owners

module _ {W : Type 0} (p : Ports W) (claim_id : String) where
  notify_same :
      (o : Option (IssuedState → String → W → W × Option String)) (st : IssuedState)
      (event : String) (x : Execution W)
      → ((notify p o st event x).0.service ≡ x.service)
        × ((notify p o st event x).0.calls ≡ x.calls)
  notify_same none st event x = (refl, refl)
  notify_same (some f) st event x = (refl, refl)

  pub publish_same :
      (st : IssuedState) (event : String) (x : Execution W)
      → ((publish p claim_id st event x).0.service
          ≡ record x.service { state = update x.service.state claim_id st })
        × ((publish p claim_id st event x).0.calls ≡ x.calls)
  unfolding publish
  publish_same st event x =
      notify_same p.on_event st event
        (record x { service = record x.service { state = update x.service.state claim_id st } })

module _ {W : Type 0} (p : Ports W) (owners : Owners) (claim_id : String) where
  pub publish-IsHeldAt :
      (st : IssuedState) (c : SandboxClaim) (event : String) (x : Execution W)
      → st.claim ≡ some c
      → validate_issued_state (some st) ≡ ok tt
      → x.service.identity_owner ≡ owners
      → IsHeldAt owners claim_id c.phase (publish p claim_id st event x).0.service
  publish-IsHeldAt st c event x e v h =
      subst (IsHeldAt owners claim_id c.phase) (sym (publish_same p claim_id st event x).0)
        (record {
          state = st;
          claim = c;
          stored = update_self x.service.state claim_id st;
          claimed = e;
          at = refl;
          valid = v;
          held = h;
        })

validate-with_event :
    (st : IssuedState) (event : String)
    → validate_issued_state (some (with_event st event)) ≡ validate_issued_state (some st)
unfolding validate_issued_state decision_matches grant_check evidence_check
validate-with_event st event = refl

module _ {W : Type 0} (p : Ports W) (owners : Owners) (claim_id : String) (event : String) where
  record_of-IsHeldAt :
      (phase : String) (o : Option IssuedState) (x : Execution W)
      → x.service.state claim_id ≡ o
      → IsHeldAt owners claim_id phase x.service
      → IsHeldAt owners claim_id phase (record_of p claim_id event o x).0.service
        × ((record_of p claim_id event o x).0.calls ≡ x.calls)
  record_of-IsHeldAt phase none x e k = cc (e, k.stored)
  record_of-IsHeldAt phase (some st) x e k =
      let same : k.state ≡ st = cc (sym k.stored ∙ e) in
      let claimed : st.claim ≡ some k.claim =
        ap (λ (s : IssuedState). s.claim) (sym same) ∙ k.claimed in
      (
        subst
            (λ ph.
              IsHeldAt owners claim_id ph
                (publish p claim_id (with_event st event) event x).0.service)
            k.at
            (publish-IsHeldAt p owners claim_id (with_event st event) k.claim event x claimed
              (validate-with_event st event
                ∙ (ap (λ s. validate_issued_state (some s)) (sym same) ∙ k.valid))
              k.held),
        (publish_same p claim_id (with_event st event) event x).1,
      )

  -- Recording an event changes no phase and makes no call.
  pub record_event-IsHeldAt :
      (phase : String) (x : Execution W)
      → IsHeldAt owners claim_id phase x.service
      → IsHeldAt owners claim_id phase (record_event p claim_id event x).0.service
        × ((record_event p claim_id event x).0.calls ≡ x.calls)
  unfolding record_event
  record_event-IsHeldAt phase x k = record_of-IsHeldAt phase (x.service.state claim_id) x refl k

-- What a state that next_state gives is.
record IsMoved (to : String) (st : IssuedState) : Type 0 where
  claim : SandboxClaim
  claimed : st.claim ≡ some claim
  at : claim.phase ≡ to
  valid : validate_issued_state (some st) ≡ ok tt

next_claim-phase :
    (c c' : SandboxClaim) (to : String) (identity : Option BackendIdentity)
    → next_claim c to identity ≡ ok c'
    → c'.phase ≡ to
next_claim-phase c c' to identity h = elim (Bool-cases (to == bound)) [
  | inl e ↦ bound_phase identity (rw e at h) ∙ sym ((==_iff to bound).0 e)
  | inr n ↦ moved_phase identity (rw n at h)
]
  where
    bound_phase : (o : Option BackendIdentity) → bound_claim c o ≡ ok c' → c'.phase ≡ bound
    bound_phase none h = cc h
    bound_phase (some id) h =
        let (_, _, e) = >>=-eq-ok (refuse_if (id.backend == "" || id.worker_id == "") _) h in
        sym (ap (λ (c : SandboxClaim). c.phase) (ok_injective e))

    moved_phase : (o : Option BackendIdentity) → moved_claim c to o ≡ ok c' → c'.phase ≡ to
    moved_phase none h = sym (ap (λ (c : SandboxClaim). c.phase) (ok_injective h))
    moved_phase (some id) h = cc h

or_rejected-ok : (c : Check) → or_rejected c ≡ ok tt → c ≡ ok tt
or_rejected-ok (ok u) h = refl
or_rejected-ok (err e) h = cc h

with_claim-IsMoved :
    (current : IssuedState) (o : Option SandboxClaim) (to event : String)
    (identity : Option BackendIdentity) (st : IssuedState)
    → with_claim current o to event identity ≡ ok st
    → IsMoved to st
with_claim-IsMoved current none to event identity st h = cc h
with_claim-IsMoved current (some c) to event identity st h =
    let (_, _, h₁) = >>=-eq-ok (refuse_if (not (allowed_transition c.phase to)) _) h in
    let (c', n, h₂) = >>=-eq-ok (next_claim c to identity) h₁ in
    let made = with_event (record current { claim = some c' }) event in
    let (_, v, h₃) = >>=-eq-ok (or_rejected (validate_issued_state (some made))) h₂ in
    let same : made ≡ st = ok_injective h₃ in
    subst (IsMoved to) same (record {
      claim = c';
      claimed = refl;
      at = next_claim-phase c c' to identity n;
      valid = or_rejected-ok _ v;
    })

next_state-IsMoved :
    (o : Option IssuedState) (to event : String) (identity : Option BackendIdentity)
    (st : IssuedState)
    → next_state o to event identity ≡ ok st
    → IsMoved to st
unfolding next_state
next_state-IsMoved none to event identity st h = cc h
next_state-IsMoved (some current) to event identity st h =
    with_claim-IsMoved current current.claim to event identity st h

-- A transition either does nothing and says so, or the claim is in the new phase, with the owners kept.
abbrev pub Moved :
    {W : Type 0} → Owners → String → String → Execution W → Execution W × Errors → Type 0
Moved owners claim_id to x r =
    (r.0.calls ≡ x.calls)
    × (((r.0.service ≡ x.service) × ((e : RunError) × (r.1 ≡ e ∷ [])))
        ⊎ IsHeldAt owners claim_id to r.0.service)

module _ {W : Type 0} (p : Ports W) (owners : Owners) (claim_id : String) where
  publish_next-Moved :
      (to event : String) (x : Execution W) (r : Result RunError IssuedState)
      → ((st : IssuedState) → r ≡ ok st → IsMoved to st)
      → x.service.identity_owner ≡ owners
      → Moved owners claim_id to x (publish_next p claim_id event r x)
  publish_next-Moved to event x (err e) m h = (refl, inl (refl, (e, refl)))
  publish_next-Moved to event x (ok st) m h =
      let k = m st refl in
      (
        (publish_same p claim_id st event x).1,
        inr (
            subst (λ ph. IsHeldAt owners claim_id ph (publish p claim_id st event x).0.service) k.at
              (publish-IsHeldAt p owners claim_id st k.claim event x k.claimed k.valid h)),
      )

  pub transition-Moved :
      (to event : String) (identity : Option BackendIdentity) (x : Execution W)
      → x.service.identity_owner ≡ owners
      → Moved owners claim_id to x (transition p claim_id to event identity x)
  unfolding transition
  transition-Moved to event identity x h =
      publish_next-Moved to event x (next_state (x.service.state claim_id) to event identity)
        (next_state-IsMoved (x.service.state claim_id) to event identity) h
