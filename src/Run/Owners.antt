-- ===== src/Run/Owners.antt =====
-- The phases of a claim and the owner of a worker (internal/app/run_service.go).
use agenova.Prelude.{
  String, Bool, true, false, not, [], Option, none, some, Result, ok, err, refuse_if, ◌==◌,
  string_eq, ◌||◌, if◌then◌else◌, update, update_self, ◌≡◌, ◌≢◌, ◌⊎◌, inl, inr, refl, sym, ap, ◌∙◌,
  arith, Bool-cases, ==_iff, >>=-eq-ok, ok_injective,
}
use agenova.Api.{SandboxClaim, BackendIdentity}
use agenova.Api.Equality.{backend_identity_eq}
use agenova.Api.Issued.{IssuedState, validate_issued_state}
use agenova.Run.Backend.{RunError, Ports}
use agenova.Run.Service.{
  RunService, Execution, bound, running, succeeded, failed_phase, expired, allowed_transition,
  bound_claim, moved_claim, next_claim, with_event, or_rejected, with_claim, next_state, publish,
  publish_next, transition, owned_by_other, reserve_identity, claim_of, claim,
}
use agenova.Run.Phases.{publish_same}

-- The claim in its new phase; the transition to Bound attaches the backend identity, and any other keeps it.
abbrev pub moved : SandboxClaim → String → Option BackendIdentity → SandboxClaim
moved c to identity = record c {
  phase = to;
  backend_identity = if to == bound then identity else c.backend_identity;
}

-- What one transition does to the claims of the service.
abbrev pub Steps : String → String → Option BackendIdentity → RunService → RunService → Type 0
Steps claim_id to identity s s' =
    (s' ≡ s)
    ⊎ ((c : SandboxClaim) × (c' : SandboxClaim) × (claim s claim_id ≡ some c)
        × (claim s' claim_id ≡ some c')
        × (c' ≡ moved c to identity)
        × (allowed_transition c.phase to ≡ true)
        × ((to == bound) ≡ true → c.phase ≢ running)
        × ((other : String) → (claim_id == other) ≡ false → claim s' other ≡ claim s other))

-- The claim of a state that next_state gives, and the one it was.
record Stepped (to : String) (identity : Option BackendIdentity) (o : Option IssuedState)
    (st : IssuedState) : Type 0 where
  before : SandboxClaim
  after : SandboxClaim
  was : claim_of o ≡ some before
  is : st.claim ≡ some after
  allowed : allowed_transition before.phase to ≡ true
  made : after ≡ moved before to identity

accepted :
    {E : Type 0} (b : Bool) (u : E)
    → ◌≡◌ {A = Result E Unit} (refuse_if (not b) u) (ok tt)
    → b ≡ true
accepted true u h = refl
accepted false u h = cc h

next_claim-moved :
    (c c' : SandboxClaim) (to : String) (identity : Option BackendIdentity)
    → next_claim c to identity ≡ ok c'
    → c' ≡ moved c to identity
next_claim-moved c c' to identity h = elim (Bool-cases (to == bound)) [
  | inl e ↦ rw (e, (==_iff to bound).0 e) (bound_to identity (rw e at h))
  | inr n ↦ rw n (moved_to identity (rw n at h))
]
  where
    bound_to :
        (o : Option BackendIdentity)
        → bound_claim c o ≡ ok c'
        → c' ≡ record c { phase = bound; backend_identity = o }
    bound_to none h = cc h
    bound_to (some id) h =
        let (_, _, e) = >>=-eq-ok (refuse_if (id.backend == "" || id.worker_id == "") _) h in
        sym (ok_injective e)

    moved_to :
        (o : Option BackendIdentity) → moved_claim c to o ≡ ok c' → c' ≡ record c { phase = to }
    moved_to none h = sym (ok_injective h)
    moved_to (some id) h = cc h

with_claim-Stepped :
    (current : IssuedState) (o : Option SandboxClaim) (to event : String)
    (identity : Option BackendIdentity) (st : IssuedState)
    → current.claim ≡ o
    → with_claim current o to event identity ≡ ok st
    → Stepped to identity (some current) st
with_claim-Stepped current none to event identity st e h = cc h
with_claim-Stepped current (some c) to event identity st e h =
    let (_, a, h₁) = >>=-eq-ok (refuse_if (not (allowed_transition c.phase to)) _) h in
    let (c', n, h₂) = >>=-eq-ok (next_claim c to identity) h₁ in
    let made = with_event (record current { claim = some c' }) event in
    let (_, _, h₃) = >>=-eq-ok (or_rejected (validate_issued_state (some made))) h₂ in
    record {
      before = c;
      after = c';
      was = e;
      is = sym (ap (λ (s : IssuedState). s.claim) (ok_injective h₃));
      allowed = accepted _ _ a;
      made = next_claim-moved c c' to identity n;
    }

next_state-Stepped :
    (o : Option IssuedState) (to event : String) (identity : Option BackendIdentity)
    (st : IssuedState)
    → next_state o to event identity ≡ ok st
    → Stepped to identity o st
unfolding next_state
next_state-Stepped none to event identity st h = cc h
next_state-Stepped (some current) to event identity st h =
    with_claim-Stepped current current.claim to event identity st refl h

bound_not_running :
    (from to : String) → allowed_transition from to ≡ true → (to == bound) ≡ true → from ≢ running
unfolding allowed_transition
bound_not_running from to a b e =
    let same : to ≡ bound = (==_iff to bound).0 b in
    cc (ap (λ f. allowed_transition f bound) (sym e), ap (allowed_transition from) same, a)

module _ {W : Type 0} (p : Ports W) (claim_id to event : String)
    (identity : Option BackendIdentity) where
  publish_next-Steps :
      (x : Execution W) (r : Result RunError IssuedState)
      → ((st : IssuedState) → r ≡ ok st → Stepped to identity (x.service.state claim_id) st)
      → Steps claim_id to identity x.service (publish_next p claim_id event r x).0.service
  unfolding claim
  publish_next-Steps x (err e) f = inl refl
  publish_next-Steps x (ok st) f =
      let k = f st refl in
      let same = (publish_same p claim_id st event x).0 in
      let now : (other : String)
          → (publish p claim_id st event x).0.service.state other
            ≡ update x.service.state claim_id st other =
        λ other. ap (λ (s : RunService). s.state other) same in
      inr (
        k.before,
        k.after,
        k.was,
        ap claim_of (now claim_id ∙ update_self x.service.state claim_id st) ∙ k.is,
        k.made,
        k.allowed,
        bound_not_running k.before.phase to k.allowed,
        λ other n. ap claim_of (now other) ∙ rw n refl,
      )

terminal_transition :
    (to : String)
    → (allowed_transition succeeded to ≡ false)
      × (allowed_transition failed_phase to ≡ false)
      × (allowed_transition expired to ≡ false)
unfolding allowed_transition
terminal_transition to = (refl, refl, refl)

-- A transition either changes nothing in the service, or moves the claim to the phase asked for, which the table
-- allows from the phase it was in: the stored claim has the new phase, the backend identity that the transition
-- attaches on Bound or the one it had otherwise, and all else as before; every other claim is as it was; no allowed transition leads out of Succeeded, Failed or Expired, nor from
-- Running back to Bound.
pub transition-Steps :
    {W : Type 0} (p : Ports W) (claim_id to event : String) (identity : Option BackendIdentity)
    (x : Execution W)
    → Steps claim_id to identity x.service (transition p claim_id to event identity x).0.service
      × (allowed_transition succeeded to ≡ false)
      × (allowed_transition failed_phase to ≡ false)
      × (allowed_transition expired to ≡ false)
unfolding transition
transition-Steps p claim_id to event identity x =
    let (a, b, c) = terminal_transition to in
    (
      publish_next-Steps p claim_id to event identity x
          (next_state (x.service.state claim_id) to event identity)
          (next_state-Stepped (x.service.state claim_id) to event identity),
      a,
      b,
      c,
    )

not_owned :
    (o : Option String) (claim_id : String)
    → owned_by_other o claim_id ≡ false
    → (owner : String) → o ≡ some owner
    → owner ≡ claim_id
not_owned none claim_id h owner e = cc e
not_owned (some q) claim_id h owner e =
    let same : q ≡ owner = cc e in sym same ∙ (==_iff q claim_id).0 (ground (arith, h))

-- reserveIdentity never takes a worker from the claim that owns it: an identity that has an owner keeps it. Without
-- an error the claim owns the identity afterwards, and with one the service is as it was.
pub reserve_identity-owner :
    (claim_id : String) (identity : BackendIdentity) (s : RunService)
    → let (s', e) = reserve_identity claim_id identity s in
      ((other : BackendIdentity) (owner : String)
        → s.identity_owner other ≡ some owner
        → s'.identity_owner other ≡ some owner)
      × (((e ≡ []) × (s'.identity_owner identity ≡ some claim_id)) ⊎ ((e ≢ []) × (s' ≡ s)))
unfolding reserve_identity
reserve_identity-owner claim_id identity s =
    elim (Bool-cases (owned_by_other (s.identity_owner identity) claim_id)) [
      | inl y ↦ rw y (λ other owner h. h, inr (λ h. cc h, refl))
      | inr n ↦ rw n (
        λ other owner h. elim (Bool-cases (identity == other)) [
          | inr m ↦ rw m h
          | inl same ↦ rw same (
              ap some (
                sym (
                  not_owned (s.identity_owner identity) claim_id n owner
                    (ap s.identity_owner ((==_iff identity other).0 same) ∙ h))))
        ],
        inl (refl, update_self s.identity_owner identity claim_id),
      )
    ]
