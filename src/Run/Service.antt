-- ===== src/Run/Service.antt =====
-- internal/app/run_service.go: the state of RunService and the methods that change it. A copy of a state is
-- the state; the mutexes make each method one step.
use agenova.Prelude.{
  String, Bool, true, false, not, ◌&&◌, ◌||◌, List, [], ◌∷◌, ◌++◌, Option, none, some, Result, ok,
  err, ◌>>=◌, ◌>>◌, refuse_if, is_some, ◌==◌, ◌!=◌, string_eq, nat_eq, list_eq, Map, update,
  empty_map, if◌then◌else◌,
}
use agenova.Api.{SandboxClaim, BackendIdentity}
use agenova.Api.Equality.{backend_identity_eq}
use agenova.Api.Errors.{ValidationError}
use agenova.Api.Issued.{IssuedState, validate_issued_state}
use agenova.Run.Backend.{
  NetworkAuthority, NetworkEvidence, RunError, invalid_run, rejected, failed, Ports, Allocation,
  Observation,
}

abbrev pub Errors : Type 0
Errors = List RunError

pub record RunService : Type 0 where
  pub state : Map String IssuedState
  pub identity_owner : Map BackendIdentity String
  pub network_authority : Map String NetworkAuthority
  pub network_revoked : Map String Bool

unfoldable pub new_run_service : RunService
new_run_service = record {
  state = empty_map;
  identity_owner = empty_map;
  network_authority = empty_map;
  network_revoked = empty_map;
}

-- The calls that a run makes of the backend, and of the work.
pub data Call : Type 0 where
  allocated : String → Call
  started : BackendIdentity → Call
  activated : BackendIdentity → Call
  worked : Call
  revoked : BackendIdentity → Call
  terminated : BackendIdentity → Call
  cleaned : BackendIdentity → Call

-- The service, the world, and the calls made so far, the latest first.
pub record Execution (W : Type 0) : Type 0 where
  pub service : RunService
  pub world : W
  pub calls : List Call

abbrev pub bound : String
bound = "Bound"

abbrev pub running : String
running = "Running"

abbrev pub succeeded : String
succeeded = "Succeeded"

abbrev pub failed_phase : String
failed_phase = "Failed"

abbrev pub expired : String
expired = "Expired"

unfoldable pub allowed_transition : String → String → Bool
allowed_transition from to =
    if from == "Pending"
    then to == bound || (to == failed_phase || to == expired)
    else if from == bound
    then to == running || (to == failed_phase || to == expired)
    else if from == running
    then to == succeeded || (to == failed_phase || to == expired)
    else false

abbrev pub bound_claim : SandboxClaim → Option BackendIdentity → Result RunError SandboxClaim
bound_claim claim none = err (invalid_run "Bound requires a complete backend identity")
bound_claim claim (some identity) = do
  refuse_if (identity.backend == "" || identity.worker_id == "")
      (invalid_run "Bound requires a complete backend identity")
  ok (record claim { phase = bound; backend_identity = some identity })

abbrev pub moved_claim :
    SandboxClaim → String → Option BackendIdentity → Result RunError SandboxClaim
moved_claim claim to none = ok (record claim { phase = to })
moved_claim claim to (some identity) =
    err (invalid_run "backend identity may only be attached while publishing Bound")

abbrev pub next_claim :
    SandboxClaim → String → Option BackendIdentity → Result RunError SandboxClaim
next_claim claim to identity =
    if to == bound then bound_claim claim identity else moved_claim claim to identity

abbrev pub with_event : IssuedState → String → IssuedState
with_event state event = record state {
  evidence = record state.evidence { runtime_events = state.evidence.runtime_events ++ event ∷ [] };
}

abbrev pub or_rejected : Result ValidationError (Unit {0}) → Result RunError (Unit {0})
or_rejected (ok u) = ok u
or_rejected (err e) = err (rejected e)

abbrev pub with_claim :
    IssuedState
    → Option SandboxClaim
    → String
    → String
    → Option BackendIdentity
    → Result RunError IssuedState
with_claim current none to event identity = err (invalid_run "unknown claim")
with_claim current (some claim) to event identity = do
  refuse_if (not (allowed_transition claim.phase to)) (invalid_run "invalid claim transition")
  next ← next_claim claim to identity
  let state = with_event (record current { claim = some next }) event
  or_rejected (validate_issued_state (some state))
  ok state

-- The state that a transition stores, or the error for which it stores none.
unfoldable pub next_state :
    Option IssuedState → String → String → Option BackendIdentity → Result RunError IssuedState
unfolding allowed_transition validate_issued_state
next_state none to event identity = err (invalid_run "unknown claim")
next_state (some current) to event identity = with_claim current current.claim to event identity

abbrev pub event_error : Option String → Errors
event_error none = []
event_error (some e) = failed "event" e ∷ []

-- insert, for a claim that is not there; false where it is.
abbrev pub insert_if :
    {W : Type 0} → Bool → (Execution W → Execution W × Errors) → Execution W → Execution W × Errors
insert_if true publish x = (x, invalid_run "claim already exists" ∷ [])
insert_if false publish x = publish x

module _ {W : Type 0} (p : Ports W) where
  abbrev pub notify :
      Option (IssuedState → String → W → W × Option String)
      → IssuedState
      → String
      → Execution W
      → Execution W × Errors
  notify none state event x = (x, [])
  notify (some on_event) state event x =
      let (w, e) = on_event state event x.world in (record x { world = w }, event_error e)

  -- s.state[claimID] = next, and the event sink is told.
  unfoldable pub publish : String → IssuedState → String → Execution W → Execution W × Errors
  publish claim_id state event x =
      notify p.on_event state event
        (record x { service = record x.service { state = update x.service.state claim_id state } })

  unfoldable pub insert : String → IssuedState → Execution W → Execution W × Errors
  unfolding publish
  insert claim_id state x =
      insert_if (is_some (x.service.state claim_id)) (publish claim_id state "Pending") x

  abbrev pub publish_next :
      String → String → Result RunError IssuedState → Execution W → Execution W × Errors
  publish_next claim_id event (err e) x = (x, e ∷ [])
  publish_next claim_id event (ok state) x = publish claim_id state event x

  unfoldable pub transition :
      String → String → String → Option BackendIdentity → Execution W → Execution W × Errors
  unfolding publish next_state
  transition claim_id to event identity x =
      publish_next claim_id event (next_state (x.service.state claim_id) to event identity) x

  abbrev pub record_of : String → String → Option IssuedState → Execution W → Execution W × Errors
  record_of claim_id event none x = (x, invalid_run "unknown claim" ∷ [])
  record_of claim_id event (some current) x = publish claim_id (with_event current event) event x

  unfoldable pub record_event : String → String → Execution W → Execution W × Errors
  unfolding publish
  record_event claim_id event x = record_of claim_id event (x.service.state claim_id) x

-- The identity is owned by another claim.
abbrev pub owned_by_other : Option String → String → Bool
owned_by_other none claim_id = false
owned_by_other (some owner) claim_id = owner != claim_id

unfoldable pub reserve_identity : String → BackendIdentity → RunService → RunService × Errors
reserve_identity claim_id identity s =
    if owned_by_other (s.identity_owner identity) claim_id
    then (s, invalid_run "backend identity is already bound" ∷ [])
    else (record s { identity_owner = update s.identity_owner identity claim_id }, [])

-- Claim, of a service that is not nil.
abbrev pub claim_of : Option IssuedState → Option SandboxClaim
claim_of none = none
claim_of (some state) = state.claim

unfoldable pub claim : RunService → String → Option SandboxClaim
claim s claim_id = claim_of (s.state claim_id)

unfoldable pub current : RunService → String → Option IssuedState
current s claim_id = s.state claim_id

unfoldable pub validate_allocation : String → Allocation → Errors
validate_allocation claim_id allocation =
    if allocation.claim_id != claim_id
    then invalid_run "allocation claim does not match" ∷ []
    else if allocation.identity.backend == "" || allocation.identity.worker_id == ""
    then invalid_run "allocation returned an incomplete backend identity" ∷ []
    else []

unfoldable pub validate_observation : String → BackendIdentity → Observation → Errors
validate_observation claim_id identity observation =
    if observation.claim_id != claim_id
    then invalid_run "observation claim does not match" ∷ []
    else if observation.identity != identity
    then invalid_run "observation backend identity does not match the claim binding" ∷ []
    else []

unfoldable pub validate_network_evidence :
    NetworkEvidence → String → BackendIdentity → String → NetworkAuthority → Errors
validate_network_evidence e claim_id id state expected =
    if e.claim_id != claim_id
      || (e.identity != id
          || (e.state != state
              || (e.profiles != expected.profiles
                  || (e.expires_at != expected.expires_at
                      || (e.evidence_level != "Configured" && e.evidence_level != "Simulated")))))
    then invalid_run "network evidence does not match resolved authority" ∷ []
    else []
