-- ===== src/Run/Teardown.antt =====
-- internal/app/run_service.go: finish, revokeNetwork, teardown, and the interruptions of a run.
use agenova.Prelude.{
  ℕ, String, true, false, not, [], ◌∷◌, ◌++◌, Option, none, some, Result, ok, err, leb, ◌!=◌,
  string_eq, update, get_or, if◌then◌else◌, ◌||◌,
}
use agenova.Api.{BackendIdentity}
use agenova.Api.Equality.{backend_identity_eq}
use agenova.Run.Backend.{
  NetworkAuthority, NetworkEvidence, CleanupResult, ContextError, deadline_exceeded, cancelled,
  invalid_run, failed, run_deadline, interrupted, Ports,
}
use agenova.Run.Service.{
  Errors, Call, revoked, terminated, cleaned, Execution, failed_phase, expired, transition,
  record_event, validate_network_evidence,
}

-- A call of the backend was made, and left the world so.
abbrev pub called : {W : Type 0} → Call → W → Execution W → Execution W
called call w x = record x { world = w; calls = call ∷ x.calls }

abbrev pub operation_error : String → Option String → Errors
operation_error operation none = []
operation_error operation (some text) = failed operation text ∷ []

abbrev pub evidence_errors :
    Result String NetworkEvidence → String → BackendIdentity → String → NetworkAuthority → Errors
evidence_errors (err text) claim_id identity state expected = failed "network" text ∷ []
evidence_errors (ok e) claim_id identity state expected =
    validate_network_evidence e claim_id identity state expected

abbrev pub no_authority : NetworkAuthority
no_authority = record { profiles = []; expires_at = 0 }

abbrev pub cleanup_errors : Result String CleanupResult → BackendIdentity → Errors
cleanup_errors (err text) identity = failed "cleanup runtime" text ∷ []
cleanup_errors (ok r) identity =
    if r.identity != identity || not r.released
    then invalid_run "cleanup returned uncorrelated or unreleased evidence" ∷ []
    else []

-- The event of an operation, by whether it failed.
abbrev pub event_of : Errors → String → String → String
event_of [] good bad = good
event_of (e ∷ errors) good bad = bad

-- Why a run stops, or that it goes on.
pub data Stop : Type 0 where
  go_on : Stop
  on_context : ContextError → Stop
  past_deadline : Stop

module _ {W : Type 0} (p : Ports W) (claim_id : String) where
  unfoldable pub finish : String → String → Errors → Execution W → Execution W × Errors
  unfolding transition
  finish phase event cause x =
      let (x', e) = transition p claim_id phase event none x in (x', cause ++ e)

  -- s.networkRevoked[claimID] = true, unless the revocation failed.
  abbrev pub mark_revoked : Errors → Execution W → Execution W
  mark_revoked (e ∷ errors) x = x
  mark_revoked [] x = record x {
    service = record x.service { network_revoked = update x.service.network_revoked claim_id true };
  }

  abbrev pub revoke : BackendIdentity → Execution W → Execution W × Errors
  revoke identity x =
      let (x₁, attempt) = record_event p claim_id "NetworkRevocationAttempt" x in
      let (w, r) = p.revoke_network identity x₁.world in
      let x₂ = called (revoked identity) w x₁ in
      let expected = get_or no_authority (x₂.service.network_authority claim_id) in
      let errors = evidence_errors r claim_id identity "Revoked" expected in
      let event = event_of errors "NetworkRevoked" "NetworkRevocationFailed" in
      let (x₃, written) = record_event p claim_id event (mark_revoked errors x₂) in
      (x₃, attempt ++ (errors ++ written))

  unfoldable pub revoke_network : BackendIdentity → Execution W → Execution W × Errors
  unfolding record_event validate_network_evidence
  revoke_network identity x =
      let done = revoke identity x in
      if not p.network
      then (x, [])
      else if get_or false (x.service.network_revoked claim_id)
      then (x, [])
      else done

  abbrev pub terminate_step : BackendIdentity → Execution W → Execution W × Errors
  terminate_step identity x =
      let (w, e) = p.terminate identity x.world in
      let errors = operation_error "terminate runtime" e in
      let (x', written) =
        record_event p claim_id (event_of errors "TerminateSucceeded" "TerminateFailed")
          (called (terminated identity) w x) in
      (x', errors ++ written)

  abbrev pub cleanup_step : BackendIdentity → Execution W → Execution W × Errors
  cleanup_step identity x =
      let (w, r) = p.cleanup identity x.world in
      let errors = cleanup_errors r identity in
      let (x', written) =
        record_event p claim_id (event_of errors "CleanupSucceeded" "CleanupFailed")
          (called (cleaned identity) w x) in
      (x', errors ++ written)

  -- teardown; the state it is given has the claim's name.
  unfoldable pub teardown : BackendIdentity → Errors → Execution W → Execution W × Errors
  unfolding revoke_network record_event
  teardown identity cause x =
      let (x₁, e₁) = revoke_network identity x in
      let (x₂, e₂) = terminate_step identity x₁ in
      let (x₃, e₃) = cleanup_step identity x₂ in (x₃, cause ++ (e₁ ++ (e₂ ++ e₃)))

  -- finish, and teardown with its error.
  unfoldable pub give_up :
      BackendIdentity → String → String → Errors → Execution W → Execution W × Errors
  unfolding finish teardown
  give_up identity phase event cause x =
      let (x', e) = finish phase event cause x in teardown identity e x'

  abbrev pub reached : ℕ → ℕ → Stop
  reached deadline now = if leb deadline now then past_deadline else go_on

  -- deadlineReached
  abbrev pub deadline_stop : ℕ → Execution W → Execution W × Stop
  deadline_stop deadline x =
      let (w, now) = p.now x.world in (record x { world = w }, reached deadline now)

  abbrev pub deadline_unless : Option ContextError → ℕ → Execution W → Execution W × Stop
  deadline_unless (some e) deadline x = (x, on_context e)
  deadline_unless none deadline x = deadline_stop deadline x

  -- `ctx.Err() != nil`, then deadlineReached. A context that has an error keeps it.
  unfoldable pub context_first : ℕ → Execution W → Execution W × Stop
  context_first deadline x =
      let (w, e) = p.context x.world in deadline_unless e deadline (record x { world = w })

  abbrev pub stop_of_context : Option ContextError → Stop
  stop_of_context none = go_on
  stop_of_context (some e) = on_context e

  abbrev pub context_unless : Stop → Execution W → Execution W × Stop
  context_unless past_deadline x = (x, past_deadline)
  context_unless (on_context e) x = (x, on_context e)
  context_unless go_on x =
      let (w, e) = p.context x.world in (record x { world = w }, stop_of_context e)

  -- deadlineReached, then `ctx.Err() != nil`.
  unfoldable pub deadline_first : ℕ → Execution W → Execution W × Stop
  deadline_first deadline x = let (x', stop) = deadline_stop deadline x in context_unless stop x'

  -- `cancelled` and the exits at the deadline; otherwise the run goes on.
  abbrev pub stopped :
      BackendIdentity
      → Stop
      → (Execution W → Execution W × Errors)
      → Execution W
      → Execution W × Errors
  stopped identity go_on next x = next x
  stopped identity past_deadline next x = give_up identity expired "Expired" (run_deadline ∷ []) x
  stopped identity (on_context deadline_exceeded) next x =
      give_up identity expired "Expired" (interrupted deadline_exceeded ∷ []) x
  stopped identity (on_context cancelled) next x =
      give_up identity failed_phase "Cancelled" (interrupted cancelled ∷ []) x
