-- ===== src/Run/Ending/Torn.antt =====
-- What teardown and giving up leave (internal/app/run_service.go).
use agenova.Prelude.{
  ℕ, String, Bool, true, false, ◌||◌, List, [], ◌∷◌, Option, none, some, ◌==◌, string_eq, get_or,
  ◌≡◌, inl, inr, refl, ap, ◌∙◌, Bool-cases,
}
use agenova.Api.{BackendIdentity}
use agenova.Run.Backend.{ContextError, deadline_exceeded, cancelled, Ports}
use agenova.Run.Service.{
  Errors, RunService, Call, terminated, cleaned, Execution, bound, running, succeeded, failed_phase,
  expired, allowed_transition,
}
use agenova.Run.Teardown.{
  called, operation_error, cleanup_errors, event_of, mark_revoked, finish, revoke, revoke_network,
  terminate_step, teardown, give_up, Stop, go_on, on_context, past_deadline, deadline_unless,
  context_first, context_unless, deadline_first, stopped,
}
use agenova.Run.Phases.{Owners, IsHeldAt, record_event-IsHeldAt}
use agenova.Run.Active.{IsFinal, failed-IsFinal, expired-IsFinal, transition-IsHeldAt}

abbrev pub terminal : String → Bool
terminal phase = phase == succeeded || (phase == failed_phase || phase == expired)

-- The claim has ended, and the last two calls released its worker.
pub record Released (owners : Owners) (claim_id : String) (identity : BackendIdentity) {W : Type 0}
    (x : Execution W) : Type 0 where
  pub phase : String
  pub ended : terminal phase ≡ true
  pub at : IsHeldAt owners claim_id phase x.service
  pub before : List Call
  pub calls : x.calls ≡ cleaned identity ∷ terminated identity ∷ before

-- The claim has not ended.
pub record IsOpen (owners : Owners) (claim_id : String) (s : RunService) : Type 0 where
  pub phase : String
  pub at : IsHeldAt owners claim_id phase s
  pub may_fail : allowed_transition phase failed_phase ≡ true
  pub may_expire : allowed_transition phase expired ≡ true

pub pending-IsOpen :
    (owners : Owners) (claim_id : String) (s : RunService)
    → IsHeldAt owners claim_id "Pending" s
    → IsOpen owners claim_id s
unfolding allowed_transition
pending-IsOpen owners claim_id s k = record {
  phase = "Pending";
  at = k;
  may_fail = refl;
  may_expire = refl;
}

pub bound-IsOpen :
    (owners : Owners) (claim_id : String) (s : RunService)
    → IsHeldAt owners claim_id bound s
    → IsOpen owners claim_id s
unfolding allowed_transition
bound-IsOpen owners claim_id s k = record {
  phase = bound;
  at = k;
  may_fail = refl;
  may_expire = refl;
}

pub running-IsOpen :
    (owners : Owners) (claim_id : String) (s : RunService)
    → IsHeldAt owners claim_id running s
    → IsOpen owners claim_id s
unfolding allowed_transition
running-IsOpen owners claim_id s k = record {
  phase = running;
  at = k;
  may_fail = refl;
  may_expire = refl;
}

pub running-fails : allowed_transition running failed_phase ≡ true
unfolding allowed_transition
running-fails = refl

pub running-expires : allowed_transition running expired ≡ true
unfolding allowed_transition
running-expires = refl

pub running-succeeds : allowed_transition running succeeded ≡ true
unfolding allowed_transition
running-succeeds = refl

module _ {W : Type 0} (p : Ports W) (owners : Owners) (claim_id : String) where
  mark_revoked-IsHeldAt :
      (phase : String) (e : Errors) (x : Execution W)
      → IsHeldAt owners claim_id phase x.service
      → IsHeldAt owners claim_id phase (mark_revoked p claim_id e x).service
  mark_revoked-IsHeldAt phase (r ∷ e) x k = k
  mark_revoked-IsHeldAt phase [] x k = record {
    state = k.state;
    claim = k.claim;
    stored = k.stored;
    claimed = k.claimed;
    at = k.at;
    valid = k.valid;
    held = k.held;
  }

  revoke-IsHeldAt :
      (phase : String) (identity : BackendIdentity) (x : Execution W)
      → IsHeldAt owners claim_id phase x.service
      → IsHeldAt owners claim_id phase (revoke p claim_id identity x).0.service
  revoke-IsHeldAt phase identity x k =
      (record_event-IsHeldAt p owners claim_id _ phase _ (
        mark_revoked-IsHeldAt phase _ _
          (record_event-IsHeldAt p owners claim_id "NetworkRevocationAttempt" phase x k).0)).0

  pub revoke_network-IsHeldAt :
      (phase : String) (identity : BackendIdentity) (x : Execution W)
      → IsHeldAt owners claim_id phase x.service
      → IsHeldAt owners claim_id phase (revoke_network p claim_id identity x).0.service
  unfolding revoke_network
  revoke_network-IsHeldAt phase identity x k = elim (Bool-cases p.network) [
    | inr n ↦ rw n k
    | inl y ↦ elim (Bool-cases (get_or false (x.service.network_revoked claim_id))) [
      | inl done ↦ rw (y, done) k
      | inr open_still ↦ rw (y, open_still) (revoke-IsHeldAt phase identity x k)
    ]
  ]

  -- Whatever fails, teardown terminates the worker and then cleans up, and keeps the phase.
  pub teardown-Released :
      (phase : String) (identity : BackendIdentity) (cause : Errors) (x : Execution W)
      → terminal phase ≡ true
      → IsHeldAt owners claim_id phase x.service
      → Released owners claim_id identity (teardown p claim_id identity cause x).0
  unfolding teardown
  teardown-Released phase identity cause x t k =
      let (x₁, _) = revoke_network p claim_id identity x in
      let (w₂, e₂) = p.terminate identity x₁.world in
      let errors₂ = operation_error "terminate runtime" e₂ in
      let (k₂, c₂) =
        record_event-IsHeldAt p owners claim_id
          (event_of errors₂ "TerminateSucceeded" "TerminateFailed") phase
          (called (terminated identity) w₂ x₁) (revoke_network-IsHeldAt phase identity x k) in
      let (x₂, _) = terminate_step p claim_id identity x₁ in
      let (w₃, r₃) = p.cleanup identity x₂.world in
      let (k₃, c₃) =
        record_event-IsHeldAt p owners claim_id
          (event_of (cleanup_errors r₃ identity) "CleanupSucceeded" "CleanupFailed") phase
          (called (cleaned identity) w₃ x₂) k₂ in
      record {
        phase = phase;
        ended = t;
        at = k₃;
        before = x₁.calls;
        calls = c₃ ∙ ap (λ l. cleaned identity ∷ l) c₂;
      }

  pub give_up-Released :
      (from to event : String) (identity : BackendIdentity) (cause : Errors) (x : Execution W)
      → IsFinal to
      → terminal to ≡ true
      → allowed_transition from to ≡ true
      → IsHeldAt owners claim_id from x.service
      → Released owners claim_id identity (give_up p claim_id identity to event cause x).0
  unfolding give_up finish
  give_up-Released from to event identity cause x final t a k =
      let (x', e) = finish p claim_id to event cause x in
      teardown-Released to identity e x' t
        (transition-IsHeldAt p owners claim_id from to event x final a k).0

  pub fail-Released :
      (event : String) (identity : BackendIdentity) (cause : Errors) (x : Execution W)
      → IsOpen owners claim_id x.service
      → Released owners claim_id identity (give_up p claim_id identity failed_phase event cause x).0
  fail-Released event identity cause x o =
      give_up-Released o.phase failed_phase event identity cause x failed-IsFinal refl o.may_fail
        o.at

  pub expire-Released :
      (event : String) (identity : BackendIdentity) (cause : Errors) (x : Execution W)
      → IsOpen owners claim_id x.service
      → Released owners claim_id identity (give_up p claim_id identity expired event cause x).0
  expire-Released event identity cause x o =
      give_up-Released o.phase expired event identity cause x expired-IsFinal refl o.may_expire o.at

  -- An interruption ends the run, and otherwise the next step has to.
  pub stopped-Released :
      (identity : BackendIdentity) (stop : Stop) (next : Execution W → Execution W × Errors)
      (x : Execution W)
      → IsOpen owners claim_id x.service
      → Released owners claim_id identity (next x).0
      → Released owners claim_id identity (stopped p claim_id identity stop next x).0
  stopped-Released identity go_on next x o r = r
  stopped-Released identity past_deadline next x o r = expire-Released "Expired" identity _ x o
  stopped-Released identity (on_context deadline_exceeded) next x o r =
      expire-Released "Expired" identity _ x o
  stopped-Released identity (on_context cancelled) next x o r =
      fail-Released "Cancelled" identity _ x o

  deadline_unless-service :
      (e : Option ContextError) (deadline : ℕ) (x : Execution W)
      → (deadline_unless p claim_id e deadline x).0.service ≡ x.service
  deadline_unless-service none deadline x = refl
  deadline_unless-service (some e) deadline x = refl

  pub context_first-service :
      (deadline : ℕ) (x : Execution W) → (context_first p claim_id deadline x).0.service ≡ x.service
  unfolding context_first
  context_first-service deadline x = deadline_unless-service _ deadline _

  deadline_unless-calls :
      (e : Option ContextError) (deadline : ℕ) (x : Execution W)
      → (deadline_unless p claim_id e deadline x).0.calls ≡ x.calls
  deadline_unless-calls none deadline x = refl
  deadline_unless-calls (some e) deadline x = refl

  pub context_first-calls :
      (deadline : ℕ) (x : Execution W) → (context_first p claim_id deadline x).0.calls ≡ x.calls
  unfolding context_first
  context_first-calls deadline x =
      deadline_unless-calls (p.context x.world).1 deadline
        (record x { world = (p.context x.world).0 })

  context_unless-service :
      (stop : Stop) (x : Execution W) → (context_unless p claim_id stop x).0.service ≡ x.service
  context_unless-service go_on x = refl
  context_unless-service (on_context e) x = refl
  context_unless-service past_deadline x = refl

  pub deadline_first-service :
      (deadline : ℕ) (x : Execution W)
      → (deadline_first p claim_id deadline x).0.service ≡ x.service
  unfolding deadline_first
  deadline_first-service deadline x = context_unless-service _ _
