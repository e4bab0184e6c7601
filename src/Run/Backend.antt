-- ===== src/Run/Backend.antt =====
-- internal/runtime/backend.go: what RunService asks of a backend, and the other ports of a run
-- (RunServiceOptions, the context and the work of internal/app/run_service.go). Each acts on a world `W`
-- that is a parameter; reading the clock or the context may let time pass.
use agenova.Prelude.{ℕ, String, Bool, List, Option, Result, string_eq}
use agenova.Api.{BackendIdentity}
use agenova.Api.Errors.{ValidationError}
use agenova.Api.Issued.{IssuedState}

-- A time is its count of nanoseconds since year 1.
pub record NetworkAuthority : Type 0 where
  pub profiles : List String
  pub expires_at : ℕ

pub record AllocateRequest : Type 0 where
  pub claim_id : String
  pub template_ref : String
  pub input : List (String × String)
  pub network : NetworkAuthority

-- The parts of these records that RunService reads.
pub record Allocation : Type 0 where
  pub claim_id : String
  pub identity : BackendIdentity

pub record Observation : Type 0 where
  pub claim_id : String
  pub identity : BackendIdentity
  pub ready : Bool

pub record CleanupResult : Type 0 where
  pub identity : BackendIdentity
  pub released : Bool

pub record NetworkEvidence : Type 0 where
  pub claim_id : String
  pub identity : BackendIdentity
  pub profiles : List String
  pub expires_at : ℕ
  pub state : String
  pub evidence_level : String

-- context.DeadlineExceeded and context.Canceled.
pub data ContextError : Type 0 where
  deadline_exceeded : ContextError
  cancelled : ContextError

-- The errors of a run; errors.Join is the list of them, and nil the empty list.
pub data RunError : Type 0 where
  invalid_run : String → RunError
  rejected : ValidationError → RunError
  failed : (operation text : String) → RunError
  run_deadline : RunError
  interrupted : ContextError → RunError

-- What the select on the work, the context and the timer gives.
pub data Selected : Type 0 where
  work_done : Option String → Selected
  context_done : ContextError → Selected
  timer_fired : Selected

-- ActivateNetwork's result, and the error of its context after it.
pub record Activation : Type 0 where
  pub evidence : Result String NetworkEvidence
  pub context : Option ContextError

pub record Ports (W : Type 0) : Type 0 where
  pub allocate : AllocateRequest → W → W × Result String Allocation
  pub observe : BackendIdentity → W → W × Result String Observation
  pub start : BackendIdentity → W → W × Option String
  pub terminate : BackendIdentity → W → W × Option String
  pub cleanup : BackendIdentity → W → W × Result String CleanupResult
  -- whether the backend is a NetworkBackend
  pub network : Bool
  pub activate_network : BackendIdentity → W → W × Activation
  pub revoke_network : BackendIdentity → W → W × Result String NetworkEvidence
  pub now : W → W × ℕ
  pub wait : W → W
  pub on_event : Option (IssuedState → String → W → W × Option String)
  pub context : W → W × Option ContextError
  pub context_deadline : Option ℕ
  -- the start of the work's goroutine, the select on it, and the wait for its end
  pub begin_work : W → W
  pub select_work : W → W × Selected
  pub join_work : W → W
