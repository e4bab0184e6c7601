-- ===== src/Run/Context.antt =====
-- internal/app/run_service.go: validateInitialRun, and RunContext up to the bound claim.
use agenova.Prelude.{
  ℕ, ◌+◌, ◌-◌, suc, String, not, ◌||◌, List, [], ◌∷◌, Option, none, some, Result, ok, err, ◌>>◌,
  refuse_if, is_some, leb, ltb, ◌==◌, ◌!=◌, string_eq, update, if◌then◌else◌,
}
use agenova.Prelude.Int.{ℤ, pos, negsuc}
use agenova.Api.{SandboxClaim, EffectiveAuthority, BackendIdentity, allow}
use agenova.Api.Credentials.{find_reserved_credential_field_name}
use agenova.Api.Issued.{IssuedState, pending, validate_issued_state}
use agenova.Run.Backend.{
  NetworkAuthority, AllocateRequest, Allocation, ContextError, deadline_exceeded, cancelled,
  RunError, invalid_run, failed, run_deadline, interrupted, Ports,
}
use agenova.Run.Service.{
  Errors, allocated, Execution, failed_phase, expired, insert, reserve_identity,
  validate_allocation, or_rejected,
}
use agenova.Run.Teardown.{
  called, finish, teardown, Stop, go_on, on_context, past_deadline, context_first,
}
use agenova.Run.Stages.{unless_errors, bound_stage}

pub record ResolvedLaunch : Type 0 where
  pub profile_ref : String
  pub template_ref : String
  pub input : List (String × String)

-- The issued state that a run starts with, and what its two pointers point to.
pub record Initial : Type 0 where
  pub issued : IssuedState
  pub claim : SandboxClaim
  pub authority : EffectiveAuthority

abbrev pub credential_error : Option String → Result RunError (Unit {0})
credential_error none = ok tt
credential_error (some key) = err (invalid_run "launch input is credential-bearing")

abbrev pub with_pointers :
    IssuedState
    → ResolvedLaunch
    → Option SandboxClaim
    → Option EffectiveAuthority
    → Result RunError Initial
with_pointers issued launch none authority = err (invalid_run "run requires an Allow issued state")
with_pointers issued launch (some claim) none =
    err (invalid_run "run requires an Allow issued state")
with_pointers issued launch (some claim) (some authority) = do
  refuse_if (claim.phase != pending || is_some claim.backend_identity)
      (invalid_run "run requires an unbound Pending claim")
  refuse_if (launch.profile_ref == "" || launch.profile_ref != authority.runtime.profile_ref)
      (invalid_run "launch profile does not match granted runtime profile")
  refuse_if (launch.template_ref == "") (invalid_run "resolved runtime template is required")
  credential_error (find_reserved_credential_field_name launch.input)
  ok (record { issued = issued; claim = claim; authority = authority })

abbrev pub validate_allowed : IssuedState → ResolvedLaunch → Result RunError Initial
validate_allowed issued launch = do
  or_rejected (validate_issued_state (some issued))
  refuse_if (issued.decision.result != allow) (invalid_run "run requires an Allow issued state")
  with_pointers issued launch issued.claim issued.effective_authority

unfoldable pub validate_initial_run : Option IssuedState → ResolvedLaunch → Result RunError Initial
unfolding validate_issued_state find_reserved_credential_field_name
validate_initial_run none launch = err (invalid_run "issued state")
validate_initial_run (some issued) launch = validate_allowed issued launch

-- Time.Add of a duration.
abbrev pub add_duration : ℕ → ℤ → ℕ
add_duration t (pos d) = t + d
add_duration t (negsuc d) = t - suc d

-- The run's deadline, and the caller's before it.
abbrev pub earlier_of : ℕ → Option ℕ → ℕ
earlier_of deadline none = deadline
earlier_of deadline (some caller) = if ltb caller deadline then caller else deadline

module _ {W : Type 0} (p : Ports W) (claim_id : String) where
  -- interrupted
  abbrev pub finish_interrupted : ContextError → Execution W → Execution W × Errors
  finish_interrupted deadline_exceeded x =
      finish p claim_id expired "Expired" (interrupted deadline_exceeded ∷ []) x
  finish_interrupted cancelled x =
      finish p claim_id failed_phase "Cancelled" (interrupted cancelled ∷ []) x

  abbrev pub reserve : BackendIdentity → Execution W → Execution W × Errors
  reserve identity x =
      let (s, e) = reserve_identity claim_id identity x.service in (record x { service = s }, e)

  -- The deadline passed during Allocate: what was allocated is released.
  abbrev pub late_allocation :
      Result String Allocation → Execution W × Errors → Execution W × Errors
  late_allocation (err text) ended = ended
  late_allocation (ok a) (x, e) =
      unless_errors (validate_allocation claim_id a) (λ _ y. (y, e))
        (λ y.
          let (z, r) = reserve a.identity y in
          unless_errors r (λ _ z. (z, e)) (teardown p claim_id a.identity e) z)
        x

  abbrev pub failed_allocation : Errors → Execution W → Option (Execution W × Errors)
  failed_allocation errors x = some (finish p claim_id failed_phase "AllocationFailed" errors x)

  -- The allocation is used, once its identity is reserved.
  abbrev pub use_allocation :
      ℕ
      → ℕ
      → NetworkAuthority
      → Result String Allocation
      → Execution W
      → Option (Execution W × Errors)
  use_allocation fuel deadline network (err text) x =
      failed_allocation (failed "allocate runtime" text ∷ []) x
  use_allocation fuel deadline network (ok a) x =
      unless_errors (validate_allocation claim_id a) failed_allocation
        (λ y.
          let (z, r) = reserve a.identity y in
          unless_errors r failed_allocation
            (bound_stage p claim_id a.identity deadline network fuel) z)
        x

  abbrev pub allocate : ℕ → ℕ → AllocateRequest → Execution W → Option (Execution W × Errors)
  allocate fuel deadline request x =
      let (w, r) = p.allocate request x.world in
      let (w', now) = p.now w in
      let x' = called (allocated claim_id) w' x in
      let used = use_allocation fuel deadline request.network r x' in
      if leb deadline now
      then some (late_allocation r (finish p claim_id expired "Expired" (run_deadline ∷ []) x'))
      else used

  -- The allocation stage, of a backend that enforces the network authority.
  unfoldable pub allocation_stage :
      ℕ → ℕ → AllocateRequest → Execution W → Option (Execution W × Errors)
  unfolding finish teardown reserve_identity validate_allocation bound_stage
  allocation_stage fuel deadline request x =
      let allocating = allocate fuel deadline request x in
      if not p.network
      then failed_allocation (failed "network" "enforcement unavailable" ∷ []) x
      else allocating

  abbrev pub before_allocation :
      ℕ → ℕ → AllocateRequest → Stop → Execution W → Option (Execution W × Errors)
  before_allocation fuel deadline request (on_context e) x = some (finish_interrupted e x)
  before_allocation fuel deadline request past_deadline x =
      some (finish p claim_id expired "Expired" (run_deadline ∷ []) x)
  before_allocation fuel deadline request go_on x = allocation_stage fuel deadline request x

  abbrev pub authority_of : List String → ℕ → NetworkAuthority
  authority_of profiles deadline = record { profiles = profiles; expires_at = deadline }

  -- The run under the execution lock, after its insertion.
  unfoldable pub inserted_stage :
      ℕ → Initial → ResolvedLaunch → Execution W → Option (Execution W × Errors)
  unfolding allocation_stage context_first finish
  inserted_stage fuel initial launch x =
      let (w, now) = p.now x.world in
      let deadline =
        earlier_of (add_duration now initial.authority.runtime.timeout) p.context_deadline in
      let network = authority_of initial.authority.network_profiles deadline in
      let request : AllocateRequest = record {
        claim_id = claim_id;
        template_ref = launch.template_ref;
        input = launch.input;
        network = network;
      } in
      let x₁ = record x {
        world = w;
        service = record x.service {
          network_authority = update x.service.network_authority claim_id network;
        };
      } in
      let (x₂, stop) = context_first p claim_id deadline x₁ in
      before_allocation fuel deadline request stop x₂

-- A queued run that was interrupted is registered without the lock, and allocates nothing.
module _ {W : Type 0} (p : Ports W) where
  abbrev pub enter :
      ℕ
      → Initial
      → ResolvedLaunch
      → Option ContextError
      → Execution W
      → Option (Execution W × Errors)
  enter fuel initial launch (some e) x =
      let (x', errors) = insert p initial.claim.id initial.issued x in
      unless_errors errors (λ errors y. some (y, errors))
        (λ y. some (finish_interrupted p initial.claim.id e y)) x'
  enter fuel initial launch none x =
      let (x', errors) = insert p initial.claim.id initial.issued x in
      unless_errors errors (λ errors y. some (y, errors))
        (inserted_stage p initial.claim.id fuel initial launch) x'

  abbrev pub run_validated :
      ℕ → Result RunError Initial → ResolvedLaunch → Execution W → Option (Execution W × Errors)
  run_validated fuel (err e) launch x = some (x, e ∷ [])
  run_validated fuel (ok initial) launch x =
      let (w, e) = p.context x.world in enter fuel initial launch e (record x { world = w })

  -- RunContext, on fuel for the loop of observations; the state it returns is that of the claim after it.
  unfoldable pub run_context :
      ℕ → Option IssuedState → ResolvedLaunch → Execution W → Option (Execution W × Errors)
  unfolding validate_initial_run insert inserted_stage finish
  run_context fuel issued launch x =
      run_validated fuel (validate_initial_run issued launch) launch x
