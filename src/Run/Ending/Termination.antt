-- ===== src/Run/Ending/Termination.antt =====
-- Every run returns (internal/app/run_service.go, RunContext).
use agenova.Prelude.{
  ℕ, suc, ◌<◌, String, not, [], ◌∷◌, Option, none, some, Result, ok, err, leb, ◌≡◌, refl, arith,
}
use agenova.Api.Issued.{IssuedState}
use agenova.Run.Backend.{
  NetworkAuthority, AllocateRequest, Allocation, ContextError, RunError, Ports, failed,
  run_deadline,
}
use agenova.Run.Service.{Errors, allocated, Execution, insert, validate_allocation}
use agenova.Run.Teardown.{called, finish, Stop, go_on, on_context, past_deadline}
use agenova.Run.Stages.{unless_errors, bound_stage}
use agenova.Run.Context.{
  ResolvedLaunch, Initial, validate_initial_run, add_duration, earlier_of, finish_interrupted,
  reserve, late_allocation, failed_allocation, use_allocation, allocate, allocation_stage,
  before_allocation, inserted_stage, enter, run_validated, run_context,
}
use agenova.Run.Ending.Staged.{unless_errors_both, if_both}
use agenova.Run.Ending.Polled.{IsTimed}
use agenova.Run.Ending.Timed.{Given, bound_stage-Given}

module _ {W : Type 0} (p : Ports W) (timed : IsTimed p) (claim_id : String) where
  use_allocation-Given :
      (fuel deadline : ℕ) (network : NetworkAuthority) (a : Result String Allocation)
      (x : Execution W)
      → deadline < fuel
      → Given (use_allocation p claim_id fuel deadline network a x)
  use_allocation-Given fuel deadline network (err text) x enough = refl
  use_allocation-Given fuel deadline network (ok a) x enough =
      let next = bound_stage p claim_id a.identity deadline network fuel in
      unless_errors_both Given (validate_allocation claim_id a) (failed_allocation p claim_id)
        (λ y.
          let (z, r) = reserve p claim_id a.identity y in
          unless_errors r (failed_allocation p claim_id) next z)
        x (λ _. refl)
        (λ _.
          unless_errors_both Given (reserve p claim_id a.identity x).1
            (failed_allocation p claim_id) next (reserve p claim_id a.identity x).0 (λ _. refl)
            (λ _.
              bound_stage-Given p timed claim_id a.identity deadline network fuel
                (reserve p claim_id a.identity x).0 enough))

  allocation_stage-Given :
      (fuel deadline : ℕ) (request : AllocateRequest) (x : Execution W)
      → deadline < fuel
      → Given (allocation_stage p claim_id fuel deadline request x)
  unfolding allocation_stage
  allocation_stage-Given fuel deadline request x enough =
      let (w, r) = p.allocate request x.world in
      let (w', now) = p.now w in
      let x' : Execution W = called (allocated claim_id) w' x in
      if_both Given (not p.network)
        (failed_allocation p claim_id (failed "network" "enforcement unavailable" ∷ []) x)
        (allocate p claim_id fuel deadline request x) refl
        (if_both Given (leb deadline now)
          (some (
            late_allocation p claim_id r
              (finish p claim_id "Expired" "Expired" (run_deadline ∷ []) x')))
          (use_allocation p claim_id fuel deadline request.network r x') refl
          (use_allocation-Given fuel deadline request.network r x' enough))

  before_allocation-Given :
      (fuel deadline : ℕ) (request : AllocateRequest) (stop : Stop) (x : Execution W)
      → deadline < fuel
      → Given (before_allocation p claim_id fuel deadline request stop x)
  before_allocation-Given fuel deadline request (on_context e) x enough = refl
  before_allocation-Given fuel deadline request past_deadline x enough = refl
  before_allocation-Given fuel deadline request go_on x enough =
      allocation_stage-Given fuel deadline request x enough

  -- The deadline that RunContext computes.
  abbrev deadline_at : Initial → Execution W → ℕ
  deadline_at i x =
      earlier_of (add_duration (p.now x.world).1 i.authority.runtime.timeout) p.context_deadline

  inserted_stage-Given :
      (fuel : ℕ) (i : Initial) (launch : ResolvedLaunch) (x : Execution W)
      → deadline_at i x < fuel
      → Given (inserted_stage p claim_id fuel i launch x)
  unfolding inserted_stage
  inserted_stage-Given fuel i launch x enough =
      before_allocation-Given fuel (deadline_at i x) _ _ _ enough

module _ {W : Type 0} (p : Ports W) (timed : IsTimed p) (i : Initial)
    (launch : ResolvedLaunch) where
  enter-Given :
      (o : Option ContextError) (x : Execution W) → (fuel : ℕ) × Given (enter p fuel i launch o x)
  enter-Given (some e) x = (
    0,
    unless_errors_both Given (insert p i.claim.id i.issued x).1 (λ errors y. some (y, errors))
        (λ y. some (finish_interrupted p i.claim.id e y)) (insert p i.claim.id i.issued x).0
        (λ _. refl) (λ _. refl),
  )
  enter-Given none x =
      let (y, errors) = insert p i.claim.id i.issued x in
      let fuel = suc (deadline_at p timed i.claim.id i y) in
      (
        fuel,
        unless_errors_both Given errors (λ errors y. some (y, errors))
            (inserted_stage p i.claim.id fuel i launch) y (λ _. refl)
            (λ _. inserted_stage-Given p timed i.claim.id fuel i launch y (omega arith)),
      )

Given-some : {A : Type 0} (o : Option A) → Given o → (a : A) × (o ≡ some a)
Given-some none g = cc g
Given-some (some a) g = (a, refl)

run_validated-Given :
    {W : Type 0} (p : Ports W)
    → IsTimed p
    → (m : Result RunError Initial) (launch : ResolvedLaunch) (x : Execution W)
    → (fuel : ℕ) × Given (run_validated p fuel m launch x)
run_validated-Given p timed (err e) launch x = (0, refl)
run_validated-Given p timed (ok i) launch x =
    enter-Given p timed i launch (p.context x.world).1 (record x { world = (p.context x.world).0 })

-- A run returns, whatever the backend, the event sink, the context and the work answer, where the clock is
-- monotonic and a wait between two observations moves it on: the loop of observations ends by the deadline.
pub run_context-Given :
    {W : Type 0} (p : Ports W) (issued : Option IssuedState) (launch : ResolvedLaunch)
    (x : Execution W)
    → IsTimed p
    → (fuel : ℕ) × ((r : Execution W × Errors) × (run_context p fuel issued launch x ≡ some r))
unfolding run_context
run_context-Given p issued launch x timed =
    let (fuel, g) = run_validated-Given p timed (validate_initial_run issued launch) launch x in
    (fuel, Given-some _ g)
