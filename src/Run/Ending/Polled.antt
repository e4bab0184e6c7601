-- ===== src/Run/Ending/Polled.antt =====
-- The loop of observations keeps the claim bound, and ends (internal/app/run_service.go, RunContext).
use agenova.Prelude.{
  ℕ, zero, suc, ◌≤◌, ◌<◌, String, [], ◌∷◌, Option, none, some, Result, ok, err, if◌then◌else◌, inl,
  inr, sym, subst,
}
use agenova.Api.{BackendIdentity}
use agenova.Run.Backend.{NetworkAuthority, Observation, Ports}
use agenova.Run.Service.{Errors, Execution, bound, transition, record_event, validate_observation}
use agenova.Run.Teardown.{Stop, go_on, on_context, past_deadline, context_first}
use agenova.Run.Stages.{
  PollEnd, backend_ready, poll_stopped, poll_failed, unless_errors, failed_run, start_stage,
  marked_ready, after_observation, poll_round, poll, after_poll, bound_stage,
}
use agenova.Run.Phases.{Owners, IsHeldAt, record_event-IsHeldAt, transition-Moved}
use agenova.Run.Ending.Torn.{
  Released, pending-IsOpen, bound-IsOpen, stopped-Released, fail-Released, context_first-service,
}
use agenova.Run.Ending.Staged.{unless_errors_both, if_both, start_stage-Released}

-- What holds of a result, if there is one.
abbrev pub Whenever : {A : Type 0} → (A → Type 0) → Option A → Type 0
Whenever P none = Unit
Whenever P (some a) = P a

-- A clock that the other operations do not turn back and that a wait moves on: time.Now is monotonic, and
-- the poll interval is positive.
pub record IsTimed {W : Type 0} (p : Ports W) : Type 0 where
  pub time : W → ℕ
  pub read : (w : W) → time w ≤ (p.now w).1
  pub now_later : (w : W) → time w ≤ time (p.now w).0
  pub context_later : (w : W) → time w ≤ time (p.context w).0
  pub observe_later : (id : BackendIdentity) (w : W) → time w ≤ time (p.observe id w).0
  pub wait_later : (w : W) → time w < time (p.wait w)

module _ {W : Type 0} (p : Ports W) (owners : Owners) (claim_id : String)
    (identity : BackendIdentity) (deadline : ℕ) (network : NetworkAuthority) where
  abbrev Kept : Option (Execution W × PollEnd) → Type 0
  Kept o = Whenever (λ r. IsHeldAt owners claim_id bound r.0.service) o

  marked_ready-Kept :
      (x : Execution W)
      → IsHeldAt owners claim_id bound x.service
      → Kept (marked_ready p claim_id identity deadline network x)
  marked_ready-Kept x k =
      let (x', e) = record_event p claim_id "BackendReady" x in
      let k' = (record_event-IsHeldAt p owners claim_id "BackendReady" bound x k).0 in
      unless_errors_both Kept e (λ errors y. some (y, poll_failed errors))
        (λ y. some (y, backend_ready)) x' (λ errors. k') (λ _. k')

  after_observation-Kept :
      (stop : Stop) (r : Result String Observation)
      (again : Execution W → Option (Execution W × PollEnd)) (x : Execution W)
      → ((y : Execution W) → IsHeldAt owners claim_id bound y.service → Kept (again y))
      → IsHeldAt owners claim_id bound x.service
      → Kept (after_observation p claim_id identity deadline network stop r again x)
  after_observation-Kept (on_context e) r again x f k = k
  after_observation-Kept past_deadline r again x f k = k
  after_observation-Kept go_on (err text) again x f k = k
  after_observation-Kept go_on (ok o) again x f k =
      let ready = marked_ready p claim_id identity deadline network in
      unless_errors_both Kept (validate_observation claim_id identity o)
        (λ errors y. some (y, poll_failed errors))
        (λ y. if o.ready then ready x else again (record x { world = p.wait x.world })) x
        (λ errors. k)
        (λ _.
          if_both Kept o.ready (ready x) (again (record x { world = p.wait x.world }))
            (marked_ready-Kept x k) (f (record x { world = p.wait x.world }) k))

  poll_round-Kept :
      (stop : Stop) (again : Execution W → Option (Execution W × PollEnd)) (x : Execution W)
      → ((y : Execution W) → IsHeldAt owners claim_id bound y.service → Kept (again y))
      → IsHeldAt owners claim_id bound x.service
      → Kept (poll_round p claim_id identity deadline network stop again x)
  poll_round-Kept (on_context e) again x f k = k
  poll_round-Kept past_deadline again x f k = k
  poll_round-Kept go_on again x f k =
      let (w, r) = p.observe identity x.world in
      let (x', stop) = context_first p claim_id deadline (record x { world = w }) in
      after_observation-Kept stop r again x' f (
        subst (IsHeldAt owners claim_id bound)
          (sym (context_first-service p owners claim_id deadline (record x { world = w }))) k)

  poll-Kept :
      (fuel : ℕ) (x : Execution W)
      → IsHeldAt owners claim_id bound x.service
      → Kept (poll p claim_id identity deadline network fuel x)
  unfolding poll
  poll-Kept zero x k = tt
  poll-Kept (suc fuel) x k =
      poll_round-Kept _ (poll p claim_id identity deadline network fuel) _ (λ y. poll-Kept fuel y)
        (subst (IsHeldAt owners claim_id bound)
          (sym (context_first-service p owners claim_id deadline x)) k)

  abbrev Ends : Option (Execution W × Errors) → Type 0
  Ends o = Whenever (λ r. Released owners claim_id identity r.0) o

  after_poll-Ends :
      (o : Option (Execution W × PollEnd))
      → Kept o
      → Ends (after_poll p claim_id identity deadline network o)
  after_poll-Ends none k = tt
  after_poll-Ends (some (x, backend_ready)) k =
      start_stage-Released p owners claim_id identity deadline network x k
  after_poll-Ends (some (x, poll_stopped stop)) k =
      stopped-Released p owners claim_id identity stop
        (start_stage p claim_id identity deadline network) x
        (bound-IsOpen owners claim_id x.service k)
        (start_stage-Released p owners claim_id identity deadline network x k)
  after_poll-Ends (some (x, poll_failed errors)) k =
      fail-Released p owners claim_id "Failed" identity errors x
        (bound-IsOpen owners claim_id x.service k)

  pub bound_stage-Ends :
      (fuel : ℕ) (x : Execution W)
      → IsHeldAt owners claim_id "Pending" x.service
      → Ends (bound_stage p claim_id identity deadline network fuel x)
  unfolding bound_stage
  bound_stage-Ends fuel x k =
      let (x', e) = transition p claim_id bound "Bound" (some identity) x in
      let bad : Errors → Execution W → Option (Execution W × Errors) =
        λ errors y. some (failed_run p claim_id identity deadline network "Failed" errors y) in
      let next : Execution W → Option (Execution W × Errors) = λ y.
        after_poll p claim_id identity deadline network
          (poll p claim_id identity deadline network fuel y) in
      let (_, how) = transition-Moved p owners claim_id bound "Bound" (some identity) x k.held in
      elim how [
        | inl (same, (r, errors)) ↦
            let k' : IsHeldAt owners claim_id "Pending" x'.service =
              subst (IsHeldAt owners claim_id "Pending") (sym same) k in
            subst (λ l. Ends (unless_errors l bad next x')) (sym errors)
              (fail-Released p owners claim_id "Failed" identity (r ∷ []) x'
                (pending-IsOpen owners claim_id x'.service k'))
        | inr k' ↦
            unless_errors_both Ends e bad next x'
              (λ errors.
                fail-Released p owners claim_id "Failed" identity errors x'
                  (bound-IsOpen owners claim_id x'.service k'))
              (λ _.
                after_poll-Ends (poll p claim_id identity deadline network fuel x')
                  (poll-Kept fuel x' k'))
      ]
