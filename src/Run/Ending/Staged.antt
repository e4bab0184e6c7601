-- ===== src/Run/Ending/Staged.antt =====
-- Every stage from the start of the worker on ends the claim (internal/app/run_service.go, RunContext).
use agenova.Prelude.{
  ℕ, String, Bool, true, false, [], ◌∷◌, ◌++◌, Option, none, some, leb, if◌then◌else◌, ◌≡◌, inl,
  inr, refl, sym, subst, Bool-cases,
}
use agenova.Api.{BackendIdentity}
use agenova.Run.Backend.{
  NetworkAuthority, ContextError, deadline_exceeded, cancelled, Selected, work_done, context_done,
  timer_fired, Activation, Ports, run_deadline,
}
use agenova.Run.Service.{
  Errors, RunService, Execution, bound, running, succeeded, failed_phase, expired,
  allowed_transition, transition, record_event,
}
use agenova.Run.Teardown.{operation_error, finish, revoke_network, context_first, deadline_first}
use agenova.Run.Stages.{
  unless_errors, stop_work, work_outcome, selected, work_stage, unless_stopped, failed_run,
  before_work, mark_active, activated_stage, activation_outcome, activate, network_stage,
  with_network, running_stage, start, start_stage,
}
use agenova.Run.Phases.{Owners, IsHeldAt, record_event-IsHeldAt, transition-Moved}
use agenova.Run.Active.{
  IsFinal, failed-IsFinal, expired-IsFinal, succeeded-IsFinal, transition-IsHeldAt,
}
use agenova.Run.Ending.Torn.{
  terminal, Released, IsOpen, bound-IsOpen, running-IsOpen, running-fails, running-expires,
  running-succeeds, revoke_network-IsHeldAt, teardown-Released, give_up-Released, fail-Released,
  expire-Released, stopped-Released, context_first-service, deadline_first-service,
}

-- A property of the result holds on both ways of unless_errors.
pub unless_errors_both :
    {W B : Type 0} (P : B → Type 0) (e : Errors) (bad : Errors → Execution W → B)
    (good : Execution W → B) (x : Execution W)
    → ((errors : Errors) → P (bad errors x))
    → (e ≡ [] → P (good x))
    → P (unless_errors e bad good x)
unless_errors_both P [] bad good x f g = g refl
unless_errors_both P (e ∷ errors) bad good x f g = f (e ∷ errors)

pub if_both :
    {B : Type 0} (P : B → Type 0) (b : Bool) (x y : B) → P x → P y → P (if b then x else y)
if_both P true x y f g = f
if_both P false x y f g = g

module _ {W : Type 0} (p : Ports W) (owners : Owners) (claim_id : String)
    (identity : BackendIdentity) (deadline : ℕ) (network : NetworkAuthority) where
  abbrev pub Ends : Execution W × Errors → Type 0
  Ends r = Released owners claim_id identity r.0

  stop_work-Released :
      (from to event : String) (cause : Errors) (x : Execution W)
      → IsFinal to
      → terminal to ≡ true
      → allowed_transition from to ≡ true
      → IsHeldAt owners claim_id from x.service
      → Ends (stop_work p claim_id identity deadline network to event cause x)
  unfolding stop_work finish
  stop_work-Released from to event cause x final t a k =
      let (x₁, e₁) = finish p claim_id to event cause x in
      let (x₂, e₂) = revoke_network p claim_id identity x₁ in
      teardown-Released p owners claim_id to identity (e₁ ++ e₂)
        (record x₂ { world = p.join_work x₂.world }) t
        (revoke_network-IsHeldAt p owners claim_id to identity x₁
          (transition-IsHeldAt p owners claim_id from to event x final a k).0)

  -- The claim runs.
  abbrev Runs : Execution W → Type 0
  Runs x = IsHeldAt owners claim_id running x.service

  stop_failed :
      (event : String) (cause : Errors) (x : Execution W)
      → Runs x
      → Ends (stop_work p claim_id identity deadline network failed_phase event cause x)
  stop_failed event cause x k =
      stop_work-Released running failed_phase event cause x failed-IsFinal refl running-fails k

  stop_expired :
      (event : String) (cause : Errors) (x : Execution W)
      → Runs x
      → Ends (stop_work p claim_id identity deadline network expired event cause x)
  stop_expired event cause x k =
      stop_work-Released running expired event cause x expired-IsFinal refl running-expires k

  work_outcome-Released :
      (o : Option String) (x : Execution W)
      → Runs x
      → Ends (work_outcome p claim_id identity deadline network o x)
  work_outcome-Released none x k =
      give_up-Released p owners claim_id running succeeded "Succeeded" identity [] x
        succeeded-IsFinal refl running-succeeds k
  work_outcome-Released (some text) x k =
      fail-Released p owners claim_id "Failed" identity _ x
        (running-IsOpen owners claim_id x.service k)

  selected-Released :
      (choice : Selected) (x : Execution W)
      → Runs x
      → Ends (selected p claim_id identity deadline network choice x)
  selected-Released (work_done e) x k =
      let (x', stop) = deadline_first p claim_id deadline x in
      let k' : Runs x' =
        subst (IsHeldAt owners claim_id running)
          (sym (deadline_first-service p owners claim_id deadline x)) k in
      stopped-Released p owners claim_id identity stop _ x'
        (running-IsOpen owners claim_id x'.service k') (work_outcome-Released e x' k')
  selected-Released (context_done deadline_exceeded) x k = stop_expired "Expired" _ x k
  selected-Released (context_done cancelled) x k = stop_failed "Cancelled" _ x k
  selected-Released timer_fired x k = stop_expired "Expired" _ x k

  work_stage-Released :
      (x : Execution W) → Runs x → Ends (work_stage p claim_id identity deadline network x)
  unfolding work_stage
  work_stage-Released x k =
      let (w, now) = p.now (p.begin_work x.world) in
      elim (Bool-cases (leb deadline now)) [
        | inl late ↦ rw late (stop_expired "Expired" (run_deadline ∷ []) _ k)
        | inr early ↦ rw early (selected-Released (p.select_work w).1 _ k)
      ]

  -- stopIfInterrupted, in front of a step that ends the claim.
  unless_stopped-Released :
      (phase : String) (next : Execution W → Execution W × Errors) (x : Execution W)
      → ((s : RunService) → IsHeldAt owners claim_id phase s → IsOpen owners claim_id s)
      → ((y : Execution W) → IsHeldAt owners claim_id phase y.service → Ends (next y))
      → IsHeldAt owners claim_id phase x.service
      → Ends (unless_stopped p claim_id identity deadline network next x)
  unless_stopped-Released phase next x o f k =
      let (x', stop) = context_first p claim_id deadline x in
      let k' : IsHeldAt owners claim_id phase x'.service =
        subst (IsHeldAt owners claim_id phase)
          (sym (context_first-service p owners claim_id deadline x)) k in
      stopped-Released p owners claim_id identity stop next x' (o x'.service k') (f x' k')

  before_work-Released :
      (x : Execution W) → Runs x → Ends (before_work p claim_id identity deadline network x)
  unfolding before_work
  before_work-Released x k =
      unless_stopped-Released running _ x (running-IsOpen owners claim_id) work_stage-Released k

  pub failed_run-Released :
      (event : String) (errors : Errors) (x : Execution W)
      → IsOpen owners claim_id x.service
      → Ends (failed_run p claim_id identity deadline network event errors x)
  failed_run-Released event errors x o = fail-Released p owners claim_id event identity errors x o

  mark_active-Runs :
      (errors : Errors) (x : Execution W)
      → Runs x
      → Runs (mark_active p claim_id identity deadline network errors x).0
  mark_active-Runs [] x k = (record_event-IsHeldAt p owners claim_id "NetworkActive" running x k).0
  mark_active-Runs (e ∷ errors) x k = k

  activated_stage-Released :
      (errors : Errors) (x : Execution W)
      → Runs x
      → Ends (activated_stage p claim_id identity deadline network errors x)
  unfolding activated_stage
  activated_stage-Released errors x k =
      unless_stopped-Released running _ _ (running-IsOpen owners claim_id)
        (λ y r.
          unless_errors_both Ends (mark_active p claim_id identity deadline network errors x).1
            (failed_run p claim_id identity deadline network "NetworkActivationFailed")
            (before_work p claim_id identity deadline network) y
            (λ e.
              failed_run-Released "NetworkActivationFailed" e y
                (running-IsOpen owners claim_id y.service r))
            (λ _. before_work-Released y r))
        (mark_active-Runs errors x k)

  activation_outcome-Released :
      (o : Option ContextError) (a : Activation) (x : Execution W)
      → Runs x
      → Ends (activation_outcome p claim_id identity deadline network o a x)
  activation_outcome-Released none a x k = activated_stage-Released _ x k
  activation_outcome-Released (some cancelled) a x k = activated_stage-Released _ x k
  activation_outcome-Released (some deadline_exceeded) a x k =
      expire-Released p owners claim_id "Expired" identity (run_deadline ∷ []) x
        (running-IsOpen owners claim_id x.service k)

  activate-Released :
      (x : Execution W) → Runs x → Ends (activate p claim_id identity deadline network x)
  activate-Released x k =
      unless_stopped-Released running _ _ (running-IsOpen owners claim_id)
        (activation_outcome-Released _ _) k

  network_stage-Released :
      (x : Execution W) → Runs x → Ends (network_stage p claim_id identity deadline network x)
  unfolding network_stage
  network_stage-Released x k =
      let (x', e) = record_event p claim_id "NetworkActivationAttempt" x in
      let k' : Runs x' =
        (record_event-IsHeldAt p owners claim_id "NetworkActivationAttempt" running x k).0 in
      unless_errors_both Ends e (activated_stage p claim_id identity deadline network)
        (unless_stopped p claim_id identity deadline network
          (activate p claim_id identity deadline network))
        x' (λ errors. activated_stage-Released errors x' k')
        (λ _.
          unless_stopped-Released running _ x' (running-IsOpen owners claim_id) activate-Released
            k')

  with_network-Released :
      (x : Execution W) → Runs x → Ends (with_network p claim_id identity deadline network x)
  with_network-Released x k =
      if_both Ends p.network _ _ (network_stage-Released x k) (before_work-Released x k)

  running_stage-Released :
      (x : Execution W)
      → IsHeldAt owners claim_id bound x.service
      → Ends (running_stage p claim_id identity deadline network x)
  unfolding running_stage
  running_stage-Released x k =
      let (x', e) = transition p claim_id running "Running" none x in
      let next =
        unless_stopped p claim_id identity deadline network
          (with_network p claim_id identity deadline network) in
      let bad = failed_run p claim_id identity deadline network "Failed" in
      let (_, how) = transition-Moved p owners claim_id running "Running" none x k.held in
      elim how [
        | inl (same, (r, errors)) ↦
            let k' : IsHeldAt owners claim_id bound x'.service =
              subst (IsHeldAt owners claim_id bound) (sym same) k in
            subst (λ l. Ends (unless_errors l bad next x')) (sym errors)
              (failed_run-Released "Failed" (r ∷ []) x'
                (bound-IsOpen owners claim_id x'.service k'))
        | inr k' ↦
            unless_errors_both Ends e bad next x'
              (λ errors.
                failed_run-Released "Failed" errors x'
                  (running-IsOpen owners claim_id x'.service k'))
              (λ _.
                unless_stopped-Released running (with_network p claim_id identity deadline network)
                  x' (running-IsOpen owners claim_id) with_network-Released k')
      ]

  start-Released :
      (x : Execution W)
      → IsHeldAt owners claim_id bound x.service
      → Ends (start p claim_id identity deadline network x)
  start-Released x k =
      let (w, e) = p.start identity x.world in
      unless_stopped-Released bound _ _ (bound-IsOpen owners claim_id)
        (λ y r.
          unless_errors_both Ends (operation_error "start runtime" e)
            (failed_run p claim_id identity deadline network "StartFailed")
            (running_stage p claim_id identity deadline network) y
            (λ errors.
              failed_run-Released "StartFailed" errors y (bound-IsOpen owners claim_id y.service r))
            (λ _. running_stage-Released y r))
        k

  pub start_stage-Released :
      (x : Execution W)
      → IsHeldAt owners claim_id bound x.service
      → Ends (start_stage p claim_id identity deadline network x)
  unfolding start_stage
  start_stage-Released x k =
      let (x', stop) = deadline_first p claim_id deadline x in
      let k' : IsHeldAt owners claim_id bound x'.service =
        subst (IsHeldAt owners claim_id bound)
          (sym (deadline_first-service p owners claim_id deadline x)) k in
      stopped-Released p owners claim_id identity stop (start p claim_id identity deadline network)
        x' (bound-IsOpen owners claim_id x'.service k') (start-Released x' k')
