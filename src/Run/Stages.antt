-- ===== src/Run/Stages.antt =====
-- internal/app/run_service.go: RunContext from the bound claim on, from the last stage to the first.
use agenova.Prelude.{
  ℕ, zero, suc, String, [], ◌∷◌, ◌++◌, Option, none, some, Result, ok, err, leb, if◌then◌else◌,
}
use agenova.Api.{BackendIdentity}
use agenova.Run.Backend.{
  NetworkAuthority, Observation, ContextError, deadline_exceeded, cancelled, failed, run_deadline,
  interrupted, Selected, work_done, context_done, timer_fired, Activation, Ports,
}
use agenova.Run.Service.{
  Errors, started, activated, worked, Execution, bound, running, succeeded, failed_phase, expired,
  transition, record_event, validate_observation, validate_network_evidence,
}
use agenova.Run.Teardown.{
  called, operation_error, evidence_errors, finish, revoke_network, teardown, give_up, Stop, go_on,
  on_context, past_deadline, context_first, deadline_first, stopped,
}

-- How the loop of observations ends.
pub data PollEnd : Type 0 where
  backend_ready : PollEnd
  poll_stopped : Stop → PollEnd
  poll_failed : Errors → PollEnd

-- Errors stop the run; otherwise it goes on.
abbrev pub unless_errors {ℓ} :
    {W : Type 0} {B : Type ℓ}
    → Errors
    → (Errors → Execution W → B)
    → (Execution W → B)
    → Execution W
    → B
unless_errors [] bad good x = good x
unless_errors (e ∷ errors) bad good x = bad (e ∷ errors) x

module _ {W : Type 0} (p : Ports W) (claim_id : String) (identity : BackendIdentity) (deadline : ℕ)
    (network : NetworkAuthority) where
  -- stopWork, with the wait for the work in front of the teardown.
  unfoldable pub stop_work : String → String → Errors → Execution W → Execution W × Errors
  unfolding finish revoke_network teardown
  stop_work phase event cause x =
      let (x₁, e₁) = finish p claim_id phase event cause x in
      let (x₂, e₂) = revoke_network p claim_id identity x₁ in
      teardown p claim_id identity (e₁ ++ e₂) (record x₂ { world = p.join_work x₂.world })

  abbrev pub work_outcome : Option String → Execution W → Execution W × Errors
  work_outcome none x = give_up p claim_id identity succeeded "Succeeded" [] x
  work_outcome (some text) x =
      give_up p claim_id identity failed_phase "Failed" (failed "application work" text ∷ []) x

  abbrev pub selected : Selected → Execution W → Execution W × Errors
  selected (work_done e) x =
      let (x', stop) = deadline_first p claim_id deadline x in
      stopped p claim_id identity stop (work_outcome e) x'
  selected (context_done deadline_exceeded) x =
      stop_work expired "Expired" (interrupted deadline_exceeded ∷ []) x
  selected (context_done cancelled) x =
      stop_work failed_phase "Cancelled" (interrupted cancelled ∷ []) x
  selected timer_fired x = stop_work expired "Expired" (run_deadline ∷ []) x

  -- The work is started, and waited for until the deadline.
  unfoldable pub work_stage : Execution W → Execution W × Errors
  unfolding stop_work give_up deadline_first
  work_stage x =
      let x₁ = called worked (p.begin_work x.world) x in
      let (w, now) = p.now x₁.world in
      let x₂ = record x₁ { world = w } in
      let (w', choice) = p.select_work w in
      if leb deadline now
      then stop_work expired "Expired" (run_deadline ∷ []) x₂
      else selected choice (record x₂ { world = w' })

  -- stopIfInterrupted, and then the next step.
  abbrev pub unless_stopped :
      (Execution W → Execution W × Errors) → Execution W → Execution W × Errors
  unless_stopped next x =
      let (x', stop) = context_first p claim_id deadline x in
      stopped p claim_id identity stop next x'

  abbrev pub failed_run : String → Errors → Execution W → Execution W × Errors
  failed_run event errors x = give_up p claim_id identity failed_phase event errors x

  unfoldable pub before_work : Execution W → Execution W × Errors
  unfolding work_stage context_first give_up
  before_work x = unless_stopped work_stage x

  abbrev pub mark_active : Errors → Execution W → Execution W × Errors
  mark_active [] x = record_event p claim_id "NetworkActive" x
  mark_active (e ∷ errors) x = (x, e ∷ errors)

  unfoldable pub activated_stage : Errors → Execution W → Execution W × Errors
  unfolding before_work record_event context_first give_up
  activated_stage errors x =
      let (x', e) = mark_active errors x in
      unless_stopped (unless_errors e (failed_run "NetworkActivationFailed") before_work) x'

  -- By the error of the activation's context.
  abbrev pub activation_outcome :
      Option ContextError → Activation → Execution W → Execution W × Errors
  activation_outcome (some deadline_exceeded) a x =
      give_up p claim_id identity expired "Expired" (run_deadline ∷ []) x
  activation_outcome (some cancelled) a x =
      activated_stage (evidence_errors a.evidence claim_id identity "Active" network) x
  activation_outcome none a x =
      activated_stage (evidence_errors a.evidence claim_id identity "Active" network) x

  -- The side effect, bounded by the time that is left.
  abbrev pub activate : Execution W → Execution W × Errors
  activate x =
      let (w, now) = p.now x.world in
      let (w', a) = p.activate_network identity w in
      unless_stopped (activation_outcome a.context a) (called (activated identity) w' x)

  unfoldable pub network_stage : Execution W → Execution W × Errors
  unfolding activated_stage record_event context_first give_up validate_network_evidence
  network_stage x =
      let (x', e) = record_event p claim_id "NetworkActivationAttempt" x in
      unless_errors e activated_stage (unless_stopped activate) x'

  abbrev pub with_network : Execution W → Execution W × Errors
  with_network x = if p.network then network_stage x else before_work x

  unfoldable pub running_stage : Execution W → Execution W × Errors
  unfolding network_stage before_work transition context_first give_up
  running_stage x =
      let (x', e) = transition p claim_id running "Running" none x in
      unless_errors e (failed_run "Failed") (unless_stopped with_network) x'

  abbrev pub start : Execution W → Execution W × Errors
  start x =
      let (w, e) = p.start identity x.world in
      unless_stopped
        (unless_errors (operation_error "start runtime" e) (failed_run "StartFailed") running_stage)
        (called (started identity) w x)

  unfoldable pub start_stage : Execution W → Execution W × Errors
  unfolding running_stage context_first deadline_first give_up
  start_stage x =
      let (x', stop) = deadline_first p claim_id deadline x in
      stopped p claim_id identity stop start x'

  -- The part of a round of the loop that follows the observation.
  abbrev pub marked_ready : Execution W → Option (Execution W × PollEnd)
  marked_ready x =
      let (x', e) = record_event p claim_id "BackendReady" x in
      unless_errors e (λ errors y. some (y, poll_failed errors)) (λ y. some (y, backend_ready)) x'

  abbrev pub observed :
      Observation
      → (Execution W → Option (Execution W × PollEnd))
      → Execution W
      → Option (Execution W × PollEnd)
  observed o again x =
      let ready = marked_ready x in
      let later = again (record x { world = p.wait x.world }) in
      unless_errors (validate_observation claim_id identity o)
        (λ errors y. some (y, poll_failed errors)) (λ y. if o.ready then ready else later) x

  abbrev pub after_observation :
      Stop
      → Result String Observation
      → (Execution W → Option (Execution W × PollEnd))
      → Execution W
      → Option (Execution W × PollEnd)
  after_observation (on_context e) r again x = some (x, poll_stopped (on_context e))
  after_observation past_deadline r again x = some (x, poll_stopped past_deadline)
  after_observation go_on (err text) again x =
      some (x, poll_failed (failed "observe runtime" text ∷ []))
  after_observation go_on (ok o) again x = observed o again x

  abbrev pub poll_round :
      Stop
      → (Execution W → Option (Execution W × PollEnd))
      → Execution W
      → Option (Execution W × PollEnd)
  poll_round (on_context e) again x = some (x, poll_stopped (on_context e))
  poll_round past_deadline again x = some (x, poll_stopped past_deadline)
  poll_round go_on again x =
      let (w, r) = p.observe identity x.world in
      let (x', stop) = context_first p claim_id deadline (record x { world = w }) in
      after_observation stop r again x'

  -- The loop of observations, on fuel: none where it is too little.
  unfoldable pub poll : ℕ → Execution W → Option (Execution W × PollEnd)
  unfolding context_first record_event validate_observation
  poll zero x = none
  poll (suc fuel) x =
      let (x', stop) = context_first p claim_id deadline x in poll_round stop (poll fuel) x'

  abbrev pub after_poll : Option (Execution W × PollEnd) → Option (Execution W × Errors)
  after_poll none = none
  after_poll (some (x, backend_ready)) = some (start_stage x)
  after_poll (some (x, poll_stopped stop)) = some (stopped p claim_id identity stop start_stage x)
  after_poll (some (x, poll_failed errors)) = some (failed_run "Failed" errors x)

  unfoldable pub bound_stage : ℕ → Execution W → Option (Execution W × Errors)
  unfolding start_stage poll transition give_up
  bound_stage fuel x =
      let (x', e) = transition p claim_id bound "Bound" (some identity) x in
      unless_errors e (λ errors y. some (failed_run "Failed" errors y))
        (λ y. after_poll (poll fuel y)) x'
