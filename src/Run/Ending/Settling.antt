-- ===== src/Run/Ending/Settling.antt =====
-- Allocation ends its claim, or hands it on (internal/app/run_service.go, RunContext).
use agenova.Prelude.{
  ℕ, String, true, not, List, [], ◌∷◌, Option, none, some, Result, ok, err, leb, update, string_eq,
  ◌≡◌, ◌⊎◌, inl, inr, refl, sym, ap, subst, ◌∙◌, Bool-cases,
}
use agenova.Api.{BackendIdentity}
use agenova.Api.Equality.{backend_identity_eq}
use agenova.Run.Backend.{
  NetworkAuthority, AllocateRequest, Allocation, ContextError, RunError, invalid_run,
  deadline_exceeded, cancelled, failed, run_deadline, Ports,
}
use agenova.Run.Service.{
  Errors, Call, allocated, Execution, failed_phase, expired, allowed_transition, reserve_identity,
  owned_by_other, validate_allocation,
}
use agenova.Run.Teardown.{called, finish, teardown, Stop, go_on, on_context, past_deadline}
use agenova.Run.Stages.{unless_errors, bound_stage}
use agenova.Run.Context.{
  finish_interrupted, reserve, late_allocation, failed_allocation, use_allocation, allocate,
  allocation_stage, before_allocation,
}
use agenova.Run.Phases.{Owners, IsHeldAt}
use agenova.Run.Active.{IsFinal, failed-IsFinal, expired-IsFinal, transition-IsHeldAt}
use agenova.Run.Ending.Torn.{terminal, Released, teardown-Released}
use agenova.Run.Ending.Staged.{unless_errors_both, if_both}
use agenova.Run.Ending.Polled.{Whenever, bound_stage-Ends}

-- The claim has ended, after these calls, and the workers have these owners.
pub record EndedAfter (owners : Owners) (claim_id : String) (calls : List Call) {W : Type 0}
    (x : Execution W) : Type 0 where
  pub phase : String
  pub ended : terminal phase ≡ true
  pub at : IsHeldAt owners claim_id phase x.service
  pub made : x.calls ≡ calls

-- No worker was reserved, and the calls are these; or the one worker that was reserved for the claim is released.
abbrev pub Used : {W : Type 0} → Owners → String → List Call → Execution W × Errors → Type 0
Used owners claim_id calls r =
    EndedAfter owners claim_id calls r.0
    ⊎ ((identity : BackendIdentity) × Released (update owners identity claim_id) claim_id identity
          r.0)

-- The same, with or without the call of Allocate.
abbrev pub Settled : {W : Type 0} → Owners → String → List Call → Execution W × Errors → Type 0
Settled owners claim_id calls r =
    EndedAfter owners claim_id calls r.0 ⊎ Used owners claim_id (allocated claim_id ∷ calls) r

module _ {W : Type 0} (p : Ports W) (owners : Owners) (claim_id : String) where
  abbrev pub Waits : Execution W → Type 0
  Waits x = IsHeldAt owners claim_id "Pending" x.service

  finish-EndedAfter :
      (to event : String) (cause : Errors) (x : Execution W)
      → IsFinal to
      → terminal to ≡ true
      → allowed_transition "Pending" to ≡ true
      → Waits x
      → EndedAfter owners claim_id x.calls (finish p claim_id to event cause x).0
  unfolding finish
  finish-EndedAfter to event cause x final t a k =
      let (at, made) = transition-IsHeldAt p owners claim_id "Pending" to event x final a k in
      record { phase = to; ended = t; at = at; made = made }

  finish-failed :
      (event : String) (cause : Errors) (x : Execution W)
      → Waits x
      → EndedAfter owners claim_id x.calls (finish p claim_id failed_phase event cause x).0
  unfolding allowed_transition
  finish-failed event cause x k =
      finish-EndedAfter failed_phase event cause x failed-IsFinal refl refl k

  finish-expired :
      (event : String) (cause : Errors) (x : Execution W)
      → Waits x
      → EndedAfter owners claim_id x.calls (finish p claim_id expired event cause x).0
  unfolding allowed_transition
  finish-expired event cause x k =
      finish-EndedAfter expired event cause x expired-IsFinal refl refl k

  pub interrupted-EndedAfter :
      (e : ContextError) (x : Execution W)
      → Waits x
      → EndedAfter owners claim_id x.calls (finish_interrupted p claim_id e x).0
  interrupted-EndedAfter deadline_exceeded x k = finish-expired "Expired" _ x k
  interrupted-EndedAfter cancelled x k = finish-failed "Cancelled" _ x k

  -- A reservation fails and changes nothing, or makes the claim the owner of the worker.
  abbrev Reservation : String → BackendIdentity → Execution W → Execution W × Errors → Type 0
  Reservation phase identity x (y, errors) =
      (y.calls ≡ x.calls)
      × (((e : RunError) × (errors ≡ e ∷ []) × IsHeldAt owners claim_id phase y.service)
          ⊎ ((errors ≡ []) × IsHeldAt (update owners identity claim_id) claim_id phase y.service))

  reserve-Reservation :
      (phase : String) (identity : BackendIdentity) (x : Execution W)
      → IsHeldAt owners claim_id phase x.service
      → Reservation phase identity x (reserve p claim_id identity x)
  unfolding reserve_identity
  reserve-Reservation phase identity x k =
      elim (Bool-cases (owned_by_other (x.service.identity_owner identity) claim_id)) [
        | inl y ↦ rw y (refl, inl (invalid_run "backend identity is already bound", refl, k))
        | inr n ↦ rw n (
          refl,
          inr (
            refl,
            record {
              state = k.state;
              claim = k.claim;
              stored = k.stored;
              claimed = k.claimed;
              at = k.at;
              valid = k.valid;
              held = ap (λ o. update o identity claim_id) k.held;
            },
          ),
        )
      ]

  -- What was allocated too late is released, once it is reserved.
  late_allocation-Settled :
      (a : Result String Allocation) (calls : List Call) (r : Execution W × Errors)
      → EndedAfter owners claim_id calls r.0
      → Used owners claim_id calls (late_allocation p claim_id a r)
  late_allocation-Settled (err text) calls r k = inl k
  late_allocation-Settled (ok a) calls (x, e) k =
      let P : Execution W × Errors → Type 0 = Used owners claim_id calls in
      let (y, errors) = reserve p claim_id a.identity x in
      let next = teardown p claim_id a.identity e in
      let (made, how) = reserve-Reservation k.phase a.identity x k.at in
      unless_errors_both P (validate_allocation claim_id a) (λ _ y. (y, e))
        (λ y.
          let (z, r) = reserve p claim_id a.identity y in unless_errors r (λ _ z. (z, e)) next z)
        x (λ _. inl k)
        (λ _. elim how [
          | inl (r, refused, at) ↦
              subst (λ l. P (unless_errors l (λ _ z. (z, e)) next y)) (sym refused)
                (inl (record { phase = k.phase; ended = k.ended; at = at; made = made ∙ k.made }))
          | inr (granted, at) ↦
              subst (λ l. P (unless_errors l (λ _ z. (z, e)) next y)) (sym granted)
                (inr (
                  a.identity,
                  teardown-Released p (update owners a.identity claim_id) claim_id k.phase
                      a.identity e y k.ended at,
                ))
        ])

  use_allocation-Settled :
      (fuel deadline : ℕ) (network : NetworkAuthority) (a : Result String Allocation)
      (x : Execution W)
      → Waits x
      → Whenever
          (Used owners claim_id x.calls)
          (use_allocation p claim_id fuel deadline network a x)
  use_allocation-Settled fuel deadline network (err text) x k =
      inl (finish-failed "AllocationFailed" _ x k)
  use_allocation-Settled fuel deadline network (ok a) x k =
      let P : Option (Execution W × Errors) → Type 0 = Whenever (Used owners claim_id x.calls) in
      let (y, errors) = reserve p claim_id a.identity x in
      let (made, how) = reserve-Reservation "Pending" a.identity x k in
      let next = bound_stage p claim_id a.identity deadline network fuel in
      let bad = failed_allocation p claim_id in
      unless_errors_both P (validate_allocation claim_id a) bad
        (λ y. let (z, r) = reserve p claim_id a.identity y in unless_errors r bad next z) x
        (λ e. inl (finish-failed "AllocationFailed" e x k))
        (λ _. elim how [
          | inl (r, refused, at) ↦
              let f = finish-failed "AllocationFailed" (r ∷ []) y at in
              subst (λ l. P (unless_errors l bad next y)) (sym refused)
                (inl (record { phase = f.phase; ended = f.ended; at = f.at; made = f.made ∙ made }))
          | inr (granted, at) ↦
              subst (λ l. P (unless_errors l bad next y)) (sym granted)
                (released (next y) (
                  bound_stage-Ends p (update owners a.identity claim_id) claim_id a.identity
                    deadline network fuel y at))
        ])
    where
      released :
          (o : Option (Execution W × Errors))
          → Whenever (λ r. Released (update owners a.identity claim_id) claim_id a.identity r.0) o
          → Whenever (Used owners claim_id x.calls) o
      released none w = tt
      released (some r) w = inr (a.identity, w)

  -- With the call of Allocate.
  weakened :
      (calls : List Call) (o : Option (Execution W × Errors))
      → Whenever (Used owners claim_id (allocated claim_id ∷ calls)) o
      → Whenever (Settled owners claim_id calls) o
  weakened calls none w = tt
  weakened calls (some r) w = inr w

  pub allocation_stage-Settled :
      (fuel deadline : ℕ) (request : AllocateRequest) (x : Execution W)
      → Waits x
      → Whenever
          (Settled owners claim_id x.calls)
          (allocation_stage p claim_id fuel deadline request x)
  unfolding allocation_stage
  allocation_stage-Settled fuel deadline request x k =
      let (w, r) = p.allocate request x.world in
      let (w', now) = p.now w in
      let x' : Execution W = called (allocated claim_id) w' x in
      let ended = finish p claim_id expired "Expired" (run_deadline ∷ []) x' in
      if_both (Whenever (Settled owners claim_id x.calls)) (not p.network)
        (failed_allocation p claim_id (failed "network" "enforcement unavailable" ∷ []) x)
        (allocate p claim_id fuel deadline request x)
        (inl
          (finish-failed "AllocationFailed" (failed "network" "enforcement unavailable" ∷ []) x k))
        (if_both (Whenever (Settled owners claim_id x.calls)) (leb deadline now)
          (some (late_allocation p claim_id r ended))
          (use_allocation p claim_id fuel deadline request.network r x')
          (inr (
            late_allocation-Settled r x'.calls ended
              (finish-expired "Expired" (run_deadline ∷ []) x' k)))
          (weakened x.calls _ (use_allocation-Settled fuel deadline request.network r x' k)))

  pub before_allocation-Settled :
      (fuel deadline : ℕ) (request : AllocateRequest) (stop : Stop) (x : Execution W)
      → Waits x
      → Whenever
          (Settled owners claim_id x.calls)
          (before_allocation p claim_id fuel deadline request stop x)
  before_allocation-Settled fuel deadline request (on_context e) x k =
      inl (interrupted-EndedAfter e x k)
  before_allocation-Settled fuel deadline request past_deadline x k =
      inl (finish-expired "Expired" _ x k)
  before_allocation-Settled fuel deadline request go_on x k =
      allocation_stage-Settled fuel deadline request x k
