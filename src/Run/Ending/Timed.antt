-- ===== src/Run/Ending/Timed.antt =====
-- The loop of observations ends by the deadline (internal/app/run_service.go, RunContext).
use agenova.Prelude.{
  ℕ, zero, suc, ◌+◌, ◌≤◌, ◌<◌, String, true, Option, none, some, Result, ok, err, leb, is_some,
  if◌then◌else◌, ◌≡◌, refl, arith, Bool-cases, inl, inr,
}
use agenova.Api.{BackendIdentity}
use agenova.Run.Backend.{NetworkAuthority, Observation, ContextError, Ports}
use agenova.Run.Service.{Execution, bound, transition, record_event, validate_observation}
use agenova.Run.Teardown.{
  Stop, go_on, on_context, past_deadline, reached, deadline_unless, context_first,
}
use agenova.Run.Stages.{
  PollEnd, backend_ready, poll_stopped, poll_failed, failed_run, marked_ready, after_observation,
  poll_round, poll, after_poll, bound_stage,
}
use agenova.Run.Ending.Staged.{unless_errors_both, if_both}
use agenova.Run.Ending.Polled.{IsTimed}

-- There is a result.
abbrev pub Given : {A : Type 0} → Option A → Type 0
Given o = is_some o ≡ true

module _ {W : Type 0} (p : Ports W) (timed : IsTimed p) (claim_id : String)
    (identity : BackendIdentity) (deadline : ℕ) (network : NetworkAuthority) where
  -- Going on means that there is time left.
  OnTime : ℕ → Execution W × Stop → Type 0
  OnTime before r = (before ≤ timed.time r.0.world) × (r.1 ≡ go_on → before < deadline)

  reached_later : (now t : ℕ) → t ≤ now → reached p claim_id deadline now ≡ go_on → t < deadline
  reached_later now t h e = elim (Bool-cases (leb deadline now)) [
    | inl y ↦ cc (rw y at e)
    | inr n ↦ let lt : now < deadline = ground (arith, n) in omega (arith, lt, h)
  ]

  deadline_unless-OnTime :
      (e : Option ContextError) (x : Execution W) (before : ℕ)
      → before ≤ timed.time x.world
      → OnTime before (deadline_unless p claim_id e deadline x)
  unfolding OnTime
  deadline_unless-OnTime (some e) x before h = (h, λ k. cc k)
  deadline_unless-OnTime none x before h =
      let later = timed.now_later x.world in
      let read = timed.read x.world in
      (omega (arith, h, later), reached_later (p.now x.world).1 before (omega (arith, h, read)))

  context_first-OnTime :
      (x : Execution W) → OnTime (timed.time x.world) (context_first p claim_id deadline x)
  unfolding context_first
  context_first-OnTime x =
      deadline_unless-OnTime (p.context x.world).1 (record x { world = (p.context x.world).0 })
        (timed.time x.world) (timed.context_later x.world)

  marked_ready-Given :
      (x : Execution W) → Given (marked_ready p claim_id identity deadline network x)
  marked_ready-Given x =
      let (x', e) = record_event p claim_id "BackendReady" x in
      unless_errors_both Given e (λ errors y. some (y, poll_failed errors))
        (λ y. some (y, backend_ready)) x' (λ errors. refl) (λ _. refl)

  after_observation-Given :
      (stop : Stop) (r : Result String Observation)
      (again : Execution W → Option (Execution W × PollEnd)) (x : Execution W)
      → Given (again (record x { world = p.wait x.world }))
      → Given (after_observation p claim_id identity deadline network stop r again x)
  after_observation-Given (on_context e) r again x f = refl
  after_observation-Given past_deadline r again x f = refl
  after_observation-Given go_on (err text) again x f = refl
  after_observation-Given go_on (ok o) again x f =
      let ready = marked_ready p claim_id identity deadline network in
      unless_errors_both Given (validate_observation claim_id identity o)
        (λ errors y. some (y, poll_failed errors))
        (λ y. if o.ready then ready x else again (record x { world = p.wait x.world })) x
        (λ errors. refl)
        (λ _.
          if_both Given o.ready (ready x) (again (record x { world = p.wait x.world }))
            (marked_ready-Given x) f)

  -- A round needs a result of the next one only where there is time left.
  poll_round-Given :
      (stop : Stop) (again : Execution W → Option (Execution W × PollEnd)) (x : Execution W)
      → (stop ≡ go_on
          → (y : Execution W) → timed.time x.world < timed.time y.world
          → Given (again y))
      → Given (poll_round p claim_id identity deadline network stop again x)
  unfolding OnTime
  poll_round-Given (on_context e) again x f = refl
  poll_round-Given past_deadline again x f = refl
  poll_round-Given go_on again x f =
      let (w, r) = p.observe identity x.world in
      let y : Execution W = record x { world = w } in
      let (z, stop) = context_first p claim_id deadline y in
      let (on_time, _) = context_first-OnTime y in
      let seen = timed.observe_later identity x.world in
      let waited = timed.wait_later z.world in
      after_observation-Given stop r again z
        (f refl (record z { world = p.wait z.world }) (omega (arith, on_time, seen, waited)))

  pub poll-Given :
      (fuel : ℕ) (x : Execution W)
      → deadline < timed.time x.world + fuel
      → 0 < fuel
      → Given (poll p claim_id identity deadline network fuel x)
  unfolding poll OnTime
  poll-Given zero x enough some_fuel = absurd (omega (arith, some_fuel))
  poll-Given (suc fuel) x enough some_fuel =
      let (x', stop) = context_first p claim_id deadline x in
      let (on_time, left) = context_first-OnTime x in
      poll_round-Given stop (poll p claim_id identity deadline network fuel) x' (λ e y later.
        let before = left e in
        poll-Given fuel y (omega (arith, enough, on_time, later)) (omega (arith, enough, before)))

  after_poll-Given :
      (o : Option (Execution W × PollEnd))
      → Given o
      → Given (after_poll p claim_id identity deadline network o)
  after_poll-Given none g = cc g
  after_poll-Given (some (x, backend_ready)) g = refl
  after_poll-Given (some (x, poll_stopped stop)) g = refl
  after_poll-Given (some (x, poll_failed errors)) g = refl

  -- More fuel than the deadline is enough for the loop.
  pub bound_stage-Given :
      (fuel : ℕ) (x : Execution W)
      → deadline < fuel
      → Given (bound_stage p claim_id identity deadline network fuel x)
  unfolding bound_stage
  bound_stage-Given fuel x enough =
      let (x', e) = transition p claim_id bound "Bound" (some identity) x in
      unless_errors_both Given e
        (λ errors y. some (failed_run p claim_id identity deadline network "Failed" errors y))
        (λ y.
          after_poll p claim_id identity deadline network
            (poll p claim_id identity deadline network fuel y))
        x' (λ errors. refl)
        (λ _.
          after_poll-Given (poll p claim_id identity deadline network fuel x')
            (poll-Given fuel x' (omega (arith, enough)) (omega (arith, enough))))
