-- ===== src/Gateway/Reporting.antt =====
-- What reporting and dispatching leave as it was (internal/toolgateway/gateway.go).
use agenova.Prelude.{
  ℕ, String, [], ◌∷◌, ◌++◌, Option, none, some, ◌≡◌, ◌⊎◌, inl, inr, refl, ap, ◌∙◌, sym,
}
use agenova.Facts.Store.{Store}
use agenova.Gateway.Decisions.{GatewayDecision, Outcome, decision}
use agenova.Gateway.Ports.{
  Gateway, Host, Reply, observed, notify, noted, record_decision, call_adapter, dispatch,
}

-- Nothing is dispatched, and the decision is the given one.
pub record Reports {W R : Type 0} (id : String) (o : Outcome) (h : Host W R) (r : Reply W R)
    : Type 0 where
  pub decided : r.decision ≡ decision id o
  pub dispatched : r.host.dispatched ≡ h.dispatched

-- The store is as it was, or has the fact that `put` writes.
abbrev pub Keeps : {W R : Type 0} → (ℕ → Store → Store) → Host W R → Reply W R → Type 0
Keeps put h r = (r.host.store ≡ h.store) ⊎ ((now : ℕ) × (r.host.store ≡ put now h.store))

module _ {W R : Type 0} (g : Gateway W R) (failed : String → String) (req : R) where
  observed-Reports :
      (observer : Option (R → GatewayDecision → W → W × Option String)) (id : String) (o : Outcome)
      (h : Host W R)
      → Reports id o h (observed g failed observer req (decision id o) h)
        × ((observed g failed observer req (decision id o) h).host.store ≡ h.store)
  observed-Reports none id o h = (record { decided = refl; dispatched = refl }, refl)
  observed-Reports (some f) id o h = (record { decided = refl; dispatched = refl }, refl)

  pub notify-Reports :
      (id : String) (o : Outcome) (h : Host W R)
      → Reports id o h (notify g failed req id o h)
        × ((notify g failed req id o h).host.store ≡ h.store)
  unfolding notify
  notify-Reports id o h = observed-Reports g.observer id o h

  noted-Reports :
      (put : ℕ → Store → Store) (e : Option String) (id : String) (o : Outcome) (h : Host W R)
      (r : Reply W R)
      → Reports id o h r
      → r.host.store ≡ h.store
      → Reports id o h (noted g put e r)
        × Keeps put h (noted g put e r)
        × (e ≡ none → (now : ℕ) × ((noted g put e r).host.store ≡ put now h.store))
  noted-Reports put (some e) id o h r p s = (p, inl s, λ k. cc k)
  noted-Reports put none id o h r p s =
      let now = g.clock r.host.world in
      (
        record { decided = p.decided; dispatched = p.dispatched },
        inr (now, ap (put now) s),
        λ k. (now, ap (put now) s),
      )

  noted-error :
      (put : ℕ → Store → Store) (e : Option String) (r : Reply W R)
      → (noted g put e r).error ≡ r.error
  noted-error put none r = refl
  noted-error put (some e) r = refl

  -- Recording dispatches nothing; without an error, the fact is written.
  pub record_decision-Reports :
      (put : ℕ → Store → Store) (id : String) (o : Outcome) (h : Host W R)
      → let r = record_decision g failed put req id o h in
        Reports id o h r
        × Keeps put h r
        × (r.error ≡ none → (now : ℕ) × (r.host.store ≡ put now h.store))
  unfolding record_decision
  record_decision-Reports put id o h =
      let r = notify g failed req id o h in
      let (p, s) = notify-Reports id o h in
      let (a, b, c) = noted-Reports put r.error id o h r p s in
      (a, b, λ k. c (sym (noted-error put r.error r) ∙ k))

  -- The adapter is called, once, exactly when there is no error before.
  abbrev pub Dispatched : String → Reply W R → Reply W R → Type 0
  Dispatched id r s =
      (s.decision ≡ r.decision)
      × (s.host.store ≡ r.host.store)
      × ((s.host.dispatched ≡ r.host.dispatched)
          ⊎ ((r.error ≡ none) × (s.host.dispatched ≡ r.host.dispatched ++ (id, req) ∷ [])))

  call_adapter-Dispatched :
      (id : String) (e : Option String) (r : Reply W R)
      → r.error ≡ e
      → Dispatched id r (call_adapter g failed req id e r)
  call_adapter-Dispatched id (some e) r k = (refl, refl, inl refl)
  call_adapter-Dispatched id none r k = (refl, refl, inr (k, refl))

  pub dispatch-Dispatched :
      (id : String) (r : Reply W R) → Dispatched id r (dispatch g failed req id r)
  unfolding dispatch
  dispatch-Dispatched id r = call_adapter-Dispatched id r.error r refl
