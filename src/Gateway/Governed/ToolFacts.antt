-- ===== src/Gateway/Governed/ToolFacts.antt =====
-- What the tool gateway stores, and for whom an authenticated call acts (internal/toolgateway/gateway.go).
use agenova.Prelude.{
  ℕ, String, true, Option, none, some, Result, ok, err, ◌>>=◌, ◌==◌, string_eq, ◌≡◌, ◌⊎◌, inl, inr,
  refl, sym, ap, ◌∙◌, Bool-cases, ==_iff,
}
use agenova.Api.{allow}
use agenova.WorkloadIdentity.{Bytes, Identity}
use agenova.Run.Eligibility.{ClaimAuthoritySnapshot}
use agenova.Gateway.Decisions.{GatewayDecision, Outcome, normalize, denial}
use agenova.Gateway.Ports.{
  Gateway, Host, Reply, Refusal, notified, recorded, notified_if, reading, resolve_claim, next_id,
}
use agenova.Gateway.Reporting.{notify-Reports, record_decision-Reports, dispatch-Dispatched}
use agenova.Gateway.Governed.Workers.{RunsOn, holds_claim-RunsOn}
use agenova.Gateway.Governed.ToolCalls.{admit_request-Granted, Governed, invoke-Governed}
use agenova.Gateway.Tool.{
  Request, validate, recording_failed, adapter_failed, fact, admit_request, record_outcome, judged,
  proceed, invoke, invoke_unauthenticated, mismatched, holds_claim, read_claim, verified_by, act_as,
  invoke_authenticated,
}

recorded_known :
    {A B : Type 0} (v : Result Outcome (Unit {0})) (k : Result Outcome A) (f : A → Result Refusal B)
    (o : Outcome)
    → (notified_if v >>= λ _. notified_if k >>= f) ≡ err (recorded o)
    → (a : A) × (k ≡ ok a)
recorded_known (err e) k f o h = cc h
recorded_known (ok u) (err e) f o h = cc h
recorded_known (ok u) (ok a) f o h = (a, refl)

module _ {W : Type 0} (g : Gateway W Request) (req : Request) where
  -- No fact was added, or one was, of the returned decision and for a claim that the reader knows.
  abbrev pub Stored : W → String → Host W Request → Reply W Request → Type 0
  Stored w id h r =
      (r.host.store ≡ h.store)
      ⊎ ((s : ClaimAuthoritySnapshot) × (resolve_claim (reading g.claims w) req.claim_id ≡ ok s)
          × ((now : ℕ) × (r.host.store ≡ fact g req id r.decision.result now h.store)))

  record_outcome-Stored :
      (w : W) (id : String) (h : Host W Request) (o : Outcome) (s : ClaimAuthoritySnapshot)
      → resolve_claim (reading g.claims w) req.claim_id ≡ ok s
      → Stored w id h (record_outcome g req id o h)
  record_outcome-Stored w id h o s k =
      let (rep, kept, _) =
        record_decision-Reports g recording_failed req (fact g req id o.result) id o h in
      elim kept [
        | inl same ↦ inl same
        | inr (now, put) ↦ inr (
          s,
          k,
          (
            now,
            put
                ∙ ap (λ x. fact g req id x now h.store)
                    (sym (ap (λ (x : GatewayDecision). x.result) rep.decided)),
          ),
        )
      ]

  judged-Stored :
      (w : W) (id : String) (h : Host W Request) (o : Outcome) (s : ClaimAuthoritySnapshot)
      → resolve_claim (reading g.claims w) req.claim_id ≡ ok s
      → Stored w id h (judged g req id o h)
  judged-Stored w id h o s k =
      let reply = record_outcome g req id o h in
      let before = record_outcome-Stored w id h o s k in
      elim (Bool-cases (o.result == allow)) [
        | inr n ↦ rw n before
        | inl y ↦
            let (same, kept, _) = dispatch-Dispatched g (adapter_failed id) req id reply in
            rw y (elim before [
              | inl unchanged ↦ inl (kept ∙ unchanged)
              | inr (t, l, (now, put)) ↦ inr (
                t,
                l,
                (
                  now,
                  kept
                      ∙ (put
                          ∙ ap (λ (x : GatewayDecision). fact g req id x.result now h.store)
                              (sym same)),
                ),
              )
            ])
      ]

  proceed-Stored :
      (w : W) (id : String) (h : Host W Request) (m : Result Refusal ClaimAuthoritySnapshot)
      → admit_request g req w ≡ m
      → Stored w id h (proceed g req id m h)
  unfolding admit_request
  proceed-Stored w id h (err (notified o)) e = inl (notify-Reports g recording_failed req id o h).1
  proceed-Stored w id h (err (recorded o)) e =
      let (s, k) =
        recorded_known (validate g.quote req) (resolve_claim (reading g.claims w) req.claim_id) _ o
          e in
      record_outcome-Stored w id h o s k
  proceed-Stored w id h (ok s) e =
      let p = admit_request-Granted g req w s e in
      judged-Stored w id (record h { world = (g.policy req h.world).0 })
        (normalize g.quote (g.policy req h.world).1) s p.known

  -- One call of invoke adds at most one fact to the store, that of the decision it returns, and none for a
  -- claim that the reader does not know.
  pub invoke-Stored :
      (h : Host W Request) → let (w, id) = g.ids h.world in Stored w id h (invoke g req h)
  unfolding invoke
  invoke-Stored h =
      let (w, id) = g.ids h.world in
      proceed-Stored w id (record h { world = w }) (admit_request g req w) refl

  -- No provider call was added; or the gateway's identity service verified the token, for this gateway, as a
  -- worker of the very claim that the request names, the claim runs and its backend identity is that worker, and the
  -- call is one that `invoke` makes.
  abbrev pub Authenticated : Bytes → Host W Request → Reply W Request → Type 0
  Authenticated token h r =
      (r.host.dispatched ≡ h.dispatched)
      ⊎ ((verify : W → Bytes → String → Result String Identity) × (verified : Identity)
          × (g.identity ≡ some verify)
          × (verify h.world token "tool-gateway" ≡ ok verified)
          × (req.claim_id ≡ verified.claim_id)
          × RunsOn (reading g.claims h.world) verified
          × Governed g req (g.ids h.world).0 (g.ids h.world).1 h r)

  verified_by-some :
      (o : Option (W → Bytes → String → Result String Identity)) (w : W) (token : Bytes)
      (i : Identity)
      → verified_by g o w token ≡ ok i
      → (verify : W → Bytes → String → Result String Identity) × (o ≡ some verify)
        × (verify w token "tool-gateway" ≡ ok i)
  verified_by-some none w token i h = cc h
  verified_by-some (some verify) w token i h = (verify, refl, h)

  act_as-Authenticated :
      (token : Bytes) (h : Host W Request) (m : Result String Identity)
      → verified_by g g.identity h.world token ≡ m
      → Authenticated token h (act_as g req m h)
  act_as-Authenticated token h (err e) v = inl refl
  act_as-Authenticated token h (ok i) v =
      let held = holds_claim (read_claim (reading g.claims h.world) i.claim_id) i in
      elim (Bool-cases held) [
        | inr n ↦ rw n (inl refl)
        | inl y ↦ elim (Bool-cases (req.claim_id == i.claim_id)) [
          | inr n ↦
              let o =
                denial "workload-identity-invalid"
                  "target claim differs from verified worker claim" in
              let (k, id) = next_id g h in
              rw (y, n)
                (inl
                  (record_decision-Reports g recording_failed (mismatched g req i)
                    (fact g (mismatched g req i) id o.result) id o k).0.dispatched)
          | inl e ↦
              let (verify, service, checked) = verified_by-some g.identity h.world token i v in
              rw (y, e)
                (inr (
                  verify,
                  i,
                  service,
                  checked,
                  (==_iff req.claim_id i.claim_id).0 e,
                  holds_claim-RunsOn (reading g.claims h.world) i y,
                  invoke-Governed g req h,
                ))
        ]
      ]

  -- An authenticated call makes a provider call only with a token that the gateway's identity service verifies for
  -- the audience "tool-gateway", when the request names the verified claim, and the reader has that claim running with a
  -- backend identity whose worker is the verified one; then it is a call that invoke makes. A gateway that requires identity makes none without a token.
  pub invoke_authenticated-Authenticated :
      (token : Bytes) (h : Host W Request)
      → Authenticated token h (invoke_authenticated g req token h)
        × (g.require_identity ≡ true
            → (invoke_unauthenticated g req h).host.dispatched ≡ h.dispatched)
  unfolding invoke_authenticated invoke_unauthenticated
  invoke_authenticated-Authenticated token h =
      (act_as-Authenticated token h (verified_by g g.identity h.world token) refl, λ e. rw e refl)
