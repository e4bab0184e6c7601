-- ===== src/Gateway/Governed/ModelCallers.antt =====
-- For whom an authenticated call of the model gateway acts (internal/modelgateway/gateway.go).
use agenova.Prelude.{
  String, true, Option, none, some, Result, ok, err, ◌==◌, string_eq, ◌≡◌, ◌⊎◌, inl, inr, refl,
  Bool-cases, ==_iff,
}
use agenova.WorkloadIdentity.{Bytes, Identity}
use agenova.Gateway.Decisions.{denial}
use agenova.Gateway.Ports.{Host, Reply, reading, next_id}
use agenova.Gateway.Reporting.{record_decision-Reports}
use agenova.Gateway.Tool.{holds_claim, read_claim}
use agenova.Gateway.Model.{
  Request, ModelGateway, recording_failed, fact, invoke_unauthenticated, mismatched, verified_by,
  act_as, invoke_authenticated,
}
use agenova.Gateway.Governed.Workers.{RunsOn, holds_claim-RunsOn}
use agenova.Gateway.Governed.ModelCalls.{Governed, invoke-Reserved}

module _ {W : Type 0} (m : ModelGateway W) (req : Request) where
  -- No provider call was added; or the gateway's identity service verified the token, for this gateway, as a
  -- worker of the very claim that the request names, the claim runs and its backend identity is that worker, and the
  -- call is one that `invoke` makes.
  abbrev pub Authenticated : Bytes → Host W Request → Reply W Request → Type 0
  Authenticated token h r =
      (r.host.dispatched ≡ h.dispatched)
      ⊎ ((verify : W → Bytes → String → Result String Identity) × (verified : Identity)
          × (m.base.identity ≡ some verify)
          × (verify h.world token "model-gateway" ≡ ok verified)
          × (req.claim_id ≡ verified.claim_id)
          × RunsOn (reading m.base.claims h.world) verified
          × Governed m req (m.base.ids h.world).0 (m.base.ids h.world).1 h r)

  verified_by-some :
      (o : Option (W → Bytes → String → Result String Identity)) (w : W) (token : Bytes)
      (i : Identity)
      → verified_by m o w token ≡ ok i
      → (verify : W → Bytes → String → Result String Identity) × (o ≡ some verify)
        × (verify w token "model-gateway" ≡ ok i)
  verified_by-some none w token i h = cc h
  verified_by-some (some verify) w token i h = (verify, refl, h)

  act_as-Authenticated :
      (token : Bytes) (h : Host W Request) (v : Result String Identity)
      → verified_by m m.base.identity h.world token ≡ v
      → Authenticated token h (act_as m req v h)
  act_as-Authenticated token h (err e) v = inl refl
  act_as-Authenticated token h (ok i) v =
      let held = holds_claim (read_claim (reading m.base.claims h.world) i.claim_id) i in
      elim (Bool-cases held) [
        | inr n ↦ rw n (inl refl)
        | inl y ↦ elim (Bool-cases (req.claim_id == i.claim_id)) [
          | inr n ↦
              let o =
                denial "workload-identity-invalid"
                  "target claim differs from verified worker claim" in
              let (k, id) = next_id m.base h in
              rw (y, n)
                (inl
                  (record_decision-Reports m.base recording_failed (mismatched m req i)
                    (fact m (mismatched m req i) id o.result) id o k).0.dispatched)
          | inl e ↦
              let (verify, service, checked) = verified_by-some m.base.identity h.world token i v in
              rw (y, e)
                (inr (
                  verify,
                  i,
                  service,
                  checked,
                  (==_iff req.claim_id i.claim_id).0 e,
                  holds_claim-RunsOn (reading m.base.claims h.world) i y,
                  invoke-Reserved m req h,
                ))
        ]
      ]

  -- An authenticated call makes a provider call only with a token that the gateway's identity service verifies for
  -- the audience "model-gateway", when the request names the verified claim, and the reader has that claim running with a
  -- backend identity whose worker is the verified one; then it is a call that invoke makes. A gateway that requires identity makes none without a token.
  pub invoke_authenticated-Bound :
      (token : Bytes) (h : Host W Request)
      → Authenticated token h (invoke_authenticated m req token h)
        × (m.base.require_identity ≡ true
            → (invoke_unauthenticated m req h).host.dispatched ≡ h.dispatched)
  unfolding invoke_authenticated invoke_unauthenticated
  invoke_authenticated-Bound token h = (
    act_as-Authenticated token h (verified_by m m.base.identity h.world token) refl,
    λ e. rw e refl,
  )
