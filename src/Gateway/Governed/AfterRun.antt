-- ===== src/Gateway/Governed/AfterRun.antt =====
-- The gateways over the run service: a claim that has ended calls nothing (internal/toolgateway/gateway.go,
-- internal/modelgateway/gateway.go and internal/app/run_service.go).
use agenova.Prelude.{
  String, true, Option, none, some, ok, string_eq, ◌≡◌, ◌≢◌, inl, inr, sym, ap, ◌∙◌, subst,
  ok_injective,
}
use agenova.Api.{SandboxClaim}
use agenova.Api.Issued.{IssuedState}
use agenova.Run.Eligibility.{ClaimAuthoritySnapshot}
use agenova.Run.Service.{RunService, running}
use agenova.Run.Reader.{claim_or_zero, snapshot_of, claim_authority, reader_of}
use agenova.Run.Phases.{IsAt}
use agenova.Run.Ending.Torn.{terminal}
use agenova.Gateway.Ports.{Gateway, Host, reading, known, resolve_claim}
use agenova.Gateway.Tool
use agenova.Gateway.Model
use agenova.Gateway.Governed.ToolCalls
use agenova.Gateway.Governed.ModelCalls

known-ok :
    (id : String) (o : Option ClaimAuthoritySnapshot) (s : ClaimAuthoritySnapshot)
    → known id o ≡ ok s
    → o ≡ some s
known-ok id none s h = cc h
known-ok id (some x) s h = ap some (ok_injective h)

abbrev claim_part : Option ClaimAuthoritySnapshot → Option SandboxClaim
claim_part none = none
claim_part (some s) = some s.claim

some_same : {A : Type 0} {a b : A} → ◌≡◌ {A = Option A} (some a) (some b) → a ≡ b
some_same h = cc h

snapshot_claim :
    (o : Option IssuedState) (state : IssuedState) (c : SandboxClaim) (s : ClaimAuthoritySnapshot)
    → o ≡ some state
    → state.claim ≡ some c
    → snapshot_of o ≡ some s
    → s.claim ≡ c
snapshot_claim none state c s e k h = cc e
snapshot_claim (some x) state c s e k h =
    let same : x ≡ state = some_same e in
    let shown : claim_or_zero x.claim ≡ s.claim = some_same (ap claim_part h) in
    sym shown ∙ (ap (λ (x : IssuedState). claim_or_zero x.claim) same ∙ ap claim_or_zero k)

ended-running : (phase : String) → terminal phase ≡ true → phase ≢ running
ended-running phase t e = cc (ap terminal (sym e), t)

-- What the reader of a service shows of a claim that has ended does not run.
not_running :
    (s : RunService) (claim_id phase : String) (snapshot : ClaimAuthoritySnapshot)
    → terminal phase ≡ true
    → IsAt claim_id phase s
    → resolve_claim (some (reader_of s)) claim_id ≡ ok snapshot
    → snapshot.claim.phase ≢ running
unfolding reader_of claim_authority
not_running s claim_id phase snapshot t k h e =
    let shown = known-ok claim_id (snapshot_of (s.state claim_id)) snapshot h in
    let same =
      snapshot_claim (s.state claim_id) k.state k.claim snapshot k.stored k.claimed shown in
    ended-running phase t (sym k.at ∙ (ap (λ (c : SandboxClaim). c.phase) (sym same) ∙ e))

-- Once the run service holds a claim in a phase that ended, no call of a tool or model gateway that reads it,
-- for that claim, reaches a provider.
pub ended-dispatched :
    {W : Type 0} (s : RunService) (phase : String) (g : Gateway W agenova.Gateway.Tool.Request)
    (req : agenova.Gateway.Tool.Request) (h : Host W agenova.Gateway.Tool.Request)
    (m : agenova.Gateway.Model.ModelGateway W) (ask : agenova.Gateway.Model.Request)
    (k : Host W agenova.Gateway.Model.Request)
    → terminal phase ≡ true
    → IsAt req.claim_id phase s
    → ask.claim_id ≡ req.claim_id
    → reading g.claims (g.ids h.world).0 ≡ some (reader_of s)
    → reading m.base.claims (m.base.ids k.world).0 ≡ some (reader_of s)
    → ((agenova.Gateway.Tool.invoke g req h).host.dispatched ≡ h.dispatched)
      × ((agenova.Gateway.Model.invoke m ask k).host.dispatched ≡ k.dispatched)
ended-dispatched s phase g req h m ask k t at same reads asks = (
  elim (agenova.Gateway.Governed.ToolCalls.invoke-Governed g req h) [
    | inl none_made ↦ none_made
    | inr found ↦
        let snapshot = found.0 in
        let p = found.1 in
        absurd (
          not_running s req.claim_id phase snapshot t at
            (ap (λ r. resolve_claim r req.claim_id) (sym reads) ∙ p.known) p.active.running.phase)
  ],
  elim (agenova.Gateway.Governed.ModelCalls.invoke-Reserved m ask k) [
    | inl none_made ↦ none_made
    | inr found ↦
        let snapshot = found.0 in
        let p = found.1 in
        absurd (
          not_running s ask.claim_id phase snapshot t (subst (λ id. IsAt id phase s) (sym same) at)
            (ap (λ r. resolve_claim r ask.claim_id) (sym asks) ∙ p.known) p.active.running.phase)
  ],
)
