-- ===== src/Gateway/Ports.antt =====
-- What a gateway is built over, and the steps that both gateways have (internal/toolgateway/gateway.go;
-- internal/modelgateway/gateway.go has the same code). The policy, the observer, the adapter and the
-- source of identities act on a world `W` that is a parameter, as are the clock and strconv.Quote.
use Prim.Native.String.{◌++◌}
use agenova.Prelude.{
  ℕ, String, Bool, List, [], ◌∷◌, ◌++◌ as ◌+++◌, Option, none, some, Result, ok, err, ◌>>◌,
}
use agenova.Api.{SandboxClaim}
use agenova.Facts.Store.{Store}
use agenova.Governance.{Lineage, parent}
use agenova.WorkloadIdentity.{Bytes, Identity}
use agenova.Run.Eligibility.{
  ClaimAuthoritySnapshot, ClaimAuthorityReader, Ineligible, message, require_running_claim_snapshot,
  require_running_claim,
}
use agenova.Gateway.Decisions.{GatewayDecision, Outcome, denial, decision}

-- Gateway; `identity` is the Verify of its workload identity service, `R` the request.
pub record Gateway (W R : Type 0) : Type 0 where
  pub claims : Option (W → ClaimAuthorityReader)
  pub lineage : Option (W → Lineage)
  pub adapter : String → R → W → W × Option String
  pub ids : W → W × String
  pub policy : R → W → W × Outcome
  pub observer : Option (R → GatewayDecision → W → W × Option String)
  pub identity : Option (W → Bytes → String → Result String Identity)
  pub require_identity : Bool
  pub clock : W → ℕ
  pub quote : String → String

-- The world, the store of facts, and the provider calls made so far.
pub record Host (W R : Type 0) : Type 0 where
  pub world : W
  pub store : Store
  pub dispatched : List (String × R)

-- What a call returns: the decision, the error or none, and the host after it.
pub record Reply (W R : Type 0) : Type 0 where
  pub decision : GatewayDecision
  pub error : Option String
  pub host : Host W R

-- An outcome that refuses, and whether it is kept in the store or only reported.
pub data Refusal : Type 0 where
  notified : Outcome → Refusal
  recorded : Outcome → Refusal

abbrev pub notified_if {ℓ} : {A : Type ℓ} → Result Outcome A → Result Refusal A
notified_if (ok a) = ok a
notified_if (err o) = err (notified o)

abbrev pub recorded_if {ℓ} : {A : Type ℓ} → Result Outcome A → Result Refusal A
recorded_if (ok a) = ok a
recorded_if (err o) = err (recorded o)

abbrev pub reading :
    {W : Type 0} → Option (W → ClaimAuthorityReader) → W → Option ClaimAuthorityReader
reading none w = none
reading (some claims) w = some (claims w)

abbrev pub known : String → Option ClaimAuthoritySnapshot → Result Outcome ClaimAuthoritySnapshot
known claim_id none = err (denial "unknown-claim" ("unknown claim: " ++ claim_id))
known claim_id (some snapshot) = ok snapshot

-- resolveClaim
abbrev pub resolve_claim :
    Option ClaimAuthorityReader → String → Result Outcome ClaimAuthoritySnapshot
resolve_claim none claim_id =
    err (denial "gateway-unavailable" "authoritative claim and authority reader is unavailable")
resolve_claim (some reader) claim_id = known claim_id (reader.claim_authority claim_id)

abbrev pub active :
    (quote : String → String) → Result Ineligible (Unit {0}) → Result Outcome (Unit {0})
active quote (ok u) = ok u
active quote (err e) = err (denial "claim-not-active" (message quote e))

abbrev pub within_parent :
    (quote : String → String)
    → String
    → String
    → Result Ineligible (Unit {0})
    → Result Outcome (Unit {0})
within_parent quote claim_id parent_id (ok u) = ok u
within_parent quote claim_id parent_id (err e) = err (
    denial "out-of-parent-scope" (
      "child claim "
      ++ quote claim_id
      ++ " is out of parent scope: parent "
      ++ quote parent_id
      ++ " is not running"))

abbrev pub parent_check :
    (quote : String → String)
    → Option ClaimAuthorityReader
    → String
    → Option String
    → Result Outcome (Unit {0})
parent_check quote reader claim_id none = ok tt
parent_check quote reader claim_id (some parent_id) =
    within_parent quote claim_id parent_id (require_running_claim reader parent_id)

abbrev pub parent_of : {W : Type 0} → Option (W → Lineage) → W → String → Option String
parent_of none w claim_id = none
parent_of (some lineage) w claim_id = parent (lineage w) claim_id

module _ {W R : Type 0} (g : Gateway W R) where
  -- claimBaseline
  unfoldable pub claim_baseline : W → String → SandboxClaim → Result Outcome (Unit {0})
  unfolding require_running_claim_snapshot require_running_claim parent
  claim_baseline w claim_id claim = do
    active g.quote (require_running_claim_snapshot claim claim_id)
    parent_check g.quote (reading g.claims w) claim_id (parent_of g.lineage w claim_id)

  -- The source of identities gives the next one.
  abbrev pub next_id : Host W R → Host W R × String
  next_id h = let (w, id) = g.ids h.world in (record h { world = w }, id)

  abbrev pub observed :
      (String → String)
      → Option (R → GatewayDecision → W → W × Option String)
      → R
      → GatewayDecision
      → Host W R
      → Reply W R
  observed failed none req d h = record { decision = d; error = none; host = h }
  observed failed (some observer) req d h =
      let (w, e) = observer req d h.world in
      record { decision = d; error = recording_error failed e; host = record h { world = w } }
    where
      recording_error : (String → String) → Option String → Option String
      recording_error failed none = none
      recording_error failed (some e) = some (failed e)

  -- notify; `failed` words the error of the observer.
  unfoldable pub notify : (failed : String → String) → R → String → Outcome → Host W R → Reply W R
  notify failed req id outcome h = observed failed g.observer req (decision id outcome) h

  abbrev pub noted : (put : ℕ → Store → Store) → Option String → Reply W R → Reply W R
  noted put (some e) r = r
  noted put none r = record r {
    host = record r.host { store = put (g.clock r.host.world) r.host.store };
  }

  -- record; `put` writes the fact.
  unfoldable pub record_decision :
      (failed : String → String)
      → (put : ℕ → Store → Store) → R
      → String
      → Outcome
      → Host W R
      → Reply W R
  unfolding notify
  record_decision failed put req id outcome h =
      let r = notify failed req id outcome h in noted put r.error r

  abbrev pub invocation_error : (String → String) → Option String → Option String
  invocation_error failed none = none
  invocation_error failed (some e) = some (failed e)

  abbrev pub call_adapter :
      (failed : String → String) → R → String → Option String → Reply W R → Reply W R
  call_adapter failed req id (some e) r = r
  call_adapter failed req id none r =
      let (w, e) = g.adapter id req r.host.world in
      record r {
        error = invocation_error failed e;
        host = record r.host { world = w; dispatched = r.host.dispatched +++ (id, req) ∷ [] };
      }

  -- The end of invoke: the adapter is called, once the decision is recorded.
  unfoldable pub dispatch : (failed : String → String) → R → String → Reply W R → Reply W R
  dispatch failed req id r = call_adapter failed req id r.error r
