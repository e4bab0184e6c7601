-- ===== src/Run/Ending/Finished.antt =====
-- A run ends, and ends its claim (internal/app/run_service.go, RunContext).
use agenova.Prelude.{String, List, [], some, ok, string_eq, ◌≡◌, ◌≢◌, ◌⊎◌}
use agenova.Api.Issued.{pending, validate_issued_state}
use agenova.Run.Backend.{Ports}
use agenova.Run.Service.{Errors, Call, Execution}
use agenova.Run.Context.{Initial}
use agenova.Run.Phases.{Owners, IsHeldAt}
use agenova.Run.Ending.Settling.{Settled}

-- What a run starts with: a valid state with a Pending claim.
pub record IsReady (i : Initial) : Type 0 where
  pub valid : validate_issued_state (some i.issued) ≡ ok tt
  pub claimed : i.issued.claim ≡ some i.claim
  pub waiting : i.claim.phase ≡ pending

-- The event sink refused the insertion; or the claim has ended, and no worker is held for it.
abbrev pub Concluded : {W : Type 0} → Owners → String → List Call → Execution W × Errors → Type 0
Concluded owners claim_id calls r =
    ((r.1 ≢ []) × (r.0.calls ≡ calls) × IsHeldAt owners claim_id "Pending" r.0.service)
    ⊎ Settled owners claim_id calls r

module _ {W : Type 0} (p : Ports W) (owners : Owners) (i : Initial) (ready : IsReady i) where
  abbrev name : String
  name = i.claim.id
