-- ===== src/Gateway/Model.antt =====
-- internal/modelgateway/gateway.go: Invoke, InvokeAuthenticated and what they call. A copy of a map is the map.
use Prim.Native.String.{◌++◌}
use agenova.Prelude.{
  ℕ, String, Bool, true, false, not, ◌||◌, List, Option, none, some, Result, ok, err, ◌>>=◌, ◌>>◌,
  refuse_if, ◌==◌, ◌!=◌, string_eq, if◌then◌else◌,
}
use agenova.Prelude.Int.{pos, ltb_ℤ}
use agenova.Prelude.Texts.{is_blank}
use agenova.Api.{allow}
use agenova.Api.Credentials.{find_reserved_credential_field_name}
use agenova.Facts.Store.{Store, record_model_invocation}
use agenova.WorkloadIdentity.{Bytes, Identity}
use agenova.Run.Eligibility.{ClaimAuthoritySnapshot}
use agenova.Gateway.Decisions.{GatewayDecision, Outcome, denial, normalize, decision}
use agenova.Gateway.Ports.{
  Gateway, Host, Reply, Refusal, notified, recorded, notified_if, recorded_if, reading,
  resolve_claim, claim_baseline, next_id, notify, record_decision, dispatch,
}
use agenova.Gateway.Tool.{credential_check, holds_claim, read_claim}

pub record Request : Type 0 where
  pub claim_id : String
  pub profile : String
  pub parameters : List (String × String)
  pub caller_reference : String

-- The gateway, and the reservation of its call budget.
pub record ModelGateway (W : Type 0) : Type 0 where
  pub base : Gateway W Request
  pub reserve_budget :
      Option (Request → ClaimAuthoritySnapshot → String → W → W × Result String Bool)

unfoldable pub validate : (quote : String → String) → Request → Result Outcome (Unit {0})
unfolding is_blank find_reserved_credential_field_name
validate quote req = do
  refuse_if (is_blank req.claim_id)
      (denial "missing-claim-identity" "request carries no claim identity")
  refuse_if (is_blank req.profile)
      (denial "incomplete-operation" "model request must identify the approved profile")
  credential_check quote (find_reserved_credential_field_name req.parameters)

unfoldable pub enforce_authority :
    (quote : String → String) → Request → ClaimAuthoritySnapshot → Result Outcome (Unit {0})
enforce_authority quote req snapshot = do
  let authority = snapshot.effective_authority
  refuse_if (authority.id == "" || authority.id != snapshot.claim.authority_ref) (
      denial "authority-unavailable"
        ("claim " ++ quote req.claim_id ++ " has no matching system-issued effective authority"))
  refuse_if (authority.model_profile != req.profile) (
      denial "model-profile-not-granted" (
        "model profile " ++ quote req.profile ++ " is not granted to claim " ++ quote req.claim_id))

abbrev pub recording_failed : String → String
recording_failed e = "model decision recording failed"

abbrev pub adapter_failed : String → String → String
adapter_failed id e = "model adapter invocation " ++ id ++ ": " ++ e

-- The zero Decision.
abbrev pub no_decision : GatewayDecision
no_decision = record { invocation_id = ""; result = ""; category = ""; reason = "" }

abbrev pub limit_denial : Outcome
limit_denial = denial "model-call-limit" "This Work has exhausted its model-call budget."

abbrev pub unavailable_denial : Outcome
unavailable_denial =
    denial "model-budget-unavailable" "Trusted model-call accounting is unavailable."

module _ {W : Type 0} (m : ModelGateway W) where
  -- The fact that `record` writes.
  abbrev pub fact : Request → String → String → ℕ → Store → Store
  fact req id result now store =
      record_model_invocation now req.claim_id req.profile id result store

  -- The checks of invoke, in order, up to the policy.
  unfoldable pub admit_request : Request → W → Result Refusal ClaimAuthoritySnapshot
  unfolding validate enforce_authority claim_baseline
  admit_request req w = do
    notified_if (validate m.base.quote req)
    snapshot ← notified_if (resolve_claim (reading m.base.claims w) req.claim_id)
    recorded_if (claim_baseline m.base w req.claim_id snapshot.claim)
    recorded_if (enforce_authority m.base.quote req snapshot)
    ok snapshot

  abbrev pub record_outcome : Request → String → Outcome → Host W Request → Reply W Request
  record_outcome req id outcome h =
      record_decision m.base recording_failed (fact req id outcome.result) req id outcome h

  abbrev pub granted : Request → String → Outcome → Host W Request → Reply W Request
  granted req id outcome h =
      dispatch m.base (adapter_failed id) req id (record_outcome req id outcome h)

  abbrev pub reserved :
      Request → String → Outcome → Result String Bool → Host W Request → Reply W Request
  reserved req id outcome (err e) h = record {
    decision = no_decision;
    error = some "model budget reservation unavailable";
    host = h;
  }
  reserved req id outcome (ok false) h = record_outcome req id limit_denial h
  reserved req id outcome (ok true) h = granted req id outcome h

  -- The reservation of the budget, and what follows.
  abbrev pub budgeted :
      Option (Request → ClaimAuthoritySnapshot → String → W → W × Result String Bool)
      → Request
      → String
      → Outcome
      → ClaimAuthoritySnapshot
      → Host W Request
      → Reply W Request
  budgeted none req id outcome snapshot h =
      if ltb_ℤ (pos 0) snapshot.effective_authority.runtime.max_model_calls
      then record_outcome req id unavailable_denial h
      else granted req id outcome h
  budgeted (some reserve) req id outcome snapshot h =
      let (w, r) = reserve req snapshot id h.world in
      reserved req id outcome r (record h { world = w })

  abbrev pub judged :
      Request → String → Outcome → ClaimAuthoritySnapshot → Host W Request → Reply W Request
  judged req id outcome snapshot h =
      let spent = budgeted m.reserve_budget req id outcome snapshot h in
      if outcome.result != allow then record_outcome req id outcome h else spent

  -- The policy is asked once the checks have passed.
  abbrev pub proceed :
      Request → String → Result Refusal ClaimAuthoritySnapshot → Host W Request → Reply W Request
  proceed req id (err (notified outcome)) h = notify m.base recording_failed req id outcome h
  proceed req id (err (recorded outcome)) h = record_outcome req id outcome h
  proceed req id (ok snapshot) h =
      let (w, outcome) = m.base.policy req h.world in
      judged req id (normalize m.base.quote outcome) snapshot (record h { world = w })

  -- invoke, on a gateway that is not nil.
  unfoldable pub invoke : Request → Host W Request → Reply W Request
  unfolding admit_request notify record_decision dispatch normalize
  invoke req h = let (h', id) = next_id m.base h in proceed req id (admit_request req h'.world) h'

  abbrev pub identity_denial : String → Host W Request → Reply W Request
  identity_denial reason h =
      let (h', id) = next_id m.base h in
      record {
        decision = decision id (denial "workload-identity-invalid" reason);
        error = none;
        host = h';
      }

  -- Invoke
  unfoldable pub invoke_unauthenticated : Request → Host W Request → Reply W Request
  unfolding invoke
  invoke_unauthenticated req h =
      if m.base.require_identity
      then identity_denial "verified workload identity is required" h
      else invoke req h

  abbrev pub verified_by :
      Option (W → Bytes → String → Result String Identity) → W → Bytes → Result String Identity
  verified_by none w token = err "no identity service"
  verified_by (some verify) w token = verify w token "model-gateway"

  abbrev pub mismatched : Request → Identity → Request
  mismatched req verified = record {
    claim_id = verified.claim_id;
    profile = req.profile;
    parameters = List.[];
    caller_reference = "";
  }

  abbrev pub act_as : Request → Result String Identity → Host W Request → Reply W Request
  act_as req (err e) h = identity_denial "workload identity rejected" h
  act_as req (ok verified) h =
      let (h', id) = next_id m.base h in
      if not (holds_claim (read_claim (reading m.base.claims h.world) verified.claim_id) verified)
      then identity_denial "workload identity rejected" h
      else if req.claim_id != verified.claim_id
      then record_outcome (mismatched req verified) id
          (denial "workload-identity-invalid" "target claim differs from verified worker claim") h'
      else invoke req h

  -- InvokeAuthenticated
  unfoldable pub invoke_authenticated : Request → Bytes → Host W Request → Reply W Request
  unfolding invoke record_decision holds_claim
  invoke_authenticated req token h = act_as req (verified_by m.base.identity h.world token) h
