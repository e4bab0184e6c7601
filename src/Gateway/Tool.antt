-- ===== src/Gateway/Tool.antt =====
-- internal/toolgateway/gateway.go: Invoke, InvokeAuthenticated and what they call. A copy of a map is the map.
use Prim.Native.String.{◌++◌}
use agenova.Prelude.{
  ℕ, String, Bool, true, false, not, ◌||◌, List, Option, none, some, Result, ok, err, ◌>>=◌, ◌>>◌,
  refuse_if, ◌==◌, ◌!=◌, string_eq, contains, if◌then◌else◌,
}
use agenova.Prelude.Texts.{is_blank}
use agenova.Api.{allow, BackendIdentity}
use agenova.Api.Credentials.{find_reserved_credential_field_name}
use agenova.Facts.Store.{Store, record_tool_invocation}
use agenova.WorkloadIdentity.{Bytes, Identity}
use agenova.Run.Eligibility.{
  ClaimAuthoritySnapshot, ClaimAuthorityReader, Ineligible, require_running_claim_snapshot,
}
use agenova.Gateway.Decisions.{Outcome, denial, normalize, ambiguous_resource_scope, decision}
use agenova.Gateway.Ports.{
  Gateway, Host, Reply, Refusal, notified, recorded, notified_if, recorded_if, reading,
  resolve_claim, claim_baseline, next_id, notify, record_decision, dispatch,
}

pub record Request : Type 0 where
  pub claim_id : String
  pub tool : String
  pub action : String
  pub resource_scope : String
  pub parameters : List (String × String)
  pub caller_reference : String

abbrev pub tool_name : Request → String
tool_name req = req.tool ++ "." ++ req.action

abbrev pub credential_check : (quote : String → String) → Option String → Result Outcome (Unit {0})
credential_check quote none = ok tt
credential_check quote (some key) = err (
    denial "secret-value" (
      "parameter "
      ++ quote key
      ++ " is a reserved credential key; credentials stay behind gateway adapters"))

unfoldable pub validate : (quote : String → String) → Request → Result Outcome (Unit {0})
unfolding ambiguous_resource_scope is_blank find_reserved_credential_field_name
validate quote req = do
  refuse_if (is_blank req.claim_id)
      (denial "missing-claim-identity" "request carries no claim identity")
  refuse_if (is_blank req.tool || is_blank req.action)
      (denial "incomplete-operation" "tool request must identify tool and action")
  refuse_if (ambiguous_resource_scope req.resource_scope) (
      denial "ambiguous-resource-scope"
        ("resource scope " ++ quote req.resource_scope ++ " does not name one bounded resource"))
  credential_check quote (find_reserved_credential_field_name req.parameters)

unfoldable pub enforce_authority :
    (quote : String → String) → Request → ClaimAuthoritySnapshot → Result Outcome (Unit {0})
enforce_authority quote req snapshot = do
  let authority = snapshot.effective_authority
  refuse_if (authority.id == "" || authority.id != snapshot.claim.authority_ref) (
      denial "authority-unavailable"
        ("claim " ++ quote req.claim_id ++ " has no matching system-issued effective authority"))
  refuse_if (not (contains authority.tools (tool_name req))) (
      denial "tool-not-granted" (
        "tool operation "
        ++ quote (tool_name req)
        ++ " is not granted to claim "
        ++ quote req.claim_id))
  refuse_if (not (contains authority.resource_scopes req.resource_scope)) (
      denial "resource-scope-not-granted" (
        "resource scope "
        ++ quote req.resource_scope
        ++ " is not granted to claim "
        ++ quote req.claim_id))

abbrev pub recording_failed : String → String
recording_failed e = "tool decision recording failed: " ++ e

abbrev pub adapter_failed : String → String → String
adapter_failed id e = "tool adapter invocation " ++ id ++ ": " ++ e

-- The worker that the snapshot's claim is bound to is the verified one, and the claim runs.
abbrev pub same_worker : Option BackendIdentity → String → Bool
same_worker none worker_id = false
same_worker (some bound) worker_id = bound.worker_id == worker_id

abbrev pub is_accepted : Result Ineligible (Unit {0}) → Bool
is_accepted (ok u) = true
is_accepted (err e) = false

unfoldable pub holds_claim : Option ClaimAuthoritySnapshot → Identity → Bool
unfolding require_running_claim_snapshot
holds_claim none verified = false
holds_claim (some snapshot) verified =
    if same_worker snapshot.claim.backend_identity verified.worker_id
    then is_accepted (require_running_claim_snapshot snapshot.claim verified.claim_id)
    else false

abbrev pub read_claim : Option ClaimAuthorityReader → String → Option ClaimAuthoritySnapshot
read_claim none claim_id = none
read_claim (some reader) claim_id = reader.claim_authority claim_id

module _ {W : Type 0} (g : Gateway W Request) where
  -- The fact that `record` writes.
  abbrev pub fact : Request → String → String → ℕ → Store → Store
  fact req id result now store =
      record_tool_invocation now req.claim_id (tool_name req) id result store

  -- The checks of invoke, in order, up to the policy.
  unfoldable pub admit_request : Request → W → Result Refusal ClaimAuthoritySnapshot
  unfolding validate enforce_authority claim_baseline
  admit_request req w = do
    notified_if (validate g.quote req)
    snapshot ← notified_if (resolve_claim (reading g.claims w) req.claim_id)
    recorded_if (claim_baseline g w req.claim_id snapshot.claim)
    recorded_if (enforce_authority g.quote req snapshot)
    ok snapshot

  abbrev pub record_outcome : Request → String → Outcome → Host W Request → Reply W Request
  record_outcome req id outcome h =
      record_decision g recording_failed (fact req id outcome.result) req id outcome h

  abbrev pub judged : Request → String → Outcome → Host W Request → Reply W Request
  judged req id outcome h =
      let reply = record_outcome req id outcome h in
      if outcome.result != allow then reply else dispatch g (adapter_failed id) req id reply

  -- The policy is asked once the checks have passed.
  abbrev pub proceed :
      Request → String → Result Refusal ClaimAuthoritySnapshot → Host W Request → Reply W Request
  proceed req id (err (notified outcome)) h = notify g recording_failed req id outcome h
  proceed req id (err (recorded outcome)) h = record_outcome req id outcome h
  proceed req id (ok snapshot) h =
      let (w, outcome) = g.policy req h.world in
      judged req id (normalize g.quote outcome) (record h { world = w })

  -- invoke, on a gateway that is not nil.
  unfoldable pub invoke : Request → Host W Request → Reply W Request
  unfolding admit_request notify record_decision dispatch normalize
  invoke req h = let (h', id) = next_id g h in proceed req id (admit_request req h'.world) h'

  abbrev pub identity_denial : String → Host W Request → Reply W Request
  identity_denial reason h =
      let (h', id) = next_id g h in
      record {
        decision = decision id (denial "workload-identity-invalid" reason);
        error = none;
        host = h';
      }

  -- Invoke
  unfoldable pub invoke_unauthenticated : Request → Host W Request → Reply W Request
  unfolding invoke
  invoke_unauthenticated req h =
      if g.require_identity
      then identity_denial "verified workload identity is required" h
      else invoke req h

  abbrev pub verified_by :
      Option (W → Bytes → String → Result String Identity) → W → Bytes → Result String Identity
  verified_by none w token = err "no identity service"
  verified_by (some verify) w token = verify w token "tool-gateway"

  abbrev pub mismatched : Request → Identity → Request
  mismatched req verified = record {
    claim_id = verified.claim_id;
    tool = req.tool;
    action = req.action;
    resource_scope = "";
    parameters = List.[];
    caller_reference = "";
  }

  abbrev pub act_as : Request → Result String Identity → Host W Request → Reply W Request
  act_as req (err e) h = identity_denial "workload identity rejected" h
  act_as req (ok verified) h =
      let (h', id) = next_id g h in
      if not (holds_claim (read_claim (reading g.claims h.world) verified.claim_id) verified)
      then identity_denial "workload identity rejected" h
      else if req.claim_id != verified.claim_id
      then record_outcome (mismatched req verified) id
          (denial "workload-identity-invalid" "target claim differs from verified worker claim") h'
      else invoke req h

  -- InvokeAuthenticated
  unfoldable pub invoke_authenticated : Request → Bytes → Host W Request → Reply W Request
  unfolding invoke record_decision holds_claim
  invoke_authenticated req token h = act_as req (verified_by g.identity h.world token) h
