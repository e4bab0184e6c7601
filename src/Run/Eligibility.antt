-- ===== src/Run/Eligibility.antt =====
-- internal/app/run_service.go: ClaimReader, ClaimAuthorityReader, RequireRunningClaim and
-- RequireRunningClaimSnapshot. strconv.Quote (%q) is a parameter.
use Prim.Native.String.{◌++◌}
use agenova.Prelude.{
  String, Bool, true, false, not, ◌||◌, Option, none, some, Result, ok, err, ◌>>◌, refuse_if, ◌==◌,
  ◌!=◌, string_eq, ◌≡◌, ◌≢◌, refl, arith, ==_iff, false_ne, >>=-eq-ok,
}
use agenova.Api.{EffectiveAuthority, SandboxClaim, BackendIdentity}

pub record ClaimAuthoritySnapshot : Type 0 where
  pub claim : SandboxClaim
  pub effective_authority : EffectiveAuthority

pub record ClaimAuthorityReader : Type 0 where
  pub claim : String → Option SandboxClaim
  pub claim_authority : String → Option ClaimAuthoritySnapshot

-- The errors, one constructor for each message.
pub data Ineligible : Type 0 where
  reader_unavailable : Ineligible
  unknown_claim : String → Ineligible
  invalid_snapshot : String → Ineligible
  not_running : (claim_id phase : String) → Ineligible
  invalid_phase : (claim_id phase : String) → Ineligible

-- Error()
abbrev pub message : (quote : String → String) → Ineligible → String
message quote reader_unavailable = "authoritative claim reader is unavailable"
message quote (unknown_claim id) = "unknown claim: " ++ id
message quote (invalid_snapshot id) =
    "claim " ++ quote id ++ " has an invalid authoritative snapshot"
message quote (not_running id phase) =
    "claim " ++ quote id ++ " is not running (phase: " ++ phase ++ ")"
message quote (invalid_phase id phase) =
    "claim " ++ quote id ++ " has an invalid authoritative phase " ++ quote phase

abbrev pub running : String
running = "Running"

abbrev pub stopped_phase : String → Bool
stopped_phase phase =
    phase == "Pending"
    || (phase == "Bound" || (phase == "Succeeded" || (phase == "Failed" || phase == "Expired")))

abbrev pub incomplete : Option BackendIdentity → Bool
incomplete none = true
incomplete (some id) = id.backend == "" || id.worker_id == ""

unfoldable pub require_running_claim_snapshot : SandboxClaim → String → Result Ineligible (Unit {0})
require_running_claim_snapshot claim claim_id = do
  refuse_if
      (claim.id == ""
        || (claim.id != claim_id
            || (claim.request_ref == ""
                || (claim.template_ref == "" || claim.authority_ref == ""))))
      (invalid_snapshot claim_id)
  refuse_if (stopped_phase claim.phase) (not_running claim_id claim.phase)
  refuse_if (claim.phase != running) (invalid_phase claim_id claim.phase)
  refuse_if (incomplete claim.backend_identity) (invalid_snapshot claim_id)

abbrev pub require_read : String → Option SandboxClaim → Result Ineligible (Unit {0})
require_read claim_id none = err (unknown_claim claim_id)
require_read claim_id (some claim) = require_running_claim_snapshot claim claim_id

-- RequireRunningClaim; none is a nil reader.
unfoldable pub require_running_claim :
    Option ClaimAuthorityReader → String → Result Ineligible (Unit {0})
unfolding require_running_claim_snapshot
require_running_claim none claim_id = err reader_unavailable
require_running_claim (some reader) claim_id = require_read claim_id (reader.claim claim_id)

-- A claim that may act: it runs, under its own name, on a known worker.
pub record IsRunning (claim : SandboxClaim) (claim_id : String) : Type 0 where
  pub named : claim.id ≡ claim_id
  pub phase : claim.phase ≡ running
  pub bound :
      (id : BackendIdentity) × (claim.backend_identity ≡ some id)
      × (id.backend ≢ "")
      × (id.worker_id ≢ "")

refused-false :
    {E : Type 0} (b : Bool) (u : E) → ◌≡◌ {A = Result E Unit} (refuse_if b u) (ok tt) → b ≡ false
refused-false true u h = cc h
refused-false false u h = refl

bound_of :
    (o : Option BackendIdentity)
    → incomplete o ≡ false
    → (id : BackendIdentity) × (o ≡ some id) × (id.backend ≢ "") × (id.worker_id ≢ "")
bound_of none h = cc h
bound_of (some id) h =
    let (b, w) = both (id.backend == "") (id.worker_id == "") h in
    (id, refl, false_ne id.backend "" b, false_ne id.worker_id "" w)
  where
    both : (a b : Bool) → (a || b) ≡ false → (a ≡ false) × (b ≡ false)
    both a b h = ground (arith, h)

pub require_running_claim_snapshot-IsRunning :
    (claim : SandboxClaim) (claim_id : String)
    → require_running_claim_snapshot claim claim_id ≡ ok tt
    → IsRunning claim claim_id
unfolding require_running_claim_snapshot
require_running_claim_snapshot-IsRunning claim claim_id h =
    let whole =
      claim.id == ""
      || (claim.id != claim_id
          || (claim.request_ref == ""
              || (claim.template_ref == "" || claim.authority_ref == ""))) in
    let (_, a, h₁) = >>=-eq-ok (refuse_if whole (invalid_snapshot claim_id)) h in
    let (_, _, h₂) =
      >>=-eq-ok (refuse_if (stopped_phase claim.phase) (not_running claim_id claim.phase)) h₁ in
    let (_, r, h₃) =
      >>=-eq-ok (refuse_if (claim.phase != running) (invalid_phase claim_id claim.phase)) h₂ in
    record {
      named =
          (==_iff claim.id claim_id).0
            (middle (claim.id == "") (claim.id == claim_id) _ (refused-false _ _ a));
      phase =
          (==_iff claim.phase running).0 (negated (claim.phase == running) (refused-false _ _ r));
      bound = bound_of claim.backend_identity (refused-false _ _ h₃);
    }
  where
    middle : (a b c : Bool) → (a || (not b || c)) ≡ false → b ≡ true
    middle a b c h = ground (arith, h)

    negated : (a : Bool) → not a ≡ false → a ≡ true
    negated a h = ground (arith, h)
