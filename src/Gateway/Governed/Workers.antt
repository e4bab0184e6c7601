-- ===== src/Gateway/Governed/Workers.antt =====
-- The worker for which an authenticated call acts (InvokeAuthenticated of internal/toolgateway/gateway.go and
-- internal/modelgateway/gateway.go).
use agenova.Prelude.{
  String, Bool, true, false, Option, none, some, Result, ok, err, string_eq, if◌then◌else◌, ◌≡◌,
  refl, ==_iff,
}
use agenova.Api.{BackendIdentity}
use agenova.WorkloadIdentity.{Identity}
use agenova.Run.Service.{running}
use agenova.Run.Eligibility.{
  ClaimAuthorityReader, ClaimAuthoritySnapshot, Ineligible,
  require_running_claim_snapshot-IsRunning,
}
use agenova.Gateway.Tool.{same_worker, is_accepted, holds_claim, read_claim}

-- The reader has a claim of the verified name that runs, and its backend identity is the verified worker.
pub record RunsOn (reader : Option ClaimAuthorityReader) (verified : Identity) : Type 0 where
  pub source : ClaimAuthorityReader
  pub snapshot : ClaimAuthoritySnapshot
  pub backend : BackendIdentity
  pub reads : reader ≡ some source
  pub read : source.claim_authority verified.claim_id ≡ some snapshot
  pub named : snapshot.claim.id ≡ verified.claim_id
  pub phase : snapshot.claim.phase ≡ running
  pub bound_to : snapshot.claim.backend_identity ≡ some backend
  pub worker : backend.worker_id ≡ verified.worker_id

read_claim-some :
    (reader : Option ClaimAuthorityReader) (claim_id : String) (s : ClaimAuthoritySnapshot)
    → read_claim reader claim_id ≡ some s
    → (source : ClaimAuthorityReader) × (reader ≡ some source)
      × (source.claim_authority claim_id ≡ some s)
read_claim-some none claim_id s h = cc h
read_claim-some (some source) claim_id s h = (source, refl, h)

same_worker-some :
    (o : Option BackendIdentity) (worker_id : String)
    → same_worker o worker_id ≡ true
    → (b : BackendIdentity) × (o ≡ some b) × (b.worker_id ≡ worker_id)
same_worker-some none worker_id h = cc h
same_worker-some (some b) worker_id h = (b, refl, (==_iff b.worker_id worker_id).0 h)

accepted-ok : (r : Result Ineligible (Unit {0})) → is_accepted r ≡ true → r ≡ ok tt
accepted-ok (ok u) h = refl
accepted-ok (err e) h = cc h

both_hold : (a b : Bool) → (if a then b else false) ≡ true → (a ≡ true) × (b ≡ true)
both_hold true b h = (refl, h)
both_hold false b h = cc h

found-RunsOn :
    (reader : Option ClaimAuthorityReader) (verified : Identity) (o : Option ClaimAuthoritySnapshot)
    → read_claim reader verified.claim_id ≡ o
    → holds_claim o verified ≡ true
    → RunsOn reader verified
unfolding holds_claim
found-RunsOn reader verified none e h = cc h
found-RunsOn reader verified (some s) e h =
    let (source, reads, read) = read_claim-some reader verified.claim_id s e in
    let (w, a) = both_hold (same_worker s.claim.backend_identity verified.worker_id) _ h in
    let (b, bound_to, worker) = same_worker-some s.claim.backend_identity verified.worker_id w in
    let r = require_running_claim_snapshot-IsRunning s.claim verified.claim_id (accepted-ok _ a) in
    record {
      source = source;
      snapshot = s;
      backend = b;
      reads = reads;
      read = read;
      named = r.named;
      phase = r.phase;
      bound_to = bound_to;
      worker = worker;
    }

pub holds_claim-RunsOn :
    (reader : Option ClaimAuthorityReader) (verified : Identity)
    → holds_claim (read_claim reader verified.claim_id) verified ≡ true
    → RunsOn reader verified
holds_claim-RunsOn reader verified h = found-RunsOn reader verified _ refl h
