-- ===== src/Facts.antt =====
-- internal/facts/journal.go: the facts, the journal's state and its queries.
pub mod Reference
pub mod Checks
pub mod Registration
pub mod Advance
pub mod Append
pub mod Reserve
pub mod Stages
pub mod Reach
pub mod Published
pub mod Gate
pub mod Order
pub mod Correlation
pub mod Budget
pub mod Backends
pub mod Commit
pub mod Store
use agenova.Prelude.{
  ℕ, ◌<◌, String, Bool, List, [], ◌∷◌, Option, none, Map, empty_map, ◌||◌, ◌==◌, string_eq,
  if◌then◌else◌,
}
use agenova.Prelude.Int.{ℤ}
use agenova.Api.{Principal, PolicyReference, EffectiveAuthority, BackendIdentity, Decision}

-- authority.Change
pub record Change : Type 0 where
  pub field : String
  pub requested : String
  pub effective : String
  pub reason_code : String

-- A timestamp is the count of nanoseconds since year 1, so that 0 is Go's zero time.
pub record Fact : Type 0 where
  pub turn : ℤ
  pub action_ref : String
  pub model_call_count : ℤ
  pub model_call_limit : ℤ
  pub action_kind : String
  pub action_tool : String
  pub action_resource : String
  pub content_ref : String
  pub id : String
  pub sequence : ℕ
  pub timestamp : ℕ
  pub kind : String
  pub request_ref : String
  pub claim_id : String
  pub invocation_id : String
  pub decision : Option Decision
  pub result : String
  pub reason_code : String
  pub reason : String
  pub policy_ref : Option PolicyReference
  pub authority : Option EffectiveAuthority
  pub authority_changes : List Change
  pub backend_identity : Option BackendIdentity
  pub operation : String
  pub target : String
  pub provider_status : String
  pub result_ref : String
  pub truncated : Bool

pub record InvocationState : Type 0 where
  pub result : String
  pub attempted : Bool
  pub completed : Bool

-- The zero value of a missing key.
abbrev pub no_state : InvocationState
no_state = record { result = ""; attempted = Bool.false; completed = Bool.false }

-- A set of strings is a map to the unit type. The mutexes make each method one step.
pub record Journal : Type 0 where
  pub start_sequence : ℕ
  pub requests : Map String Principal
  pub claims : Map String String
  pub request_claims : Map String String
  pub invocations : Map String String
  pub invocation_states : Map String InvocationState
  pub authorities : Map String String
  pub backends : Map String BackendIdentity
  pub backend_owners : Map BackendIdentity String
  pub ids : Map String (Unit {0})
  pub facts : List Fact

-- NewDurableJournal; NewJournal is the one that starts at 0.
unfoldable pub new_journal : ℕ → Journal
new_journal last_sequence = record {
  start_sequence = last_sequence;
  requests = empty_map;
  claims = empty_map;
  request_claims = empty_map;
  invocations = empty_map;
  invocation_states = empty_map;
  authorities = empty_map;
  backends = empty_map;
  backend_owners = empty_map;
  ids = empty_map;
  facts = [];
}

-- The facts that pass a test, in order.
abbrev pub select : (Fact → Bool) → List Fact → List Fact
select p [] = []
select p (f ∷ fs) = let rest = select p fs in if p f then f ∷ rest else rest

unfoldable pub for_request : Journal → String → List Fact
for_request j ref = select (λ f. f.request_ref == ref) j.facts

unfoldable pub for_claim : Journal → String → List Fact
for_claim j id = select (λ f. f.claim_id == id) j.facts

unfoldable pub valid_decision : String → Bool
valid_decision v = v == "Allow" || v == "Deny" || v == "ApprovalRequired"
