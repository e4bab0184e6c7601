-- ===== src/Facts/Store.antt =====
-- internal/facts/store.go: the in-memory store of governance facts. The mutex makes each method one
-- step; time.Now is an argument.
use agenova.Prelude.{ℕ, String, List, [], ◌∷◌, ◌++◌, ◌==◌, string_eq, if◌then◌else◌}

pub record ToolInvocation : Type 0 where
  pub claim_id : String
  pub tool_name : String
  pub invocation_id : String
  pub result : String
  pub timestamp : ℕ

pub record ModelInvocation : Type 0 where
  pub claim_id : String
  pub model_name : String
  pub invocation_id : String
  pub result : String
  pub timestamp : ℕ

pub record RuntimeEvent : Type 0 where
  pub claim_id : String
  pub kind : String
  pub timestamp : ℕ

pub record Store : Type 0 where
  pub tool_invocations : List ToolInvocation
  pub model_invocations : List ModelInvocation
  pub runtime_events : List RuntimeEvent

unfoldable pub new_store : Store
new_store = record { tool_invocations = []; model_invocations = []; runtime_events = [] }

unfoldable pub record_tool_invocation :
    (now : ℕ) → String → String → String → String → Store → Store
record_tool_invocation now claim_id tool_name invocation_id result s = record s {
  tool_invocations =
      s.tool_invocations
      ++ record {
        claim_id = claim_id;
        tool_name = tool_name;
        invocation_id = invocation_id;
        result = result;
        timestamp = now;
      }
        ∷ [];
}

unfoldable pub record_model_invocation :
    (now : ℕ) → String → String → String → String → Store → Store
record_model_invocation now claim_id model_name invocation_id result s = record s {
  model_invocations =
      s.model_invocations
      ++ record {
        claim_id = claim_id;
        model_name = model_name;
        invocation_id = invocation_id;
        result = result;
        timestamp = now;
      }
        ∷ [];
}

unfoldable pub record_runtime_event : (now : ℕ) → String → String → Store → Store
record_runtime_event now claim_id kind s = record s {
  runtime_events =
      s.runtime_events ++ record { claim_id = claim_id; kind = kind; timestamp = now } ∷ [];
}

-- The loop of the three queries.
abbrev pub of_claim : {A : Type 0} → (A → String) → String → List A → List A
of_claim claim_of claim_id [] = []
of_claim claim_of claim_id (f ∷ fs) =
    let rest = of_claim claim_of claim_id fs in if claim_of f == claim_id then f ∷ rest else rest

unfoldable pub tool_invocations : Store → String → List ToolInvocation
tool_invocations s claim_id =
    of_claim (λ (f : ToolInvocation). f.claim_id) claim_id s.tool_invocations

unfoldable pub model_invocations : Store → String → List ModelInvocation
model_invocations s claim_id =
    of_claim (λ (f : ModelInvocation). f.claim_id) claim_id s.model_invocations

unfoldable pub runtime_events : Store → String → List RuntimeEvent
runtime_events s claim_id = of_claim (λ (f : RuntimeEvent). f.claim_id) claim_id s.runtime_events
