-- ===== src/Lib.antt =====
-- Agenova's control plane: who may run an agent, with what authority, and what is recorded of it.
--
-- An operator loads policy bundles (internal/policy). A request for work passes the authorization gate
-- (internal/authorization), which evaluates the current bundle and runs its continuation only on an
-- Allow. The continuation resolves the requested access against the template's ceiling and the policy's
-- caps (internal/authority), takes a sandbox from a pool (internal/sandbox), and has the resolution
-- issued as the state of one Pending claim (internal/issuance). The run service (internal/app) takes the
-- claim through its phases on a backend's worker. The worker holds a token (internal/workloadidentity) with
-- which it calls tools and models through the gateways (internal/toolgateway, internal/modelgateway); these
-- read the claim from the run service, and its parent's from the lineage (internal/governance). What a worker
-- does is appended to a journal of facts (internal/facts), which checks each fact against the earlier ones
-- before a durable store accepts it.
--
-- The files, by the part they model:
-- - Sandbox (internal/sandbox/pool.go): the pool as a record, one function per method of WarmPool; an
--   error is returned beside the unchanged pool. Sandbox/Steps has the step relation.
-- - Facts (internal/facts/journal.go, model_budget.go): the journal as a record of maps and the list of
--   facts. Facts/Registration has RegisterRequest and BindClaim, Facts/Checks and Facts/Advance the checks of
--   `append` in its order, Facts/Append the methods that append, Facts/Reserve ReserveModelCall. The mutex makes
--   each method one step; Facts/Reach is the relation of the journals that steps can make. The durable
--   commit is a parameter: a function on the store's state that may fail.
-- - Policy (internal/policy/evaluator.go, bundle.go): bundles, the loader, the reference evaluator and the
--   validations. The size of an evaluation's JSON is a parameter.
-- - Authorization (internal/authorization/authorization.go): Authorizer.Evaluate and Gate.Admit. SHA-256 is
--   a parameter; the continuation is any function on a state.
-- - Authority (internal/authority/resolver.go): Resolve and its intersections. Authority/Resolution
--   (resolution.go) has ResolveForIssuance, ChangesFor and AuthorityFor; the digest of a request and the
--   printing of a duration are parameters.
-- - Issuance (internal/issuance/issuance.go): Issue. The JSON encodings and SHA-256 are parameters.
-- - WorkloadIdentity (internal/workloadidentity/token.go): Issue, Verify and Revoke over base64, JSON and HMAC as
--   parameters, with what the round trip needs of them as the record IsLossless.
-- - Governance (internal/governance/lineage.go): the two maps of a lineage.
-- - Run (internal/app/run_service.go, internal/runtime/backend.go): Run/Eligibility has RequireRunningClaim,
--   Run/Service the state of RunService and the methods that change it, Run/Teardown finish, revokeNetwork and
--   teardown, and Run/Stages and Run/Context the stages of RunContext as functions that call one another where
--   the code goes on; Run/Reader is what the gateways read. The backend, the event sink, the clock, the context
--   and the work (its start, the select on it and its end) are functions on a world `W`, the record Ports, and none
--   of them is nil. An error keeps its kind and the text of
--   its port; the names and values printed in a message are left out. An execution keeps the calls made so far.
-- - Gateway (internal/gateway, internal/toolgateway, internal/modelgateway): Gateway/Ports has the steps that both
--   gateways share, Gateway/Options NewGateway of the tool gateway, and Gateway/Tool and Gateway/Model the rest of them.
--   A host keeps the provider calls made so far.
--   Facts/Store (internal/facts/store.go) is the store that they write to.
-- - Api (api/v1alpha1): the contracts' types and the validations of requests, templates, access guides and
--   issued states.
-- - Prelude: names passed on from the libraries, Go's maps, results, texts and integers.
-- - Examples: the theorems at concrete inputs, and tests by evaluation.
--
-- Conventions. A method that changes state takes it and returns it. A clone of a value is the value, since
-- values do not alias; a nil slice and an empty one are both the empty list, so Load's reflect.DeepEqual
-- and JSON differences between the two are not modelled. A string is a list of Unicode characters and its
-- length is in bytes of UTF-8, so invalid UTF-8 does not arise. Go's int and time.Duration are integers
-- that the program compares and, for deadlines, adds to a time; the journal's sequence is 64-bit and wraps.
-- All loops are structural recursions over lists, but for two on fuel. The printing of numbers has the number
-- plus one, and each round divides by ten. The loop of observations of a run has any fuel; more than the
-- deadline is enough where the clock is monotonic and a wait moves it on. strings.ToLower is exact where the
-- result is ASCII. A Go map that is only read is the list of its entries in the order of their keys.
--
-- Not modelled: the YAML and JSON parsers; State and ObserveState of the run service; what is done for a nil
-- service, context, work or store; NewGateway of the model gateway and its option for the call budget, which is a field of
-- the model; and the adapters, servers, stores and clients, which are input and output. ReserveModelCall takes a mutex
-- of its own besides the journal's, and is one step here.
-- Two runs of different claims are not interleaved: the execution lock serializes them.
pub mod Prelude
pub mod Sandbox
pub mod Api
pub mod Facts
pub mod Policy
pub mod Issuance
pub mod WorkloadIdentity
pub mod Governance
pub mod Run
pub mod Gateway
pub mod Authorization
pub mod Authority
pub mod Examples
