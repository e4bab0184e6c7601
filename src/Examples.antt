-- ===== src/Examples.antt =====
-- The theorems at concrete inputs, and tests of the definitions by evaluation.
mod SandboxCases
mod FactsCases
mod PolicyCases
mod IssuanceCases
mod IdentityCases
mod GatewayCases
mod RunCases
mod EndedCases
