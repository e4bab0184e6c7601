-- ===== src/Run.antt =====
-- internal/app/run_service.go: the lifecycle of an issued claim, and the rule that gateways apply to it.
pub mod Eligibility
pub mod Backend
pub mod Service
pub mod Teardown
pub mod Stages
pub mod Context
pub mod Phases
pub mod Active
pub mod Ending
pub mod Owners
pub mod Reader
