-- ===== src/Run/Ending.antt =====
-- Every run ends its claim and releases what it holds (internal/app/run_service.go).
pub mod Torn
pub mod Staged
pub mod Polled
pub mod Timed
pub mod Settling
pub mod Finished
pub mod Termination
