-- ===== src/Gateway/Governed.antt =====
-- When the tool gateway calls the adapter, and what it stores (internal/toolgateway/gateway.go).
pub mod Shared
pub mod Workers
pub mod ToolCalls
pub mod ToolFacts
pub mod ModelCalls
pub mod ModelCallers
pub mod AfterRun
