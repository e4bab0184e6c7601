-- ===== src/Gateway.antt =====
-- internal/gateway, and what internal/toolgateway and internal/modelgateway do alike.
pub mod Decisions
pub mod Ports
pub mod Options
pub mod Reporting
pub mod Tool
pub mod Model
pub mod Governed
