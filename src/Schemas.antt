-- ===== src/Schemas.antt =====
-- backend/suas/schemas: the data that the components exchange.
pub mod Provenance
pub mod Domain
pub mod Assessment
pub mod Responses
pub mod Requests
pub mod Alerts
pub mod Telemetry
