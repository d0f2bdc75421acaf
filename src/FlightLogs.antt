-- ===== src/FlightLogs.antt =====
-- backend/suas: recorded telemetry, from an uploaded file to the figures of an airframe.
pub mod Samples
pub mod Estimate
pub mod Import
pub mod Store
