-- ===== src/Services.antt =====
-- backend/suas/services: the weather provider and the report service.
pub mod Weather
pub mod Report
