-- ===== src/Calculations.antt =====
-- backend/suas/calculations: the deterministic calculator.
pub mod Battery
pub mod Physics
pub mod Gate
pub mod Assessment
pub mod Replan
