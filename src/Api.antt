-- ===== src/Api.antt =====
-- backend/suas/api: the rate limiters, the routes that plan, acknowledge and replan missions, the locks
-- of their threads, and who wrote a report.
pub mod RateLimit
pub mod Plans
pub mod Replans
pub mod ReportSource
pub mod Provenance
pub mod Security
pub mod ThreadLocks
