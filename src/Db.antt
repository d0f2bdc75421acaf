-- ===== src/Db.antt =====
-- backend/suas/db: the tables that the application owns.
pub mod Retention
