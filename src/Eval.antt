-- ===== src/Eval.antt =====
-- backend/suas/eval: what the evaluation measures.
pub mod Metrics
pub mod Stats
pub mod Scoring
pub mod Citations
pub mod Harness
