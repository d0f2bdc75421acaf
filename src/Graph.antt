-- ===== src/Graph.antt =====
-- backend/suas/graph: the mission graph, its nodes, the seal on the brief, and
-- the replan graph.
pub mod State
pub mod Seal
pub mod Nodes
pub mod Workflow
pub mod Runs
pub mod Outcome
pub mod Review
pub mod Edits
pub mod Signing
pub mod Restart
pub mod Brief
pub mod Replan
