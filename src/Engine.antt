-- ===== src/Engine.antt =====
-- engine/: the graph of steps, the gates, the attempts of a leaf, the end of a run
pub mod Graph
pub mod Approval
pub mod Leaf
pub mod Settle
pub mod Verdict
pub mod Scheduler
pub mod Body
pub mod Loop
pub mod Each
pub mod Paths
pub mod FailurePolicy
pub mod Caps
