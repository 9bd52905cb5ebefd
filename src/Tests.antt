-- ===== src/Tests.antt =====
-- Tests on concrete inputs, and the theorems applied to them.
pub mod Runs
pub mod Leaves
pub mod Graphs
pub mod Gates
pub mod Spending
pub mod Policies
pub mod Schedules
pub mod Composites
pub mod Paths
pub mod Slots
pub mod Locks
pub mod Breakers
