-- ===== src/Engine/Graph.antt =====
-- engine/graph.py: a sibling list as a graph, and the `join` decision
pub mod Join
pub mod Acyclic
pub mod Build
