-- ===== src/Graph.antt =====
-- src/engine/graph_builder.py, in parts.
pub mod Nodes
pub mod Reachability
pub mod Markers
pub mod Shape
pub mod Branches
pub mod Routers
pub mod Build
mod Tests
