-- ===== src/Topology.antt =====
-- engine/topology/graph.py: the dependencies of services.
pub mod Graph
mod Pending
pub mod Calls
pub mod Blast
pub mod Upstream
pub mod Route
mod Tests
