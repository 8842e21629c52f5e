-- ===== src/Causal.antt =====
-- engine/causal/graph.py: the graph of causes and effects.
pub mod Graph
pub mod Counts
pub mod Release
pub mod Order
pub mod Built
pub mod Sorted
mod Tests
